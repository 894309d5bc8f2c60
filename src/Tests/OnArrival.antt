-- ===== src/Tests/OnArrival.antt =====
-- A registration that src/librpc/svc.c carries out.
use rpc_mt.Common.{◌≡◌, refl, arith, inr, some, get_elem?}
use rpc_mt.Common.Outcome.{ok}
use rpc_mt.Bitvec.{bitvec_init, bitvec_set_bit, wpos, bpos}
use rpc_mt.Registry.{Registry, at, bad, create_xports}
use rpc_mt.Registry.Ids.{xprt_id_alloc, candidate, scan_ids}
use rpc_mt.Registry.Enrol.{xprt_register_with_lock}
use rpc_mt.Registry.Enrol.Valid.{IsValid}
use rpc_mt.Registry.Enrol.Succeeds.{xprt_register_with_lock_total}
use rpc_mt.Tests.OnRegistry.{ready, value, unlisted, ready-IsValid, ready-unlisted}

abbrev given : Registry
given = value ready (xprt_id_alloc ready)

given_lem : xprt_id_alloc ready ≡ ok (0, given)
unfolding ready create_xports bitvec_init xprt_id_alloc candidate scan_ids bitvec_set_bit wpos bpos
given_lem = refl

ready_socket : get_elem? ready.sock_xports 5 ≡ some bad
unfolding ready create_xports
ready_socket = refl

xprt_register_with_lock_total_example :
    (r' : Registry) × (xprt_register_with_lock 66 (at 1) ready ≡ ok (0, r'))
    × IsValid r'
    × (get_elem? r'.xports 0 ≡ some (at 1))
unfolding ready create_xports
xprt_register_with_lock_total_example =
    xprt_register_with_lock_total 66 1 unlisted ready ready-IsValid ready-unlisted refl 0 given
      given_lem refl (omega arith) (inr ready_socket)
