-- ===== src/Tests/OnClone.antt =====
-- Runs of registration and removal of a clone of src/librpc/svc.c.
use rpc_mt.Common.{ℕ, ◌≡◌, ◌≢◌, refl, arith, false, some, get_elem?}
use rpc_mt.Common.Outcome.{ok}
use rpc_mt.Bitvec.{bitvec_init, bitvec_set_bit, bitvec_get_bit, wpos, bpos}
use rpc_mt.Registry.{Registry, Xprt, at, bad, create_xports, xports_init}
use rpc_mt.Registry.Ids.{xprt_id_alloc, candidate, scan_ids}
use rpc_mt.Registry.Poll.{init_pollfd, find_slot, init_read_pollfd}
use rpc_mt.Registry.Enrol.{
  ensure_id, place, attach, take_socket, count_parent, socket_xprt_is_available,
  xprt_register_with_lock, xprt_unregister_with_lock,
}
use rpc_mt.Registry.Enrol.Valid.{IsValid}
use rpc_mt.Registry.Enrol.Register.{xprt_register_with_lock-IsValid}
use rpc_mt.Registry.Enrol.Clone.{Cloned, one_less, xprt_unregister_clone_total}
use rpc_mt.Tests.OnRegistry.{ready, live, value, child}
use rpc_mt.Tests.OnEnrol.{listed, live-IsValid}

abbrev family : Registry
family = value live (xprt_register_with_lock 66 (at 2) live)

family_lem : xprt_register_with_lock 66 (at 2) live ≡ ok (0, family)
unfolding live ready create_xports bitvec_init xprt_register_with_lock xports_init ensure_id
    xprt_id_alloc candidate scan_ids bitvec_set_bit bitvec_get_bit wpos bpos place attach
    take_socket socket_xprt_is_available init_pollfd find_slot init_read_pollfd count_parent
family_lem = refl

live-child : live.heap 2 ≡ some child
unfolding live ready create_xports bitvec_init xprt_register_with_lock xports_init ensure_id
    xprt_id_alloc candidate scan_ids bitvec_set_bit bitvec_get_bit wpos bpos place attach
    take_socket socket_xprt_is_available init_pollfd find_slot init_read_pollfd
live-child = refl

family-IsValid : IsValid family
family-IsValid =
    xprt_register_with_lock-IsValid 66 2 child live live-IsValid live-child refl 0 family family_lem

abbrev parent : Xprt
parent = record listed { refcnt = 1 }

family-Cloned : Cloned family 2 (record child { id = 1 }) 1 parent
unfolding live ready create_xports bitvec_init xprt_register_with_lock xports_init ensure_id
    xprt_id_alloc candidate scan_ids bitvec_set_bit bitvec_get_bit wpos bpos place attach
    take_socket socket_xprt_is_available init_pollfd find_slot init_read_pollfd count_parent
family-Cloned = record {
  here = refl;
  child = omega arith;
  slot = refl;
  id = omega arith;
  marked = refl;
  parent = refl;
  up = refl;
}

xprt_unregister_clone_total_example :
    (r' : Registry) × (xprt_unregister_with_lock (at 2) family ≡ ok r')
    × IsValid r'
    × (get_elem? r'.xports 1 ≡ some bad)
    × (bitvec_get_bit r'.xports_idset 1 ≡ ok false)
    × (r'.heap 1 ≡ some (one_less parent))
    × ((c : ℕ) → c ≢ 1 → r'.heap c ≡ family.heap c)
    × (r'.sock_xports ≡ family.sock_xports)
    × (r'.pollfd ≡ family.pollfd)
xprt_unregister_clone_total_example =
    xprt_unregister_clone_total family 2 (record child { id = 1 }) 1 parent family-IsValid
      family-Cloned
