-- ===== src/Tests/OnRegistry.antt =====
-- Runs of the transports of src/librpc/svc.c on a registry for 66 descriptors.
use native.Mathlib.Decide.{dec_lt}
use rpc_mt.Common.{
  replicate, get_elem?-replicate, get_elem?-le, length-replicate, ℕ, ◌≡◌, refl, arith, true, false,
  ◌==◌, [], none, some, if◌then◌else◌,
}
use rpc_mt.Common.Outcome.{Outcome, ok, died, fault}
use rpc_mt.Bitvec.{bitvec_init, bitvec_set_bit, wpos, bpos}
use rpc_mt.Registry.{
  Registry, Xprt, at, bad, udp, xprt_idle, no_parent, xprt_id_invalid, create_xports, xports_init,
}
use rpc_mt.Registry.Ids.{xprt_id_alloc, candidate, scan_ids}
use rpc_mt.Registry.Enrol.{
  ensure_id, place, attach, take_socket, socket_xprt_is_available, xprt_register_with_lock,
}
use rpc_mt.Registry.Enrol.Valid.{IsValid}
use rpc_mt.Registry.Poll.{init_pollfd, find_slot, init_read_pollfd}

abbrev pub value : Registry → Outcome (ℕ × Registry) → Registry
value d (ok p) = p.1
value d died = d
value d fault = d

abbrev pub either : Registry → Outcome Registry → Registry
either d (ok r) = r
either d died = d
either d fault = d

-- A transport for socket 5.
abbrev pub unlisted : Xprt
unlisted = record {
  sock = 5;
  port = 111;
  ops = udp;
  id = xprt_id_invalid;
  parent = no_parent;
  refcnt = 0;
  busy = 0;
  progress = 0;
  cloneable = true;
  stat = xprt_idle;
}

-- A clone of the transport with id 0.
abbrev pub child : Xprt
child = record unlisted { parent = 0 }

abbrev pub cold : Registry
cold = record {
  created = false;
  heap = λ a. if a == 1 then some unlisted else if a == 2 then some child else none;
  xports = [];
  sock_xports = [];
  xports_idset = record { vec = []; sz = 0 };
  xprtgc_idset = record { vec = []; sz = 0 };
  xports_size = 0;
  xports_count = 0;
  xports_maxid = 0;
  xports_version = 0;
  mark_count = 0;
  pollfd = [];
  pollfd_size = 0;
  max_pollfd = 0;
  open_fd = λ _. true;
}

unfoldable pub ready : Registry
unfolding create_xports bitvec_init
ready = create_xports 66 cold

unfoldable pub live : Registry
unfolding ready create_xports bitvec_init xprt_register_with_lock xports_init ensure_id
    xprt_id_alloc candidate scan_ids bitvec_set_bit wpos bpos place attach take_socket
    socket_xprt_is_available init_pollfd find_slot init_read_pollfd
live = value ready (xprt_register_with_lock 66 (at 1) ready)

pub live_lem : xprt_register_with_lock 66 (at 1) ready ≡ ok (0, live)
unfolding live ready create_xports bitvec_init xprt_register_with_lock xports_init ensure_id
    xprt_id_alloc candidate scan_ids bitvec_set_bit wpos bpos place attach take_socket
    socket_xprt_is_available init_pollfd find_slot init_read_pollfd
live_lem = refl

pub ready-IsValid : IsValid ready
unfolding ready create_xports bitvec_init
ready-IsValid = record {
  sized = record {
    created = refl;
    size = omega arith;
    xports = refl;
    sock_xports = refl;
    idset = refl;
    pollfd = refl;
    polled = omega arith;
  };
  owned = λ id a e. elim (dec_lt id 66) [
    | yes lt ↦ absurd (ground (arith, e, get_elem?-replicate 66 bad id lt))
    | no ge ↦ absurd (
        ground
          (arith, e, get_elem?-le (replicate 66 bad) id (omega (arith, length-replicate 66 bad))))
  ];
}

pub ready-unlisted : ready.heap 1 ≡ some unlisted
unfolding ready create_xports
ready-unlisted = refl
