-- ===== src/Tests/OnEnrol.antt =====
-- Runs of registration, removal and the polled array of src/librpc/svc.c.
use rpc_mt.Common.{ℕ, ◌+◌, ◌≡◌, refl, ◌<◌, ◌⊎◌, arith, false, List, [], ◌∷◌, some, get_elem?}
use rpc_mt.Common.Outcome.{ok, fault}
use rpc_mt.Bitvec.{bitvec_init, bitvec_set_bit, bitvec_clr_bit, bitvec_get_bit, wpos, bpos}
use rpc_mt.Registry.{
  Registry, Xprt, PollFd, at, bad, create_xports, xports_init, check_svcxprt_exists,
}
use rpc_mt.Registry.Ids.{xprt_id_alloc, unregister_id, candidate, scan_ids, id_is_valid}
use rpc_mt.Registry.Poll.{init_pollfd, find_slot, init_read_pollfd, pollfd_remove, is_fd}
use rpc_mt.Registry.Poll.Slots.{init_pollfd_cases, polled_in, FirstFree, InUse}
use rpc_mt.Registry.Enrol.{
  ensure_id, place, attach, take_socket, socket_xprt_is_available, xprt_register_with_lock,
  xprt_unregister_with_lock, detach, leave_socket,
}
use rpc_mt.Registry.Enrol.Steps.{polls}
use rpc_mt.Registry.Enrol.Valid.{IsValid}
use rpc_mt.Registry.Enrol.Register.{xprt_register_with_lock-IsValid, xprt_register_with_lock_serves}
use rpc_mt.Registry.Enrol.Leave.{xprt_unregister_with_lock_total, Enrolled}
use rpc_mt.Tests.OnRegistry.{ready, live, live_lem, ready-IsValid, ready-unlisted, unlisted, either}

init_pollfd_cases_example :
    ((s : ℕ) × (s < ready.max_pollfd)
      × FirstFree ready.pollfd 0 s
      × (init_pollfd 5 ready ≡ ok (0, polled_in s ready.max_pollfd 5 ready)))
    ⊎ (((i : ℕ) → i < ready.max_pollfd → InUse ready.pollfd i)
        × (((ready.max_pollfd < ready.pollfd_size)
              × (init_pollfd 5 ready
                  ≡ ok (0, polled_in ready.max_pollfd (ready.max_pollfd + 1) 5 ready)))
            ⊎ ((ready.max_pollfd ≡ ready.pollfd_size) × (init_pollfd 5 ready ≡ fault))))
unfolding ready create_xports
init_pollfd_cases_example = init_pollfd_cases 5 ready refl (omega arith)

abbrev two_polled : List PollFd
two_polled = polls 4 ∷ polls 5 ∷ []

xprt_register_with_lock-IsValid_example : IsValid live
xprt_register_with_lock-IsValid_example =
    xprt_register_with_lock-IsValid 66 1 unlisted ready ready-IsValid ready-unlisted refl 0 live
      live_lem

xprt_register_with_lock_serves_example :
    (id s : ℕ) × ◌≡◌ {A = ℕ} 0 0
    × (id < live.xports_size)
    × (live.heap 1 ≡ some (record unlisted { id = id }))
    × (get_elem? live.xports id ≡ some (at 1))
    × (get_elem? live.sock_xports 5 ≡ some (at 1))
    × (s < live.max_pollfd)
    × (get_elem? live.pollfd s ≡ some (polls 5))
xprt_register_with_lock_serves_example =
    xprt_register_with_lock_serves 66 1 unlisted ready ready-IsValid ready-unlisted refl 0 live refl
      live_lem

abbrev pub listed : Xprt
listed = record unlisted { id = 0 }

abbrev quiet : Registry
unfolding live
quiet = either live (xprt_unregister_with_lock (at 1) live)

quiet_lem : xprt_unregister_with_lock (at 1) live ≡ ok quiet
unfolding live ready create_xports bitvec_init xprt_register_with_lock xports_init ensure_id
    xprt_id_alloc candidate scan_ids bitvec_set_bit wpos bpos place attach take_socket
    socket_xprt_is_available init_pollfd find_slot init_read_pollfd xprt_unregister_with_lock
    check_svcxprt_exists detach leave_socket pollfd_remove unregister_id bitvec_clr_bit id_is_valid
quiet_lem = refl

pub live-IsValid : IsValid live
live-IsValid =
    xprt_register_with_lock-IsValid 66 1 unlisted ready ready-IsValid ready-unlisted refl 0 live
      live_lem

pub live-Enrolled : Enrolled live 1 listed
unfolding live ready create_xports bitvec_init xprt_register_with_lock xports_init ensure_id
    xprt_id_alloc candidate scan_ids bitvec_set_bit bitvec_get_bit wpos bpos place attach
    take_socket socket_xprt_is_available init_pollfd find_slot init_read_pollfd
live-Enrolled = record {
  here = refl;
  whole = refl;
  slot = refl;
  id = omega arith;
  marked = refl;
  sock = omega arith;
}

xprt_unregister_with_lock_total_example :
    (r' : Registry) × (xprt_unregister_with_lock (at 1) live ≡ ok r')
    × IsValid r'
    × (get_elem? r'.xports 0 ≡ some bad)
    × (get_elem? r'.sock_xports 5 ≡ some bad)
    × ((s : ℕ) (p : PollFd)
        → s < r'.max_pollfd
        → get_elem? r'.pollfd s ≡ some p
        → is_fd p.fd 5 ≡ false)
    × (bitvec_get_bit r'.xports_idset 0 ≡ ok false)
    × (r'.heap ≡ live.heap)
xprt_unregister_with_lock_total_example =
    xprt_unregister_with_lock_total live 1 listed live-IsValid live-Enrolled
