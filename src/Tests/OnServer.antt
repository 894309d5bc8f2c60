-- ===== src/Tests/OnServer.antt =====
-- Runs of the request loop of src/librpc/svc.c and svc_run.c on a server with one transport.
use mathlib.Core.Path.{subst}
use rpc_mt.Common.Outcome as Results
use rpc_mt.Common.{
  ℕ, zero, suc, ◌<◌, ◌≡◌, ◌≢◌, ◌≤◌, refl, arith, false, true, some, List, [], ◌∷◌, ◌++◌, inl, inr,
  take, length, get_elem?,
}
use rpc_mt.Bitvec.{bitvec_get_bit, bitvec_init, bitvec_set_bit, wpos, bpos}
use rpc_mt.Registry.{Xprt, at, PollFd, xprt_idle, create_xports, xports_init}
use rpc_mt.Registry.Ids.{xprt_id_alloc, candidate, scan_ids}
use rpc_mt.Registry.Enrol.{
  ensure_id, place, attach, take_socket, socket_xprt_is_available, xprt_register_with_lock,
}
use rpc_mt.Registry.Poll.{init_pollfd, find_slot, init_read_pollfd}
use rpc_mt.Registry.Gc.{decode_xprt_progress, xprt_progress_setbits}
use rpc_mt.Registry.Active.{collect, fd_alloc_roundup}
use rpc_mt.Registry.Active.Polled.{wanted_all, Pollable, collect_lem}
use rpc_mt.Callout.{match_loop, request_match_prog_version}
use rpc_mt.Server.{
  Server, Env, Run, ok, died, fault, waits, ◌>>=◌, OpaqueAuth, CallMsg, SvcReq, Call,
}
use rpc_mt.Server.Wait.{wait_on_getargs_usleep}
use rpc_mt.Server.Wait.Until.{
  wait_on_getargs_usleep_ends, Traced, Arrived, WorkerIn, after_sleeps, with_xprt, waiting,
  done_waiting,
}
use rpc_mt.Server.Dispatch.{
  Req, verdict, request_lookup, give_answer, request_dispatch, worker_of, dispatch_on,
  wait_for_worker, reap_first, svc_getreq_common,
}
use rpc_mt.Server.Dispatch.Answers.{Answered, request_lookup-Answered}
use rpc_mt.Server.Dispatch.Auth.{svc_getreq_common-ne-ok}
use rpc_mt.Registry.Enrol.Steps.{polls}
use rpc_mt.Server.Poll.{svc_getreq_poll_mt, reap_last}
use rpc_mt.Server.Poll.Serve.{pending, serve_all, svc_getreq_poll_mt_lem}
use rpc_mt.Tests.OnRegistry.{ready, live}
use rpc_mt.Tests.OnEnrol.{listed}

abbrev no_auth : OpaqueAuth
no_auth = record { flavor = 0; len = 0 }

abbrev call : CallMsg
call = record { prog = 100; vers = 2; proc = 1; cred = no_auth }

-- A call with credentials, which the environment below rejects.
abbrev forged : CallMsg
forged = record { prog = 100; vers = 2; proc = 1; cred = record { flavor = 1; len = 8 } }

abbrev blank : SvcReq
blank = record { prog = 0; vers = 0; proc = 0; cred = no_auth; xprt = at 1 }

-- The worker sets XPRT_GETARGS of transport 1 in a sleep of the receiving thread.
abbrev worker : Server → Server
worker s = with_xprt 1 (record listed { progress = 0x110 }) s

abbrev multi : Env
multi = record {
  mtmode = 2;
  wait_method_tcp = 1;
  wait_method_udp = 1;
  recv = λ p s. ok (some forged, s);
  stat = λ p s. ok (some xprt_idle, s);
  reply = λ p r s. ok (true, s);
  clone = λ p s. ok (p, s);
  authenticate = λ q m. (1, no_auth);
  dispatch = λ f q p s. ok s;
  jiffy = worker;
}

abbrev single : Env
single = record {
  mtmode = 0;
  wait_method_tcp = 1;
  wait_method_udp = 1;
  recv = λ p s. ok (some forged, s);
  stat = λ p s. ok (some xprt_idle, s);
  reply = λ p r s. ok (true, s);
  clone = λ p s. ok (p, s);
  authenticate = λ q m. (1, no_auth);
  dispatch = λ f q p s. ok s;
  jiffy = worker;
}

abbrev server : Server
server = record {
  reg = live;
  head = record { prog = 100; vers = 2; dispatch = 7; mapped = true } ∷ [];
  rqst = λ _. blank;
  verf = λ _. no_auth;
  mtready = λ _. true;
  worker_return = 0;
  cnt_request_recv = 0;
  cnt_request_disp = 0;
  log = [];
}

abbrev result : Run (Req × Server) → Req × Server
result (ok r) = r
result died = (record { worker_xprt = at 1; rv = 0 }, server)
result fault = (record { worker_xprt = at 1; rv = 0 }, server)
result waits = (record { worker_xprt = at 1; rv = 0 }, server)

abbrev looked : Req × Server
looked = result (request_lookup multi 3 (at 1) call server)

looked_lem : request_lookup multi 3 (at 1) call server ≡ ok looked
unfolding live ready create_xports bitvec_init xprt_register_with_lock xports_init ensure_id
    xprt_id_alloc candidate scan_ids bitvec_set_bit wpos bpos place attach take_socket
    socket_xprt_is_available init_pollfd find_slot init_read_pollfd request_lookup verdict
    give_answer match_loop request_dispatch worker_of dispatch_on wait_for_worker
    xprt_progress_setbits decode_xprt_progress bitvec_get_bit request_match_prog_version
looked_lem = refl

request_lookup-Answered_example :
    (calls : List Call) × Answered multi
      (at 1)
      call
      (verdict multi (at 1) call).1
      server
      (verdict multi (at 1) call).0
      looked.0.rv
      calls
    × (looked.1.log ≡ calls ++ [])
request_lookup-Answered_example =
    request_lookup-Answered multi 3 1 call server looked.0 looked.1 (omega arith, tt) looked_lem

live_socket : get_elem? live.sock_xports 5 ≡ some (at 1)
unfolding live ready create_xports bitvec_init xprt_register_with_lock xports_init ensure_id
    xprt_id_alloc candidate scan_ids bitvec_set_bit wpos bpos place attach take_socket
    socket_xprt_is_available init_pollfd find_slot init_read_pollfd
live_socket = refl

live-listed : live.heap 1 ≡ some listed
unfolding live ready create_xports bitvec_init xprt_register_with_lock xports_init ensure_id
    xprt_id_alloc candidate scan_ids bitvec_set_bit wpos bpos place attach take_socket
    socket_xprt_is_available init_pollfd find_slot init_read_pollfd
live-listed = refl

forged_fails : (verdict single (at 1) forged).0 ≢ 0
unfolding verdict
forged_fails e = omega (arith, e)

svc_getreq_common-ne-ok_example : svc_getreq_common single 3 3 5 server ≢ ok server
unfolding reap_first
svc_getreq_common-ne-ok_example =
    svc_getreq_common-ne-ok single 3 1 forged forged_fails 3 5 server server server refl live_socket
      refl server

live-unmarked : bitvec_get_bit live.xprtgc_idset listed.id ≡ Results.ok false
unfolding live ready create_xports bitvec_init xprt_register_with_lock xports_init ensure_id
    xprt_id_alloc candidate scan_ids bitvec_set_bit wpos bpos place attach take_socket
    socket_xprt_is_available init_pollfd find_slot init_read_pollfd bitvec_get_bit
live-unmarked = refl

listed-Traced : Traced live 1 listed
listed-Traced = record { marked = false; here = live-listed; was = live-unmarked }

worker_soon : WorkerIn multi 1 1 (with_xprt 1 (waiting listed) server)
worker_soon = (
  (waiting listed, record { marked = false; here = refl; was = live-unmarked }, (refl, refl)),
  (
    record listed { progress = 0x110 },
    record { marked = false; here = refl; was = live-unmarked },
    inl (λ e. omega (arith, e)),
  ),
)

wait_on_getargs_usleep_ends_example :
    (s' : Server) × (y : Xprt) × (wait_on_getargs_usleep multi 3 (at 1) server ≡ ok s')
    × ((after_sleeps multi 1 (with_xprt 1 (waiting listed) server)).reg.heap 1 ≡ some y)
    × Arrived y
    × (s'.reg.heap 1 ≡ some (done_waiting y))
    × (s'.log ≡ [])
wait_on_getargs_usleep_ends_example =
    wait_on_getargs_usleep_ends multi 3 1 1 server listed listed-Traced (omega arith) worker_soon

live_slot : get_elem? live.pollfd 0 ≡ some (polls 5)
unfolding live ready create_xports bitvec_init xprt_register_with_lock xports_init ensure_id
    xprt_id_alloc candidate scan_ids bitvec_set_bit wpos bpos place attach take_socket
    socket_xprt_is_available init_pollfd find_slot init_read_pollfd
live_slot = refl

live_size : (5 ≤ live.xports_size) × (1 ≤ length live.pollfd)
unfolding live ready create_xports bitvec_init xprt_register_with_lock xports_init ensure_id
    xprt_id_alloc candidate scan_ids bitvec_set_bit wpos bpos place attach take_socket
    socket_xprt_is_available init_pollfd find_slot init_read_pollfd
live_size = (omega arith, omega arith)

live-Pollable : (j : ℕ) (p : PollFd) → j < 1 → get_elem? live.pollfd j ≡ some p → Pollable live p.fd
live-Pollable zero p lt e =
    let same : polls 5 ≡ p = cc (live_slot, e) in
    subst (λ (q : PollFd). Pollable live q.fd) same
      (live_size.0, inr (1, listed, live_socket, live-listed))
live-Pollable (suc j) p lt e = absurd (omega arith)

collect_lem_example :
    (collect 2 1 0 live ≡ Results.ok (wanted_all live (take 1 live.pollfd), live))
    × (length (wanted_all live (take 1 live.pollfd)) ≤ fd_alloc_roundup 1)
collect_lem_example = collect_lem 2 (omega arith) live 1 live_size.1 live-Pollable

svc_getreq_poll_mt_lem_example :
    svc_getreq_poll_mt single 3 3 (record { fd = some 5; events = 1; revents = 1 } ∷ []) 1 server
    ≡ (serve_all single 3 3
          (take 1 (pending (record { fd = some 5; events = 1; revents = 1 } ∷ [])))
          server
        >>= reap_last single)
svc_getreq_poll_mt_lem_example =
    svc_getreq_poll_mt_lem single 3 3 (record { fd = some 5; events = 1; revents = 1 } ∷ []) 1
      server
