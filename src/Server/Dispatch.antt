-- ===== src/Server/Dispatch.antt =====
-- src/librpc/svc.c, from a readable descriptor to the dispatch of each request on it.
pub mod Log
pub mod Answers
pub mod Auth
use Prim.Native.Nat.{bit_and}
use rpc_mt.Common.{
  ℕ, zero, suc, ◌-◌, ◌^◌, Bool, true, false, not, ◌&&◌, Option, none, some, get_elem?,
  if◌then◌else◌, ◌==◌, ◌∷◌,
}
use rpc_mt.Common.Outcome.{deref}
use rpc_mt.Registry.{
  Xprt, XprtPtr, null, bad, at, XprtStat, xprt_died, xprt_morereqs, xprt_idle, no_parent,
  progress_dispatch, progress_return, incr_counter, xprt_to_mtxprt, write_xprt, update,
  check_svcxprt_exists,
}
use rpc_mt.Registry.Gc.{svc_destroy, xprt_gc_mark, xprt_gc_reap_all, xprt_progress_setbits}
use rpc_mt.Callout.{Callout, Answer, dispatch_to, no_prog, prog_vers, request_match_prog_version}
use rpc_mt.Server.{
  Server, Env, Run, ok, died, fault, waits, ◌>>=◌, ◌>>◌, lift, in_registry, on_registry, OpaqueAuth,
  CallMsg, SvcReq, dispatched,
}
use rpc_mt.Server.Replies.{svcerr_auth, svcerr_noprog, svcerr_progvers}
use rpc_mt.Server.Wait.{wait_on_getargs, wait_on_return}

-- `-1` of an `int`.
abbrev pub minus_one : ℕ
minus_one = 2 ^ 32 - 1

abbrev pub auth_null : ℕ
auth_null = 0

abbrev pub auth_ok : ℕ
auth_ok = 0

-- `struct req`, the fields that say how the request went: the worker's transport and `rv`.
pub record Req : Type 0 where
  pub worker_xprt : XprtPtr
  pub rv : ℕ

abbrev pub is_died : XprtStat → Bool
is_died xprt_died = true
is_died xprt_morereqs = false
is_died xprt_idle = false

-- `xprt_is_reusable`.
unfoldable pub xprt_is_reusable : Xprt → Bool
xprt_is_reusable x = x.port == 0 && x.parent == no_parent && not (is_died x.stat)

abbrev pub rqst_of : XprtPtr → Server → Run SvcReq
rqst_of null s = fault
rqst_of bad s = fault
rqst_of (at a) s = ok (s.rqst a)

abbrev pub req_of : XprtPtr → CallMsg → SvcReq
req_of p msg = record {
  prog = msg.prog;
  vers = msg.vers;
  proc = msg.proc;
  cred = msg.cred;
  xprt = p;
}

abbrev pub set_rqst : XprtPtr → SvcReq → Server → Server
set_rqst null q s = s
set_rqst bad q s = s
set_rqst (at a) q s = record s { rqst = update s.rqst a q }

abbrev pub set_verf : XprtPtr → OpaqueAuth → Server → Server
set_verf null v s = s
set_verf bad v s = s
set_verf (at a) v s = record s { verf = update s.verf a v }

module _ (env : Env) where
  -- The transport of the worker: in a multi-threaded mode a clone, if the transport can be cloned.
  unfoldable pub worker_of : XprtPtr → Server → Run (XprtPtr × Server)
  worker_of p s =
      if env.mtmode == 0
      then ok (p, record s { worker_return = 0 })
      else lift (xprt_to_mtxprt p s.reg) >>= λ x.
          if x.cloneable
          then (env.clone p s >>= λ r. ok (r.0, record r.1 { log = s.log }))
          else ok (p, s)

  -- What is done with a worker's transport that has returned before: whether the request goes on.
  unfoldable pub returned_before : XprtPtr → Xprt → Server → Run (Bool × Server)
  returned_before w x s =
      if env.mtmode == 0
      then (on_registry (svc_destroy w) s >>= λ s'. ok (false, s'))
      else if xprt_is_reusable x
      then ok (true, record s { reg = write_xprt w (record x { progress = 0; busy = 0 }) s.reg })
      else (on_registry (xprt_gc_mark w) s >>= λ s'. ok (false, s'))

  -- The call of the dispatch function, and its entry in the log.
  abbrev pub call_dispatch : ℕ → SvcReq → XprtPtr → Server → Run Server
  call_dispatch dispatch q w s =
      env.dispatch dispatch q w s >>= λ s'. ok (record s' { log = dispatched dispatch q w ∷ s.log })

  -- The end of `request_dispatch`, by the mode.
  unfoldable pub wait_for_worker : ℕ → XprtPtr → Server → Run Server
  wait_for_worker k w s =
      if env.mtmode == 0
      then wait_on_return env k s
      else if env.mtmode == 1
      then wait_on_getargs env k w s
      else if env.mtmode == 2
      then ok s
      else died

  unfoldable pub dispatch_on : ℕ → Callout → XprtPtr → Server → Run Server
  dispatch_on k c w s0 = do
    (_, s) ← in_registry (xprt_progress_setbits w progress_dispatch) s0
    q ← rqst_of w s
    s' ← call_dispatch c.dispatch q w s
    wait_for_worker k w s'

  -- The first argument bounds the sleeps; the worker's transport is returned.
  unfoldable pub request_dispatch : ℕ → XprtPtr → Callout → Server → Run (XprtPtr × Server)
  request_dispatch k p c s0 = do
    (w, s) ← worker_of p (record s0 { cnt_request_disp = incr_counter s0.cnt_request_disp })
    x ← lift (xprt_to_mtxprt w s.reg)
    if bit_and x.progress progress_return == 0
        then (dispatch_on k c w s >>= λ s'. ok (w, s'))
        else (do
          (goes_on, s') ← returned_before w x s
          if goes_on then (dispatch_on k c w s' >>= λ s''. ok (w, s'')) else ok (w, s'))

  -- `request_match_prog_version` finds the answer; here it is given. No clone is made on an error.
  unfoldable pub give_answer : ℕ → XprtPtr → Answer → Server → Run (XprtPtr × Server)
  give_answer k p (dispatch_to c) s = request_dispatch k p c s
  give_answer k p no_prog s = svcerr_noprog env p s >>= λ s'. ok (p, s')
  give_answer k p (prog_vers low high) s = svcerr_progvers env p low high s >>= λ s'. ok (p, s')

  -- The verdict of the authentication, 0 for AUTH_OK, and the verifier for the reply.
  unfoldable pub verdict : XprtPtr → CallMsg → ℕ × OpaqueAuth
  verdict p msg =
      if msg.cred.flavor == auth_null
      then (auth_ok, record { flavor = auth_null; len = 0 })
      else env.authenticate (req_of p msg) msg

  unfoldable pub request_lookup : ℕ → XprtPtr → CallMsg → Server → Run (Req × Server)
  request_lookup k p msg s0 =
      let (why, v) = verdict p msg in
      let s = set_verf p v (set_rqst p (req_of p msg) s0) in
      if why == auth_ok
      then (do
        (w, s') ← give_answer k p (request_match_prog_version msg.prog msg.vers s.head) s
        ok (record { worker_xprt = w; rv = 0 }, s'))
      else (do s' ← svcerr_auth env p why s; ok (record { worker_xprt = p; rv = minus_one }, s'))

  -- The message that was received, if any.
  unfoldable pub handle : ℕ → XprtPtr → Option CallMsg → Server → Run (Req × Server)
  handle k p none s = ok (record { worker_xprt = p; rv = 0 }, s)
  handle k p (some msg) s =
      request_lookup k p msg (record s { cnt_request_recv = incr_counter s.cnt_request_recv })

  -- `SVC_RECV`, and what is done with the message.
  unfoldable pub receive : ℕ → XprtPtr → Server → Run (Req × Server)
  receive k p s = env.recv p s >>= λ r. handle k p r.0 (record r.1 { log = s.log })

  -- A transport that is dead is destroyed, or marked in a multi-threaded mode.
  unfoldable pub retire : XprtPtr → XprtStat → Server → Run Server
  retire w xprt_died s =
      if env.mtmode == 0 then on_registry (svc_destroy w) s else on_registry (xprt_gc_mark w) s
  retire w xprt_morereqs s = ok s
  retire w xprt_idle s = ok s

  -- A status outside the enumeration aborts.
  abbrev pub valid_stat : Option XprtStat → Run XprtStat
  valid_stat none = died
  valid_stat (some xrv) = ok xrv

  -- `rv` and `xrv` of the request.
  unfoldable pub get_single_request : ℕ → XprtPtr → Server → Run (ℕ × XprtStat × Server)
  get_single_request k p s0 = do
    lift (xprt_to_mtxprt p s0.reg)
    (req, s1) ← receive k p s0
    (stat, s2) ← env.stat req.worker_xprt s1
    xrv ← valid_stat stat
    x ← lift (xprt_to_mtxprt req.worker_xprt s2.reg)
    let s3 : Server = record s2 {
      log = s1.log;
      reg = write_xprt req.worker_xprt (record x { stat = xrv }) s2.reg;
    }
    s4 ← retire req.worker_xprt xrv s3
    ok (req.rv, xrv, s4)

  abbrev pub is_morereqs : XprtStat → Bool
  is_morereqs xprt_morereqs = true
  is_morereqs xprt_died = false
  is_morereqs xprt_idle = false

  -- `for (;;)`: one request after another, while the transport says that there are more. The second
  -- argument is the number of rounds that are looked at.
  unfoldable pub serve_loop : ℕ → ℕ → XprtPtr → Server → Run (ℕ × Server)
  serve_loop k zero p s = waits
  serve_loop k (suc n) p s = get_single_request k p s >>= λ r. elim (r.0 == 0 && is_morereqs r.1) [
    | true ↦ serve_loop k n p r.2
    | false ↦ ok (r.0, r.2)
  ]

  unfoldable pub serve_xprt : ℕ → ℕ → XprtPtr → Server → Run (ℕ × Server)
  serve_xprt k n null s = ok (0, s)
  serve_xprt k n bad s = ok (0, s)
  serve_xprt k n (at a) s = do lift (check_svcxprt_exists (at a) s.reg); serve_loop k n (at a) s

  -- Garbage is collected first in a multi-threaded mode.
  unfoldable pub reap_first : Server → Run Server
  reap_first s = if env.mtmode == 0 then ok s else (in_registry xprt_gc_reap_all s >>= λ r. ok r.1)

  unfoldable pub svc_getreq_common_rv : ℕ → ℕ → (fd : ℕ) → Server → Run (ℕ × Server)
  svc_getreq_common_rv k n fd s0 = do
    s ← reap_first s0
    p ← lift (deref (get_elem? s.reg.sock_xports fd))
    serve_xprt k n p s

  unfoldable pub svc_getreq_common : ℕ → ℕ → (fd : ℕ) → Server → Run Server
  svc_getreq_common k n fd s = do
    (err, s') ← svc_getreq_common_rv k n fd s
    if err == 0 then ok s' else died
