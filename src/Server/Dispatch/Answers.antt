-- ===== src/Server/Dispatch/Answers.antt =====
-- src/librpc/svc.c, `request_lookup`: each request is answered in the way that fits it, and once.
use Prim.Native.Nat.{bit_and}
use rpc_mt.Common.{
  ℕ, ◌≡◌, ◌≢◌, refl, ap, sym, ◌∙◌, inl, inr, Bool, true, false, List, [], ◌∷◌, ◌++◌, if◌then◌else◌,
  ◌==◌, Bool-cases, ==→ne, ==→eq, ==-self,
}
use rpc_mt.Registry.{Xprt, XprtPtr, at, progress_return, incr_counter, xprt_to_mtxprt}
use rpc_mt.Callout.{Callout, Answer, dispatch_to, no_prog, prog_vers, request_match_prog_version}
use rpc_mt.Callout.Match.{IsSmall, Fits, request_match_prog_version-Fits}
use rpc_mt.Server.{
  Server, Env, Run, ok, ◌>>=◌, lift, CallMsg, SvcReq, OpaqueAuth, AcceptStat, prog_unavail,
  prog_mismatch, accepted, auth_error, Call, dispatched, replied, >>=-eq-ok, ok-injective,
}
use rpc_mt.Server.Replies.{accepted_reply, svcerr_auth, svcerr_noprog, svcerr_progvers}
use rpc_mt.Server.Dispatch.{
  Req, minus_one, auth_ok, set_rqst, set_verf, rqst_of, worker_of, returned_before, dispatch_on,
  request_dispatch, give_answer, req_of, verdict, request_lookup,
}
use rpc_mt.Server.Dispatch.Log.{
  accepted_reply_log, svcerr_auth_log, returned_before_parts, worker_of_log, rqst_kept,
  dispatch_on_log,
}

-- The server as `request_lookup` leaves it for what follows.
abbrev pub looked_up : XprtPtr → CallMsg → OpaqueAuth → Server → Server
looked_up p msg v s = set_verf p v (set_rqst p (req_of p msg) s)

abbrev pub counted : Server → Server
counted s = record s { cnt_request_disp = incr_counter s.cnt_request_disp }

-- The calls with which a request to a callout may be met, where the server is `s`: that of the callout's
-- function on the worker's transport with the request that this one holds; or none, where the worker's
-- transport has returned before.
pub data Served (env : Env) (p : XprtPtr) (c : Callout) (s : Server) : List Call → Type 0 where
  called :
      (w : XprtPtr) (t : Server) (q : SvcReq)
      → worker_of env p (counted s) ≡ ok (w, t)
      → rqst_of w t ≡ ok q
      → Served env p c s (dispatched c.dispatch q w ∷ [])
  dropped :
      (w : XprtPtr) (t : Server) (x : Xprt)
      → worker_of env p (counted s) ≡ ok (w, t)
      → lift (xprt_to_mtxprt w t.reg) ≡ ok x
      → bit_and x.progress progress_return ≢ 0
      → Served env p c s []

-- The calls that fit a message, by the verdict `why` of its authentication with the verifier `v`.
pub data Answered (env : Env) (p : XprtPtr) (msg : CallMsg) (v : OpaqueAuth) (s : Server)
    : (why rv : ℕ) → List Call → Type 0 where
  refused :
      (why : ℕ)
      → why ≢ auth_ok
      → Answered env p msg v s why minus_one (replied p (auth_error why) ∷ [])
  unknown :
      Fits msg.prog msg.vers s.head no_prog
      → Answered env p msg v s auth_ok 0 (replied p (accepted v prog_unavail) ∷ [])
  mismatched :
      (low high : ℕ)
      → Fits msg.prog msg.vers s.head (prog_vers low high)
      → Answered env p msg v s auth_ok 0 (replied p (accepted v (prog_mismatch low high)) ∷ [])
  served :
      (c : Callout) (calls : List Call)
      → Fits msg.prog msg.vers s.head (dispatch_to c)
      → Served env p c (looked_up p msg v s) calls
      → Answered env p msg v s auth_ok 0 calls

module _ (env : Env) (k : ℕ) where
  dispatch_Served :
      (p : XprtPtr) (c : Callout) (s : Server) (w : XprtPtr) (s' : Server)
      → request_dispatch env k p c s ≡ ok (w, s')
      → (calls : List Call) × Served env p c s calls × (s'.log ≡ calls ++ s.log)
  unfolding request_dispatch
  dispatch_Served p c s w s' e =
      let ((w', t), worker, rest) = >>=-eq-ok (worker_of env p (counted s)) _ e in
      let (x, live, rest') = >>=-eq-ok (lift (xprt_to_mtxprt w' t.reg)) _ rest in
      let logged = worker_of_log env p (counted s) (w', t) worker in
      elim (Bool-cases (bit_and x.progress progress_return == 0)) [
        | inl fresh ↦
            let (s1, on, last) = >>=-eq-ok (dispatch_on env k c w' t) _ (rw fresh at rest') in
            runs w' t t s1 worker refl refl logged on last
        | inr returned ↦
            let ((goes_on, u), before, rest'') =
              >>=-eq-ok (returned_before env w' x t) _ (rw returned at rest') in
            let kept = returned_before_parts env w' x t (goes_on, u) before in
            after w' t u x goes_on worker live (==→ne _ _ returned) kept logged rest''
      ]
    where
      runs :
          (w' : XprtPtr) (t u s1 : Server)
          → worker_of env p (counted s) ≡ ok (w', t)
          → rqst_of w' u ≡ rqst_of w' t
          → u.log ≡ t.log
          → t.log ≡ s.log
          → dispatch_on env k c w' u ≡ ok s1
          → ◌≡◌ {A = Run (XprtPtr × Server)} (ok (w', s1)) (ok (w, s'))
          → (calls : List Call) × Served env p c s calls × (s'.log ≡ calls ++ s.log)
      runs w' t u s1 worker same ulog logged on last =
          let (q, found, log) = dispatch_on_log env k c w' u s1 on in
          (
            dispatched c.dispatch q w' ∷ [],
            called w' t q worker (sym same ∙ found),
            ap (λ (r : XprtPtr × Server). r.1.log) (sym (ok-injective last))
                ∙ (log ∙ ap (λ l. dispatched c.dispatch q w' ∷ l) (ulog ∙ logged)),
          )

      after :
          (w' : XprtPtr) (t u : Server) (x : Xprt) (goes_on : Bool)
          → worker_of env p (counted s) ≡ ok (w', t)
          → lift (xprt_to_mtxprt w' t.reg) ≡ ok x
          → bit_and x.progress progress_return ≢ 0
          → u ≡ record t { reg = u.reg }
          → t.log ≡ s.log
          → (if goes_on
              then ◌>>=◌ {B = XprtPtr × Server} (dispatch_on env k c w' u) (λ v. ok (w', v))
              else ok (w', u))
            ≡ ok (w, s')
          → (calls : List Call) × Served env p c s calls × (s'.log ≡ calls ++ s.log)
      after w' t u x true worker live returned kept logged e =
          let (s1, on, last) = >>=-eq-ok (dispatch_on env k c w' u) _ e in
          runs w' t u s1 worker (ap (rqst_of w') kept ∙ rqst_kept env w' t u.reg)
            (ap (λ (v : Server). v.log) kept) logged on last
      after w' t u x false worker live returned kept logged e = (
        [],
        dropped w' t x worker live returned,
        ap (λ (r : XprtPtr × Server). r.1.log) (sym (ok-injective e))
            ∙ (ap (λ (v : Server). v.log) kept ∙ logged),
      )

  joined :
      (a : ℕ) (msg : CallMsg) (v : OpaqueAuth) (s : Server) (stat : AcceptStat) (w : XprtPtr)
      (t s' : Server) (r : Bool × Server)
      → accepted_reply env (at a) stat (looked_up (at a) msg v s) ≡ ok r
      → ok r.1 ≡ ok t
      → ◌≡◌ {A = Run (XprtPtr × Server)} (ok (at a, t)) (ok (w, s'))
      → s'.log ≡ replied (at a) (accepted v stat) ∷ s.log
  joined a msg v s stat w t s' r sent got last =
      ap (λ (u : XprtPtr × Server). u.1.log) (sym (ok-injective last))
      ∙ (ap (λ (u : Server). u.log) (sym (ok-injective got))
          ∙ (accepted_reply_log env a stat (looked_up (at a) msg v s) r.0 r.1 sent
              ∙ rw (==-self a) refl))

  answer_Answered :
      (a : ℕ) (msg : CallMsg) (v : OpaqueAuth) (s : Server) (ans : Answer) (w : XprtPtr)
      (s' : Server)
      → Fits msg.prog msg.vers s.head ans
      → give_answer env k (at a) ans (looked_up (at a) msg v s) ≡ ok (w, s')
      → (calls : List Call) × Answered env (at a) msg v s auth_ok 0 calls
        × (s'.log ≡ calls ++ s.log)
  unfolding give_answer svcerr_noprog svcerr_progvers
  answer_Answered a msg v s (dispatch_to c) w s' fits e =
      let (calls, how, log) = dispatch_Served (at a) c (looked_up (at a) msg v s) w s' e in
      (calls, served c calls fits how, log)
  answer_Answered a msg v s no_prog w s' fits e =
      let (t, sent, last) = >>=-eq-ok (svcerr_noprog env (at a) (looked_up (at a) msg v s)) _ e in
      let (r, sent', last') =
        >>=-eq-ok (accepted_reply env (at a) prog_unavail (looked_up (at a) msg v s)) _ sent in
      (
        replied (at a) (accepted v prog_unavail) ∷ [],
        unknown fits,
        joined a msg v s prog_unavail w t s' r sent' last' last,
      )
  answer_Answered a msg v s (prog_vers low high) w s' fits e =
      let (t, sent, last) =
        >>=-eq-ok (svcerr_progvers env (at a) low high (looked_up (at a) msg v s)) _ e in
      let (r, sent', last') =
        >>=-eq-ok (accepted_reply env (at a) (prog_mismatch low high) (looked_up (at a) msg v s)) _
          sent in
      (
        replied (at a) (accepted v (prog_mismatch low high)) ∷ [],
        mismatched low high fits,
        joined a msg v s (prog_mismatch low high) w t s' r sent' last' last,
      )

  -- The rest of `request_lookup`, from the verdict on.
  abbrev by_verdict : ℕ → CallMsg → ℕ → OpaqueAuth → Server → Run (Req × Server)
  by_verdict a msg why v s =
      if why == auth_ok
      then ◌>>=◌ {B = Req × Server}
          (give_answer env k (at a) (request_match_prog_version msg.prog msg.vers s.head)
            (looked_up (at a) msg v s))
          (λ r. ok (record { worker_xprt = r.0; rv = 0 }, r.1))
      else ◌>>=◌ {B = Req × Server} (svcerr_auth env (at a) why (looked_up (at a) msg v s))
          (λ t. ok (record { worker_xprt = at a; rv = minus_one }, t))

  verdict_Answered :
      (a : ℕ) (msg : CallMsg) (why : ℕ) (v : OpaqueAuth) (s : Server) (req : Req) (s' : Server)
      → IsSmall s.head
      → by_verdict a msg why v s ≡ ok (req, s')
      → (calls : List Call) × Answered env (at a) msg v s why req.rv calls
        × (s'.log ≡ calls ++ s.log)
  verdict_Answered a msg why v s req s' small e = elim (Bool-cases (why == auth_ok)) [
    | inl fine ↦
        let ((w, t), answered, last) =
          >>=-eq-ok
            (give_answer env k (at a) (request_match_prog_version msg.prog msg.vers s.head)
              (looked_up (at a) msg v s))
            _ (rw fine at e) in
        let same = ok-injective last in
        let (calls, how, log) =
          answer_Answered a msg v s _ w t
            (request_match_prog_version-Fits msg.prog msg.vers s.head small) answered in
        let zero_rv : 0 ≡ req.rv = ap (λ (r : Req × Server). r.0.rv) same in
        (
          calls,
          rw (==→eq why auth_ok fine) (rw (← zero_rv) how),
          ap (λ (r : Req × Server). r.1.log) (sym same) ∙ log,
        )
    | inr failed ↦
        let (t, sent, last) =
          >>=-eq-ok (svcerr_auth env (at a) why (looked_up (at a) msg v s)) _ (rw failed at e) in
        let same = ok-injective last in
        let rv : minus_one ≡ req.rv = ap (λ (r : Req × Server). r.0.rv) same in
        (
          replied (at a) (auth_error why) ∷ [],
          rw (← rv) (refused why (==→ne _ _ failed)),
          ap (λ (r : Req × Server). r.1.log) (sym same)
              ∙ svcerr_auth_log env a why (looked_up (at a) msg v s) t sent,
        )
  ]

  -- A message that `request_lookup` gets through with is met by the calls that fit it and by no others:
  -- if the authentication failed, the error reply, and `rv` is -1; else, for a list of services with
  -- versions of `rpcvers_t`, the error reply if the program or the version is not served, or the call of
  -- the dispatch function of the first callout for them, unless the worker's transport has returned
  -- before.
  pub request_lookup-Answered :
      (a : ℕ) (msg : CallMsg) (s : Server) (req : Req) (s' : Server)
      → IsSmall s.head
      → request_lookup env k (at a) msg s ≡ ok (req, s')
      → (calls : List Call) × Answered env
          (at a)
          msg
          (verdict env (at a) msg).1
          s
          (verdict env (at a) msg).0
          req.rv
          calls
        × (s'.log ≡ calls ++ s.log)
  unfolding request_lookup
  request_lookup-Answered a msg s req s' small e =
      verdict_Answered a msg (verdict env (at a) msg).0 (verdict env (at a) msg).1 s req s' small e
