-- ===== src/Server/Dispatch/Log.antt =====
-- src/librpc/svc.c: which calls the receiving thread makes in each of its steps.
use rpc_mt.Common.{ℕ, zero, suc, ◌≡◌, refl, ap, sym, ◌∙◌, Bool, true, false, List, ◌∷◌}
use rpc_mt.Common.Outcome.{Outcome}
use rpc_mt.Registry.Gc.{svc_destroy, xprt_gc_mark, xprt_progress_setbits, xprt_progress_clrbits}
use rpc_mt.Registry.{
  Registry, progress_wait, progress_dispatch, Xprt, XprtPtr, null, bad, at, xprt_to_mtxprt,
  check_svcxprt_exists,
}
use rpc_mt.Callout.{Callout}
use rpc_mt.Server.{
  Server, Env, Run, ok, ◌>>=◌, lift, SvcReq, AcceptStat, accepted, auth_error, Call, dispatched,
  replied, >>=-eq-ok, ok-injective, Ensures, ok-Ensures, died-Ensures, >>=-Ensures, if-Ensures,
  in_registry, on_registry,
}
use rpc_mt.Server.Replies.{accepted_reply, svc_reply, svcerr_auth}
use rpc_mt.Server.Wait.{
  wait_loop, wait_on_getargs_usleep, wait_on_getargs_mutex, wait_on_getargs, wait_on_return, others,
  got_args, ready_lock, lock_ready,
}
use rpc_mt.Server.Dispatch.{
  rqst_of, worker_of, returned_before, call_dispatch, wait_for_worker, dispatch_on,
}

module _ (env : Env) where
  pub accepted_reply_log :
      (a : ℕ) (stat : AcceptStat) (s : Server) (b : Bool) (s' : Server)
      → accepted_reply env (at a) stat s ≡ ok (b, s')
      → s'.log ≡ replied (at a) (accepted (s.verf a) stat) ∷ s.log
  accepted_reply_log a stat s b s' e =
      let (_, _, rest) = >>=-eq-ok (lift (check_svcxprt_exists (at a) s.reg)) _ e in
      let (r, _, last) = >>=-eq-ok (env.reply (at a) (accepted (s.verf a) stat) s) _ rest in
      ap (λ (t : Bool × Server). t.1.log) (sym (ok-injective last))

  pub svcerr_auth_log :
      (a why : ℕ) (s s' : Server)
      → svcerr_auth env (at a) why s ≡ ok s'
      → s'.log ≡ replied (at a) (auth_error why) ∷ s.log
  unfolding svcerr_auth
  svcerr_auth_log a why s s' e =
      let (_, _, rest) = >>=-eq-ok (lift (check_svcxprt_exists (at a) s.reg)) _ e in
      let (r, sent, last) = >>=-eq-ok (svc_reply env (at a) (auth_error why) s) _ rest in
      let (r', _, last') = >>=-eq-ok (env.reply (at a) (auth_error why) s) _ sent in
      ap (λ (t : Server). t.log) (sym (ok-injective last))
      ∙ ap (λ (t : Bool × Server). t.1.log) (sym (ok-injective last'))

  -- A wait that ends leaves the log, and ends where the test holds.
  pub wait_loop_ends :
      (k : ℕ) (ready : Server → Run Bool) (s s' : Server)
      → wait_loop env k ready s ≡ ok s'
      → (s'.log ≡ s.log) × (ready s' ≡ ok true)
  unfolding wait_loop
  wait_loop_ends zero ready s s' e = cc
  wait_loop_ends (suc k) ready s s' e =
      let (b, tested, rest) = >>=-eq-ok (ready s) _ e in
      ends b tested rest (wait_loop_ends k ready (others env s) s')
    where
      ends :
          (b : Bool)
          → ready s ≡ ok b
          → (elim b [ true ↦ ok s | false ↦ wait_loop env k ready (others env s) ]) ≡ ok s'
          → (wait_loop env k ready (others env s) ≡ ok s' → (s'.log ≡ s.log) × (ready s' ≡ ok true))
          → (s'.log ≡ s.log) × (ready s' ≡ ok true)
      ends true t e ih =
          let same = ok-injective e in
          (ap (λ (t : Server). t.log) (sym same), ap ready (sym same) ∙ t)
      ends false t e ih = ih e

  abbrev LogIs : List Call → Server → Type 0
  LogIs l t = t.log ≡ l

  -- A step of the registry leaves the rest of the server.
  pub in_registry_parts :
      {A : Type 0} (step : Registry → Outcome (A × Registry)) (s : Server) (r : A × Server)
      → in_registry step s ≡ ok r
      → r.1 ≡ record s { reg = r.1.reg }
  in_registry_parts step s r e =
      let (_, _, last) = >>=-eq-ok (lift (step s.reg)) _ e in rw (sym (ok-injective last)) refl

  pub on_registry_parts :
      (step : Registry → Outcome Registry) (s s' : Server)
      → on_registry step s ≡ ok s'
      → s' ≡ record s { reg = s'.reg }
  on_registry_parts step s s' e =
      let (_, _, last) = >>=-eq-ok (lift (step s.reg)) _ e in rw (sym (ok-injective last)) refl

  in_registry_log :
      {A : Type 0} (step : Registry → Outcome (A × Registry)) (s : Server)
      → Ensures (λ (r : A × Server). r.1.log ≡ s.log) (in_registry step s)
  in_registry_log step s r e = ap (λ (t : Server). t.log) (in_registry_parts step s r e)

  pub on_registry_log :
      (step : Registry → Outcome Registry) (s : Server) → Ensures (LogIs s.log) (on_registry step s)
  on_registry_log step s s' e = ap (λ (t : Server). t.log) (on_registry_parts step s s' e)

  wait_loop_log :
      (k : ℕ) (ready : Server → Run Bool) (s : Server)
      → Ensures (LogIs s.log) (wait_loop env k ready s)
  wait_loop_log k ready s s' e = (wait_loop_ends k ready s s' e).0

  usleep_log :
      (k : ℕ) (p : XprtPtr) (s : Server) → Ensures (LogIs s.log) (wait_on_getargs_usleep env k p s)
  unfolding wait_on_getargs_usleep
  usleep_log k p s =
      >>=-Ensures (λ r. r.1.log ≡ s.log) (LogIs s.log)
        (in_registry (xprt_progress_setbits p progress_wait) s) _
        (in_registry_log (xprt_progress_setbits p progress_wait) s)
        λ r h.
          >>=-Ensures (LogIs s.log) (LogIs s.log) (wait_loop env k (got_args p) r.1) _
            (λ t e. wait_loop_log k _ r.1 t e ∙ h)
            λ t h'.
              >>=-Ensures (λ r. r.1.log ≡ s.log) (LogIs s.log)
                (in_registry (xprt_progress_clrbits p progress_wait) t) _
                (λ u e. in_registry_log (xprt_progress_clrbits p progress_wait) t u e ∙ h')
                λ u h''. ok-Ensures (LogIs s.log) u.1 h''

  mutex_log :
      (k : ℕ) (p : XprtPtr) (s : Server) → Ensures (LogIs s.log) (wait_on_getargs_mutex env k p s)
  unfolding wait_on_getargs_mutex
  mutex_log k p s =
      >>=-Ensures (LogIs s.log) (LogIs s.log) (wait_loop env k (ready_lock p) s) _
        (wait_loop_log k _ s) λ t h. ok-Ensures (LogIs s.log) (lock_ready p t) (lock_log p t ∙ h)
    where
      lock_log : (p : XprtPtr) (t : Server) → (lock_ready p t).log ≡ t.log
      lock_log null t = refl
      lock_log bad t = refl
      lock_log (at a) t = refl

  wait_on_getargs_log :
      (k : ℕ) (p : XprtPtr) (s : Server) → Ensures (LogIs s.log) (wait_on_getargs env k p s)
  unfolding wait_on_getargs
  wait_on_getargs_log k p s =
      >>=-Ensures (λ _. Unit) (LogIs s.log) (lift (xprt_to_mtxprt p s.reg)) _ (λ _ _. tt)
        λ x _. if-Ensures (LogIs s.log) _ _ _ (mutex_log k p s) (usleep_log k p s)

  wait_for_worker_log :
      (k : ℕ) (p : XprtPtr) (s : Server) → Ensures (LogIs s.log) (wait_for_worker env k p s)
  unfolding wait_for_worker wait_on_return
  wait_for_worker_log k p s = if-Ensures (LogIs s.log) _ _ _ (wait_loop_log k _ s) (
      if-Ensures (LogIs s.log) _ _ _ (wait_on_getargs_log k p s) (
        if-Ensures (LogIs s.log) _ _ _ (ok-Ensures (LogIs s.log) s refl)
          (died-Ensures (LogIs s.log))))

  -- Whatever is done with a transport that has returned, all but the registry stays.
  pub returned_before_parts :
      (w : XprtPtr) (x : Xprt) (s : Server)
      → Ensures
          (λ (r : Bool × Server). r.1 ≡ record s { reg = r.1.reg })
          (returned_before env w x s)
  unfolding returned_before
  returned_before_parts w x s =
      if-Ensures _ _ _ _ (off (svc_destroy w))
        (if-Ensures _ _ _ _ (ok-Ensures _ _ refl) (off (xprt_gc_mark w)))
    where
      off :
          (step : Registry → Outcome Registry)
          → Ensures
              (λ (r : Bool × Server). r.1 ≡ record s { reg = r.1.reg })
              (on_registry step s >>= λ t. ok (false, t))
      off step =
          >>=-Ensures (λ (t : Server). t ≡ record s { reg = t.reg }) _ (on_registry step s) _
            (on_registry_parts step s) (λ t h. ok-Ensures _ (false, t) h)

  pub worker_of_log :
      (p : XprtPtr) (s : Server)
      → Ensures (λ (r : XprtPtr × Server). r.1.log ≡ s.log) (worker_of env p s)
  unfolding worker_of
  worker_of_log p s = if-Ensures _ _ _ _ (ok-Ensures _ _ refl) (
      >>=-Ensures (λ _. Unit) _ (lift (xprt_to_mtxprt p s.reg)) _ (λ _ _. tt)
        λ x _.
          if-Ensures _ _ _ _
            (>>=-Ensures (λ _. Unit) _ (env.clone p s) _ (λ _ _. tt) (λ r _. ok-Ensures _ _ refl))
            (ok-Ensures _ _ refl))

  pub rqst_kept :
      (w : XprtPtr) (s : Server) (r : Registry) → rqst_of w (record s { reg = r }) ≡ rqst_of w s
  rqst_kept null s r = refl
  rqst_kept bad s r = refl
  rqst_kept (at a) s r = refl

  -- Dispatching makes one call: of the callout's function, with the worker's transport and its request.
  pub dispatch_on_log :
      (k : ℕ) (c : Callout) (w : XprtPtr) (s s' : Server)
      → dispatch_on env k c w s ≡ ok s'
      → (q : SvcReq) × (rqst_of w s ≡ ok q) × (s'.log ≡ dispatched c.dispatch q w ∷ s.log)
  unfolding dispatch_on
  dispatch_on_log k c w s s' e =
      let (r, set, rest) =
        >>=-eq-ok (in_registry (xprt_progress_setbits w progress_dispatch) s) _ e in
      let (q, found, rest') = >>=-eq-ok (rqst_of w r.1) _ rest in
      let (t, called, last) = >>=-eq-ok (call_dispatch env c.dispatch q w r.1) _ rest' in
      let (u, _, logged) = >>=-eq-ok (env.dispatch c.dispatch q w r.1) _ called in
      let kept = in_registry_parts (xprt_progress_setbits w progress_dispatch) s r set in
      (
        q,
        sym (ap (rqst_of w) kept ∙ rqst_kept w s r.1.reg) ∙ found,
        wait_for_worker_log k w t s' last
            ∙ (ap (λ (t : Server). t.log) (sym (ok-injective logged))
                ∙ ap (λ l. dispatched c.dispatch q w ∷ l) (ap (λ (t : Server). t.log) kept)),
      )
