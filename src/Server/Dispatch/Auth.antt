-- ===== src/Server/Dispatch/Auth.antt =====
-- src/librpc/svc.c: what becomes of the server when the authentication of a message fails.
use rpc_mt.Common.{ℕ, zero, suc, ◌≡◌, ◌≢◌, ap, sym, ◌∙◌, false, some, get_elem?, arith, ◌==◌, ne→==}
use rpc_mt.Registry.{at, XprtStat, xprt_to_mtxprt, check_svcxprt_exists}
use rpc_mt.Server.{Server, Env, ok, lift, CallMsg, >>=-eq-ok, ok-injective}
use rpc_mt.Server.Replies.{svcerr_auth}
use rpc_mt.Server.Dispatch.{
  Req, minus_one, auth_ok, verdict, request_lookup, handle, receive, retire, valid_stat,
  get_single_request, serve_loop, serve_xprt, reap_first, svc_getreq_common_rv, svc_getreq_common,
}
use rpc_mt.Server.Dispatch.Answers.{looked_up}

module _ (env : Env) (k : ℕ) (a : ℕ) (msg : CallMsg)
    (failed : (verdict env (at a) msg).0 ≢ auth_ok) where
  lookup_failed :
      (s : Server) (r : Req × Server)
      → request_lookup env k (at a) msg s ≡ ok r
      → r.0.rv ≡ minus_one
  unfolding request_lookup
  lookup_failed s r e =
      let test : ((verdict env (at a) msg).0 == auth_ok) ≡ false = ne→== _ _ failed in
      let (t, sent, last) =
        >>=-eq-ok
          (svcerr_auth env (at a) (verdict env (at a) msg).0
            (looked_up (at a) msg (verdict env (at a) msg).1 s))
          _ (rw test at e) in
      ap (λ (u : Req × Server). u.0.rv) (sym (ok-injective last))

  single_failed :
      (s s1 : Server) (r : ℕ × XprtStat × Server)
      → env.recv (at a) s ≡ ok (some msg, s1)
      → get_single_request env k (at a) s ≡ ok r
      → r.0 ≡ minus_one
  unfolding get_single_request receive handle
  single_failed s s1 r got e =
      let (x, _, rest) = >>=-eq-ok (lift (xprt_to_mtxprt (at a) s.reg)) _ e in
      let ((req, s2), received, rest') = >>=-eq-ok (receive env k (at a) s) _ rest in
      let ((stat, s3), _, rest'') = >>=-eq-ok (env.stat req.worker_xprt s2) _ rest' in
      let (xrv, _, rest3) = >>=-eq-ok (valid_stat env stat) _ rest'' in
      let (y, _, rest4) = >>=-eq-ok (lift (xprt_to_mtxprt req.worker_xprt s3.reg)) _ rest3 in
      let (s4, _, last) = >>=-eq-ok (retire env req.worker_xprt xrv _) _ rest4 in
      ap (λ (u : ℕ × XprtStat × Server). u.0) (sym (ok-injective last))
      ∙ lookup_failed _ (req, s2) (rw got at received)

  loop_failed :
      (n : ℕ) (s s1 : Server) (r : ℕ × Server)
      → env.recv (at a) s ≡ ok (some msg, s1)
      → serve_loop env k n (at a) s ≡ ok r
      → r.0 ≡ minus_one
  unfolding serve_loop
  loop_failed zero s s1 r got e = cc
  loop_failed (suc n) s s1 r got e =
      let (q, served, rest) = >>=-eq-ok (get_single_request env k (at a) s) _ e in
      let rv = single_failed s s1 q got served in
      let stops : (q.0 == 0) ≡ false = ne→== _ _ (omega arith) in
      ap (λ (u : ℕ × Server). u.0) (sym (ok-injective (rw stops at rest))) ∙ rv

  -- If the first message on a served socket fails its authentication, then `svc_getreq_common` does not
  -- return, whatever the transport, the services and the other threads do.
  pub svc_getreq_common-ne-ok :
      (n fd : ℕ) (s s0 s1 : Server)
      → reap_first env s ≡ ok s0
      → get_elem? s0.reg.sock_xports fd ≡ some (at a)
      → env.recv (at a) s0 ≡ ok (some msg, s1)
      → (s' : Server) → svc_getreq_common env k n fd s ≢ ok s'
  unfolding svc_getreq_common svc_getreq_common_rv serve_xprt
  svc_getreq_common-ne-ok n fd s s0 s1 reaped slot got s' e =
      let (r, returned, rest) = >>=-eq-ok (svc_getreq_common_rv env k n fd s) _ e in
      let (u, _, looped) =
        >>=-eq-ok (lift (check_svcxprt_exists (at a) s0.reg)) _ (rw (reaped, slot) at returned) in
      let rv = loop_failed n s0 s1 r got looped in
      let fails : (r.0 == 0) ≡ false = ne→== _ _ (omega arith) in cc (rw fails at rest)
