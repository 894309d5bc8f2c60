-- ===== src/Server/Replies.antt =====
-- src/librpc/svc.c, the replies.
use rpc_mt.Common.{ℕ, Bool, ◌∷◌}
use rpc_mt.Registry.{XprtPtr, null, bad, at, check_svcxprt_exists}
use rpc_mt.Server.{
  Server, Env, Run, ok, fault, ◌>>=◌, ◌>>◌, lift, OpaqueAuth, AcceptStat, success, prog_unavail,
  prog_mismatch, proc_unavail, garbage_args, system_err, Reply, accepted, auth_error, replied,
}

-- `xprt->xp_verf`.
abbrev pub xp_verf : XprtPtr → Server → Run OpaqueAuth
xp_verf null s = fault
xp_verf bad s = fault
xp_verf (at a) s = ok (s.verf a)

abbrev pub auth_tooweak : ℕ
auth_tooweak = 5

module _ (env : Env) where
  -- `SVC_REPLY`, and its entry in the log.
  abbrev pub svc_reply : XprtPtr → Reply → Server → Run (Bool × Server)
  svc_reply p rply s =
      env.reply p rply s >>= λ r. ok (r.0, record r.1 { log = replied p rply ∷ s.log })

  -- A reply of an accepted message, as each of the functions below fills it in.
  abbrev pub accepted_reply : XprtPtr → AcceptStat → Server → Run (Bool × Server)
  accepted_reply p stat s = do
    lift (check_svcxprt_exists p s.reg)
    verf ← xp_verf p s
    svc_reply p (accepted verf stat) s

  unfoldable pub svc_sendreply :
      XprtPtr → (xdr_results xdr_location : ℕ) → Server → Run (Bool × Server)
  svc_sendreply p xdr_results xdr_location s = accepted_reply p (success xdr_results xdr_location) s

  unfoldable pub svcerr_noproc : XprtPtr → Server → Run Server
  svcerr_noproc p s = accepted_reply p proc_unavail s >>= λ r. ok r.1

  unfoldable pub svcerr_decode : XprtPtr → Server → Run Server
  svcerr_decode p s = accepted_reply p garbage_args s >>= λ r. ok r.1

  unfoldable pub svcerr_systemerr : XprtPtr → Server → Run Server
  svcerr_systemerr p s = accepted_reply p system_err s >>= λ r. ok r.1

  unfoldable pub svcerr_auth : XprtPtr → (why : ℕ) → Server → Run Server
  svcerr_auth p why s = do
    lift (check_svcxprt_exists p s.reg)
    svc_reply p (auth_error why) s >>= λ r. ok r.1

  unfoldable pub svcerr_weakauth : XprtPtr → Server → Run Server
  svcerr_weakauth p s = do lift (check_svcxprt_exists p s.reg); svcerr_auth p auth_tooweak s

  unfoldable pub svcerr_noprog : XprtPtr → Server → Run Server
  svcerr_noprog p s = accepted_reply p prog_unavail s >>= λ r. ok r.1

  unfoldable pub svcerr_progvers : XprtPtr → (low_vers high_vers : ℕ) → Server → Run Server
  svcerr_progvers p low_vers high_vers s =
      accepted_reply p (prog_mismatch low_vers high_vers) s >>= λ r. ok r.1
