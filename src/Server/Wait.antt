-- ===== src/Server/Wait.antt =====
-- src/librpc/svc.c, how the receiving thread waits for a worker. A sleep lasts one round, in which the
-- other threads run.
pub mod Until
use Prim.Native.Nat.{bit_and}
use rpc_mt.Common.{ℕ, zero, suc, Bool, true, false, not, if◌then◌else◌, ◌==◌}
use rpc_mt.Registry.{
  XprtPtr, null, bad, at, no_parent, progress_getargs, progress_wait, progress_return,
  xprt_to_mtxprt, update,
}
use rpc_mt.Registry.Gc.{decode_xprt_progress, xprt_progress_setbits, xprt_progress_clrbits}
use rpc_mt.Server.{Server, Env, Run, ok, died, fault, waits, ◌>>=◌, ◌>>◌, lift, in_registry}

abbrev pub wait_mutex : ℕ
wait_mutex = 1

-- `xprt_get_progress`; a bad pointer has made no progress.
unfoldable pub xprt_get_progress : XprtPtr → Server → Run ℕ
xprt_get_progress bad s = ok 0
xprt_get_progress null s = fault
xprt_get_progress (at a) s = do
  x ← lift (xprt_to_mtxprt (at a) s.reg)
  lift (decode_xprt_progress (at a) x.id s.reg)
  ok x.progress

-- `XPRT_GETARGS | XPRT_RETURN`
abbrev pub of_interest : ℕ
of_interest = 0x210

abbrev pub got_args : XprtPtr → Server → Run Bool
got_args p s = xprt_get_progress p s >>= λ progress. ok (not (bit_and progress of_interest == 0))

-- `pthread_mutex_timedlock` on `mtxp_mtready`: whether it could be locked.
abbrev pub ready_lock : XprtPtr → Server → Run Bool
ready_lock null s = fault
ready_lock bad s = fault
ready_lock (at a) s = ok (not (s.mtready a))

abbrev pub lock_ready : XprtPtr → Server → Server
lock_ready null s = s
lock_ready bad s = s
lock_ready (at a) s = record s { mtready = update s.mtready a true }

module _ (env : Env) where
  -- The other threads run; the log is that of this thread.
  abbrev pub others : Server → Server
  others s = record (env.jiffy s) { log = s.log }

  -- `for (;;)`: the test, and a sleep. The first argument is the number of sleeps that are looked at.
  unfoldable pub wait_loop : ℕ → (Server → Run Bool) → Server → Run Server
  wait_loop zero ready s = waits
  wait_loop (suc k) ready s =
      ready s >>= λ b. elim b [ true ↦ ok s | false ↦ wait_loop k ready (others s) ]

  unfoldable pub wait_on_getargs_usleep : ℕ → XprtPtr → Server → Run Server
  wait_on_getargs_usleep k p s0 = do
    (_, s) ← in_registry (xprt_progress_setbits p progress_wait) s0
    s' ← wait_loop k (got_args p) s
    (_, s'') ← in_registry (xprt_progress_clrbits p progress_wait) s'
    ok s''

  unfoldable pub wait_on_getargs_mutex : ℕ → XprtPtr → Server → Run Server
  wait_on_getargs_mutex k p s = do s' ← wait_loop k (ready_lock p) s; ok (lock_ready p s')

  unfoldable pub wait_on_getargs : ℕ → XprtPtr → Server → Run Server
  wait_on_getargs k p s = do
    x ← lift (xprt_to_mtxprt p s.reg)
    if (if x.parent == no_parent then env.wait_method_tcp else env.wait_method_udp) == wait_mutex
        then wait_on_getargs_mutex k p s
        else wait_on_getargs_usleep k p s

  unfoldable pub wait_on_return : ℕ → Server → Run Server
  wait_on_return k s = wait_loop k (λ t. ok (not (t.worker_return == 0))) s
