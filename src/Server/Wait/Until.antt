-- ===== src/Server/Wait/Until.antt =====
-- src/librpc/svc.c, `wait_on_getargs`: when a wait ends.
use Prim.Native.Nat.{bit_and, bit_or}
use rpc_mt.Common.{
  ◌^◌, ◌-◌, ◌≢◌, ◌⊎◌, inl, inr, ◌∙◌, not, ◌==◌, ==-self, ne→==, some, ℕ, zero, suc, ◌<◌, ◌≡◌, refl,
  ap, Bool, true, false, arith,
}
use rpc_mt.Common.Bits.{bit_and_getargs_return}
use rpc_mt.Common.Outcome as Results
use rpc_mt.Bitvec.{bitvec_get_bit}
use rpc_mt.Registry.{
  Registry, Xprt, at, progress_getargs, progress_return, progress_wait, write_xprt,
}
use rpc_mt.Registry.Gc.Return.{decode_run, setbits_run, clrbits_run}
use rpc_mt.Server.{Server, Env, ok}
use rpc_mt.Server.Wait.{
  got_args, of_interest, xprt_get_progress, wait_on_getargs_usleep, wait_loop, others,
}

-- A live transport whose id can be looked up in the set of marks.
pub record Traced (r : Registry) (a : ℕ) (x : Xprt) : Type 0 where
  pub marked : Bool
  pub here : r.heap a ≡ some x
  pub was : bitvec_get_bit r.xprtgc_idset x.id ≡ Results.ok marked

-- The worker has set XPRT_GETARGS or XPRT_RETURN.
abbrev pub Arrived : Xprt → Type 0
Arrived x = (bit_and x.progress progress_getargs ≢ 0) ⊎ (bit_and x.progress progress_return ≢ 0)

-- The worker has set neither.
abbrev pub Pending : Xprt → Type 0
Pending x = (bit_and x.progress progress_getargs ≡ 0) × (bit_and x.progress progress_return ≡ 0)

progress_lem :
    (a : ℕ) (s : Server) (x : Xprt) → Traced s.reg a x → xprt_get_progress (at a) s ≡ ok x.progress
unfolding xprt_get_progress
progress_lem a s x t = rw (t.here) (rw (decode_run s.reg a x t.marked t.here t.was) refl)

got_args_lem :
    (a : ℕ) (s : Server) (x : Xprt)
    → Traced s.reg a x
    → got_args (at a) s ≡ ok (not (bit_and x.progress of_interest == 0))
got_args_lem a s x t = rw (progress_lem a s x t) refl

got_args-Arrived :
    (a : ℕ) (s : Server) (x : Xprt) → Traced s.reg a x → Arrived x → got_args (at a) s ≡ ok true
got_args-Arrived a s x t come =
    got_args_lem a s x t
    ∙ ap (λ (b : Bool). ok (not b)) (ne→== (bit_and x.progress of_interest) 0 (some_bit come))
  where
    some_bit : Arrived x → bit_and x.progress of_interest ≢ 0
    some_bit (inl set) = omega (arith, bit_and_getargs_return x.progress)
    some_bit (inr set) = omega (arith, bit_and_getargs_return x.progress)

got_args-Pending :
    (a : ℕ) (s : Server) (x : Xprt) → Traced s.reg a x → Pending x → got_args (at a) s ≡ ok false
got_args-Pending a s x t (clear, clear') =
    let none_set : bit_and x.progress of_interest ≡ 0 =
      omega (arith, bit_and_getargs_return x.progress) in
    got_args_lem a s x t ∙ ap (λ (k : ℕ). ok (not (k == 0))) none_set

module _ (env : Env) where
  -- The server after some sleeps of this thread.
  pub after_sleeps : ℕ → Server → Server
  after_sleeps zero s = s
  after_sleeps (suc k) s = after_sleeps k (others env s)

  -- Sleep by sleep: the transport at `a` is live and its worker has set neither bit until the `m`-th
  -- sleep, and has set one or both then.
  abbrev pub WorkerIn : (a m : ℕ) → Server → Type 0
  WorkerIn a zero s = (x : Xprt) × Traced s.reg a x × Arrived x
  WorkerIn a (suc m) s = ((x : Xprt) × Traced s.reg a x × Pending x) × WorkerIn a m (others env s)

  wait_loop_until :
      (k m a : ℕ) (s : Server)
      → m < k
      → WorkerIn a m s
      → wait_loop env k (got_args (at a)) s ≡ ok (after_sleeps m s)
  unfolding wait_loop after_sleeps
  wait_loop_until zero m a s lt h = absurd (omega arith)
  wait_loop_until (suc k) zero a s lt (x, t, come) = rw (got_args-Arrived a s x t come) refl
  wait_loop_until (suc k) (suc m) a s lt ((x, t, pending), later) =
      rw (got_args-Pending a s x t pending)
        (wait_loop_until k m a (others env s) (omega arith) later)

  worker_then :
      (m a : ℕ) (s : Server)
      → WorkerIn a m s
      → (x : Xprt) × Traced (after_sleeps m s).reg a x × Arrived x
  unfolding after_sleeps
  worker_then zero a s h = h
  worker_then (suc m) a s h = worker_then m a (others env s) h.1

  log_then : (m : ℕ) (s : Server) → (after_sleeps m s).log ≡ s.log
  unfolding after_sleeps
  log_then zero s = refl
  log_then (suc m) s = log_then m (others env s)

-- `mtxp_progress` while this thread waits.
abbrev pub waiting : Xprt → Xprt
waiting x = record x { progress = bit_or x.progress progress_wait }

abbrev pub done_waiting : Xprt → Xprt
done_waiting x = record x { progress = bit_and x.progress (2 ^ 32 - 1 - progress_wait) }

abbrev pub with_xprt : ℕ → Xprt → Server → Server
with_xprt a x s = record s { reg = write_xprt (at a) x s.reg }

module _ (env : Env) (k m a : ℕ) (s : Server) (x : Xprt) (live : Traced s.reg a x) (soon : m < k)
    (worker : WorkerIn env a m (with_xprt a (waiting x) s)) where
  -- Let a transport be live, with an id that the set of marks can be asked for, from before the wait to
  -- the end of the `m`-th sleep of the receiving thread, and let its worker have set neither XPRT_GETARGS
  -- nor XPRT_RETURN before that sleep and one of them, or both, in it. Then `wait_on_getargs_usleep` ends
  -- after `m` sleeps, whichever of the two it is; XPRT_WAIT is cleared of the progress that is found
  -- then, and this thread has called nothing meanwhile.
  pub wait_on_getargs_usleep_ends :
      (s' : Server) × (y : Xprt) × (wait_on_getargs_usleep env k (at a) s ≡ ok s')
      × ((after_sleeps env m (with_xprt a (waiting x) s)).reg.heap a ≡ some y)
      × Arrived y
      × (s'.reg.heap a ≡ some (done_waiting y))
      × (s'.log ≡ s.log)
  unfolding wait_on_getargs_usleep
  wait_on_getargs_usleep_ends =
      let t = after_sleeps env m (with_xprt a (waiting x) s) in
      let (y, there, come) = worker_then env m a (with_xprt a (waiting x) s) worker in
      let looped = wait_loop_until env k m a (with_xprt a (waiting x) s) soon worker in
      let begun = setbits_run s.reg a x live.marked live.here live.was progress_wait in
      let ended = clrbits_run t.reg a y there.marked there.here there.was progress_wait in
      (
        with_xprt a (done_waiting y) t,
        y,
        rw begun (rw looped (rw ended refl)),
        there.here,
        come,
        rw (==-self a) refl,
        log_then env m (with_xprt a (waiting x) s),
      )
