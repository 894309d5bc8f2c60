-- ===== src/Server/Poll.antt =====
-- src/librpc/svc_run.c, the main loop, and `svc_getreq_poll_mt` of src/librpc/svc.c. The variables are
-- those of the registry; `poll` and the number of processors are the system's.
pub mod Serve
use Prim.Native.Nat.{bit_and}
use rpc_mt.Common.{
  ℕ, zero, suc, ◌+◌, ◌-◌, ◌*◌, ◌/◌, ◌^◌, Bool, true, false, not, ◌&&◌, ◌||◌, Option, none, some,
  List, [], ◌∷◌, ◌++◌, get_elem?, length, if◌then◌else◌, ◌==◌, ltb, leb,
}
use rpc_mt.Registry.{
  Registry, Xprt, XprtPtr, null, bad, at, PollFd, progress_return, xprt_to_mtxprt, write_xprt,
  xports_init,
}
use rpc_mt.Registry.Gc.{xprt_gc_reap_all}
use rpc_mt.Registry.Active.{count_busy, collect}
use rpc_mt.Server.{Server, Env, Run, ok, died, fault, waits, ◌>>=◌, ◌>>◌, lift, in_registry}
use rpc_mt.Server.Wait.{others}
use rpc_mt.Server.Dispatch.{svc_getreq_common}

abbrev pub pollnval : ℕ
pollnval = 0x20

abbrev is_some : Option ℕ → Bool
is_some none = false
is_some (some fd) = true

-- `p->fd != -1 && p->revents`
abbrev pub has_input : PollFd → Bool
has_input p = is_some p.fd && not (p.revents == 0)

-- The first loop of `svc_getreq_poll_mt`, which counts.
unfoldable pub count_found : List PollFd → ℕ
count_found [] = 0
count_found (p ∷ l) = if has_input p then count_found l + 1 else count_found l

-- In a multi-threaded mode garbage is collected last.
unfoldable pub reap_last : Env → Server → Run Server
reap_last env s = if env.mtmode == 0 then ok s else (in_registry xprt_gc_reap_all s >>= λ r. ok r.1)

-- The second loop of `svc_getreq_poll_mt`: `found` counts, and the loop is left at `limit`.
module _ (env : Env) (k n : ℕ) where
  -- A descriptor is served unless it is not open.
  unfoldable pub serve_fd : PollFd → Server → Run Server
  serve_fd p s = serve p.fd
    where
      serve : Option ℕ → Run Server
      serve none = ok s
      serve (some fd) =
          if bit_and p.revents pollnval == 0 then svc_getreq_common env k n fd s else ok s

  unfoldable pub serve_found : List PollFd → (found limit : ℕ) → Server → Run Server
  serve_found [] found limit s = ok s
  serve_found (p ∷ l) found limit s = elim (has_input p) [
    | true ↦ serve_fd p s >>= λ s'. elim (leb limit (found + 1)) [
      | true ↦ ok s'
      | false ↦ serve_found l (found + 1) limit s'
    ]
    | false ↦ serve_found l found limit s
  ]

  unfoldable pub svc_getreq_poll_mt : List PollFd → (pollretval : ℕ) → Server → Run Server
  svc_getreq_poll_mt pfds pollretval s = if pollretval == 0 then ok s else (do
    let found = count_found pfds
    s' ← serve_found pfds 0 (if ltb found pollretval then found else pollretval) s
    reap_last env s')

-- What `poll` returns: -1, 0, or a number of entries of the array with `revents` filled in.
pub data Polled : Type 0 where
  failed timed_out : Polled
  events : ℕ → List PollFd → Polled

module _ (env : Env) (k n : ℕ) (poll : List PollFd → Server → Polled) where
  -- The lock is `xports_lock`; the messages on an error of `poll` are left out.
  unfoldable pub svc_poll : (max_pollfd : ℕ) → Server → Run Server
  svc_poll max_pollfd s0 = do
    (pollfdv, s) ← in_registry (collect env.mtmode max_pollfd 0) s0
    elim (poll pollfdv (others env s)) [
      | failed ↦ ok (others env s)
      | timed_out ↦ ok (others env s)
      | events m pfds ↦ svc_getreq_poll_mt env k n pfds m (others env s)
    ]

  -- `while (nbusy > nprocessors)`: a sleep, and an end where the number does not change.
  unfoldable pub rate_loop : ℕ → (nprocessors nbusy : ℕ) → Server → Run Server
  rate_loop zero nprocessors nbusy s = waits
  rate_loop (suc m) nprocessors nbusy s = elim (ltb nprocessors nbusy) [
    | true ↦ lift (count_busy (others env s).reg) >>= λ now. elim (now == nbusy) [
      | true ↦ ok (others env s)
      | false ↦ rate_loop m nprocessors now (others env s)
    ]
    | false ↦ ok s
  ]

  unfoldable pub rate_limit : (nprocessors : ℕ) → Server → Run Server
  rate_limit nprocessors s = lift (count_busy s.reg) >>= λ nbusy. rate_loop k nprocessors nbusy s

  unfoldable pub run_once : (nprocessors : ℕ) → Server → Run Server
  run_once nprocessors s0 = do
    let max_pollfd = s0.reg.max_pollfd
    (count, s1) ← in_registry xprt_gc_reap_all s0
    s2 ← rate_limit nprocessors s1
    svc_poll max_pollfd s2

  -- `while (svc_quit == 0)`; `svc_quit` is set by others. The first argument is the number of rounds.
  unfoldable pub run_loop : ℕ → (nprocessors : ℕ) → (svc_quit : Server → Bool) → Server → Run Server
  run_loop zero nprocessors svc_quit s = waits
  run_loop (suc m) nprocessors svc_quit s = elim (svc_quit s) [
    | true ↦ ok s
    | false ↦ elim (s.reg.max_pollfd == 0 && not s.reg.created) [
      | true ↦ ok s
      | false ↦ run_once nprocessors s >>= λ s'. run_loop m nprocessors svc_quit s'
    ]
  ]

  unfoldable pub svc_run :
      ℕ → (dtablesize nprocessors : ℕ) → (svc_quit : Server → Bool) → Server → Run Server
  svc_run m dtablesize nprocessors svc_quit s =
      run_loop m nprocessors svc_quit (record s { reg = xports_init dtablesize s.reg })
