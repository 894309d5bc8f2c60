-- ===== src/Registry/Active.antt =====
-- src/librpc/svc_run.c and svc.c: which sockets are polled, and how many transports are busy.
pub mod Polled
use Prim.Native.Nat.{bit_and}
use rpc_mt.Common.{
  ℕ, zero, suc, ◌+◌, ◌-◌, ◌*◌, ◌/◌, Bool, true, false, not, ◌&&◌, ◌||◌, Option, none, some, List,
  [], ◌∷◌, get_elem?, if◌then◌else◌, ◌==◌, ltb,
}
use rpc_mt.Common.Outcome.{Outcome, ok, died, fault, ◌>>=◌, ◌>>◌, deref}
use rpc_mt.Registry.{
  Registry, Xprt, XprtPtr, bad, PollFd, progress_return, xprt_to_mtxprt, write_xprt,
}
use rpc_mt.Registry.Gc.{is_bad, rounds}

unfoldable pub socket_to_xprt : (fd : ℕ) → Registry → Outcome XprtPtr
socket_to_xprt fd r = if ltb r.xports_size fd then died else deref (get_elem? r.sock_xports fd)

-- The ids from `id` on; the first argument is the number of rounds to go.
unfoldable pub busy_loop : ℕ → (id nbusy : ℕ) → Registry → Outcome ℕ
busy_loop zero id nbusy r = ok nbusy
busy_loop (suc k) id nbusy r = deref (get_elem? r.xports id) >>= λ q. elim (is_bad q) [
  | true ↦ busy_loop k (id + 1) nbusy r
  | false ↦
      xprt_to_mtxprt q r >>= λ x. busy_loop k (id + 1) (if x.busy == 0 then nbusy else nbusy + 1) r
]

unfoldable pub count_busy : Registry → Outcome ℕ
count_busy r = busy_loop (rounds r) 0 0 r

-- In a single-threaded server a transport that has returned is used again.
abbrev pub use_again : (mtmode : ℕ) → XprtPtr → Xprt → Registry → Registry
use_again mtmode p x r =
    if mtmode == 0 && not (bit_and x.progress progress_return == 0)
    then write_xprt p (record x { progress = 0; busy = 0 }) r
    else r

-- Whether the transport's socket is polled, after `use_again`.
abbrev pub is_polled : (mtmode : ℕ) → Xprt → Bool
is_polled mtmode x = mtmode == 0 || x.busy == 0

-- The entry of `pollfdv` for the descriptor of a slot of `xports_pollfd`, if there is one, and the
-- registry after it.
abbrev pub xprt_entry :
    (mtmode events fd : ℕ) → XprtPtr → Registry → Outcome (Option PollFd × Registry)
xprt_entry mtmode events fd q r =
    if is_bad q
    then ok (none, r)
    else xprt_to_mtxprt q r >>= λ x. ok (
      if is_polled mtmode x
          then some (record { fd = some fd; events = events; revents = 0 })
          else none,
      use_again mtmode q x r,
    )

unfoldable pub poll_slot :
    (mtmode events : ℕ) → Option ℕ → Registry → Outcome (Option PollFd × Registry)
poll_slot mtmode events none r = ok (none, r)
poll_slot mtmode events (some fd) r = socket_to_xprt fd r >>= λ q. xprt_entry mtmode events fd q r

abbrev pub add : Option PollFd → List PollFd → List PollFd
add none l = l
add (some p) l = p ∷ l

-- The slots from `i` on: the array for `poll`. The second argument is the number of rounds to go.
unfoldable pub collect : (mtmode : ℕ) → ℕ → (i : ℕ) → Registry → Outcome (List PollFd × Registry)
collect mtmode zero i r = ok ([], r)
collect mtmode (suc k) i r = do
  p ← deref (get_elem? r.pollfd i)
  (q, r') ← poll_slot mtmode p.events p.fd r
  (l, r'') ← collect mtmode k (i + 1) r'
  ok (add q l, r'')

abbrev pub fd_alloc_granularity : ℕ
fd_alloc_granularity = 64

unfoldable pub fd_alloc_roundup : ℕ → ℕ
fd_alloc_roundup count =
    (count + fd_alloc_granularity - 1) / fd_alloc_granularity * fd_alloc_granularity
