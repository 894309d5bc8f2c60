-- ===== src/Registry/Active/Polled.antt =====
-- src/librpc/svc_run.c, `svc_poll`: the array that it hands to `poll`.
use rpc_mt.Common.{
  ℕ, zero, suc, ◌+◌, ◌≤◌, ◌<◌, ◌≡◌, ◌≢◌, refl, inl, inr, ◌⊎◌, Option, none, some, List, [], ◌∷◌,
  arith, length, length-take, take, drop, get_elem?, get_elem?-lt, if◌then◌else◌, ◌==◌, ne→==,
  le→ltb,
}
use rpc_mt.Common.Outcome.{ok}
use rpc_mt.Registry.{Registry, Xprt, XprtPtr, bad, at, PollFd}
use rpc_mt.Registry.Active.{socket_to_xprt, poll_slot, add, collect, fd_alloc_roundup}

-- The entry for the transport of a socket: it is polled unless it is busy.
abbrev entry_for : ℕ → ℕ → Option Xprt → Option PollFd
entry_for fd events none = none
entry_for fd events (some x) =
    if x.busy == 0 then some (record { fd = some fd; events = events; revents = 0 }) else none

abbrev entry_at : ℕ → ℕ → (ℕ → Option Xprt) → Option XprtPtr → Option PollFd
entry_at fd events heap (some (at a)) = entry_for fd events (heap a)
entry_at fd events heap other = none

abbrev wanted_fd : Registry → ℕ → Option ℕ → Option PollFd
wanted_fd r events none = none
wanted_fd r events (some fd) = entry_at fd events r.heap (get_elem? r.sock_xports fd)

-- What becomes of a slot: nothing if it is free or if no transport has its socket, and nothing while that
-- is busy; else the descriptor with its events.
abbrev pub wanted : Registry → PollFd → Option PollFd
wanted r p = wanted_fd r p.events p.fd

pub wanted_all : Registry → List PollFd → List PollFd
wanted_all r [] = []
wanted_all r (p ∷ l) = add (wanted r p) (wanted_all r l)

-- A slot is free, or its descriptor is one of the table, and of a live transport or none.
abbrev pub Pollable : Registry → Option ℕ → Type 0
Pollable r none = Unit
Pollable r (some fd) =
    (fd ≤ r.xports_size)
    × ((get_elem? r.sock_xports fd ≡ some bad)
        ⊎ ((a : ℕ) × (x : Xprt) × (get_elem? r.sock_xports fd ≡ some (at a)) × (r.heap a ≡ some x)))

drop_at :
    {A : Type 0} (v : List A) (i : ℕ) {p : A}
    → get_elem? v i ≡ some p
    → drop i v ≡ p ∷ drop (i + 1) v
drop_at [] i e = cc
drop_at (x ∷ v) zero e = ground (arith, e)
drop_at (x ∷ v) (suc i) e =
    (let next : suc i + 1 ≡ suc (i + 1) = omega arith in rw next (drop_at v i e))

length-add : (o : Option PollFd) (l : List PollFd) → length (add o l) ≤ length l + 1
length-add none l = omega arith
length-add (some p) l = omega arith

module _ (mtmode : ℕ) (threads : mtmode ≢ 0) (r : Registry) where
  slot_run :
      (events : ℕ) (fd : Option ℕ)
      → Pollable r fd
      → poll_slot mtmode events fd r ≡ ok (wanted_fd r events fd, r)
  unfolding poll_slot socket_to_xprt
  slot_run events none h = refl
  slot_run events (some fd) (le, inl nothing) = rw (le→ltb _ _ le) (rw nothing refl)
  slot_run events (some fd) (le, inr (a, x, slot, here)) =
      let threads' = ne→== _ _ threads in rw (le→ltb _ _ le) (rw slot (rw here (rw threads' refl)))

  collect_run :
      (k i : ℕ)
      → i + k ≤ length r.pollfd
      → ((j : ℕ) (p : PollFd) → j < i + k → get_elem? r.pollfd j ≡ some p → Pollable r p.fd)
      → collect mtmode k i r ≡ ok (wanted_all r (take k (drop i r.pollfd)), r)
  unfolding collect wanted_all
  collect_run zero i le fine = refl
  collect_run (suc k) i le fine =
      let (p, here) = get_elem?-lt r.pollfd i (omega arith) in
      let rest = collect_run k (i + 1) (omega arith) (λ j q lt e. fine j q (omega arith) e) in
      rw (here, slot_run p.events p.fd (fine i p (omega arith) here), rest, drop_at r.pollfd i here)
        refl

  wanted_length : (l : List PollFd) → length (wanted_all r l) ≤ length l
  unfolding wanted_all
  wanted_length [] = omega arith
  wanted_length (p ∷ l) = omega (arith, length-add (wanted r p) (wanted_all r l), wanted_length l)

  -- In a multi-threaded mode, where each slot of the polled array below
  -- `max_pollfd` is free or has a descriptor of the table with
  -- a live transport or none: `svc_poll` hands to `poll`, in the order of the slots, the descriptors of
  -- these slots whose transport is not busy, with their events; there are no more of them than the
  -- space that it asks for, and the registry is as before.
  pub collect_lem :
      (max_pollfd : ℕ)
      → max_pollfd ≤ length r.pollfd
      → ((j : ℕ) (p : PollFd) → j < max_pollfd → get_elem? r.pollfd j ≡ some p → Pollable r p.fd)
      → (collect mtmode max_pollfd 0 r ≡ ok (wanted_all r (take max_pollfd r.pollfd), r))
        × (length (wanted_all r (take max_pollfd r.pollfd)) ≤ fd_alloc_roundup max_pollfd)
  unfolding fd_alloc_roundup
  collect_lem max_pollfd le fine = (
    collect_run max_pollfd 0 (omega arith) (λ j q lt e. fine j q (omega arith) e),
    omega (arith, wanted_length (take max_pollfd r.pollfd), length-take max_pollfd r.pollfd),
  )
