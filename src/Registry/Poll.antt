-- ===== src/Registry/Poll.antt =====
-- src/librpc/svc.c, `init_pollfd` and `pollfd_remove`: the array that the server polls.
pub mod Slots
use rpc_mt.Common.{
  ℕ, zero, suc, ◌+◌, Bool, true, false, Option, none, some, List, [], ◌∷◌, if◌then◌else◌, ltb, ◌==◌,
  get_elem?,
}
use rpc_mt.Common.Outcome.{Outcome, ok, died, fault, ◌>>=◌, ◌>>◌, deref}
use rpc_mt.Registry.{Registry, PollFd, store}

-- POLLIN | POLLPRI
abbrev pub read_events : ℕ
read_events = 3

abbrev pub ebadf : ℕ
ebadf = 9

abbrev pub is_fd : Option ℕ → ℕ → Bool
is_fd none sock = false
is_fd (some f) sock = f == sock

abbrev pub is_free : Option ℕ → Bool
is_free none = true
is_free (some f) = false

unfoldable pub init_read_pollfd : List PollFd → ℕ → ℕ → Outcome (List PollFd)
init_read_pollfd v slot fd =
    store v slot (record { fd = some fd; events = read_events; revents = 0 })

-- The search for an empty slot: the slot, or `none` when the rounds are up.
unfoldable pub find_slot : ℕ → List PollFd → ℕ → Outcome (Option ℕ)
find_slot zero v slot = ok none
find_slot (suc k) v slot = deref (get_elem? v slot) >>= λ p. elim (is_free p.fd) [
  | true ↦ ok (some slot)
  | false ↦ find_slot k v (slot + 1)
]

abbrev fill_slot : ℕ → ℕ → Registry → Outcome (ℕ × Registry)
fill_slot slot fd r = do v ← init_read_pollfd r.pollfd slot fd; ok (0, record r { pollfd = v })

-- The status that `init_pollfd` returns, and the new state.
unfoldable pub init_pollfd : ℕ → Registry → Outcome (ℕ × Registry)
unfolding init_read_pollfd
init_pollfd fd r = find_slot r.max_pollfd r.pollfd 0 >>= λ found. elim found [
  | some slot ↦ fill_slot slot fd r
  | none ↦
      if ltb r.pollfd_size r.max_pollfd
      then ok (ebadf, r)
      else fill_slot r.max_pollfd fd (record r { max_pollfd = r.max_pollfd + 1 })
]

unfoldable pub pollfd_remove : List PollFd → ℕ → ℕ → Outcome (List PollFd)
pollfd_remove v zero sock = ok v
pollfd_remove [] (suc n) sock = fault
pollfd_remove (p ∷ v) (suc n) sock = do
  rest ← pollfd_remove v n sock
  ok ((if is_fd p.fd sock then record p { fd = none } else p) ∷ rest)
