-- ===== src/Registry/Poll/Slots.antt =====
-- What the search for an empty slot finds, and what `init_pollfd` does with it.
use native.Mathlib.Decide.{dec_lt}
use rpc_mt.Common.{
  ℕ, zero, suc, ◌+◌, ◌≤◌, ◌<◌, ◌≡◌, refl, ◌∙◌, ◌&&◌, ◌⊎◌, inl, inr, Bool, true, false, none, some,
  List, [], ◌∷◌, arith, length, get_elem?, get_elem?-lt, set, ltb, if◌then◌else◌, Bool-cases,
}
use rpc_mt.Common.Outcome.{ok, fault}
use rpc_mt.Registry.{Registry, PollFd}
use rpc_mt.Registry.Poll.{find_slot, init_pollfd, is_free, is_fd, read_events, pollfd_remove}

-- Slot `i` of the array is in use.
abbrev pub InUse : List PollFd → ℕ → Type 0
InUse v i = (p : PollFd) → get_elem? v i ≡ some p → is_free p.fd ≡ false

module _ (k : ℕ) (v : List PollFd) (slot : ℕ) {p : PollFd} (here : get_elem? v slot ≡ some p) where
  find_slot_here : is_free p.fd ≡ true → find_slot (suc k) v slot ≡ ok (some slot)
  unfolding find_slot
  find_slot_here free = ground (arith, here)

  find_slot_later : is_free p.fd ≡ false → find_slot (suc k) v slot ≡ find_slot k v (slot + 1)
  unfolding find_slot
  find_slot_later busy = ground (arith, here)

-- Slot `s` of the array is free, and it is the first such from `lo` on.
pub record FirstFree (v : List PollFd) (lo s : ℕ) : Type 0 where
  pub slot : PollFd
  pub here : get_elem? v s ≡ some slot
  pub free : is_free slot.fd ≡ true
  pub before : (i : ℕ) → lo ≤ i → i < s → InUse v i

-- A slot in use comes before the others.
InUse-from :
    (v : List PollFd) (lo hi : ℕ) {p : PollFd}
    → get_elem? v lo ≡ some p
    → is_free p.fd ≡ false
    → ((i : ℕ) → lo + 1 ≤ i → i < hi → InUse v i)
    → (i : ℕ) → lo ≤ i
    → i < hi
    → InUse v i
InUse-from v lo hi {p} here busy rest i le lt = elim (dec_lt lo i) [
  | yes later ↦ rest i (omega arith) lt
  | no same ↦ λ q e.
      let here' : get_elem? v i ≡ some p = (let t : i ≡ lo = omega arith in rw t here) in
      ground arith
]

-- The search ends: at the first free slot of the range, or past a range that is all in use.
pub find_slot_total :
    (k : ℕ) (v : List PollFd) (slot : ℕ)
    → slot + k ≤ length v
    → ((s : ℕ) × (find_slot k v slot ≡ ok (some s))
        × (s < length v)
        × (s < slot + k)
        × FirstFree v slot s)
      ⊎ ((find_slot k v slot ≡ ok none) × ((i : ℕ) → slot ≤ i → i < slot + k → InUse v i))
unfolding find_slot
find_slot_total zero v slot h = inr (refl, λ i lo hi. absurd (omega arith))
find_slot_total (suc k) v slot h =
    let (p, here) = get_elem?-lt v slot (omega arith) in
    elim (Bool-cases (is_free p.fd)) [
      | inl free ↦ inl (
        slot,
        find_slot_here k v slot here free,
        omega arith,
        omega arith,
        record { slot = p; here = here; free = free; before = λ i le lt. absurd (omega arith) },
      )
      | inr busy ↦ elim (find_slot_total k v (slot + 1) (omega arith)) [
        | inl (s, found, lt, lt', first) ↦ inl (
          s,
          find_slot_later k v slot here busy ∙ found,
          lt,
          omega arith,
          record {
            slot = first.slot;
            here = first.here;
            free = first.free;
            before = InUse-from v slot s here busy first.before;
          },
        )
        | inr (up, rest) ↦ inr (
          find_slot_later k v slot here busy ∙ up,
          λ i le lt.
              InUse-from v slot (slot + suc k) here busy (λ j le' lt'. rest j le' (omega arith)) i
                le lt,
        )
      ]
    ]

-- The state with the descriptor polled in slot `s`, and `m` slots looked at from then on.
abbrev pub polled_in : (s m fd : ℕ) → Registry → Registry
polled_in s m fd r = record r {
  pollfd = set r.pollfd s (record { fd = some fd; events = read_events; revents = 0 });
  max_pollfd = m;
}

-- Where the array is as long as `xports_pollfd_size` says and the slots in use fit, `init_pollfd`
-- polls the descriptor in the first slot below `xports_max_pollfd` that is free; if all of these are in
-- use, in the slot of that number, which it counts as one more; and if these fill the array, it writes
-- past its end.
pub init_pollfd_cases :
    (fd : ℕ) (r : Registry)
    → length r.pollfd ≡ r.pollfd_size
    → r.max_pollfd ≤ r.pollfd_size
    → ((s : ℕ) × (s < r.max_pollfd)
        × FirstFree r.pollfd 0 s
        × (init_pollfd fd r ≡ ok (0, polled_in s r.max_pollfd fd r)))
      ⊎ (((i : ℕ) → i < r.max_pollfd → InUse r.pollfd i)
          × (((r.max_pollfd < r.pollfd_size)
                × (init_pollfd fd r ≡ ok (0, polled_in r.max_pollfd (r.max_pollfd + 1) fd r)))
              ⊎ ((r.max_pollfd ≡ r.pollfd_size) × (init_pollfd fd r ≡ fault))))
unfolding init_pollfd
init_pollfd_cases fd r size fits = elim (find_slot_total r.max_pollfd r.pollfd 0 (omega arith)) [
  | inl (s, found, lt, lt', first) ↦ inl (s, omega arith, first, rw found (ground arith))
  | inr (up, busy) ↦ inr (
    λ i h. busy i (omega arith) (omega arith),
    elim (dec_lt r.max_pollfd r.pollfd_size) [
      | yes room ↦ inl (room, rw up (ground arith))
      | no full ↦ inr (omega arith, rw up (ground arith))
    ],
  )
]

-- The same by the result: some slot below the new bound is polled, or the array is full.
pub init_pollfd_total :
    (fd : ℕ) (r : Registry)
    → length r.pollfd ≡ r.pollfd_size
    → r.max_pollfd ≤ r.pollfd_size
    → ((s m : ℕ) × (s < m)
        × (m ≤ r.pollfd_size)
        × (r.max_pollfd ≤ m)
        × (init_pollfd fd r ≡ ok (0, polled_in s m fd r)))
      ⊎ ((init_pollfd fd r ≡ fault)
          × (r.max_pollfd ≡ r.pollfd_size)
          × ((i : ℕ) → i < r.pollfd_size → InUse r.pollfd i))
init_pollfd_total fd r size fits = elim (init_pollfd_cases fd r size fits) [
  | inl (s, lt, _, done) ↦ inl (s, r.max_pollfd, lt, fits, omega arith, done)
  | inr (_, inl (room, done)) ↦
      inl (r.max_pollfd, r.max_pollfd + 1, omega arith, omega arith, omega arith, done)
  | inr (busy, inr (full, out)) ↦ inr (out, full, λ i h. busy i (omega arith))
]

abbrev pub freed : Bool → PollFd → PollFd
freed b p = if b then record p { fd = none } else p

-- In an array of at least `n` slots, removing a socket succeeds; it frees exactly the socket's slots
-- below `n`, and keeps the length and all else.
pub pollfd_remove_total :
    (v : List PollFd) (n sock : ℕ)
    → n ≤ length v
    → (v' : List PollFd) × (pollfd_remove v n sock ≡ ok v')
      × (length v' ≡ length v)
      × ((i : ℕ) (p : PollFd)
          → get_elem? v i ≡ some p
          → get_elem? v' i ≡ some (freed (ltb i n && is_fd p.fd sock) p))
unfolding pollfd_remove
pollfd_remove_total v zero sock h = (v, refl, refl, λ i p e. ground (arith, e))
pollfd_remove_total [] (suc n) sock h = absurd (omega arith)
pollfd_remove_total (q ∷ v) (suc n) sock h =
    let (v', done, len, same) = pollfd_remove_total v n sock (omega arith) in
    (freed (is_fd q.fd sock) q ∷ v', rw done refl, omega arith, λ i. at_index i v' same)
  where
    at_index :
        (i : ℕ) (v' : List PollFd)
        → ((i : ℕ) (p : PollFd)
            → get_elem? v i ≡ some p
            → get_elem? v' i ≡ some (freed (ltb i n && is_fd p.fd sock) p))
        → (p : PollFd) → get_elem? (q ∷ v) i ≡ some p
        → get_elem? (freed (is_fd q.fd sock) q ∷ v') i
          ≡ some (freed (ltb i (suc n) && is_fd p.fd sock) p)
    at_index zero v' same p e = ground (arith, e)
    at_index (suc i) v' same p e = ground (arith, same i p e)
