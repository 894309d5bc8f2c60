-- ===== src/Registry/Enrol/Leave.antt =====
-- src/librpc/svc.c, `xprt_unregister` of a transport that is registered: it succeeds.
use rpc_mt.Common.{
  ℕ, ◌≤◌, ◌<◌, ◌≡◌, refl, ap, ◌∙◌, inl, inr, true, false, some, List, ◌&&◌, arith, length,
  get_elem?, get_elem?-lt, set, ltb, Bool-cases, get_elem?-set_self, ==-self, lt_of_get_elem?,
}
use rpc_mt.Common.Outcome.{ok}
use rpc_mt.Bitvec.{Bitvec, bitvec_get_bit, bitvec_clr_bit}
use rpc_mt.Bitvec.Cells.{clr_bit_total, get_bit-clr_bit, same_cell_self}
use rpc_mt.Registry.{Registry, Xprt, at, bad, PollFd, no_parent, incr_counter, decr_counter}
use rpc_mt.Registry.Ids.{unregister_id}
use rpc_mt.Registry.Poll.{pollfd_remove, is_fd}
use rpc_mt.Registry.Poll.Slots.{pollfd_remove_total, freed}
use rpc_mt.Registry.Enrol.{leave_socket, detach, xprt_unregister_with_lock}
use rpc_mt.Registry.Enrol.Present.{unregister_steps}
use rpc_mt.Registry.Enrol.Valid.{IsValid}
use rpc_mt.Registry.Enrol.Unregister.{left, xprt_unregister_with_lock-IsValid}

-- A transport at address `a`, no clone, stands in the slot of its id, and its bit is set.
pub record Enrolled (r : Registry) (a : ℕ) (x : Xprt) : Type 0 where
  pub here : r.heap a ≡ some x
  pub whole : x.parent ≡ no_parent
  pub slot : get_elem? r.xports x.id ≡ some (at a)
  pub id : x.id ≤ r.xports_maxid
  pub marked : bitvec_get_bit r.xports_idset x.id ≡ ok true
  pub sock : x.sock < length r.sock_xports

-- What an unregistering of `x` leaves.
abbrev pub gone : Xprt → List PollFd → Bitvec → Registry → Registry
gone x polled idset r = record r {
  xports = set r.xports x.id bad;
  xports_version = incr_counter r.xports_version;
  xports_idset = idset;
  xports_count = decr_counter r.xports_count;
  pollfd = polled;
  sock_xports = set r.sock_xports x.sock bad;
}

module _ (r : Registry) (a : ℕ) (x : Xprt) (v : IsValid r) (w : Enrolled r a x) where
  leave_socket_total :
      (polled : List PollFd)
      → pollfd_remove r.pollfd r.max_pollfd x.sock ≡ ok polled
      → detach x r ≡ ok (left x.sock polled r)
  unfolding detach leave_socket
  leave_socket_total polled removed = ground (arith, w.whole, removed, w.sock, ==-self no_parent)

  unregister_id_total :
      (polled : List PollFd) (idset : Bitvec)
      → bitvec_clr_bit r.xports_idset x.id ≡ ok idset
      → unregister_id x.id (left x.sock polled r)
        ≡ ok (record r {
          xports = set r.xports x.id bad;
          xports_version = incr_counter r.xports_version;
          xports_idset = idset;
          xports_count = decr_counter r.xports_count;
          pollfd = polled;
          sock_xports = set r.sock_xports x.sock bad;
        })
  unfolding unregister_id
  unregister_id_total polled idset cleared =
      ground (arith, w.id, cleared, lt_of_get_elem? r.xports x.id w.slot)

  -- After the removal no slot in use is the socket's.
  not_polled :
      (polled : List PollFd)
      → ((i : ℕ) (p : PollFd)
          → get_elem? r.pollfd i ≡ some p
          → get_elem? polled i ≡ some (freed (ltb i r.max_pollfd && is_fd p.fd x.sock) p))
      → (s : ℕ) (p : PollFd) → s < r.max_pollfd
      → get_elem? polled s ≡ some p
      → is_fd p.fd x.sock ≡ false
  not_polled polled same s p lt e =
      let (q, old) = get_elem?-lt r.pollfd s (omega (arith, v.sized.pollfd, v.sized.polled)) in
      elim (Bool-cases (is_fd q.fd x.sock)) [
        | inl hit ↦ ground (arith, same s q old, hit, e, lt)
        | inr miss ↦ ground (arith, same s q old, miss, e, lt)
      ]

  pub unregister_run :
      (polled : List PollFd) (idset : Bitvec)
      → pollfd_remove r.pollfd r.max_pollfd x.sock ≡ ok polled
      → bitvec_clr_bit r.xports_idset x.id ≡ ok idset
      → xprt_unregister_with_lock (at a) r ≡ ok (gone x polled idset r)
  unregister_run polled idset removed cleared =
      unregister_steps r a x v.sized.created w.here w.slot w.id (left x.sock polled r)
        (leave_socket_total polled removed)
      ∙ unregister_id_total polled idset cleared

  pub unregister_parts :
      (polled : List PollFd) × (idset : Bitvec) × (xprt_unregister_with_lock (at a) r
        ≡ ok (gone x polled idset r))
  unregister_parts =
      let (polled, removed, _, same) =
        pollfd_remove_total r.pollfd r.max_pollfd x.sock
          (omega (arith, v.sized.pollfd, v.sized.polled)) in
      let (idset, cleared) = clr_bit_total r.xports_idset x.id w.marked in
      (polled, idset, unregister_run polled idset removed cleared)

  -- In a well-formed registry, unregistering a transport that is registered and no clone succeeds, and
  -- leaves a well-formed registry: the slots of its id and of its socket are empty, its socket is polled no longer, its bit
  -- is clear, and its structure is untouched, as all others.
  pub xprt_unregister_with_lock_total :
      (r' : Registry) × (xprt_unregister_with_lock (at a) r ≡ ok r')
      × IsValid r'
      × (get_elem? r'.xports x.id ≡ some bad)
      × (get_elem? r'.sock_xports x.sock ≡ some bad)
      × ((s : ℕ) (p : PollFd)
          → s < r'.max_pollfd
          → get_elem? r'.pollfd s ≡ some p
          → is_fd p.fd x.sock ≡ false)
      × (bitvec_get_bit r'.xports_idset x.id ≡ ok false)
      × (r'.heap ≡ r.heap)
  xprt_unregister_with_lock_total =
      let (polled, removed, _, same) =
        pollfd_remove_total r.pollfd r.max_pollfd x.sock
          (omega (arith, v.sized.pollfd, v.sized.polled)) in
      let (idset, cleared) = clr_bit_total r.xports_idset x.id w.marked in
      let done = unregister_run polled idset removed cleared in
      (
        _,
        done,
        xprt_unregister_with_lock-IsValid (at a) r _ v done,
        get_elem?-set_self r.xports x.id bad (lt_of_get_elem? r.xports x.id w.slot),
        get_elem?-set_self r.sock_xports x.sock bad w.sock,
        not_polled polled same,
        get_bit-clr_bit r.xports_idset x.id x.id cleared w.marked ∙ ap ok (same_cell_self x.id),
        refl,
      )
