-- ===== src/Registry/Gc/Destroy.antt =====
-- src/librpc/svc_udp.c and svc_tcp.c, `xp_destroy` of a registered transport that is no clone.
use native.Mathlib.Decide.{ℕ_discrete}
use rpc_mt.Common.{
  ℕ, ◌≡◌, ◌≢◌, refl, ap, sym, ◌∙◌, Bool, true, false, none, some, List, arith, get_elem?, set, ◌==◌,
  get_elem?-set_self, get_elem?-set_ne, lt_of_get_elem?, ne→==, ==-self,
}
use rpc_mt.Common.Outcome.{ok, ◌>>=◌}
use rpc_mt.Bitvec.{Bitvec}
use rpc_mt.Registry.{
  Registry, Xprt, at, bad, udp, tcp, Transport, PollFd, no_parent, write_xprt, update,
}
use rpc_mt.Registry.Enrol.{xprt_unregister_with_lock}
use rpc_mt.Registry.Enrol.Valid.{IsValid, change_xprt, write_xprt-Sized}
use rpc_mt.Registry.Enrol.Unregister.{xprt_unregister_with_lock-IsValid}
use rpc_mt.Registry.Enrol.Leave.{Enrolled, gone, unregister_parts}
use rpc_mt.Registry.Gc.{
  xprt_set_busy, close_socket, free_xprt, svcudp_destroy, svctcp_destroy, svc_destroy,
}

-- A descriptor is closed, or opened.
descriptors-IsValid : (r : Registry) (f : ℕ → Bool) → IsValid r → IsValid (record r { open_fd = f })
descriptors-IsValid r f v = record {
  sized = record {
    created = v.sized.created;
    size = v.sized.size;
    xports = v.sized.xports;
    sock_xports = v.sized.sock_xports;
    idset = v.sized.idset;
    pollfd = v.sized.pollfd;
    polled = v.sized.polled;
  };
  owned = v.owned;
}

descriptors-Enrolled :
    (r : Registry) (f : ℕ → Bool) (a : ℕ) (x : Xprt)
    → Enrolled r a x
    → Enrolled (record r { open_fd = f }) a x
descriptors-Enrolled r f a x w = record {
  here = w.here;
  whole = w.whole;
  slot = w.slot;
  id = w.id;
  marked = w.marked;
  sock = w.sock;
}

-- A structure that no slot refers to is freed.
freed-IsValid :
    (r : Registry) (a : ℕ)
    → IsValid r
    → ((j : ℕ) → get_elem? r.xports j ≢ some (at a))
    → IsValid (free_xprt (at a) r)
freed-IsValid r a v absent = record {
  sized = record {
    created = v.sized.created;
    size = v.sized.size;
    xports = v.sized.xports;
    sock_xports = v.sized.sock_xports;
    idset = v.sized.idset;
    pollfd = v.sized.pollfd;
    polled = v.sized.polled;
  };
  owned = λ j b e.
      let apart : (b == a) ≡ false =
        ne→== b a (λ t. absent j (e ∙ ap (λ (k : ℕ). some (at k)) t)) in
      let (y, there, id) = v.owned j b e in (y, rw apart there, id);
}

-- What is left of a destroyed transport.
abbrev pub Destroyed : Registry → ℕ → Xprt → Registry → Type 0
Destroyed r a x r' =
    IsValid r'
    × (r'.heap a ≡ none)
    × ((b : ℕ) → b ≢ a → r'.heap b ≡ r.heap b)
    × (get_elem? r'.xports x.id ≡ some bad)
    × (get_elem? r'.sock_xports x.sock ≡ some bad)
    × (r'.open_fd x.sock ≡ false)
    × (r'.xprtgc_idset ≡ r.xprtgc_idset)
    × (r'.mark_count ≡ r.mark_count)

module _ (r : Registry) (a : ℕ) (x : Xprt) (v : IsValid r) (w : Enrolled r a x) where
  out_of_slots :
      (polled : List PollFd) (idset : Bitvec) (j : ℕ)
      → get_elem? (gone x polled idset r).xports j ≢ some (at a)
  out_of_slots polled idset j e = elim (ℕ_discrete x.id j) [
    | yes same ↦
        let now : get_elem? (set r.xports x.id bad) j ≡ some bad =
          rw (sym same)
            (get_elem?-set_self r.xports x.id bad (lt_of_get_elem? r.xports x.id w.slot)) in
        absurd (ground (arith, now, e))
    | no apart ↦
        let old : get_elem? r.xports j ≡ some (at a) =
          sym (get_elem?-set_ne r.xports bad apart) ∙ e in
        let (y, there, id) = v.owned j a old in
        let one : x ≡ y = (let h = w.here in ground (arith, h, there)) in
        absurd (apart (ap (λ (t : Xprt). t.id) one ∙ id))
  ]

  -- The transport is unregistered, and its structure freed.
  unregister_and_free :
      (closed : r.open_fd x.sock ≡ false)
      → (r' : Registry) × ((xprt_unregister_with_lock (at a) r >>= λ s. ok (free_xprt (at a) s))
          ≡ ok r')
        × Destroyed r a x r'
  unregister_and_free closed =
      let (polled, idset, done) = unregister_parts r a x v w in
      let s = gone x polled idset r in
      let vs = xprt_unregister_with_lock-IsValid (at a) r s v done in
      (
        free_xprt (at a) s,
        rw done refl,
        (
          freed-IsValid s a vs (out_of_slots polled idset),
          rw (==-self a) refl,
          λ b apart. rw (ne→== b a apart) refl,
          get_elem?-set_self r.xports x.id bad (lt_of_get_elem? r.xports x.id w.slot),
          get_elem?-set_self r.sock_xports x.sock bad w.sock,
          closed,
          refl,
          refl,
        ),
      )

  closed_socket : close_socket x r ≡ record r { open_fd = update r.open_fd x.sock false }
  closed_socket =
      let test : (x.parent == no_parent) ≡ true = rw w.whole (==-self no_parent) in rw test refl

  udp_run : svcudp_destroy (at a) r ≡ (
      xprt_unregister_with_lock (at a) (record r { open_fd = update r.open_fd x.sock false })
      >>= λ s. ok (free_xprt (at a) s))
  unfolding svcudp_destroy
  udp_run = rw w.here (
      ap (λ (t : Registry). xprt_unregister_with_lock (at a) t >>= λ s. ok (free_xprt (at a) s))
        closed_socket)

-- Writes of a transport's structure that keep what the tables rely on.
written-IsValid :
    (r : Registry) (a : ℕ) (x z : Xprt)
    → IsValid r
    → r.heap a ≡ some x
    → z.id ≡ x.id
    → IsValid (write_xprt (at a) z r)
written-IsValid r a x z v here same = record {
  sized = write_xprt-Sized (at a) z r v.sized;
  owned = change_xprt r (at a) x z (rw here refl) same v.owned;
}

written-Enrolled :
    (r : Registry) (a : ℕ) (x z : Xprt)
    → Enrolled r a x
    → z.id ≡ x.id
    → z.parent ≡ x.parent
    → z.sock ≡ x.sock
    → Enrolled (write_xprt (at a) z r) a z
written-Enrolled r a x z w id parent sock = record {
  here = rw (==-self a) refl;
  whole = parent ∙ w.whole;
  slot = rw id w.slot;
  id = rw id w.id;
  marked = rw id w.marked;
  sock = rw sock w.sock;
}

-- The states that the two functions unregister from.
abbrev for_udp : Xprt → Registry → Registry
for_udp x r = record r { open_fd = update r.open_fd x.sock false }

abbrev for_tcp : ℕ → Xprt → Registry → Registry
for_tcp a x r =
    write_xprt (at a) (record x { busy = 1; port = 0 })
      (for_udp x (write_xprt (at a) (record x { busy = 1 }) r))

module _ (r : Registry) (a : ℕ) (x : Xprt) (v : IsValid r) (w : Enrolled r a x) where
  tcp_run :
      svctcp_destroy (at a) r
      ≡ (xprt_unregister_with_lock (at a) (for_tcp a x r) >>= λ s. ok (free_xprt (at a) s))
  unfolding svctcp_destroy xprt_set_busy
  tcp_run =
      let test : (x.parent == no_parent) ≡ true = rw w.whole (==-self no_parent) in
      rw w.here (rw (==-self a, test) refl)

  for_tcp-IsValid : IsValid (for_tcp a x r)
  for_tcp-IsValid =
      let r1 = write_xprt (at a) (record x { busy = 1 }) r in
      let v1 = written-IsValid r a x (record x { busy = 1 }) v w.here refl in
      written-IsValid (for_udp x r1) a (record x { busy = 1 }) (record x { busy = 1; port = 0 })
        (descriptors-IsValid r1 (update r1.open_fd x.sock false) v1) (rw (==-self a) refl) refl

  for_tcp-Enrolled : Enrolled (for_tcp a x r) a (record x { busy = 1; port = 0 })
  for_tcp-Enrolled =
      let r1 = write_xprt (at a) (record x { busy = 1 }) r in
      let w1 = written-Enrolled r a x (record x { busy = 1 }) w refl refl refl in
      written-Enrolled (for_udp x r1) a (record x { busy = 1 }) (record x { busy = 1; port = 0 })
        (descriptors-Enrolled r1 (update r1.open_fd x.sock false) a (record x { busy = 1 }) w1) refl
        refl refl

  udp_total : (r' : Registry) × (svcudp_destroy (at a) r ≡ ok r') × Destroyed r a x r'
  udp_total =
      let (r', run, destroyed) =
        unregister_and_free (for_udp x r) a x
          (descriptors-IsValid r (update r.open_fd x.sock false) v)
          (descriptors-Enrolled r (update r.open_fd x.sock false) a x w)
          (rw (==-self x.sock) refl) in
      (r', udp_run r a x v w ∙ run, destroyed)

  tcp_total : (r' : Registry) × (svctcp_destroy (at a) r ≡ ok r') × Destroyed r a x r'
  tcp_total =
      let (r', run, (valid, freed, kept, slot, sock, closed, marks, count)) =
        unregister_and_free (for_tcp a x r) a (record x { busy = 1; port = 0 }) for_tcp-IsValid
          for_tcp-Enrolled (rw (==-self x.sock) refl) in
      (
        r',
        tcp_run ∙ run,
        (
          valid,
          freed,
          λ b apart. kept b apart ∙ rw (ne→== b a apart) refl,
          slot,
          sock,
          closed,
          marks,
          count,
        ),
      )

  -- In a well-formed registry, destroying a registered transport that is no clone succeeds, be it of UDP
  -- or of TCP: the registry stays well formed, the structure is freed and no other touched, the slots of
  -- its id and of its socket are empty, its socket is closed, and the marks of the garbage collection
  -- are as before.
  pub svc_destroy_total : (r' : Registry) × (svc_destroy (at a) r ≡ ok r') × Destroyed r a x r'
  unfolding svc_destroy
  svc_destroy_total = rw w.here (by_ops x.ops)
    where
      by_ops :
          (t : Transport)
          → (r' : Registry) × (elim t [
            | udp ↦ svcudp_destroy (at a) r
            | tcp ↦ svctcp_destroy (at a) r
          ]
              ≡ ok r')
            × Destroyed r a x r'
      by_ops udp = udp_total
      by_ops tcp = tcp_total
