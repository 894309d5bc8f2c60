-- ===== src/ReplyCache/Set.antt =====
-- src/librpc/svc_udp.c, `cache_set`: the node of the oldest entry is used for the newest.
use rpc_mt.Common.{
  ℕ, ◌+◌, ◌%◌, ◌≡◌, refl, ap, ◌∙◌, inl, inr, true, none, some, List, ◌∷◌, arith, get_elem?, set,
  Option-cases, get_elem?-lt, get_elem?-set_self, ==-self, lt_of_get_elem?,
}
use rpc_mt.Common.Outcome.{ok}
use rpc_mt.ReplyCache.{Cache, mem, unlink, store_away, reuse, cache_set}
use rpc_mt.ReplyCache.Valid.{IsValid, Ready, home, home-lt, loc_lem, node_for, stored, stored_run}
use rpc_mt.ReplyCache.Ready.{stored-IsValid, new-Ready, old-Ready, unlinked}

-- What `cache_set` leaves: the node `v` stands in the place of the fifo that was due, heads its chain,
-- and holds the reply under what was saved of the call.
abbrev pub Kept : (su_xid replylen buffer : ℕ) → Cache → ℕ → Cache → Type 0
Kept su_xid replylen buffer c v c' =
    (chain : List ℕ) × (get_elem? c'.fifo c.nextvictim ≡ some (some v))
    × (c'.nextvictim ≡ (c.nextvictim + 1) % c.size)
    × (get_elem? c'.entries (home c su_xid) ≡ some (v ∷ chain))
    × (c'.nodes v ≡ node_for su_xid replylen buffer c)
    × (c'.size ≡ c.size)
    × (c'.prog ≡ c.prog)
    × (c'.vers ≡ c.vers)
    × (c'.proc ≡ c.proc)
    × (c'.addr ≡ c.addr)

module _ (su_xid replylen buffer : ℕ) (c : Cache) where
  -- A state that differs from `c` in its chains and in what is allocated.
  away :
      (v newbuf : ℕ) (entries : List (List ℕ)) (next_node : ℕ)
      → Ready (record c { entries = entries; next_node = next_node }) v
      → (c' : Cache) × (store_away su_xid replylen v newbuf buffer
            (record c { entries = entries; next_node = next_node })
          ≡ ok (newbuf, c'))
        × IsValid c'
        × Kept su_xid replylen buffer c v c'
  away v newbuf entries next_node r =
      let d : Cache = record c { entries = entries; next_node = next_node } in
      let (chain, there) =
        get_elem?-lt entries (home c su_xid)
          (omega (arith, r.entries, home-lt c su_xid r.some_room)) in
      (
        stored su_xid replylen v buffer chain d,
        stored_run su_xid replylen v buffer d r newbuf chain there,
        stored-IsValid su_xid replylen v buffer d r chain there,
        (
          chain,
          get_elem?-set_self c.fifo c.nextvictim (some v) (omega (arith, r.fifo, r.victim)),
          refl,
          get_elem?-set_self entries (home c su_xid) (v ∷ chain)
              (lt_of_get_elem? entries (home c su_xid) there),
          rw (==-self v) refl,
          refl,
          refl,
          refl,
          refl,
          refl,
        ),
      )

  reuse_run :
      (v : ℕ) (chain : List ℕ)
      → IsValid c
      → get_elem? c.entries (home c (c.nodes v).xid) ≡ some chain
      → mem v chain ≡ true
      → reuse su_xid replylen v buffer c
        ≡ store_away su_xid replylen v (c.nodes v).reply buffer (unlinked v chain c)
  unfolding reuse
  reuse_run v chain w there in_it =
      rw (loc_lem c (c.nodes v).xid w.some_room w.small, there, in_it) refl

  -- In a well-formed cache and with memory to be had, `cache_set` succeeds, and the cache is well formed
  -- again: the reply is kept under what was saved of the call, in a node that stands in the place of the
  -- fifo that was due and heads its chain, and the next place is due.
  pub cache_set_total :
      (newbuf : ℕ)
      → IsValid c
      → (v buffer' : ℕ) × (c' : Cache) × (cache_set su_xid replylen (some newbuf) buffer c
          ≡ ok (buffer', c'))
        × IsValid c'
        × Kept su_xid replylen buffer c v c'
  unfolding cache_set
  cache_set_total newbuf w =
      let (old, was) = get_elem?-lt c.fifo c.nextvictim (omega (arith, w.fifo, w.victim)) in
      elim (Option-cases old) [
        | inl empty ↦
            let here : get_elem? c.fifo c.nextvictim ≡ some none = was ∙ ap some empty in
            let (c', run, w', kept) =
              away c.next_node newbuf c.entries (c.next_node + 1) (new-Ready c w here) in
            (c.next_node, newbuf, c', rw here run, w', kept)
        | inr (v, taken) ↦
            let here : get_elem? c.fifo c.nextvictim ≡ some (some v) = was ∙ ap some taken in
            let (chain, there, in_it) = w.linked c.nextvictim v here in
            let (c', run, w', kept) =
              away v (c.nodes v).reply (set c.entries (home c (c.nodes v).xid) (unlink v chain))
                c.next_node (old-Ready c v chain w here there) in
            (v, (c.nodes v).reply, c', rw here (reuse_run v chain w there in_it ∙ run), w', kept)
      ]
