-- ===== src/ReplyCache/Valid.antt =====
-- src/librpc/svc_udp.c, `cache_set`: the fifo and the hash table hold the same nodes.
use native.Mathlib.Decide.{ℕ_discrete}
use native.Mathlib.Nat.{mod-lt}
use rpc_mt.Common.{
  ℕ, ◌+◌, ◌*◌, ◌%◌, ◌^◌, ◌<◌, ◌≡◌, ◌≢◌, refl, ap, sym, ◌∙◌, ◌⊎◌, inl, inr, true, some, List, ◌∷◌,
  arith, get_elem?, set, length, get_elem?-lt, get_elem?-set_self, get_elem?-set_ne, ==-self, ne→==,
  lt_of_get_elem?,
}
use rpc_mt.Common.Outcome.{ok}
use rpc_mt.ReplyCache.{Node, Cache, cache_loc, mem, put_node, store_away}

-- Where a node belongs in the hash table.
abbrev pub home : Cache → ℕ → ℕ
home c xid = xid % (4 * c.size)

abbrev pub Linked : Cache → ℕ → Type 0
Linked c a =
    (chain : List ℕ) × (get_elem? c.entries (home c (c.nodes a).xid) ≡ some chain)
    × (mem a chain ≡ true)

-- The tables have their sizes; each node of the fifo is allocated, stands there once, and hangs in the
-- chain of its transaction.
pub record IsValid (c : Cache) : Type 0 where
  pub some_room : 0 < c.size
  pub small : c.size < 2 ^ 30
  pub entries : length c.entries ≡ 4 * c.size
  pub fifo : length c.fifo ≡ c.size
  pub victim : c.nextvictim < c.size
  pub allocated : (i a : ℕ) → get_elem? c.fifo i ≡ some (some a) → a < c.next_node
  pub once :
      (i j a : ℕ) → get_elem? c.fifo i ≡ some (some a) → get_elem? c.fifo j ≡ some (some a) → i ≡ j
  pub linked : (i a : ℕ) → get_elem? c.fifo i ≡ some (some a) → Linked c a

pub loc_lem :
    (c : Cache) (xid : ℕ) → 0 < c.size → c.size < 2 ^ 30 → cache_loc c xid ≡ ok (home c xid)
unfolding cache_loc
loc_lem c xid some_room small =
    rw (ne→== c.size 0 (omega arith))
      (ap ok (whole (xid % (4 * c.size)) c.size (mod_lt xid c.size some_room) small))
  where
    whole : (m n : ℕ) → m < 4 * n → n < 2 ^ 30 → m % 2 ^ 32 ≡ m
    whole m n lt le = omega arith

    mod_lt : (a n : ℕ) → 0 < n → a % (4 * n) < 4 * n
    mod_lt a n h = mod-lt a (omega arith)

pub home-lt : (c : Cache) (xid : ℕ) → 0 < c.size → home c xid < 4 * c.size
home-lt c xid some_room = mod-lt xid (omega arith)

-- The state in which the node `v` may be stored away: it hangs nowhere that matters, and the rest of the
-- fifo is as it should be.
pub record Ready (d : Cache) (v : ℕ) : Type 0 where
  pub some_room : 0 < d.size
  pub small : d.size < 2 ^ 30
  pub entries : length d.entries ≡ 4 * d.size
  pub fifo : length d.fifo ≡ d.size
  pub victim : d.nextvictim < d.size
  pub mine : v < d.next_node
  pub absent : (i : ℕ) → get_elem? d.fifo i ≡ some (some v) → i ≡ d.nextvictim
  pub allocated : (i a : ℕ) → get_elem? d.fifo i ≡ some (some a) → a < d.next_node
  pub once :
      (i j a : ℕ) → get_elem? d.fifo i ≡ some (some a) → get_elem? d.fifo j ≡ some (some a) → i ≡ j
  pub linked : (i a : ℕ) → i ≢ d.nextvictim → get_elem? d.fifo i ≡ some (some a) → Linked d a

abbrev pub node_for : (su_xid replylen buffer : ℕ) → Cache → Node
node_for su_xid replylen buffer c = record {
  xid = su_xid;
  proc = c.proc;
  vers = c.vers;
  prog = c.prog;
  addr = c.addr;
  reply = buffer;
  replylen = replylen;
}

abbrev pub stored : (su_xid replylen v buffer : ℕ) → List ℕ → Cache → Cache
stored su_xid replylen v buffer chain d = record d {
  entries = set d.entries (home d su_xid) (v ∷ chain);
  fifo = set d.fifo d.nextvictim (some v);
  nextvictim = (d.nextvictim + 1) % d.size;
  nodes = put_node d.nodes v (node_for su_xid replylen buffer d);
}

module _ (su_xid replylen v buffer : ℕ) (d : Cache) (r : Ready d v) where
  pub stored_run :
      (newbuf : ℕ) (chain : List ℕ)
      → get_elem? d.entries (home d su_xid) ≡ some chain
      → store_away su_xid replylen v newbuf buffer d
        ≡ ok (newbuf, stored su_xid replylen v buffer chain d)
  unfolding store_away
  stored_run newbuf chain there =
      let (old, was) = get_elem?-lt d.fifo d.nextvictim (omega (arith, r.fifo, r.victim)) in
      rw (loc_lem d su_xid r.some_room r.small, there, was) refl

  -- The places of the fifo after the node is stored away.
  pub place :
      (i a : ℕ)
      → get_elem? (set d.fifo d.nextvictim (some v)) i ≡ some (some a)
      → ((i ≡ d.nextvictim) × (a ≡ v))
        ⊎ ((i ≢ d.nextvictim) × (get_elem? d.fifo i ≡ some (some a)) × (a ≢ v))
  place i a e = elim (ℕ_discrete d.nextvictim i) [
    | yes same ↦
        let now : get_elem? (set d.fifo d.nextvictim (some v)) i ≡ some (some v) =
          rw (sym same)
            (get_elem?-set_self d.fifo d.nextvictim (some v) (omega (arith, r.fifo, r.victim))) in
        inl (sym same, ground (arith, now, e))
    | no apart ↦
        let old : get_elem? d.fifo i ≡ some (some a) =
          sym (get_elem?-set_ne d.fifo (some v) apart) ∙ e in
        inr (
          λ t. apart (sym t),
          old,
          λ t. apart (sym (r.absent i (old ∙ ap (λ (x : ℕ). some (some x)) t))),
        )
  ]

  pub still-Linked :
      (chain : List ℕ) (a : ℕ)
      → get_elem? d.entries (home d su_xid) ≡ some chain
      → a ≢ v
      → Linked d a
      → Linked (stored su_xid replylen v buffer chain d) a
  still-Linked chain a there apart (own, at_home, hangs) =
      rw (ne→== a v apart) (elim (ℕ_discrete (home d su_xid) (home d (d.nodes a).xid)) [
        | yes same ↦
            let now : get_elem? (set d.entries (home d su_xid) (v ∷ chain)) (home d (d.nodes a).xid)
                ≡ some (v ∷ chain) =
              rw (sym same) (
                get_elem?-set_self d.entries (home d su_xid) (v ∷ chain)
                  (lt_of_get_elem? d.entries (home d su_xid) there)) in
            let one : own ≡ chain =
              (let both : get_elem? d.entries (home d (d.nodes a).xid) ≡ some chain =
                  rw (sym same) there in
                ground (arith, both, at_home)) in
            (v ∷ chain, now, rw (ne→== a v apart) (rw (← one) hangs))
        | no other_chain ↦
            (own, get_elem?-set_ne d.entries (v ∷ chain) other_chain ∙ at_home, hangs)
      ])

  pub Linked-new :
      (chain : List ℕ)
      → get_elem? d.entries (home d su_xid) ≡ some chain
      → Linked (stored su_xid replylen v buffer chain d) v
  Linked-new chain there = rw (==-self v) (
    v ∷ chain,
    get_elem?-set_self d.entries (home d su_xid) (v ∷ chain)
        (lt_of_get_elem? d.entries (home d su_xid) there),
    rw (==-self v) refl,
  )
