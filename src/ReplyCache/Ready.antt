-- ===== src/ReplyCache/Ready.antt =====
-- src/librpc/svc_udp.c: the empty cache, and the states from which a node is stored away.
use native.Mathlib.Decide.{ℕ_discrete}
use native.Mathlib.Nat.{mod-lt}
use rpc_mt.Common.{
  ℕ, ◌+◌, ◌*◌, ◌^◌, ◌<◌, ◌≡◌, ◌≢◌, refl, ap, sym, ◌∙◌, ◌⊎◌, inl, inr, true, false, Option, none,
  some, List, [], ◌∷◌, arith, get_elem?, set, ◌==◌, Bool-cases, get_elem?-set_self,
  get_elem?-set_ne, length-set, lt_of_get_elem?, replicate, length-replicate, get_elem?-replicate,
}
use rpc_mt.ReplyCache.{Cache, svcudp_enablecache, mem, unlink}
use rpc_mt.ReplyCache.Valid.{IsValid, Linked, Ready, home, stored, place, still-Linked, Linked-new}

-- An empty cache of a size that is not 0 is well formed.
pub svcudp_enablecache-IsValid :
    (size : ℕ) → 0 < size → size < 2 ^ 30 → IsValid (svcudp_enablecache size)
unfolding svcudp_enablecache
svcudp_enablecache-IsValid size some_room small = record {
  some_room = some_room;
  small = small;
  entries = length-replicate (size * 4) [] ∙ omega arith;
  fifo = length-replicate size none;
  victim = some_room;
  allocated = λ i a e. absurd (nowhere i a e);
  once = λ i j a e e'. absurd (nowhere i a e);
  linked = λ i a e. absurd (nowhere i a e);
}
  where
    nowhere : (i a : ℕ) → ¬ (get_elem? (replicate size none) i ≡ some (some a))
    nowhere i a e =
        let lt : i < size = omega (
          arith,
          lt_of_get_elem? (replicate size none) i e,
          length-replicate {0} {A = Option ℕ} size none,
        ) in
        absurd (ground (arith, e, get_elem?-replicate {0} {A = Option ℕ} size none i lt))

module _ (su_xid replylen v buffer : ℕ) (d : Cache) (r : Ready d v) (chain : List ℕ)
    (there : get_elem? d.entries (home d su_xid) ≡ some chain) where
  pub stored-IsValid : IsValid (stored su_xid replylen v buffer chain d)
  stored-IsValid = record {
    some_room = r.some_room;
    small = r.small;
    entries = length-set d.entries (home d su_xid) (v ∷ chain) ∙ r.entries;
    fifo = length-set d.fifo d.nextvictim (some v) ∙ r.fifo;
    victim = mod-lt (d.nextvictim + 1) r.some_room;
    allocated = λ i a e. elim (place su_xid replylen v buffer d r i a e) [
      | inl (here, same) ↦ rw same r.mine
      | inr (apart, old, other_node) ↦ r.allocated i a old
    ];
    once = λ i j a e e'.
        both i j a (place su_xid replylen v buffer d r i a e)
          (place su_xid replylen v buffer d r j a e');
    linked = λ i a e. elim (place su_xid replylen v buffer d r i a e) [
      | inl (here, same) ↦ rw same (Linked-new su_xid replylen v buffer d r chain there)
      | inr (apart, old, other_node) ↦
          still-Linked su_xid replylen v buffer d r chain a there other_node
            (r.linked i a apart old)
    ];
  }
    where
      both :
          (i j a : ℕ)
          → ((i ≡ d.nextvictim) × (a ≡ v))
            ⊎ ((i ≢ d.nextvictim) × (get_elem? d.fifo i ≡ some (some a)) × (a ≢ v))
          → ((j ≡ d.nextvictim) × (a ≡ v))
            ⊎ ((j ≢ d.nextvictim) × (get_elem? d.fifo j ≡ some (some a)) × (a ≢ v))
          → i ≡ j
      both i j a (inl (here, same)) (inl (here', same')) = here ∙ sym here'
      both i j a (inl (here, same)) (inr (apart, old, other_node)) = absurd (other_node same)
      both i j a (inr (apart, old, other_node)) (inl (here, same)) = absurd (other_node same)
      both i j a (inr (apart, old, other_node)) (inr (apart', old', other_node')) =
          r.once i j a old old'

mem-unlink : (a v : ℕ) (chain : List ℕ) → a ≢ v → mem a chain ≡ true → mem a (unlink v chain) ≡ true
mem-unlink a v [] apart h = h
mem-unlink a v (b ∷ chain) apart h = elim (Bool-cases (v == b)) [
  | inl same ↦
      let other_node : (a == b) ≡ false = ground (arith, apart, same) in
      rw same (rw other_node at h)
  | inr differs ↦ rw differs (elim (Bool-cases (a == b)) [
    | inl here ↦ rw here refl
    | inr later ↦ rw later (mem-unlink a v chain apart (rw later at h))
  ])
]

-- The two states in which a node is stored away.
pub new-Ready :
    (c : Cache)
    → IsValid c
    → get_elem? c.fifo c.nextvictim ≡ some none
    → Ready (record c { next_node = c.next_node + 1 }) c.next_node
new-Ready c w empty = record {
  some_room = w.some_room;
  small = w.small;
  entries = w.entries;
  fifo = w.fifo;
  victim = w.victim;
  mine = omega arith;
  absent = λ i e. absurd (omega (arith, w.allocated i c.next_node e));
  allocated = λ i a e. omega (arith, w.allocated i a e);
  once = w.once;
  linked = λ i a apart e. w.linked i a e;
}

abbrev pub unlinked : ℕ → List ℕ → Cache → Cache
unlinked v chain c = record c { entries = set c.entries (home c (c.nodes v).xid) (unlink v chain) }

pub old-Ready :
    (c : Cache) (v : ℕ) (chain : List ℕ)
    → IsValid c
    → get_elem? c.fifo c.nextvictim ≡ some (some v)
    → get_elem? c.entries (home c (c.nodes v).xid) ≡ some chain
    → Ready (unlinked v chain c) v
old-Ready c v chain w here hangs = record {
  some_room = w.some_room;
  small = w.small;
  entries = length-set c.entries (home c (c.nodes v).xid) (unlink v chain) ∙ w.entries;
  fifo = w.fifo;
  victim = w.victim;
  mine = w.allocated c.nextvictim v here;
  absent = λ i e. w.once i c.nextvictim v e here;
  allocated = w.allocated;
  once = w.once;
  linked = λ i a apart e.
      relinked a
        (λ t. apart (w.once i c.nextvictim a e (here ∙ ap (λ (x : ℕ). some (some x)) (sym t))))
        (w.linked i a e);
}
  where
    relinked : (a : ℕ) → a ≢ v → Linked c a → Linked (unlinked v chain c) a
    relinked a apart (own, at_home, in_it) =
        elim (ℕ_discrete (home c (c.nodes v).xid) (home c (c.nodes a).xid)) [
          | yes same ↦
              let now : get_elem? (set c.entries (home c (c.nodes v).xid) (unlink v chain))
                    (home c (c.nodes a).xid)
                  ≡ some (unlink v chain) =
                rw (sym same) (
                  get_elem?-set_self c.entries (home c (c.nodes v).xid) (unlink v chain)
                    (lt_of_get_elem? c.entries (home c (c.nodes v).xid) hangs)) in
              let one : own ≡ chain =
                (let both : get_elem? c.entries (home c (c.nodes a).xid) ≡ some chain =
                    rw (sym same) hangs in
                  ground (arith, both, at_home)) in
              (unlink v chain, now, mem-unlink a v chain apart (rw one at in_it))
          | no other_chain ↦
              (own, get_elem?-set_ne c.entries (unlink v chain) other_chain ∙ at_home, in_it)
        ]
