-- ===== src/Registry/Unique.antt =====
-- Ids stay unique while none above 8 is given out: up to there no two ids share a bit.
use rpc_mt.Common.{
  ℕ, ◌≤◌, ◌<◌, ◌≡◌, ◌≢◌, refl, ap, sym, ◌∙◌, ◌⊎◌, inl, inr, Bool, false, not, ◌&&◌, ◌||◌, arith,
  ltb, ◌==◌, if◌then◌else◌, length, get_or, get_or-set, get_or-replicate, get_elem?-replicate,
}
use native.Mathlib.Decide.{dec_lt, ℕ_discrete}
use rpc_mt.Common.Outcome.{ok, ok-injective}
use rpc_mt.Bitvec.{bitvec_init, bitvec_get_bit, words_for, wpos, bpos}
use rpc_mt.Common.Bits.{has_bit-zero}
use rpc_mt.Bitvec.Bounds.{wpos_lem}
use rpc_mt.Bitvec.Cells.{same_cell_small, get_bit-set_bit, get_bit-clr_bit}
use rpc_mt.Registry.{Registry, Xprt, at, bad, no_maxid, create_xports, is_valid_svcxprt}
use rpc_mt.Registry.Ids.{candidate, xprt_id_alloc, unregister_id}
use rpc_mt.Registry.Ids.Alloc.{
  xprt_id_alloc-Allocated, xprt_id_alloc-lowest, candidate-Found, candidate_first,
}
use rpc_mt.Registry.Ids.Reuse.{unregister_id_ok}
use rpc_mt.Registry.Enrol.Register.{entered}

-- Slot `id` of `xports` holds a transport.
abbrev pub occupied : Registry → ℕ → Bool
occupied r id = is_valid_svcxprt (get_or r.xports id bad)

-- Up to id 8 the bits say which slots are occupied; no slot past `xports_maxid` is.
record Tracks (r : Registry) : Type 0 where
  bits : (j : ℕ) → j ≤ 8 → bitvec_get_bit r.xports_idset j ≡ ok (occupied r j)
  above : (j : ℕ) → r.xports_maxid < j → occupied r j ≡ false
  given : r.xports_maxid ≡ no_maxid → (j : ℕ) → occupied r j ≡ false

-- The states that registrations and removals of ids up to 8 lead to.
pub data Small (r : Registry) : Registry → Type 0 where
  start : Small r r
  enrol :
      {s s' : Registry} (id a : ℕ) (x : Xprt)
      → Small r s
      → xprt_id_alloc s ≡ ok (id, s')
      → id ≤ 8
      → id < length s'.xports
      → Small r (entered s' a x id)
  leave : {s s' : Registry} (id : ℕ) → Small r s → unregister_id id s ≡ ok s' → id ≤ 8 → Small r s'

unused :
    (r : Registry) (id : ℕ) (r' : Registry)
    → Tracks r
    → xprt_id_alloc r ≡ ok (id, r')
    → id ≤ 8
    → occupied r id ≡ false
unused r id r' t e small = elim (ℕ_discrete r.xports_maxid no_maxid) [
  | yes first ↦ t.given first id
  | no some_id ↦
      let (_, _, _, _, clear, _) = xprt_id_alloc-lowest r id r' some_id e in
      elim (dec_lt r.xports_maxid id) [
        | yes past ↦ t.above id past
        | no old ↦ ok-injective (sym (t.bits id small) ∙ clear (omega arith))
      ]
]

occupied-entered :
    (r : Registry) (a id j : ℕ) (x : Xprt)
    → id < length r.xports
    → occupied (entered r a x id) j ≡ (id == j || occupied r j)
occupied-entered r a id j x lt = ground (arith, get_or-set r.xports id j (at a) bad lt)

-- How `xports_maxid` grows.
grown :
    (r : Registry) {id maxid : ℕ}
    → candidate r ≡ ok (id, maxid)
    → ((r.xports_maxid ≡ no_maxid) × (id ≡ 0) × (maxid ≡ 0))
      ⊎ ((id ≤ maxid)
          × (r.xports_maxid ≤ maxid)
          × ((maxid ≡ id) ⊎ (maxid ≡ r.xports_maxid))
          × (r.xports_maxid ≢ no_maxid))
grown r {id} {maxid} e = elim (ℕ_discrete r.xports_maxid no_maxid) [
  | yes first ↦
      let same = ok-injective (sym (candidate_first r first) ∙ e) in
      inl (first, sym (ap (λ (t : ℕ × ℕ). t.0) same), sym (ap (λ (t : ℕ × ℕ). t.1) same))
  | no some_id ↦
      let (_, fits, grows, which) = candidate-Found r some_id e in inr (fits, grows, which, some_id)
]

enrol-Tracks :
    (r : Registry) (id : ℕ) (r' : Registry) (a : ℕ) (x : Xprt)
    → Tracks r
    → xprt_id_alloc r ≡ ok (id, r')
    → id ≤ 8
    → id < length r'.xports
    → Tracks (entered r' a x id)
enrol-Tracks r id r' a x t e small lt =
    let (maxid, idset, chosen, inside, marked, is) = xprt_id_alloc-Allocated r id r' e in
    let old : (j : ℕ) → occupied r' j ≡ occupied r j =
      (λ j. ap (λ (s : Registry). occupied s j) is) in
    let top : r'.xports_maxid ≡ maxid = ap (λ (s : Registry). s.xports_maxid) is in
    let growth = grown r chosen in
    record {
      bits = λ j le.
          rw (occupied-entered r' a id j x lt, old j, ap (λ (s : Registry). s.xports_idset) is)
            (get_bit-set_bit r.xports_idset id j marked (t.bits j le)
              ∙ rw (same_cell_small id j small le) refl);
      above = λ j gt. elim growth [
        | inl (first, zero_id, zero_max) ↦
            ground (arith, occupied-entered r' a id j x lt, old j, t.given first j, top)
        | inr (fits, grows, which, some_id) ↦
            ground (arith, occupied-entered r' a id j x lt, old j, t.above j (omega arith), top)
      ];
      given = λ none_yet j. absurd (elim growth [
        | inl (first, zero_id, zero_max) ↦ omega arith
        | inr (fits, grows, which, some_id) ↦ omega arith
      ]);
    }

leave-Tracks :
    (r : Registry) (id : ℕ) (r' : Registry)
    → Tracks r
    → unregister_id id r ≡ ok r'
    → id ≤ 8
    → Tracks r'
leave-Tracks r id r' t e small =
    let (idset, valid, room, cleared, is) = unregister_id_ok id r r' e in
    let slot : (j : ℕ) → occupied r' j ≡ (not (id == j) && occupied r j) = (λ j.
      ap (λ (s : Registry). occupied s j) is
      ∙ ground (arith, get_or-set r.xports id j bad bad room)) in
    let same : r'.xports_maxid ≡ r.xports_maxid = ap (λ (s : Registry). s.xports_maxid) is in
    record {
      bits = λ j le.
          rw (slot j, ap (λ (s : Registry). s.xports_idset) is)
            (get_bit-clr_bit r.xports_idset id j cleared (t.bits j le)
              ∙ rw (same_cell_small id j small le) refl);
      above = λ j gt. ground (arith, slot j, t.above j (omega arith));
      given = λ none_yet j. ground (arith, slot j, t.given (omega arith) j);
    }

fresh_bit : (n j : ℕ) → 65 ≤ n → n ≤ 1024 → j ≤ 8 → bitvec_get_bit (bitvec_init n) j ≡ ok false
unfolding bitvec_init bitvec_get_bit
fresh_bit n j lo hi small = ground (
  arith,
  get_elem?-replicate {0} {A = ℕ} (words_for n) 0 (wpos j)
      (omega (arith, wpos_lem j (omega arith))),
  has_bit-zero (bpos j),
)

fresh-Tracks : (n : ℕ) (r : Registry) → 65 ≤ n → Tracks (create_xports n r)
unfolding create_xports
fresh-Tracks n r enough = record {
  bits = λ j le.
      fresh_bit (if ltb 1024 n then 1024 else n) j (ground arith) (ground arith) le
      ∙ ap ok (sym (empty j));
  above = λ j gt. empty j;
  given = λ none_yet j. empty j;
}
  where
    empty : (j : ℕ) → occupied (create_xports n r) j ≡ false
    empty j = rw (get_or-replicate (if ltb 1024 n then 1024 else n) bad j) refl

Small-Tracks : {r s : Registry} → Tracks r → Small r s → Tracks s
Small-Tracks t start = t
Small-Tracks t (enrol {s} {s'} id a x before e small lt) =
    enrol-Tracks s id s' a x (Small-Tracks t before) e small lt
Small-Tracks t (leave {s} {s'} id before e small) =
    leave-Tracks s id s' (Small-Tracks t before) e small

-- With at least 65 descriptors, whatever registrations and removals of ids up to 8 went before, an
-- id up to 8 that `xprt_id_alloc` gives out belongs to a slot that holds no transport.
pub xprt_id_alloc_unique :
    (n : ℕ) (r s s' : Registry) (id : ℕ)
    → 65 ≤ n
    → Small (create_xports n r) s
    → xprt_id_alloc s ≡ ok (id, s')
    → id ≤ 8
    → occupied s id ≡ false
xprt_id_alloc_unique n r s s' id enough run e small =
    unused s id s' (Small-Tracks (fresh-Tracks n r enough) run) e small
