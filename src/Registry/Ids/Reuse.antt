-- ===== src/Registry/Ids/Reuse.antt =====
-- Ids that share a bit: giving one back frees the other while it is still in use.
use rpc_mt.Common.{
  ℕ, ◌+◌, ◌≤◌, ◌<◌, ◌≡◌, ◌≢◌, true, not, arith, get_elem?, set, length, leb, ltb, ◌==◌,
  get_elem?-set_ne, inl, inr, ◌∙◌, ap, Bool-cases,
}
use rpc_mt.Common.Outcome.{ok, >>=-eq-ok}
use rpc_mt.Bitvec.{Bitvec, bitvec_get_bit, bitvec_clr_bit}
use rpc_mt.Bitvec.Bounds.{wpos_lem}
use rpc_mt.Bitvec.Cells.{same_cell, get_bit-clr_bit}
use rpc_mt.Registry.{Registry, no_maxid, bad, incr_counter, decr_counter}
use rpc_mt.Registry.Ids.{unregister_id, xprt_id_alloc}
use rpc_mt.Registry.Ids.Alloc.{xprt_id_alloc-Allocated, xprt_id_alloc-lowest}

-- What `unregister_id` leaves behind.
pub unregister_id_ok :
    (id : ℕ) (r r' : Registry)
    → unregister_id id r ≡ ok r'
    → (idset : Bitvec) × (id ≤ r.xports_maxid)
      × (id < length r.xports)
      × (bitvec_clr_bit r.xports_idset id ≡ ok idset)
      × (r' ≡ record r {
        xports = set r.xports id bad;
        xports_version = incr_counter r.xports_version;
        xports_idset = idset;
        xports_count = decr_counter r.xports_count;
      })
unfolding unregister_id
unregister_id_ok id r r' e = elim (Bool-cases (leb id r.xports_maxid)) [
  | inr out ↦ absurd (ground (arith, out, e))
  | inl valid ↦ elim (Bool-cases (ltb id (length r.xports))) [
    | inr out ↦ absurd (ground (arith, out, valid, e))
    | inl room ↦
        let (idset, cleared, rest) =
          >>=-eq-ok (bitvec_clr_bit r.xports_idset id) _ (rw (valid, room) at e) in
        (idset, ground arith, ground arith, cleared, ground arith)
  ]
]

-- Ids up to 16 that differ by eight share a bit, and no other lower id does.
shares : (i j : ℕ) → 1 ≤ i → i ≤ 8 → j ≤ i → same_cell (i + 8) j ≡ (i == j)
shares i j lo hi h = ground (arith, wpos_lem (i + 8) (omega arith), wpos_lem j (omega arith))

between : (i id : ℕ) → ¬ (id < i) → ¬ (i < id) → id ≡ i
between i id above below = omega arith

-- For an `i` from 1 to 8, let ids have been given out, and let the bits of all ids up to `i` be
-- set. If id `i + 8` is given back and then an id is given out, it is `i`, and slot `i` still holds
-- what it held before.
pub xprt_id_alloc_reuses :
    (r r1 r2 : Registry) (i id : ℕ)
    → 1 ≤ i
    → i ≤ 8
    → r.xports_maxid ≢ no_maxid
    → ((j : ℕ) → j ≤ i → bitvec_get_bit r.xports_idset j ≡ ok true)
    → unregister_id (i + 8) r ≡ ok r1
    → xprt_id_alloc r1 ≡ ok (id, r2)
    → (id ≡ i) × (get_elem? r2.xports i ≡ get_elem? r.xports i)
xprt_id_alloc_reuses r r1 r2 i id lo hi some_id busy gone given =
    let (idset, valid, room, cleared, left) = unregister_id_ok (i + 8) r r1 gone in
    let reads : (j : ℕ) → j ≤ i → bitvec_get_bit r1.xports_idset j ≡ ok (not (i == j)) = (λ j h.
      rw (ap (λ (t : Registry). t.xports_idset) left) (
        get_bit-clr_bit r.xports_idset (i + 8) j cleared (busy j h)
        ∙ rw (shares i j lo hi h) (ground arith))) in
    let same_max : r1.xports_maxid ≡ r.xports_maxid = ap (λ (t : Registry). t.xports_maxid) left in
    let (inside, fits, marked, used, clear, last) =
      xprt_id_alloc-lowest r1 id r2 (rw same_max some_id) given in
    let same : id ≡ i =
      between i id (λ lt. absurd (ground (arith, clear (omega arith), reads id (omega arith))))
        (λ lt. absurd (ground (arith, used i lt, reads i (omega arith)))) in
    let (_, _, _, _, _, result) = xprt_id_alloc-Allocated r1 id r2 given in
    (
      same,
      rw (ap (λ (t : Registry). t.xports) result ∙ ap (λ (t : Registry). t.xports) left)
          (get_elem?-set_ne r.xports bad (omega arith)),
    )
