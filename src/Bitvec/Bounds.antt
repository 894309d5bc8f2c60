-- ===== src/Bitvec/Bounds.antt =====
-- Which indices of bitvec.c name a word of the vector.
use rpc_mt.Common.{
  ℕ, ◌+◌, ◌*◌, ◌/◌, ◌^◌, ◌≤◌, ◌<◌, ◌≡◌, ◌↔◌, List, Option-cases, le_of_get_elem?, lt_of_get_elem?,
  inl, inr, none, arith, length, get_elem?, replicate, length-replicate,
}
use rpc_mt.Common.Outcome.{fault}
use rpc_mt.Bitvec.{words_for, wpos, bitvec_init, bitvec_set_bit}

pub wpos_lem : (idx : ℕ) → idx < 2 ^ 63 → wpos idx ≡ (idx + 63) / 64
unfolding wpos
wpos_lem idx small = omega arith

abbrev fresh : ℕ → List ℕ
fresh nbits = replicate (words_for nbits) 0

-- A vector made for `nbits` bits, fewer than 2 ^ 63, faults on setting one of them exactly if the
-- index, rounded up to a multiple of 64, is not below `nbits`.
pub bitvec_set_bit_fault_iff :
    (nbits idx : ℕ)
    → nbits < 2 ^ 63
    → idx < nbits
    → (bitvec_set_bit (bitvec_init nbits) idx ≡ fault) ↔ (nbits ≤ (idx + 63) / 64 * 64)
unfolding bitvec_init bitvec_set_bit
bitvec_set_bit_fault_iff nbits idx small inside =
    elim (Option-cases (get_elem? (fresh nbits) (wpos idx))) [
      | inl e ↦ (
        λ _. omega (
          arith,
          wpos_lem idx (omega arith),
          length-replicate {0} {A = ℕ} (words_for nbits) 0,
          outside e,
        ),
        λ h. ground (arith, e),
      )
      | inr (w, e) ↦ (
        λ h. absurd (ground (arith, e, h)),
        λ h. absurd (
            omega (
              arith,
              wpos_lem idx (omega arith),
              length-replicate {0} {A = ℕ} (words_for nbits) 0,
              lt_of_get_elem? (fresh nbits) (wpos idx) e,
            )),
      )
    ]
  where
    outside : get_elem? (fresh nbits) (wpos idx) ≡ none → length (fresh nbits) ≤ wpos idx
    outside e = le_of_get_elem? (fresh nbits) (wpos idx) e
