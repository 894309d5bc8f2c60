-- ===== src/Registry/Ids/Scan.antt =====
-- What the search for an id finds.
use rpc_mt.Common.{ℕ, zero, suc, ◌+◌, ◌≤◌, ◌<◌, ◌≡◌, Bool, true, false, arith}
use rpc_mt.Common.Outcome.{ok, >>=-eq-ok}
use native.Mathlib.Decide.{dec_lt}
use rpc_mt.Bitvec.{Bitvec, bitvec_get_bit}
use rpc_mt.Registry.Ids.{scan_ids}

-- The result lies in the range, every id before it is in use, and its own bit is clear unless the
-- rounds were up.
pub record Found (k : ℕ) (idset : Bitvec) (start id : ℕ) : Type 0 where
  pub above : start ≤ id
  pub below : id ≤ start + k
  pub used : (j : ℕ) → start ≤ j → j < id → bitvec_get_bit idset j ≡ ok true
  pub clear : id < start + k → bitvec_get_bit idset id ≡ ok false

module _ (k : ℕ) (idset : Bitvec) (start : ℕ) {id : ℕ} where
  Found-stop : bitvec_get_bit idset start ≡ ok false → start ≡ id → Found (suc k) idset start id
  Found-stop unused e = record {
    above = omega arith;
    below = omega arith;
    used = λ j lo hi. absurd (omega arith);
    clear = λ _. rw (← e) unused;
  }

  Found-step :
      bitvec_get_bit idset start ≡ ok true
      → Found k idset (start + 1) id
      → Found (suc k) idset start id
  Found-step busy f = record {
    above = omega (arith, f.above);
    below = omega (arith, f.below);
    used = λ j lo hi. elim (dec_lt start j) [
      | yes later ↦ f.used j (omega arith) hi
      | no same ↦ let e : start ≡ j = omega arith in rw (← e) busy
    ];
    clear = λ h. f.clear (omega arith);
  }

pub scan_ids-Found :
    (k : ℕ) (idset : Bitvec) (start : ℕ) {id : ℕ}
    → scan_ids k idset start ≡ ok id
    → Found k idset start id
unfolding scan_ids
scan_ids-Found zero idset start {id} e =
    let same : start ≡ id = cc in
    record {
      above = omega arith;
      below = omega arith;
      used = λ j lo hi. absurd (omega arith);
      clear = λ h. absurd (omega arith);
    }
scan_ids-Found (suc k) idset start {id} e =
    step (scan_ids-Found k idset (start + 1)) (>>=-eq-ok (bitvec_get_bit idset start) _ e)
  where
    step :
        (scan_ids k idset (start + 1) ≡ ok id → Found k idset (start + 1) id)
        → (b : Bool) × (bitvec_get_bit idset start ≡ ok b)
          × (elim b [ true ↦ scan_ids k idset (start + 1) | false ↦ ok start ] ≡ ok id)
        → Found (suc k) idset start id
    step later (true, busy, rest) = Found-step k idset start busy (later rest)
    step later (false, unused, rest) = Found-stop k idset start unused (cc)
