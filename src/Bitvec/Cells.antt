-- ===== src/Bitvec/Cells.antt =====
-- Which bit of which word an index of bitvec.c names, and what each operation does to it.
use Prim.Native.Nat.{bit_and, bit_or}
use rpc_mt.Common.{
  ◌∙◌, List, ℕ, ◌+◌, ◌%◌, ◌^◌, ◌≤◌, ◌<◌, ◌≡◌, refl, Bool, true, false, not, ◌&&◌, ◌||◌, inl, inr,
  some, arith, get_elem?, set, ◌==◌, if◌then◌else◌, Bool-cases, ==→eq, ==→ne, get_elem?-set_self,
  get_elem?-set_ne, lt_of_get_elem?,
}
use rpc_mt.Common.Bits.{complement, has_bit, has_bit-bit_or, has_bit-clear, bit_and_seven}
use rpc_mt.Common.Outcome.{ok}
use rpc_mt.Common.{ap, ==-self}
use rpc_mt.Bitvec.Bounds.{wpos_lem}
use rpc_mt.Bitvec.{Bitvec, wpos, bpos, bitvec_set_bit, bitvec_clr_bit, bitvec_get_bit}

pub bpos_lem : (idx : ℕ) → bpos idx ≡ idx % 8
unfolding bpos
bpos_lem idx = bit_and_seven idx

-- The two indices share a bit.
abbrev pub same_cell : ℕ → ℕ → Bool
same_cell i j = (wpos i == wpos j) && (i % 8 == j % 8)

-- What the success of each operation shows.
pub get_bit_ok :
    (bv : Bitvec) (j : ℕ) {b : Bool}
    → bitvec_get_bit bv j ≡ ok b
    → (w : ℕ) × (j < bv.sz) × (get_elem? bv.vec (wpos j) ≡ some w) × (b ≡ has_bit w (bpos j))
unfolding bitvec_get_bit
get_bit_ok bv j h = ground arith

pub set_bit_ok :
    (bv : Bitvec) (i : ℕ) {bv' : Bitvec}
    → bitvec_set_bit bv i ≡ ok bv'
    → (w : ℕ) × (i < bv.sz)
      × (get_elem? bv.vec (wpos i) ≡ some w)
      × (bv'.sz ≡ bv.sz)
      × (bv'.vec ≡ set bv.vec (wpos i) (bit_or w (2 ^ bpos i)))
unfolding bitvec_set_bit
set_bit_ok bv i h = ground arith

-- The word that an operation leaves at the place of index `j`.
cell_after :
    (vec : List ℕ) (i j w v : ℕ)
    → get_elem? vec (wpos j) ≡ some w
    → get_elem? (set vec (wpos i) v) (wpos j) ≡ some (if wpos i == wpos j then v else w)
cell_after vec i j w v e = elim (Bool-cases (wpos i == wpos j)) [
  | inl same ↦ rw same (
      rw (← (==→eq _ _ same))
        (get_elem?-set_self vec (wpos i) v (rw (==→eq _ _ same) (lt_of_get_elem? vec (wpos j) e))))
  | inr other ↦ rw other (get_elem?-set_ne vec v (==→ne _ _ other) ∙ e)
]

pub clr_bit_ok :
    (bv : Bitvec) (i : ℕ) {bv' : Bitvec}
    → bitvec_clr_bit bv i ≡ ok bv'
    → (w : ℕ) × (i < bv.sz)
      × (get_elem? bv.vec (wpos i) ≡ some w)
      × (bv'.sz ≡ bv.sz)
      × (bv'.vec ≡ set bv.vec (wpos i) (bit_and w (complement (2 ^ bpos i))))
unfolding bitvec_clr_bit
clr_bit_ok bv i h = ground arith

get_bit_of :
    (bv : Bitvec) (j w : ℕ)
    → j < bv.sz
    → get_elem? bv.vec (wpos j) ≡ some w
    → bitvec_get_bit bv j ≡ ok (has_bit w (bpos j))
unfolding bitvec_get_bit
get_bit_of bv j w h e = ground arith

bpos-lt : (i : ℕ) → bpos i < 8
bpos-lt i = omega (arith, bpos_lem i)

same_cell_lem : (i j : ℕ) → same_cell i j ≡ ((wpos i == wpos j) && (bpos i == bpos j))
same_cell_lem i j = rw (bpos_lem i, bpos_lem j) refl

-- One word is written, by `f` on its bits; a test of index `j` reads the word that it names.
module _ (bv bv' : Bitvec) (i j w v after : ℕ) (here : get_elem? bv.vec (wpos i) ≡ some w)
    (there : get_elem? bv.vec (wpos j) ≡ some v) (inside : j < bv.sz) (size : bv'.sz ≡ bv.sz)
    (wrote : bv'.vec ≡ set bv.vec (wpos i) after) where
  get_bit_after :
      (join : Bool → Bool)
      → has_bit after (bpos j)
        ≡ (if bpos i == bpos j then join (has_bit w (bpos j)) else has_bit w (bpos j))
      → bitvec_get_bit bv' j
        ≡ ok (if same_cell i j then join (has_bit v (bpos j)) else has_bit v (bpos j))
  get_bit_after join law =
      get_bit_of bv' j (if wpos i == wpos j then after else v) (omega arith)
        (rw wrote (cell_after bv.vec i j v after there))
      ∙ rw (same_cell_lem i j) (elim (Bool-cases (wpos i == wpos j)) [
        | inl same ↦ rw same (
            ap ok (
              law
              ∙ ap
                  (λ (t : ℕ).
                    if bpos i == bpos j then join (has_bit t (bpos j)) else has_bit t (bpos j))
                  (word same)))
        | inr other ↦ rw other refl
      ])
    where
      word : (wpos i == wpos j) ≡ true → w ≡ v
      word same = cc (==→eq (wpos i) (wpos j) same, here, there)

-- If index `i` can be set and an index read, then after the setting the index reads true exactly if
-- it shares a bit with `i` or read true before.
pub get_bit-set_bit :
    (bv : Bitvec) (i j : ℕ) {bv' : Bitvec} {b : Bool}
    → bitvec_set_bit bv i ≡ ok bv'
    → bitvec_get_bit bv j ≡ ok b
    → bitvec_get_bit bv' j ≡ ok (same_cell i j || b)
get_bit-set_bit bv i j {bv'} done was =
    let (w, inside, here, wrote_size, wrote) = set_bit_ok bv i done in
    let (v, inside', there, value) = get_bit_ok bv j was in
    rw value (
      get_bit_after bv bv' i j w v (bit_or w (2 ^ bpos i)) here there inside' wrote_size wrote
        (λ _. true) (rw (has_bit-bit_or w (bpos i) (bpos j)) (ground arith))
      ∙ ground arith)

-- If index `i` can be cleared and an index read, then after the clearing the index reads true
-- exactly if it read true before and shares no bit with `i`.
pub get_bit-clr_bit :
    (bv : Bitvec) (i j : ℕ) {bv' : Bitvec} {b : Bool}
    → bitvec_clr_bit bv i ≡ ok bv'
    → bitvec_get_bit bv j ≡ ok b
    → bitvec_get_bit bv' j ≡ ok (not (same_cell i j) && b)
get_bit-clr_bit bv i j {bv'} done was =
    let (w, inside, here, wrote_size, wrote) = clr_bit_ok bv i done in
    let (v, inside', there, value) = get_bit_ok bv j was in
    rw value (
      get_bit_after bv bv' i j w v (bit_and w (complement (2 ^ bpos i))) here there inside'
        wrote_size wrote (λ _. false)
        (rw (has_bit-clear w (bpos i) (bpos j) (bpos-lt i) (bpos-lt j)) (ground arith))
      ∙ ground arith)

-- On the first nine indices no two share a bit.
pub same_cell_small : (i j : ℕ) → i ≤ 8 → j ≤ 8 → same_cell i j ≡ (i == j)
same_cell_small i j hi hj = ground (arith, wpos_lem i (omega arith), wpos_lem j (omega arith))

-- Beyond, an index shares a bit with the one eight further on.
pub same_cell_eight : (i : ℕ) → i < 2 ^ 62 → 0 < i % 64 → i % 64 ≤ 56 → same_cell i (i + 8) ≡ true
same_cell_eight i small low high =
    ground (arith, wpos_lem i (omega arith), wpos_lem (i + 8) (omega arith))

pub get_bit_of_set_bit :
    (bv : Bitvec) (i : ℕ) {bv' : Bitvec}
    → bitvec_set_bit bv i ≡ ok bv'
    → (b : Bool) × (bitvec_get_bit bv i ≡ ok b)
get_bit_of_set_bit bv i done =
    let (w, inside, here, size, wrote) = set_bit_ok bv i done in
    (has_bit w (bpos i), get_bit_of bv i w inside here)

pub set_bit_self :
    (bv : Bitvec) (i : ℕ) {bv' : Bitvec}
    → bitvec_set_bit bv i ≡ ok bv'
    → bitvec_get_bit bv' i ≡ ok true
set_bit_self bv i done =
    let (b, was) = get_bit_of_set_bit bv i done in get_bit-set_bit bv i i done was ∙ ground (arith)

-- A bit that can be read can be set, and cleared.
pub set_bit_total :
    (bv : Bitvec) (i : ℕ) {b : Bool}
    → bitvec_get_bit bv i ≡ ok b
    → (bv' : Bitvec) × (bitvec_set_bit bv i ≡ ok bv')
unfolding bitvec_set_bit
set_bit_total bv i was =
    let (w, inside, here, value) = get_bit_ok bv i was in
    (record bv { vec = set bv.vec (wpos i) (bit_or w (2 ^ bpos i)) }, ground (arith, inside, here))

pub clr_bit_total :
    (bv : Bitvec) (i : ℕ) {b : Bool}
    → bitvec_get_bit bv i ≡ ok b
    → (bv' : Bitvec) × (bitvec_clr_bit bv i ≡ ok bv')
unfolding bitvec_clr_bit
clr_bit_total bv i was =
    let (w, inside, here, value) = get_bit_ok bv i was in
    (
      record bv { vec = set bv.vec (wpos i) (bit_and w (complement (2 ^ bpos i))) },
      ground (arith, inside, here),
    )

pub same_cell_self : (i : ℕ) → (not (same_cell i i) && true) ≡ false
same_cell_self i = ground (arith, ==-self (wpos i), ==-self (i % 8))
