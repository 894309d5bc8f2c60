-- ===== src/Bitvec.antt =====
-- src/librpc/bitvec.c and bitvec.h: bit vectors for the sets of transport identifiers.
pub mod Cells
pub mod Bounds
use Prim.Native.Nat.{bit_and, bit_or}
use rpc_mt.Common.{
  ℕ, ◌+◌, ◌-◌, ◌*◌, ◌/◌, ◌%◌, ◌^◌, Bool, not, List, get_elem?, set, replicate, ltb, leb, ◌==◌,
  if◌then◌else◌,
}
use rpc_mt.Common.Bits.{complement, has_bit}
use rpc_mt.Common.Outcome.{Outcome, ok, died, ◌>>=◌, ◌>>◌, deref, require}

-- `size_t` addition.
abbrev pub add_size : ℕ → ℕ → ℕ
add_size a b = (a + b) % 2 ^ 64

-- `BIT_SIZE(bvword_t)` for `typedef size_t bvword_t`.
abbrev pub word_bits : ℕ
word_bits = 64

-- `sizeof (bvword_t) - 1`, as the source has it.
abbrev pub bvword_mask : ℕ
bvword_mask = 8 - 1

pub record Bitvec : Type 0 where
  pub vec : List ℕ
  pub sz : ℕ

abbrev pub words_for : ℕ → ℕ
words_for nbits = add_size nbits 63 / word_bits

-- `guard_malloc` aborts where there is no memory; the model has enough.
unfoldable pub bitvec_init : ℕ → Bitvec
bitvec_init nbits = record { vec = replicate (words_for nbits) 0; sz = nbits }

unfoldable pub wpos : ℕ → ℕ
wpos idx = words_for idx

unfoldable pub bpos : ℕ → ℕ
bpos idx = bit_and idx bvword_mask

abbrev check_index : Bitvec → ℕ → Outcome (Unit {0})
check_index bv idx = require (ltb idx bv.sz)

unfoldable pub bitvec_set_bit : Bitvec → ℕ → Outcome Bitvec
bitvec_set_bit bv idx = do
  check_index bv idx
  w ← deref (get_elem? bv.vec (wpos idx))
  ok (record bv { vec = set bv.vec (wpos idx) (bit_or w (2 ^ bpos idx)) })

unfoldable pub bitvec_clr_bit : Bitvec → ℕ → Outcome Bitvec
bitvec_clr_bit bv idx = do
  check_index bv idx
  w ← deref (get_elem? bv.vec (wpos idx))
  ok (record bv { vec = set bv.vec (wpos idx) (bit_and w (complement (2 ^ bpos idx))) })

unfoldable pub bitvec_get_bit : Bitvec → ℕ → Outcome Bool
bitvec_get_bit bv idx = do
  check_index bv idx
  w ← deref (get_elem? bv.vec (wpos idx))
  ok (has_bit w (bpos idx))
