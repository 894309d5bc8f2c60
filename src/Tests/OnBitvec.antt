-- ===== src/Tests/OnBitvec.antt =====
-- Runs of src/librpc/bitvec.c on a vector of 128 bits.
use rpc_mt.Common.{[], ◌∷◌, ◌≡◌, refl, ◌↔◌, ◌≤◌, ◌+◌, ◌*◌, ◌/◌, arith, true, false, ◌||◌}
use rpc_mt.Common.Outcome.{ok, fault}
use rpc_mt.Bitvec.{Bitvec, bitvec_init, bitvec_set_bit, bitvec_clr_bit, bitvec_get_bit, wpos, bpos}
use rpc_mt.Bitvec.Bounds.{bitvec_set_bit_fault_iff}
use rpc_mt.Bitvec.Cells.{same_cell, get_bit-set_bit}

abbrev empty : Bitvec
empty = record { vec = 0 ∷ 0 ∷ []; sz = 128 }

abbrev with_three : Bitvec
with_three = record { vec = 0 ∷ 8 ∷ []; sz = 128 }

bitvec_set_bit_fault_iff_example :
    (bitvec_set_bit (bitvec_init 128) 65 ≡ fault) ↔ (128 ≤ (65 + 63) / 64 * 64)
bitvec_set_bit_fault_iff_example = bitvec_set_bit_fault_iff 128 65 (omega arith) (omega arith)

set_three : bitvec_set_bit empty 3 ≡ ok with_three
unfolding bitvec_set_bit wpos bpos
set_three = refl

eleven_clear : bitvec_get_bit empty 11 ≡ ok false
unfolding bitvec_get_bit wpos bpos
eleven_clear = refl

get_bit-set_bit_example : bitvec_get_bit with_three 11 ≡ ok (same_cell 3 11 || false)
get_bit-set_bit_example = get_bit-set_bit empty 3 11 set_three eleven_clear

clear_eleven : bitvec_clr_bit with_three 11 ≡ ok empty
unfolding bitvec_clr_bit wpos bpos
clear_eleven = refl

three_set : bitvec_get_bit with_three 3 ≡ ok true
unfolding bitvec_get_bit wpos bpos
three_set = refl
