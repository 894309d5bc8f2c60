-- ===== src/Tests/OnXdr.antt =====
-- Runs of the XDR filters of src/librpc on a buffer of 16 bytes.
use rpc_mt.Common.{
  ℕ, ◌+◌, ◌^◌, ◌≤◌, ◌<◌, ◌≡◌, refl, arith, Bool, true, none, some, List, [], ◌∷◌, ◌++◌, replicate,
}
use rpc_mt.Xdr.{encode, decode, free, returned, refused, sign_extend}
use rpc_mt.Xdr.Codec.{Laws, Reads, Writes, word_bytes}
use rpc_mt.Xdr.Mem.{Mem, xdrmem_ops, xdrmem_setpos}
use rpc_mt.Xdr.Mem.Laws.{view, xdrmem_ops-Laws}
use rpc_mt.Xdr.Mem.Position.{xdrmem_roundtrip}
use rpc_mt.Xdr.Ints.{
  xdr_int, xdr_u_int, xdr_long, xdr_u_long, xdr_enum, xdr_short, xdr_u_short, xdr_char, xdr_u_char,
  xdr_bool,
}
use rpc_mt.Xdr.Ints.Codes.{Codes, xdr_integers-Codes, xdr_u_int-Codes}
use rpc_mt.Xdr.Blocks.{xdr_bytes, xdr_string, xdr_union, find_arm}
use rpc_mt.Xdr.Blocks.Counted.{counted, xdr_string-Codes}
use rpc_mt.Xdr.Blocks.Union.{xdr_union-Codes}
use rpc_mt.Xdr.Arrays.{xdr_array, xdr_pointer}
use rpc_mt.Xdr.Arrays.Elements.{xdr_array-Codes}
use rpc_mt.Xdr.Limits.{xdr_counted_limit}
use rpc_mt.Xdr.Release.{xdr_release}

abbrev buffer : Mem
buffer = record { base = replicate 16 0; pos = 4; handy = 12 }

abbrev has_memory : ℕ → Bool
has_memory n = true

abbrev codes : Laws xdrmem_ops view
codes = xdrmem_ops-Laws.0

u_int_in_buffer : Codes view (xdr_u_int xdrmem_ops) 300 (word_bytes 300)
u_int_in_buffer = xdr_u_int-Codes codes 300 (omega arith)

xdrmem_roundtrip_example :
    (s1 s2 s3 : Mem) × (xdr_u_int xdrmem_ops encode 300 buffer ≡ returned 300 s1)
    × (xdrmem_setpos 4 s1 ≡ returned tt s2)
    × (xdr_u_int xdrmem_ops decode 7 s2 ≡ returned 300 s3)
    × (view.rest s3 ≡ view.rest s1)
xdrmem_roundtrip_example =
    xdrmem_roundtrip (xdr_u_int xdrmem_ops) 300 7 (word_bytes 300) buffer u_int_in_buffer
      (omega arith) (omega arith) (omega arith)

xdr_integers-Codes_example :
    (7 < 2 ^ 32
      → Codes view (xdr_int xdrmem_ops) 7 (word_bytes 7)
        × Codes view (xdr_u_int xdrmem_ops) 7 (word_bytes 7)
        × Codes view (xdr_long xdrmem_ops) (sign_extend 32 64 7) (word_bytes 7)
        × Codes view (xdr_u_long xdrmem_ops) 7 (word_bytes 7)
        × Codes view (xdr_enum xdrmem_ops) 7 (word_bytes 7))
    × (7 < 2 ^ 16
        → Codes view (xdr_short xdrmem_ops) 7 (word_bytes (sign_extend 16 32 7))
          × Codes view (xdr_u_short xdrmem_ops) 7 (word_bytes 7))
    × (7 < 2 ^ 8
        → Codes view (xdr_char xdrmem_ops) 7 (word_bytes (sign_extend 8 32 7))
          × Codes view (xdr_u_char xdrmem_ops) 7 (word_bytes 7))
    × (7 ≤ 1 → Codes view (xdr_bool xdrmem_ops) 7 (word_bytes 7))
xdr_integers-Codes_example = xdr_integers-Codes codes 7

abbrev five_and_two_to_the_33 : ℕ
five_and_two_to_the_33 = 2 ^ 33 + 5

abbrev three : List ℕ
three = 65 ∷ 66 ∷ 67 ∷ []

xdr_string-Codes_example :
    Writes view
      (xdr_string xdrmem_ops has_memory encode (some (three ++ (0 ∷ []))) 10)
      (some (three ++ (0 ∷ [])))
      (counted three)
    × Reads view
        (xdr_string xdrmem_ops has_memory decode none 10)
        (some (three ++ (0 ∷ [])))
        (counted three)
xdr_string-Codes_example =
    xdr_string-Codes codes has_memory three 10 (omega arith) (omega arith) (omega arith)
      (refl, (refl, (refl, tt))) refl

xdr_union-Codes_example :
    Codes view
      (xdr_union xdrmem_ops ((2, xdr_u_int xdrmem_ops) ∷ []) none)
      (2, 300)
      (word_bytes 2 ++ word_bytes 300)
unfolding find_arm
xdr_union-Codes_example =
    xdr_union-Codes codes ((2, xdr_u_int xdrmem_ops) ∷ []) none 2 (omega arith)
      (xdr_u_int xdrmem_ops) 300 (word_bytes 300) refl u_int_in_buffer

abbrev IsWord : ℕ → Type 0
IsWord v = v < 2 ^ 32

abbrev two_words : List ℕ
two_words = 300 ∷ 5 ∷ []

xdr_array-Codes_example :
    Writes view
      (xdr_array xdrmem_ops has_memory 0 (xdr_u_int xdrmem_ops) encode (some two_words, 2) 8 4)
      (some two_words, 2)
      (word_bytes 2 ++ (word_bytes 300 ++ word_bytes 5))
    × Reads view
        (xdr_array xdrmem_ops has_memory 0 (xdr_u_int xdrmem_ops) decode (none, 9) 8 4)
        (some two_words, 2)
        (word_bytes 2 ++ (word_bytes 300 ++ word_bytes 5))
xdr_array-Codes_example =
    xdr_array-Codes codes has_memory 0 (xdr_u_int xdrmem_ops) IsWord word_bytes
      (λ v h. xdr_u_int-Codes codes v h) two_words (omega arith, (omega arith, tt)) 8 4
      (omega arith) (omega arith) (omega arith) (omega arith) 9 (omega arith) refl

abbrev long_message : Mem
long_message = record { base = 0 ∷ 0 ∷ 0 ∷ 9 ∷ 1 ∷ []; pos = 0; handy = 5 }

xdr_counted_limit_example :
    ((s' : Mem) × (xdr_bytes xdrmem_ops has_memory decode (none, 0) 8 long_message ≡ refused s')
      × (view.rest s' ≡ 1 ∷ []))
    × ((s' : Mem) × (xdr_string xdrmem_ops has_memory decode none 8 long_message ≡ refused s')
        × (view.rest s' ≡ 1 ∷ []))
    × ((s' : Mem) × (xdr_array xdrmem_ops has_memory 0
            (xdr_u_int xdrmem_ops)
            decode
            (none, 0)
            8
            4
            long_message
          ≡ refused s')
        × (view.rest s' ≡ 1 ∷ []))
xdr_counted_limit_example =
    xdr_counted_limit codes has_memory 0 (xdr_u_int xdrmem_ops) 8 9 (omega arith) (omega arith)
      long_message (1 ∷ []) (omega arith) refl none none 0 4

u_int_released : (a : ℕ) (s : Mem) → xdr_u_int xdrmem_ops free a s ≡ returned a s
unfolding xdr_u_int
u_int_released a s = refl

-- A string of three bytes is not released with the limit 2.
xdr_release_example :
    (xdr_bytes xdrmem_ops has_memory free (some three, 3) 2 buffer ≡ returned (none, 3) buffer)
    × (xdr_array xdrmem_ops has_memory 0 (xdr_u_int xdrmem_ops) free (some two_words, 2) 2 4 buffer
        ≡ returned (none, 2) buffer)
    × (xdr_array xdrmem_ops has_memory 0 (xdr_u_int xdrmem_ops) free (none, 3) 2 4 buffer
        ≡ returned (none, 3) buffer)
    × (xdr_pointer xdrmem_ops has_memory 0 (xdr_u_int xdrmem_ops) free (some 300) 4 buffer
        ≡ returned none buffer)
    × (xdr_pointer xdrmem_ops has_memory 0 (xdr_u_int xdrmem_ops) free none 4 buffer
        ≡ returned none buffer)
    × (xdr_string xdrmem_ops has_memory free none 2 buffer ≡ returned none buffer)
    × (xdr_string xdrmem_ops has_memory free (some (three ++ (0 ∷ []))) 2 buffer ≡ refused buffer)
xdr_release_example =
    xdr_release xdrmem_ops has_memory 0 (xdr_u_int xdrmem_ops) u_int_released (some three) three
      two_words 300 3 2 4 4 buffer (refl, (refl, (refl, tt))) (omega arith) (omega arith)
