-- ===== src/Xdr/Blocks/Counted.antt =====
-- src/librpc/xdr.c, `xdr_bytes` and `xdr_string`: bytes with their count.
use rpc_mt.Common.{
  ℕ, zero, suc, ◌+◌, ◌%◌, ◌^◌, ◌≤◌, ◌<◌, ◌≡◌, refl, Bool, true, false, none, some, List, [], ◌∷◌,
  ◌++◌, arith, length, drop, set, replicate, ltb, ◌==◌, length-replicate, le→ltb, lt→ltb, ne→==,
}
use rpc_mt.Xdr.{encode, decode, pure, XdrOps}
use rpc_mt.Xdr.Codec.{
  View, Writes, Reads, Laws, word_bytes, Writes-bind, Reads-bind, Writes-map, Reads-map,
}
use rpc_mt.Xdr.Ints.{xdr_u_int}
use rpc_mt.Xdr.Ints.Codes.{xdr_u_int-Codes}
use rpc_mt.Xdr.Blocks.{strlen, xdr_opaque, bytes_body, xdr_bytes, xdr_string}
use rpc_mt.Xdr.Blocks.Opaque.{padding, xdr_opaque-Codes, opaque_Writes, opaque_Reads}

abbrev pub counted : List ℕ → List ℕ
counted bs = word_bytes (length bs) ++ (bs ++ padding (length bs))

-- No byte of the string is zero.
abbrev pub NoZero : List ℕ → Type 0
NoZero [] = Unit
NoZero (c ∷ cs) = ((c == 0) ≡ false) × NoZero cs

pub strlen_lem : (cs : List ℕ) → NoZero cs → strlen (cs ++ (0 ∷ [])) ≡ some (length cs)
strlen_lem [] h = refl
strlen_lem (c ∷ cs) h = rw (h.0, strlen_lem cs h.1) refl

-- New memory with its last byte set to zero: past the string, the terminator.
terminator : (n : ℕ) → drop {A = ℕ} n (set (replicate (n + 1) 0) n 0) ≡ 0 ∷ []
terminator n = rw (plus n) (last n)
  where
    plus : (a : ℕ) → a + 1 ≡ suc a
    plus a = omega arith

    last : (a : ℕ) → drop {A = ℕ} a (set (replicate (suc a) 0) a 0) ≡ 0 ∷ []
    last zero = refl
    last (suc a) = last a

module _ {S : Type 0} {ops : XdrOps S} {view : View S} (laws : Laws ops view) (alloc : ℕ → Bool)
    (bs : List ℕ) (maxsize : ℕ) (small : length bs < 2 ^ 32) (bound : length bs ≤ maxsize) where
  fits : ltb maxsize (length bs) ≡ false
  fits = le→ltb maxsize (length bs) bound

  -- On a stream that keeps its promises, with memory to be had, `xdr_bytes` encodes one or more
  -- bytes, at most `maxsize` and fewer than 2 ^ 32, as their count and themselves, filled up to a
  -- multiple of four, and decodes them from that into memory of its own.
  pub xdr_bytes-Codes :
      (junk : ℕ)
      → 0 < length bs
      → alloc (length bs) ≡ true
      → Writes view
          (xdr_bytes ops alloc encode (some bs, length bs) maxsize)
          (some bs, length bs)
          (counted bs)
        × Reads view
            (xdr_bytes ops alloc decode (none, junk) maxsize)
            (some bs, length bs)
            (counted bs)
  unfolding xdr_bytes bytes_body
  xdr_bytes-Codes junk some_bytes room =
      let (count_put, count_got) = xdr_u_int-Codes laws (length bs) small in
      let (put, got, _) =
        xdr_opaque-Codes laws bs (replicate (length bs) 0)
          (omega (arith, length-replicate {0} {A = ℕ} (length bs) 0)) in
      (
        Writes-bind view (xdr_u_int ops encode (length bs)) _ (length bs) (some bs, length bs)
            (word_bytes (length bs)) (bs ++ padding (length bs)) count_put
            (rw fits (
              Writes-map view (xdr_opaque ops encode bs (length bs))
                (λ _. pure (some bs, length bs)) bs (some bs, length bs) (bs ++ padding (length bs))
                refl put)),
        Reads-bind view (xdr_u_int ops decode junk) _ (length bs) (some bs, length bs)
            (word_bytes (length bs)) (bs ++ padding (length bs)) (count_got junk)
            (rw (fits, ne→== (length bs) 0 (omega arith), room)
              (Reads-map view (xdr_opaque ops decode (replicate (length bs) 0) (length bs))
                (λ x. pure (some x, length bs)) bs (some bs, length bs) (bs ++ padding (length bs))
                refl got)),
      )

  -- On a stream that keeps its promises, with memory to be had, `xdr_string` encodes a string of at
  -- most `maxsize` and fewer than 2 ^ 32 - 1 bytes, none of them zero, as its length and its bytes
  -- without the terminator, filled up to a multiple of four, and decodes the string and its
  -- terminator from that into memory of its own.
  pub xdr_string-Codes :
      length bs + 1 < 2 ^ 32
      → NoZero bs
      → alloc (length bs + 1) ≡ true
      → Writes view
          (xdr_string ops alloc encode (some (bs ++ (0 ∷ []))) maxsize)
          (some (bs ++ (0 ∷ [])))
          (counted bs)
        × Reads view (xdr_string ops alloc decode none maxsize) (some (bs ++ (0 ∷ []))) (counted bs)
  unfolding xdr_string
  xdr_string-Codes fits_one no_zero room =
      let (count_put, count_got) = xdr_u_int-Codes laws (length bs) small in
      let whole : length bs % 2 ^ 32 ≡ length bs = omega arith in
      let no_overflow : ((length bs + 1) % 2 ^ 32 == 0) ≡ false = ground arith in
      let inside : ltb (length bs) (length {A = ℕ} (replicate (length bs + 1) 0)) ≡ true =
        lt→ltb _ _ (omega (arith, length-replicate {0} {A = ℕ} (length bs + 1) 0)) in
      (
        rw (strlen_lem bs no_zero, whole)
            (Writes-bind view (xdr_u_int ops encode (length bs)) _ (length bs)
              (some (bs ++ (0 ∷ []))) (word_bytes (length bs)) (bs ++ padding (length bs)) count_put
              (rw (fits, no_overflow)
                (Writes-map view (xdr_opaque ops encode (bs ++ (0 ∷ [])) (length bs))
                  (λ _. pure (some (bs ++ (0 ∷ [])))) (bs ++ (0 ∷ [])) (some (bs ++ (0 ∷ [])))
                  (bs ++ padding (length bs)) refl (opaque_Writes laws bs (0 ∷ []))))),
        Reads-bind view (xdr_u_int ops decode 0) _ (length bs) (some (bs ++ (0 ∷ [])))
            (word_bytes (length bs)) (bs ++ padding (length bs)) (count_got 0)
            (rw (fits, no_overflow, room, inside)
              (Reads-map view
                (xdr_opaque ops decode (set (replicate (length bs + 1) 0) (length bs) 0)
                  (length bs))
                (λ x. pure (some x)) (bs ++ (0 ∷ [])) (some (bs ++ (0 ∷ [])))
                (bs ++ padding (length bs)) refl
                (rw (terminator (length bs)) at
                  (opaque_Reads laws bs (set (replicate (length bs + 1) 0) (length bs) 0))))),
      )
