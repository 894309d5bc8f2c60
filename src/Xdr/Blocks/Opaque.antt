-- ===== src/Xdr/Blocks/Opaque.antt =====
-- src/librpc/xdr.c, `xdr_opaque`: bytes, filled up to units of four.
use rpc_mt.Common.{
  ℕ, zero, suc, ◌%◌, ◌≤◌, ◌≡◌, refl, ap, sym, ◌∙◌, inl, inr, false, List, [], ◌∷◌, ◌++◌, arith,
  length, take, drop, replicate, ◌==◌, Bool-cases, le→ltb, length-append, length-replicate,
  take-length-append, ==→eq,
}
use rpc_mt.Xdr.{encode, decode, ◌>>◌, pure, XdrOps}
use rpc_mt.Xdr.Codec.{
  View, Writes, Reads, Laws, Writes-bind, Reads-bind, Writes-map, Reads-map, Writes-pure,
  Reads-pure, append_nil,
}
use rpc_mt.Xdr.Blocks.{roundup, opaque_pad, xdr_opaque, xdr_opaque_moves}

abbrev pub padding : ℕ → List ℕ
padding cnt = replicate (roundup cnt) 0

take_all : (bs : List ℕ) → take (length bs) bs ≡ bs
take_all bs = ap (take (length bs)) (sym (append_nil bs)) ∙ take-length-append bs []

drop_all : (n : ℕ) (xs : List ℕ) → length xs ≤ n → drop n xs ≡ []
drop_all zero [] h = refl
drop_all zero (x ∷ xs) h = absurd (omega arith)
drop_all (suc n) [] h = refl
drop_all (suc n) (x ∷ xs) h = drop_all n xs (omega arith)

module _ {S : Type 0} {ops : XdrOps S} {view : View S} (laws : Laws ops view) where
  pad_Writes :
      (cnt : ℕ)
      → Writes view (opaque_pad ops cnt (λ n. ops.putbytes (replicate n 0))) tt (padding cnt)
  unfolding opaque_pad
  pad_Writes cnt = elim (Bool-cases (roundup cnt == 0)) [
    | inl none ↦ rw none (rw (==→eq (roundup cnt) 0 none) (Writes-pure view tt))
    | inr some_bytes ↦ rw some_bytes (laws.putbytes_lem (padding cnt))
  ]

  pad_Reads :
      (cnt : ℕ) → Reads view (opaque_pad ops cnt (λ n. ops.getbytes n >> pure tt)) tt (padding cnt)
  unfolding opaque_pad
  pad_Reads cnt = elim (Bool-cases (roundup cnt == 0)) [
    | inl none ↦ rw none (rw (==→eq (roundup cnt) 0 none) (Reads-pure view tt))
    | inr some_bytes ↦ rw some_bytes (
        Reads-map view (ops.getbytes (roundup cnt)) (λ _. pure tt) (padding cnt) tt (padding cnt)
          refl
          (rw (length-replicate {0} {A = ℕ} (roundup cnt) 0) at (laws.getbytes_lem (padding cnt))))
  ]

  moves_Writes :
      (bs tail : List ℕ)
      → Writes view
          (xdr_opaque_moves ops encode (bs ++ tail) (length bs))
          (bs ++ tail)
          (bs ++ padding (length bs))
  unfolding xdr_opaque_moves
  moves_Writes bs tail =
      rw (le→ltb (length (bs ++ tail)) (length bs) (omega (arith, length-append bs tail))) (
        rw (take-length-append bs tail) (
          Writes-bind view (ops.putbytes bs) _ tt (bs ++ tail) bs (padding (length bs))
            (laws.putbytes_lem bs)
            (Writes-map view (opaque_pad ops (length bs) (λ n. ops.putbytes (replicate n 0)))
              (λ _. pure (bs ++ tail)) tt (bs ++ tail) (padding (length bs)) refl
              (pad_Writes (length bs)))))

  moves_Reads :
      (bs junk : List ℕ)
      → Reads view
          (xdr_opaque_moves ops decode junk (length bs))
          (bs ++ drop (length bs) junk)
          (bs ++ padding (length bs))
  unfolding xdr_opaque_moves
  moves_Reads bs junk =
      Reads-bind view (ops.getbytes (length bs)) _ bs (bs ++ drop (length bs) junk) bs
        (padding (length bs)) (laws.getbytes_lem bs)
        (Reads-map view (opaque_pad ops (length bs) (λ n. ops.getbytes n >> pure tt))
          (λ _. pure (bs ++ drop (length bs) junk)) tt (bs ++ drop (length bs) junk)
          (padding (length bs)) refl (pad_Reads (length bs)))

  -- The bytes before a tail that is not meant, and bytes read over the front of an object.
  pub opaque_Writes :
      (bs tail : List ℕ)
      → Writes view
          (xdr_opaque ops encode (bs ++ tail) (length bs))
          (bs ++ tail)
          (bs ++ padding (length bs))
  unfolding xdr_opaque
  opaque_Writes [] tail = Writes-pure view tail
  opaque_Writes (b ∷ bs) tail =
      let some_bytes : (length (b ∷ bs) == 0) ≡ false = ground arith in
      rw some_bytes (moves_Writes (b ∷ bs) tail)

  pub opaque_Reads :
      (bs junk : List ℕ)
      → Reads view
          (xdr_opaque ops decode junk (length bs))
          (bs ++ drop (length bs) junk)
          (bs ++ padding (length bs))
  unfolding xdr_opaque
  opaque_Reads [] junk = Reads-pure view junk
  opaque_Reads (b ∷ bs) junk =
      let some_bytes : (length (b ∷ bs) == 0) ≡ false = ground arith in
      rw some_bytes (moves_Reads (b ∷ bs) junk)

  -- On a stream that keeps its promises, `xdr_opaque` encodes an object of any length as its bytes and
  -- zeros up to a multiple of four, and decodes it from them into memory of that size.
  pub xdr_opaque-Codes :
      (bs junk : List ℕ)
      → length junk ≤ length bs
      → Writes view (xdr_opaque ops encode bs (length bs)) bs (bs ++ padding (length bs))
        × Reads view (xdr_opaque ops decode junk (length bs)) bs (bs ++ padding (length bs))
        × (length (bs ++ padding (length bs)) % 4 ≡ 0)
  xdr_opaque-Codes bs junk h = (
    rw (append_nil bs) at (opaque_Writes bs []),
    rw (drop_all (length bs) junk h, append_nil bs) at (opaque_Reads bs junk),
    ground (
      arith,
      length-append bs (padding (length bs)),
      length-replicate {0} {A = ℕ} (roundup (length bs)) 0,
    ),
  )
