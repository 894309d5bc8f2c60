-- ===== src/Xdr/Ints/Codes.antt =====
-- src/librpc/xdr.c, integers of up to 32 bits: what is encoded is what is decoded.
use rpc_mt.Common.{ℕ, ◌%◌, ◌^◌, ◌≤◌, ◌<◌, ◌≡◌, refl, ap, true, List, arith, ◌==◌, if◌then◌else◌}
use rpc_mt.Xdr.{XdrOp, encode, decode, Filter, ◌>>=◌, ◌>>◌, pure, XdrOps, sign_extend}
use rpc_mt.Xdr.Codec.{View, Writes, Reads, Laws, word_bytes, Writes-map, Reads-map}
use rpc_mt.Xdr.Ints.{
  xdr_int, xdr_u_int, xdr_long, xdr_u_long, xdr_short, xdr_u_short, xdr_char, xdr_u_char, xdr_bool,
  xdr_enum,
}

-- A filter encodes `v` as these bytes, and decodes it from them whatever the object held.
abbrev pub Codes : {S A : Type 0} → View S → (XdrOp → A → Filter S A) → A → List ℕ → Type 0
Codes view filter v bs =
    Writes view (filter encode v) v bs × ((junk : _) → Reads view (filter decode junk) v bs)

module _ {S : Type 0} {ops : XdrOps S} {view : View S} (laws : Laws ops view) where
  -- A word is put with any upper half, and got with its sign.
  put :
      {A : Type 0} (l w : ℕ) (a : A)
      → l % 2 ^ 32 ≡ w
      → Writes view (ops.putlong l >> pure a) a (word_bytes w)
  put l w a e = rw (← e) (
      Writes-map view (ops.putlong l) (λ _. pure a) tt a (word_bytes (l % 2 ^ 32)) refl
        (laws.putlong_lem l))

  get :
      {A : Type 0} (f : ℕ → A) (w : ℕ) (a : A)
      → w < 2 ^ 32
      → f (sign_extend 32 64 w) ≡ a
      → Reads view (ops.getlong >>= λ l. pure (f l)) a (word_bytes w)
  get f w a h e =
      Reads-map view ops.getlong (λ l. pure (f l)) (sign_extend 32 64 w) a (word_bytes w)
        (ap pure e) (laws.getlong_lem w h)

  pub xdr_int-Codes : (v : ℕ) → v < 2 ^ 32 → Codes view (xdr_int ops) v (word_bytes v)
  unfolding xdr_int
  xdr_int-Codes v h = (
    put (sign_extend 32 64 v) v v (ground arith),
    λ junk. get (λ l. l % 2 ^ 32) v v h (ground arith),
  )

  pub xdr_u_int-Codes : (v : ℕ) → v < 2 ^ 32 → Codes view (xdr_u_int ops) v (word_bytes v)
  unfolding xdr_u_int
  xdr_u_int-Codes v h =
      (put v v v (omega arith), λ junk. get (λ l. l % 2 ^ 32) v v h (ground arith))

  xdr_long-Codes :
      (w : ℕ) → w < 2 ^ 32 → Codes view (xdr_long ops) (sign_extend 32 64 w) (word_bytes w)
  unfolding xdr_long
  xdr_long-Codes w h = (
    let fits : (sign_extend 32 64 (sign_extend 32 64 w % 2 ^ 32) == sign_extend 32 64 w) ≡ true =
          ground arith in
        rw fits (put (sign_extend 32 64 w) w (sign_extend 32 64 w) (ground arith)),
    λ junk. laws.getlong_lem w h,
  )

  xdr_u_long-Codes : (v : ℕ) → v < 2 ^ 32 → Codes view (xdr_u_long ops) v (word_bytes v)
  unfolding xdr_u_long
  xdr_u_long-Codes v h = (
    let fits : (v % 2 ^ 32 == v) ≡ true = ground arith in rw fits (put v v v (omega arith)),
    λ junk. get (λ l. l % 2 ^ 32) v v h (ground arith),
  )

  xdr_short-Codes :
      (v : ℕ) → v < 2 ^ 16 → Codes view (xdr_short ops) v (word_bytes (sign_extend 16 32 v))
  unfolding xdr_short
  xdr_short-Codes v h = (
    put (sign_extend 16 64 v) (sign_extend 16 32 v) v (ground arith),
    λ junk. get (λ l. l % 2 ^ 16) (sign_extend 16 32 v) v (ground arith) (ground arith),
  )

  xdr_u_short-Codes : (v : ℕ) → v < 2 ^ 16 → Codes view (xdr_u_short ops) v (word_bytes v)
  unfolding xdr_u_short
  xdr_u_short-Codes v h =
      (put v v v (omega arith), λ junk. get (λ l. l % 2 ^ 16) v v (omega arith) (ground arith))

  pub xdr_enum-Codes : (v : ℕ) → v < 2 ^ 32 → Codes view (xdr_enum ops) v (word_bytes v)
  unfolding xdr_enum
  xdr_enum-Codes v h = (
    put (sign_extend 32 64 v) v v (ground arith),
    λ junk. get (λ l. l % 2 ^ 32) v v h (ground arith),
  )

  pub xdr_bool-Codes : (v : ℕ) → v ≤ 1 → Codes view (xdr_bool ops) v (word_bytes v)
  unfolding xdr_bool
  xdr_bool-Codes v h = (
    put (if v == 0 then 0 else 1) v v (ground arith),
    λ junk. get (λ l. if l == 0 then 0 else 1) v v (omega arith) (ground arith),
  )

  -- A `char` is decoded by way of an `int`.
  xdr_char-Codes :
      (v : ℕ) → v < 2 ^ 8 → Codes view (xdr_char ops) v (word_bytes (sign_extend 8 32 v))
  unfolding xdr_char
  xdr_char-Codes v h =
      let bytes = word_bytes (sign_extend 8 32 v) in
      let small : sign_extend 8 32 v < 2 ^ 32 = ground arith in
      let back : sign_extend 8 32 v % 2 ^ 8 ≡ v = ground arith in
      let (writes, reads) = xdr_int-Codes (sign_extend 8 32 v) small in
      (
        Writes-map view (xdr_int ops encode (sign_extend 8 32 v)) (λ i. pure (i % 2 ^ 8))
            (sign_extend 8 32 v) v bytes (ap pure back) writes,
        λ junk.
            Reads-map view (xdr_int ops decode (sign_extend 8 32 junk)) (λ i. pure (i % 2 ^ 8))
              (sign_extend 8 32 v) v bytes (ap pure back) (reads (sign_extend 8 32 junk)),
      )

  xdr_u_char-Codes : (v : ℕ) → v < 2 ^ 8 → Codes view (xdr_u_char ops) v (word_bytes v)
  unfolding xdr_u_char
  xdr_u_char-Codes v h =
      let back : v % 2 ^ 8 ≡ v = omega arith in
      let (writes, reads) = xdr_u_int-Codes v (omega arith) in
      (
        Writes-map view (xdr_u_int ops encode v) (λ u. pure (u % 2 ^ 8)) v v (word_bytes v)
            (ap pure back) writes,
        λ junk.
            Reads-map view (xdr_u_int ops decode junk) (λ u. pure (u % 2 ^ 8)) v v (word_bytes v)
              (ap pure back) (reads junk),
      )

  -- On a stream that keeps its promises, every integer filter of up to 32 bits encodes the numbers of
  -- its type as one word in network order, signed ones with their sign, and decodes them from it; with
  -- too little room or too few bytes it refuses.
  pub xdr_integers-Codes :
      (v : ℕ)
      → (v < 2 ^ 32
          → Codes view (xdr_int ops) v (word_bytes v)
            × Codes view (xdr_u_int ops) v (word_bytes v)
            × Codes view (xdr_long ops) (sign_extend 32 64 v) (word_bytes v)
            × Codes view (xdr_u_long ops) v (word_bytes v)
            × Codes view (xdr_enum ops) v (word_bytes v))
        × (v < 2 ^ 16
            → Codes view (xdr_short ops) v (word_bytes (sign_extend 16 32 v))
              × Codes view (xdr_u_short ops) v (word_bytes v))
        × (v < 2 ^ 8
            → Codes view (xdr_char ops) v (word_bytes (sign_extend 8 32 v))
              × Codes view (xdr_u_char ops) v (word_bytes v))
        × (v ≤ 1 → Codes view (xdr_bool ops) v (word_bytes v))
  xdr_integers-Codes v = (
    λ h. (
      xdr_int-Codes v h,
      xdr_u_int-Codes v h,
      xdr_long-Codes v h,
      xdr_u_long-Codes v h,
      xdr_enum-Codes v h,
    ),
    λ h. (xdr_short-Codes v h, xdr_u_short-Codes v h),
    λ h. (xdr_char-Codes v h, xdr_u_char-Codes v h),
    λ h. xdr_bool-Codes v h,
  )
