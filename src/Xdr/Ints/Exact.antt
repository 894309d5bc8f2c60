-- ===== src/Xdr/Ints/Exact.antt =====
-- src/librpc/xdr_intXX_t.c, integers of up to 32 bits: what is encoded is what is decoded.
use rpc_mt.Common.{ℕ, ◌%◌, ◌^◌, ◌<◌, ◌≡◌, refl, ap, arith}
use rpc_mt.Xdr.{◌>>=◌, ◌>>◌, pure, XdrOps, sign_extend}
use rpc_mt.Xdr.Codec.{View, Writes, Reads, Laws, word_bytes, Writes-map, Reads-map}
use rpc_mt.Xdr.Ints.Codes.{Codes}
use rpc_mt.Xdr.Ints.{xdr_int32_t, xdr_uint32_t, xdr_int16_t, xdr_uint16_t, xdr_int8_t, xdr_uint8_t}

module _ {S : Type 0} {ops : XdrOps S} {view : View S} (laws : Laws ops view) where
  put32 : (w v : ℕ) → w < 2 ^ 32 → Writes view (ops.putint32 w >> pure v) v (word_bytes w)
  put32 w v h =
      Writes-map view (ops.putint32 w) (λ _. pure v) tt v (word_bytes w) refl
        (laws.putint32_lem w h)

  get32 :
      (f : ℕ → ℕ) (w v : ℕ)
      → w < 2 ^ 32
      → f w ≡ v
      → Reads view (ops.getint32 >>= λ t. pure (f t)) v (word_bytes w)
  get32 f w v h e =
      Reads-map view ops.getint32 (λ t. pure (f t)) w v (word_bytes w) (ap pure e)
        (laws.getint32_lem w h)

  -- On a stream that keeps its promises, each filter of xdr_intXX_t.c of up to 32 bits encodes the
  -- numbers of its type as one word in network order, signed ones with their sign, and decodes them
  -- from it; with too little room or too few bytes it refuses.
  pub xdr_exact-Codes :
      (v : ℕ)
      → (v < 2 ^ 32
          → Codes view (xdr_int32_t ops) v (word_bytes v)
            × Codes view (xdr_uint32_t ops) v (word_bytes v))
        × (v < 2 ^ 16
            → Codes view (xdr_int16_t ops) v (word_bytes (sign_extend 16 32 v))
              × Codes view (xdr_uint16_t ops) v (word_bytes v))
        × (v < 2 ^ 8
            → Codes view (xdr_int8_t ops) v (word_bytes (sign_extend 8 32 v))
              × Codes view (xdr_uint8_t ops) v (word_bytes v))
  unfolding xdr_int32_t xdr_uint32_t xdr_int16_t xdr_uint16_t xdr_int8_t xdr_uint8_t
  xdr_exact-Codes v = (
    λ h. (
      (put32 v v h, λ junk. laws.getint32_lem v h),
      (put32 v v h, λ junk. laws.getint32_lem v h),
    ),
    λ h. (
      (
        put32 (sign_extend 16 32 v) v (ground arith),
        λ junk. get32 (λ t. t % 2 ^ 16) (sign_extend 16 32 v) v (ground arith) (ground arith),
      ),
      (put32 v v (omega arith), λ junk. get32 (λ t. t % 2 ^ 16) v v (omega arith) (omega arith)),
    ),
    λ h. (
      (
        put32 (sign_extend 8 32 v) v (ground arith),
        λ junk. get32 (λ t. t % 2 ^ 8) (sign_extend 8 32 v) v (ground arith) (ground arith),
      ),
      (put32 v v (omega arith), λ junk. get32 (λ t. t % 2 ^ 8) v v (omega arith) (omega arith)),
    ),
  )
