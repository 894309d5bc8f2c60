-- ===== src/Xdr/Ints/Wide.antt =====
-- src/librpc/xdr.c and xdr_intXX_t.c, integers of 64 bits: what is encoded is what is decoded.
use Prim.Native.Nat.{bit_or}
use rpc_mt.Common.{ℕ, ◌*◌, ◌/◌, ◌%◌, ◌^◌, ◌<◌, ◌≡◌, refl, ap, ◌∙◌, List, ◌++◌, arith}
use rpc_mt.Common.Bits.{bit_or_disjoint}
use rpc_mt.Xdr.{Filter, ◌>>=◌, ◌>>◌, pure, XdrOps, sign_extend}
use rpc_mt.Xdr.Codec.{
  View, Writes, Reads, Laws, word_bytes, Writes-map, Reads-map, Writes-bind, Reads-bind,
}
use rpc_mt.Xdr.Ints.Codes.{Codes}
use rpc_mt.Xdr.Ints.{shift_up, shift_down, xdr_hyper, xdr_u_hyper, xdr_int64_t, xdr_uint64_t}

-- The two words of a 64-bit number, put together again.
abbrev pub wide_bytes : ℕ → List ℕ
wide_bytes v = word_bytes (v / 2 ^ 32) ++ word_bytes (v % 2 ^ 32)

joined :
    (t1 t2 v : ℕ)
    → v < 2 ^ 64
    → shift_up t1 ≡ v / 2 ^ 32 * 2 ^ 32
    → t2 ≡ v % 2 ^ 32
    → bit_or (shift_up t1) t2 ≡ v
joined t1 t2 v h up low =
    rw (up, low) (bit_or_disjoint 32 (v / 2 ^ 32) (v % 2 ^ 32) (omega arith) ∙ omega arith)

module _ {S : Type 0} (view : View S) where
  -- Two words put in turn, and two got.
  put_two :
      (first second : Filter S (Unit {0})) (v hi lo : ℕ)
      → Writes view first tt (word_bytes hi)
      → Writes view second tt (word_bytes lo)
      → Writes view (first >> (second >> pure v)) v (word_bytes hi ++ word_bytes lo)
  put_two first second v hi lo h l =
      Writes-bind view first (λ _. second >> pure v) tt v (word_bytes hi) (word_bytes lo) h
        (Writes-map view second (λ _. pure v) tt v (word_bytes lo) refl l)

  get_two :
      (m : Filter S ℕ) (f : ℕ → ℕ → ℕ) (v hi lo t1 t2 : ℕ)
      → Reads view m t1 (word_bytes hi)
      → Reads view m t2 (word_bytes lo)
      → f t1 t2 ≡ v
      → Reads view (m >>= λ x. m >>= λ y. pure (f x y)) v (word_bytes hi ++ word_bytes lo)
  get_two m f v hi lo t1 t2 h l e =
      Reads-bind view m (λ x. m >>= λ y. pure (f x y)) t1 v (word_bytes hi) (word_bytes lo) h
        (Reads-map view m (λ y. pure (f t1 y)) t2 v (word_bytes lo) (ap pure e) l)

up_extended : (w : ℕ) → w < 2 ^ 32 → shift_up (sign_extend 32 64 w) ≡ w * 2 ^ 32
up_extended w h = ground arith

low_extended : (w : ℕ) → w < 2 ^ 32 → sign_extend 32 64 w % 2 ^ 32 ≡ w
low_extended w h = ground arith

down_low : (v : ℕ) → v < 2 ^ 64 → shift_down v % 2 ^ 32 ≡ v / 2 ^ 32
down_low v h = ground arith

module _ {S : Type 0} {ops : XdrOps S} {view : View S} (laws : Laws ops view) (v : ℕ)
    (h : v < 2 ^ 64) where
  long_of : (l w : ℕ) → l % 2 ^ 32 ≡ w → Writes view (ops.putlong l) tt (word_bytes w)
  long_of l w e = rw (← e) (laws.putlong_lem l)

  get_longs :
      Reads view
        (ops.getlong >>= λ t1. ops.getlong >>= λ t2. pure (bit_or (shift_up t1) (t2 % 2 ^ 32)))
        v
        (wide_bytes v)
  get_longs =
      let hi : v / 2 ^ 32 < 2 ^ 32 = omega arith in
      let lo : v % 2 ^ 32 < 2 ^ 32 = omega arith in
      get_two view ops.getlong (λ x y. bit_or (shift_up x) (y % 2 ^ 32)) v (v / 2 ^ 32) (v % 2 ^ 32)
        _ _ (laws.getlong_lem (v / 2 ^ 32) hi) (laws.getlong_lem (v % 2 ^ 32) lo)
        (joined (sign_extend 32 64 (v / 2 ^ 32)) (sign_extend 32 64 (v % 2 ^ 32) % 2 ^ 32) v h
          (up_extended (v / 2 ^ 32) hi) (low_extended (v % 2 ^ 32) lo))

  put_ints :
      (w : ℕ)
      → w ≡ v / 2 ^ 32
      → Writes view (ops.putint32 w >> (ops.putint32 (v % 2 ^ 32) >> pure v)) v (wide_bytes v)
  put_ints w e = rw e (
      put_two view (ops.putint32 (v / 2 ^ 32)) (ops.putint32 (v % 2 ^ 32)) v (v / 2 ^ 32)
        (v % 2 ^ 32) (laws.putint32_lem (v / 2 ^ 32) (omega arith))
        (laws.putint32_lem (v % 2 ^ 32) (omega arith)))

  get_ints :
      (f : ℕ → ℕ)
      → shift_up (f (v / 2 ^ 32)) ≡ v / 2 ^ 32 * 2 ^ 32
      → Reads view
          (ops.getint32 >>= λ t1. ops.getint32 >>= λ t2. pure (bit_or (shift_up (f t1)) t2))
          v
          (wide_bytes v)
  get_ints f e =
      get_two view ops.getint32 (λ x y. bit_or (shift_up (f x)) y) v (v / 2 ^ 32) (v % 2 ^ 32) _ _
        (laws.getint32_lem (v / 2 ^ 32) (omega arith))
        (laws.getint32_lem (v % 2 ^ 32) (omega arith))
        (joined (f (v / 2 ^ 32)) (v % 2 ^ 32) v h e refl)

  -- On a stream that keeps its promises, each filter of a 64-bit number, signed or not, of xdr.c and of
  -- xdr_intXX_t.c, encodes it as its two words, the upper one first, and decodes it from them.
  pub xdr_wide-Codes :
      Codes view (xdr_hyper ops) v (wide_bytes v)
      × Codes view (xdr_u_hyper ops) v (wide_bytes v)
      × Codes view (xdr_int64_t ops) v (wide_bytes v)
      × Codes view (xdr_uint64_t ops) v (wide_bytes v)
  unfolding xdr_hyper xdr_u_hyper xdr_int64_t xdr_uint64_t
  xdr_wide-Codes = (
    (
      put_two view (ops.putlong (shift_down v)) (ops.putlong v) v (v / 2 ^ 32) (v % 2 ^ 32)
          (long_of (shift_down v) (v / 2 ^ 32) (down_low v h)) (long_of v (v % 2 ^ 32) refl),
      λ junk. get_longs,
    ),
    (
      put_two view (ops.putlong (v / 2 ^ 32)) (ops.putlong v) v (v / 2 ^ 32) (v % 2 ^ 32)
          (long_of (v / 2 ^ 32) (v / 2 ^ 32) (omega arith)) (long_of v (v % 2 ^ 32) refl),
      λ junk. get_longs,
    ),
    (
      put_ints (shift_down v % 2 ^ 32) (down_low v h),
      λ junk. get_ints (sign_extend 32 64) (up_extended (v / 2 ^ 32) (omega arith)),
    ),
    (put_ints (v / 2 ^ 32 % 2 ^ 32) (omega arith), λ junk. get_ints (λ t. t) (omega arith)),
  )
