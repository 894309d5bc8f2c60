-- ===== src/Xdr/Ints.antt =====
-- src/librpc/xdr.c, the filters of integers, and src/librpc/xdr_intXX_t.c. An object of a w-bit type is
-- its bit pattern, below 2 ^ w.
pub mod Codes
pub mod Exact
pub mod Wide
pub mod Ranges
use Prim.Native.Nat.{bit_or}
use rpc_mt.Common.{
  ℕ, ◌+◌, ◌-◌, ◌*◌, ◌/◌, ◌%◌, ◌^◌, Bool, true, false, ◌||◌, ltb, ◌==◌, if◌then◌else◌,
}
use rpc_mt.Xdr.{
  XdrOp, encode, decode, free, other, Ran, returned, refused, Filter, and_then, ◌>>=◌, ◌>>◌, pure,
  refuse, XdrOps, sign_extend,
}

-- `x << 32` in 64 bits.
abbrev pub shift_up : ℕ → ℕ
shift_up x = x * 2 ^ 32 % 2 ^ 64

-- `x >> 32` on a signed 64-bit number, which copies its sign.
abbrev pub shift_down : ℕ → ℕ
shift_down x = if ltb x (2 ^ 63) then x / 2 ^ 32 else x / 2 ^ 32 + (2 ^ 64 - 2 ^ 32)

module _ {S : Type 0} (ops : XdrOps S) where
  unfoldable pub xdr_int : XdrOp → ℕ → Filter S ℕ
  xdr_int encode v = ops.putlong (sign_extend 32 64 v) >> pure v
  xdr_int decode v = ops.getlong >>= λ l. pure (l % 2 ^ 32)
  xdr_int free v = pure v
  xdr_int other v = refuse

  unfoldable pub xdr_u_int : XdrOp → ℕ → Filter S ℕ
  xdr_u_int encode v = ops.putlong v >> pure v
  xdr_u_int decode v = ops.getlong >>= λ l. pure (l % 2 ^ 32)
  xdr_u_int free v = pure v
  xdr_u_int other v = refuse

  -- Whether a `long` is the sign extension of an `int32_t`, `(int32_t) l == l`.
  unfoldable pub xdr_long : XdrOp → ℕ → Filter S ℕ
  xdr_long encode v =
      if sign_extend 32 64 (v % 2 ^ 32) == v then ops.putlong v >> pure v else refuse
  xdr_long decode v = ops.getlong
  xdr_long free v = pure v
  xdr_long other v = refuse

  unfoldable pub xdr_u_long : XdrOp → ℕ → Filter S ℕ
  xdr_u_long encode v = if v % 2 ^ 32 == v then ops.putlong v >> pure v else refuse
  xdr_u_long decode v = ops.getlong >>= λ l. pure (l % 2 ^ 32)
  xdr_u_long free v = pure v
  xdr_u_long other v = refuse

  unfoldable pub xdr_hyper : XdrOp → ℕ → Filter S ℕ
  xdr_hyper encode v = ops.putlong (shift_down v) >> (ops.putlong v >> pure v)
  xdr_hyper decode v =
      ops.getlong >>= λ t1. ops.getlong >>= λ t2. pure (bit_or (shift_up t1) (t2 % 2 ^ 32))
  xdr_hyper free v = pure v
  xdr_hyper other v = refuse

  unfoldable pub xdr_u_hyper : XdrOp → ℕ → Filter S ℕ
  xdr_u_hyper encode v = ops.putlong (v / 2 ^ 32) >> (ops.putlong v >> pure v)
  xdr_u_hyper decode v =
      ops.getlong >>= λ t1. ops.getlong >>= λ t2. pure (bit_or (shift_up t1) (t2 % 2 ^ 32))
  xdr_u_hyper free v = pure v
  xdr_u_hyper other v = refuse

  unfoldable pub xdr_short : XdrOp → ℕ → Filter S ℕ
  xdr_short encode v = ops.putlong (sign_extend 16 64 v) >> pure v
  xdr_short decode v = ops.getlong >>= λ l. pure (l % 2 ^ 16)
  xdr_short free v = pure v
  xdr_short other v = refuse

  unfoldable pub xdr_u_short : XdrOp → ℕ → Filter S ℕ
  xdr_u_short encode v = ops.putlong v >> pure v
  xdr_u_short decode v = ops.getlong >>= λ l. pure (l % 2 ^ 16)
  xdr_u_short free v = pure v
  xdr_u_short other v = refuse

  -- A `char` is signed.
  unfoldable pub xdr_char : XdrOp → ℕ → Filter S ℕ
  xdr_char op v = xdr_int op (sign_extend 8 32 v) >>= λ i. pure (i % 2 ^ 8)

  unfoldable pub xdr_u_char : XdrOp → ℕ → Filter S ℕ
  xdr_u_char op v = xdr_u_int op v >>= λ u. pure (u % 2 ^ 8)

  unfoldable pub xdr_bool : XdrOp → ℕ → Filter S ℕ
  xdr_bool encode v = ops.putlong (if v == 0 then 0 else 1) >> pure v
  xdr_bool decode v = ops.getlong >>= λ lb. pure (if lb == 0 then 0 else 1)
  xdr_bool free v = pure v
  xdr_bool other v = refuse

  -- An enumeration has the size of an `int`.
  unfoldable pub xdr_enum : XdrOp → ℕ → Filter S ℕ
  xdr_enum encode v = ops.putlong (sign_extend 32 64 v) >> pure v
  xdr_enum decode v = ops.getlong >>= λ l. pure (l % 2 ^ 32)
  xdr_enum free v = pure v
  xdr_enum other v = refuse

  unfoldable pub xdr_int64_t : XdrOp → ℕ → Filter S ℕ
  xdr_int64_t encode v =
      ops.putint32 (shift_down v % 2 ^ 32) >> (ops.putint32 (v % 2 ^ 32) >> pure v)
  xdr_int64_t decode v = ops.getint32 >>= λ t1.
      ops.getint32 >>= λ t2. pure (bit_or (shift_up (sign_extend 32 64 t1)) t2)
  xdr_int64_t free v = pure v
  xdr_int64_t other v = refuse

  unfoldable pub xdr_uint64_t : XdrOp → ℕ → Filter S ℕ
  xdr_uint64_t encode v =
      ops.putint32 (v / 2 ^ 32 % 2 ^ 32) >> (ops.putint32 (v % 2 ^ 32) >> pure v)
  xdr_uint64_t decode v =
      ops.getint32 >>= λ t1. ops.getint32 >>= λ t2. pure (bit_or (shift_up t1) t2)
  xdr_uint64_t free v = pure v
  xdr_uint64_t other v = refuse

  unfoldable pub xdr_int32_t : XdrOp → ℕ → Filter S ℕ
  xdr_int32_t encode v = ops.putint32 v >> pure v
  xdr_int32_t decode v = ops.getint32
  xdr_int32_t free v = pure v
  xdr_int32_t other v = refuse

  unfoldable pub xdr_uint32_t : XdrOp → ℕ → Filter S ℕ
  xdr_uint32_t encode v = ops.putint32 v >> pure v
  xdr_uint32_t decode v = ops.getint32
  xdr_uint32_t free v = pure v
  xdr_uint32_t other v = refuse

  unfoldable pub xdr_int16_t : XdrOp → ℕ → Filter S ℕ
  xdr_int16_t encode v = ops.putint32 (sign_extend 16 32 v) >> pure v
  xdr_int16_t decode v = ops.getint32 >>= λ t. pure (t % 2 ^ 16)
  xdr_int16_t free v = pure v
  xdr_int16_t other v = refuse

  unfoldable pub xdr_uint16_t : XdrOp → ℕ → Filter S ℕ
  xdr_uint16_t encode v = ops.putint32 v >> pure v
  xdr_uint16_t decode v = ops.getint32 >>= λ ut. pure (ut % 2 ^ 16)
  xdr_uint16_t free v = pure v
  xdr_uint16_t other v = refuse

  unfoldable pub xdr_int8_t : XdrOp → ℕ → Filter S ℕ
  xdr_int8_t encode v = ops.putint32 (sign_extend 8 32 v) >> pure v
  xdr_int8_t decode v = ops.getint32 >>= λ t. pure (t % 2 ^ 8)
  xdr_int8_t free v = pure v
  xdr_int8_t other v = refuse

  unfoldable pub xdr_uint8_t : XdrOp → ℕ → Filter S ℕ
  xdr_uint8_t encode v = ops.putint32 v >> pure v
  xdr_uint8_t decode v = ops.getint32 >>= λ ut. pure (ut % 2 ^ 8)
  xdr_uint8_t free v = pure v
  xdr_uint8_t other v = refuse
