-- ===== src/Xdr/Ints/Ranges.antt =====
-- src/librpc/xdr.c, `xdr_long` and `xdr_u_long`: a number that does not fit one word is refused.
use rpc_mt.Common.{
  ℕ, ◌-◌, ◌%◌, ◌^◌, ◌<◌, ◌≡◌, arith, ltb, ◌==◌, if◌then◌else◌, Bool-cases, inl, inr,
}
use rpc_mt.Xdr.{encode, refused, ◌>>◌, pure, XdrOps, sign_extend}
use rpc_mt.Xdr.Ints.{xdr_long, xdr_u_long}

-- On any stream, of the 64-bit patterns the encoder of a `long` refuses all but those of the
-- numbers from -2 ^ 31 to 2 ^ 31 - 1, and that of a `u_long` all from 2 ^ 32 on, and then leaves
-- the stream alone; any other pattern is put as it is.
pub xdr_long_range :
    {S : Type 0} (ops : XdrOps S) (v : ℕ) (s : S)
    → v < 2 ^ 64
    → (xdr_long ops encode v s ≡ (
        if ltb v (2 ^ 31)
        then (ops.putlong v >> pure v) s
        else if ltb v (2 ^ 64 - 2 ^ 31)
        then refused s
        else (ops.putlong v >> pure v) s))
      × (xdr_u_long ops encode v s
          ≡ (if ltb v (2 ^ 32) then (ops.putlong v >> pure v) s else refused s))
unfolding xdr_long xdr_u_long
xdr_long_range ops v s h = (
  elim (Bool-cases (sign_extend 32 64 (v % 2 ^ 32) == v)) [
    | inl fits ↦ rw fits (ground arith)
    | inr wide ↦ rw wide (ground arith)
  ],
  elim (Bool-cases (v % 2 ^ 32 == v)) [
    | inl fits ↦ rw fits (ground arith)
    | inr wide ↦ rw wide (ground arith)
  ],
)
