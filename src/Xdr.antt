-- ===== src/Xdr.antt =====
-- src/librpc/xdr*.c: external data representation. A filter of the source takes a stream and a place
-- for an object; here it takes the object and gives the one that is there afterwards.
pub mod Codec
pub mod Mem
pub mod Rec
pub mod Ints
pub mod Blocks
pub mod Arrays
pub mod Limits
pub mod Release
use rpc_mt.Common.{ℕ, ◌+◌, ◌-◌, ◌^◌, Bool, true, false, List, ltb, if◌then◌else◌}

-- `enum xdr_op`, and any other value.
pub data XdrOp : Type 0 where
  encode decode free other : XdrOp

-- What a call comes to: TRUE, with the object; FALSE, after which the object is not to be used; or an
-- access outside the memory that it was given.
pub data Ran (S A : Type 0) : Type 0 where
  returned : A → S → Ran S A
  refused : S → Ran S A
  broke : Ran S A

abbrev pub Filter : Type 0 → Type 0 → Type 0
Filter S A = S → Ran S A

infixl 5 ◌>>=◌ ◌>>◌
abbrev pub and_then : {S A B : Type 0} → Ran S A → (A → S → Ran S B) → Ran S B
and_then (returned a s) f = f a s
and_then (refused s) f = refused s
and_then broke f = broke

abbrev pub ◌>>=◌ : {S A B : Type 0} → Filter S A → (A → Filter S B) → Filter S B
(m >>= f) s = and_then (m s) f

abbrev pub ◌>>◌ : {S A B : Type 0} → Filter S A → Filter S B → Filter S B
m >> k = m >>= λ _. k

abbrev pub pure : {S A : Type 0} → A → Filter S A
pure a s = returned a s

abbrev pub refuse : {S A : Type 0} → Filter S A
refuse s = refused s

-- A use of a NULL pointer, or of a place past the end of an object.
abbrev pub break : {S A : Type 0} → Filter S A
break s = broke

-- `struct xdr_ops`: what the filters ask of a stream. A `long` is its 64-bit pattern, an `int32_t` its
-- 32-bit pattern, a byte a number below 256.
pub record XdrOps (S : Type 0) : Type 0 where
  pub getlong : Filter S ℕ
  pub putlong : ℕ → Filter S (Unit {0})
  pub getbytes : ℕ → Filter S (List ℕ)
  pub putbytes : List ℕ → Filter S (Unit {0})
  pub getint32 : Filter S ℕ
  pub putint32 : ℕ → Filter S (Unit {0})

-- The conversion of an `int` to a `long`, and of shorter signed types to an `int`.
abbrev pub sign_extend : (from to : ℕ) → ℕ → ℕ
sign_extend from to v = if ltb v (2 ^ (from - 1)) then v else v + (2 ^ to - 2 ^ from)
