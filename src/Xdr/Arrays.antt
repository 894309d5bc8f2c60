-- ===== src/Xdr/Arrays.antt =====
-- src/librpc/xdr_array.c and xdr_ref.c: arrays and pointers, over the filter of their elements.
pub mod Elements
pub mod Pointers
use rpc_mt.Common.{
  ℕ, zero, suc, ◌+◌, ◌-◌, ◌*◌, ◌/◌, ◌%◌, ◌^◌, Bool, true, false, ◌&&◌, ◌||◌, not, Option, none,
  some, List, [], ◌∷◌, replicate, ltb, ◌==◌, if◌then◌else◌,
}
use rpc_mt.Xdr.{
  XdrOp, encode, decode, free, other, Ran, returned, refused, broke, Filter, and_then, ◌>>=◌, ◌>>◌,
  pure, refuse, break, XdrOps,
}
use rpc_mt.Xdr.Ints.{xdr_u_int, xdr_bool}

-- `alloc` says whether memory of a size can be had, and `cleared` is an element of memory that `calloc`
-- has set to zero.
module _ {S A : Type 0} (ops : XdrOps S) (alloc : ℕ → Bool) (cleared : A)
    (elproc : XdrOp → A → Filter S A) where
  -- The loop over `c` elements; past the end of the memory there is none.
  unfoldable pub each_element : XdrOp → List A → ℕ → Filter S (List A)
  each_element op xs zero = pure xs
  each_element op [] (suc c) = break
  each_element op (x ∷ xs) (suc c) =
      elproc op x >>= λ x'. each_element op xs c >>= λ xs'. pure (x' ∷ xs')

  -- The loop, and the release of the memory.
  unfoldable pub array_loop : XdrOp → List A → ℕ → Filter S (Option (List A) × ℕ)
  array_loop free xs c = each_element free xs c >> pure (none, c)
  array_loop op xs c = each_element op xs c >>= λ xs'. pure (some xs', c)

  -- `target == NULL`: an encoder with elements to read has none.
  unfoldable pub array_body :
      XdrOp → Option (List A) → ℕ → (elsize : ℕ) → Filter S (Option (List A) × ℕ)
  array_body op (some xs) c elsize = array_loop op xs c
  array_body decode none c elsize =
      if c == 0
      then pure (none, c)
      else if alloc (c * elsize)
      then array_loop decode (replicate c cleared) c
      else refuse
  array_body free none c elsize = pure (none, c)
  array_body encode none c elsize = if c == 0 then pure (none, c) else break
  array_body other none c elsize = if c == 0 then pure (none, c) else break

  abbrev pub is_free : XdrOp → Bool
  is_free free = true
  is_free _ = false

  -- The object is the pointer `*addrp` and the count `*sizep`. An `elsize` of 0 is a division by zero.
  unfoldable pub xdr_array :
      XdrOp → Option (List A) × ℕ → (maxsize elsize : ℕ) → Filter S (Option (List A) × ℕ)
  xdr_array op (addr, size) maxsize elsize = xdr_u_int ops op size >>= λ c.
      if ltb maxsize c
      then (if is_free op then array_body op addr c elsize else refuse)
      else if elsize == 0
      then break
      else if ltb ((2 ^ 32 - 1) / elsize) c && not (is_free op)
      then refuse
      else array_body op addr c elsize

  unfoldable pub xdr_vector : XdrOp → List A → (nelem : ℕ) → Filter S (List A)
  xdr_vector op base nelem = each_element op base nelem

  -- The object behind the pointer is handled, and released.
  abbrev behind : XdrOp → A → Filter S (Option A)
  behind free a = elproc free a >> pure none
  behind op a = elproc op a >>= λ a'. pure (some a')

  unfoldable pub xdr_reference : XdrOp → Option A → (size : ℕ) → Filter S (Option A)
  xdr_reference op (some a) size = behind op a
  xdr_reference decode none size = if alloc size then behind decode cleared else refuse
  xdr_reference free none size = pure none
  xdr_reference encode none size = refuse
  xdr_reference other none size = refuse

  abbrev pub is_some : Option A → ℕ
  is_some none = 0
  is_some (some a) = 1

  unfoldable pub xdr_pointer : XdrOp → Option A → (obj_size : ℕ) → Filter S (Option A)
  xdr_pointer op objp obj_size = xdr_bool ops op (is_some objp) >>= λ more_data.
      if more_data == 0 then pure none else xdr_reference op objp obj_size
