-- ===== src/Xdr/Blocks.antt =====
-- src/librpc/xdr.c, the filters of bytes, strings and unions. `alloc` says whether memory of a size can
-- be had; what such memory holds is written before it is read.
pub mod Opaque
pub mod Counted
pub mod Union
use rpc_mt.Common.{
  ℕ, zero, suc, ◌+◌, ◌-◌, ◌%◌, ◌^◌, Bool, true, false, ◌&&◌, not, Option, none, some, List, [], ◌∷◌,
  ◌++◌, length, take, drop, set, replicate, ltb, ◌==◌, if◌then◌else◌,
}
use rpc_mt.Xdr.{
  XdrOp, encode, decode, free, other, Ran, returned, refused, broke, Filter, and_then, ◌>>=◌, ◌>>◌,
  pure, refuse, break, XdrOps,
}
use rpc_mt.Xdr.Ints.{xdr_u_int, xdr_enum}

-- `LASTUNSIGNED`
abbrev pub last_unsigned : ℕ
last_unsigned = 2 ^ 32 - 1

-- The bytes that fill up the last unit of four.
abbrev pub roundup : ℕ → ℕ
roundup cnt = if cnt % 4 == 0 then 0 else 4 - cnt % 4

-- `strlen`; `none` where no byte is zero.
abbrev pub strlen : List ℕ → Option ℕ
strlen [] = none
strlen (c ∷ cs) = if c == 0 then some 0 else map_suc (strlen cs)
  where
    map_suc : Option ℕ → Option ℕ
    map_suc none = none
    map_suc (some n) = some (suc n)

module _ {S : Type 0} (ops : XdrOps S) where
  unfoldable pub opaque_pad : ℕ → (ℕ → Filter S (Unit {0})) → Filter S (Unit {0})
  opaque_pad cnt move = if roundup cnt == 0 then pure tt else move (roundup cnt)

  -- The object is `cp`, of which the first `cnt` bytes are meant.
  unfoldable pub xdr_opaque_moves : XdrOp → List ℕ → ℕ → Filter S (List ℕ)
  xdr_opaque_moves encode cp cnt =
      if ltb (length cp) cnt
      then break
      else ops.putbytes (take cnt cp)
        >> (opaque_pad cnt (λ n. ops.putbytes (replicate n 0)) >> pure cp)
  xdr_opaque_moves decode cp cnt = ops.getbytes cnt >>= λ bs.
      opaque_pad cnt (λ n. ops.getbytes n >> pure tt) >> pure (bs ++ drop cnt cp)
  xdr_opaque_moves free cp cnt = pure cp
  xdr_opaque_moves other cp cnt = refuse

  unfoldable pub xdr_opaque : XdrOp → List ℕ → ℕ → Filter S (List ℕ)
  xdr_opaque op cp cnt = if cnt == 0 then pure cp else xdr_opaque_moves op cp cnt

  abbrev pub is_free : XdrOp → Bool
  is_free free = true
  is_free _ = false

module _ {S : Type 0} (ops : XdrOps S) (alloc : ℕ → Bool) where
  -- `*cpp`, or new memory.
  abbrev pub memory : Option (List ℕ) → ℕ → Filter S (List ℕ)
  memory (some sp) size = pure sp
  memory none size = if alloc size then pure (replicate size 0) else refuse

  -- The bytes themselves, past the length.
  unfoldable pub bytes_body : XdrOp → Option (List ℕ) → ℕ → Filter S (Option (List ℕ) × ℕ)
  bytes_body decode cpp nodesize =
      if nodesize == 0
      then pure (cpp, nodesize)
      else memory cpp nodesize >>= λ sp.
          xdr_opaque ops decode sp nodesize >>= λ bs. pure (some bs, nodesize)
  bytes_body encode none nodesize = if nodesize == 0 then pure (none, nodesize) else break
  bytes_body encode (some sp) nodesize =
      xdr_opaque ops encode sp nodesize >> pure (some sp, nodesize)
  bytes_body free cpp nodesize = pure (none, nodesize)
  bytes_body other cpp nodesize = refuse

  -- The object is the pointer `*cpp` and the count `*sizep`.
  unfoldable pub xdr_bytes :
      XdrOp → Option (List ℕ) × ℕ → (maxsize : ℕ) → Filter S (Option (List ℕ) × ℕ)
  xdr_bytes op (cpp, size) maxsize = xdr_u_int ops op size >>= λ nodesize.
      if ltb maxsize nodesize && not (is_free ops op) then refuse else bytes_body op cpp nodesize

  -- `MAX_NETOBJ_SZ` is the system's.
  unfoldable pub xdr_netobj :
      (max_netobj_sz : ℕ) → XdrOp → Option (List ℕ) × ℕ → Filter S (Option (List ℕ) × ℕ)
  xdr_netobj max_netobj_sz op np = xdr_bytes op np max_netobj_sz

  abbrev found_length : List ℕ → Option ℕ → Filter S ℕ
  found_length sp none = break
  found_length sp (some n) = pure (n % 2 ^ 32)

  -- The first part of `xdr_string`: the length of the string that is there; FALSE without one.
  abbrev string_size : XdrOp → Option (List ℕ) → Filter S ℕ
  string_size decode cpp = pure 0
  string_size encode none = refuse
  string_size encode (some sp) = found_length sp (strlen sp)
  string_size free none = refuse
  string_size free (some sp) = found_length sp (strlen sp)
  string_size other cpp = refuse

  -- `sp[size] = 0`, and the bytes before it.
  abbrev read_string : ℕ → List ℕ → Filter S (Option (List ℕ))
  read_string size sp =
      if ltb size (length sp)
      then (xdr_opaque ops decode (set sp size 0) size >>= λ bs. pure (some bs))
      else break

  abbrev string_body : XdrOp → Option (List ℕ) → ℕ → Filter S (Option (List ℕ))
  string_body decode cpp size = memory cpp (size + 1) >>= λ sp. read_string size sp
  string_body encode none size = break
  string_body encode (some sp) size = xdr_opaque ops encode sp size >> pure (some sp)
  string_body free cpp size = pure none
  string_body other cpp size = refuse

  -- The parts after the length; `size + 1` is of `u_int`.
  abbrev pub counted_string : XdrOp → Option (List ℕ) → ℕ → Filter S (Option (List ℕ))
  counted_string op cpp maxsize = string_size op cpp >>= λ size0. xdr_u_int ops op size0 >>= λ size.
      if ltb maxsize size
      then refuse
      else if (size + 1) % 2 ^ 32 == 0
      then refuse
      else string_body op cpp size

  -- The object is the pointer `*cpp` to a string and its terminator.
  unfoldable pub xdr_string : XdrOp → Option (List ℕ) → (maxsize : ℕ) → Filter S (Option (List ℕ))
  xdr_string free none maxsize = pure none
  xdr_string free (some sp) maxsize = counted_string free (some sp) maxsize
  xdr_string encode cpp maxsize = counted_string encode cpp maxsize
  xdr_string decode cpp maxsize = counted_string decode cpp maxsize
  xdr_string other cpp maxsize = counted_string other cpp maxsize

  unfoldable pub xdr_wrapstring : XdrOp → Option (List ℕ) → Filter S (Option (List ℕ))
  xdr_wrapstring op cpp = xdr_string op cpp last_unsigned

-- The arms of a union: the values of the discriminant, each with its filter.
module _ {S U : Type 0} (ops : XdrOps S) where
  -- The search: the filter of the first arm of the value, or the default.
  unfoldable pub find_arm :
      ℕ
      → List (ℕ × (XdrOp → U → Filter S U))
      → Option (XdrOp → U → Filter S U)
      → Option (XdrOp → U → Filter S U)
  find_arm dscm [] dfault = dfault
  find_arm dscm ((value, proc) ∷ choices) dfault =
      if value == dscm then some proc else find_arm dscm choices dfault

  abbrev pub run_arm : Option (XdrOp → U → Filter S U) → XdrOp → U → Filter S U
  run_arm none op unp = refuse
  run_arm (some proc) op unp = proc op unp

  unfoldable pub xdr_union :
      List (ℕ × (XdrOp → U → Filter S U))
      → Option (XdrOp → U → Filter S U)
      → XdrOp
      → ℕ × U
      → Filter S (ℕ × U)
  xdr_union choices dfault op (dscm0, unp) = xdr_enum ops op dscm0 >>= λ dscm.
      run_arm (find_arm dscm choices dfault) op unp >>= λ u. pure (dscm, u)
