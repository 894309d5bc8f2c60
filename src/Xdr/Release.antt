-- ===== src/Xdr/Release.antt =====
-- src/librpc/xdr.c, xdr_array.c and xdr_ref.c, the filters with XDR_FREE.
use rpc_mt.Common.{
  ℕ, ◌+◌, ◌-◌, ◌/◌, ◌%◌, ◌^◌, ◌<◌, ◌≡◌, refl, Bool, true, false, ◌&&◌, Option, none, some, List, [],
  ◌∷◌, ◌++◌, arith, length, ltb, ◌==◌, if◌then◌else◌, ne→==,
}
use rpc_mt.Xdr.{XdrOp, free, Ran, returned, refused, Filter, ◌>>◌, pure, refuse, XdrOps}
use rpc_mt.Xdr.Ints.{xdr_u_int, xdr_bool}
use rpc_mt.Xdr.Blocks.{bytes_body, xdr_bytes, xdr_string}
use rpc_mt.Xdr.Blocks.Counted.{NoZero, strlen_lem}
use rpc_mt.Xdr.Arrays.{array_body, array_loop, each_element, xdr_array, xdr_reference, xdr_pointer}

module _ {S A : Type 0} (ops : XdrOps S) (alloc : ℕ → Bool) (cleared : A)
    (elproc : XdrOp → A → Filter S A)
    (releases : (a : A) (s : S) → elproc free a s ≡ returned a s) where
  each_released :
      (xs : List A) (s : S)
      → each_element ops alloc cleared elproc free xs (length xs) s ≡ returned xs s
  unfolding each_element
  each_released [] s = refl
  each_released (x ∷ xs) s = rw (releases x s) (rw (each_released xs s) refl)

  -- With XDR_FREE, over an element filter that then leaves the element and the stream alone, and for an
  -- element size above zero: the filters of bytes, arrays and pointers leave the stream alone and the
  -- pointer NULL, whatever the limit. A string of `cs` (no zero byte, shorter than 2 ^ 32 - 1) is
  -- released only within its limit: beyond it the filter refuses. A NULL string stays NULL.
  pub xdr_release :
      (bs : Option (List ℕ)) (cs : List ℕ) (xs : List A) (a : A) (count maxsize elsize size : ℕ)
      (s : S)
      → NoZero cs
      → length cs + 1 < 2 ^ 32
      → 0 < elsize
      → (xdr_bytes ops alloc free (bs, count) maxsize s ≡ returned (none, count) s)
        × (xdr_array ops alloc cleared elproc free (some xs, length xs) maxsize elsize s
            ≡ returned (none, length xs) s)
        × (xdr_array ops alloc cleared elproc free (none, count) maxsize elsize s
            ≡ returned (none, count) s)
        × (xdr_pointer ops alloc cleared elproc free (some a) size s ≡ returned none s)
        × (xdr_pointer ops alloc cleared elproc free none size s ≡ returned none s)
        × (xdr_string ops alloc free none maxsize s ≡ returned none s)
        × (xdr_string ops alloc free (some (cs ++ (0 ∷ []))) maxsize s
            ≡ (if ltb maxsize (length cs) then refused s else returned none s))
  unfolding xdr_bytes bytes_body xdr_array array_body array_loop xdr_pointer xdr_reference
      xdr_string xdr_u_int xdr_bool
  xdr_release bs cs xs a count maxsize elsize size s plain short sized = (
    bytes (ltb maxsize count),
    rw (ne→== elsize 0 (omega arith))
        (within (ltb maxsize (length xs)) (ltb ((2 ^ 32 - 1) / elsize) (length xs))),
    rw (ne→== elsize 0 (omega arith))
        (none_there (ltb maxsize count) (ltb ((2 ^ 32 - 1) / elsize) count)),
    rw (releases a s) refl,
    refl,
    refl,
    string,
  )
    where
      bytes :
          (b : Bool)
          → ◌≡◌ {A = Ran S (Option (List ℕ) × ℕ)}
              ((if b && false then refuse else pure (none, count)) s)
              (returned (none, count) s)
      bytes true = refl
      bytes false = refl

      loop : Filter S (Option (List A) × ℕ)
      loop = each_element ops alloc cleared elproc free xs (length xs) >> pure (none, length xs)

      looped : loop s ≡ returned (none, length xs) s
      looped = rw (each_released xs s) refl

      within :
          (b c : Bool)
          → (if b then loop else if c && false then refuse else loop) s
            ≡ returned (none, length xs) s
      within true c = looped
      within false true = looped
      within false false = looped

      none_there :
          (b c : Bool)
          → ◌≡◌ {A = Ran S (Option (List A) × ℕ)}
              ((if b then pure (none, count) else if c && false then refuse else pure (none, count))
                s)
              (returned (none, count) s)
      none_there true c = refl
      none_there false true = refl
      none_there false false = refl

      string :
          xdr_string ops alloc free (some (cs ++ (0 ∷ []))) maxsize s
          ≡ (if ltb maxsize (length cs) then refused s else returned none s)
      string =
          let whole : length cs % 2 ^ 32 ≡ length cs = omega arith in
          let no_overflow : ((length cs + 1) % 2 ^ 32 == 0) ≡ false = ground arith in
          rw (strlen_lem cs plain, whole, no_overflow) (either (ltb maxsize (length cs)))
        where
          either :
              (b : Bool)
              → ◌≡◌ {A = Ran S (Option (List ℕ))}
                  ((if b then refuse else if false then refuse else pure none) s)
                  (if b then refused s else returned none s)
          either true = refl
          either false = refl
