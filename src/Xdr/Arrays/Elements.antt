-- ===== src/Xdr/Arrays/Elements.antt =====
-- src/librpc/xdr_array.c: what is encoded of an array is what is decoded.
use rpc_mt.Common.{
  ℕ, ◌-◌, ◌*◌, ◌/◌, ◌^◌, ◌≤◌, ◌<◌, ◌≡◌, refl, Bool, true, none, some, List, [], ◌∷◌, ◌++◌, arith,
  length, replicate, length-replicate, le→ltb, ne→==,
}
use rpc_mt.Xdr.{XdrOp, encode, decode, Filter, pure, XdrOps}
use rpc_mt.Xdr.Codec.{
  View, Writes, Reads, Laws, word_bytes, Writes-bind, Reads-bind, Writes-map, Reads-map,
  Writes-pure, Reads-pure,
}
use rpc_mt.Xdr.Ints.{xdr_u_int}
use rpc_mt.Xdr.Ints.Codes.{Codes, xdr_u_int-Codes}
use rpc_mt.Xdr.Arrays.{each_element, array_loop, array_body, xdr_array, xdr_vector}

-- `code` gives the bytes of an element, and `Fits` says which elements have such.
module _ {S A : Type 0} {ops : XdrOps S} {view : View S} (laws : Laws ops view) (alloc : ℕ → Bool)
    (cleared : A) (elproc : XdrOp → A → Filter S A) (Fits : A → Type 0) (code : A → List ℕ)
    (good : (a : A) → Fits a → Codes view elproc a (code a)) where
  abbrev pub AllFit : List A → Type 0
  AllFit [] = Unit
  AllFit (x ∷ xs) = Fits x × AllFit xs

  abbrev pub all_code : List A → List ℕ
  all_code [] = []
  all_code (x ∷ xs) = code x ++ all_code xs

  each_Writes :
      (xs : List A)
      → AllFit xs
      → Writes view (each_element ops alloc cleared elproc encode xs (length xs)) xs (all_code xs)
  unfolding each_element
  each_Writes [] fit = Writes-pure view []
  each_Writes (x ∷ xs) fit =
      Writes-bind view (elproc encode x) _ x (x ∷ xs) (code x) (all_code xs) (good x fit.0).0 (
        Writes-map view (each_element ops alloc cleared elproc encode xs (length xs))
          (λ xs'. pure (x ∷ xs')) xs (x ∷ xs) (all_code xs) refl (each_Writes xs fit.1))

  each_Reads :
      (xs junk : List A)
      → AllFit xs
      → length junk ≡ length xs
      → Reads view (each_element ops alloc cleared elproc decode junk (length xs)) xs (all_code xs)
  unfolding each_element
  each_Reads [] [] fit h = Reads-pure view []
  each_Reads [] (j ∷ junk) fit h = absurd (omega arith)
  each_Reads (x ∷ xs) [] fit h = absurd (omega arith)
  each_Reads (x ∷ xs) (j ∷ junk) fit h =
      Reads-bind view (elproc decode j) _ x (x ∷ xs) (code x) (all_code xs) ((good x fit.0).1 j) (
        Reads-map view (each_element ops alloc cleared elproc decode junk (length xs))
          (λ xs'. pure (x ∷ xs')) xs (x ∷ xs) (all_code xs) refl
          (each_Reads xs junk fit.1 (omega arith)))

  -- On a stream that keeps its promises, and over an element filter that decodes what it encodes,
  -- `xdr_vector` encodes an array as the bytes of its elements, with no count, and decodes it from
  -- them into memory of as many elements.
  pub xdr_vector-Codes :
      (xs junk : List A)
      → AllFit xs
      → length junk ≡ length xs
      → Writes view (xdr_vector ops alloc cleared elproc encode xs (length xs)) xs (all_code xs)
        × Reads view (xdr_vector ops alloc cleared elproc decode junk (length xs)) xs (all_code xs)
  unfolding xdr_vector
  xdr_vector-Codes xs junk fit h = (each_Writes xs fit, each_Reads xs junk fit h)

  -- Past the length and its checks.
  module _ (xs : List A) (fit : AllFit xs) (maxsize elsize : ℕ) (small : length xs < 2 ^ 32)
      (bound : length xs ≤ maxsize) (sized : 0 < elsize)
      (whole : length xs ≤ (2 ^ 32 - 1) / elsize) where
    body_Writes :
        Writes view
          (array_body ops alloc cleared elproc encode (some xs) (length xs) elsize)
          (some xs, length xs)
          (all_code xs)
    unfolding array_body array_loop
    body_Writes =
        Writes-map view (each_element ops alloc cleared elproc encode xs (length xs))
          (λ xs'. pure (some xs', length xs)) xs (some xs, length xs) (all_code xs) refl
          (each_Writes xs fit)

    body_Reads :
        0 < length xs
        → alloc (length xs * elsize) ≡ true
        → Reads view
            (array_body ops alloc cleared elproc decode none (length xs) elsize)
            (some xs, length xs)
            (all_code xs)
    unfolding array_body array_loop
    body_Reads some_elements room =
        rw (ne→== (length xs) 0 (omega arith), room)
          (Reads-map view
            (each_element ops alloc cleared elproc decode (replicate (length xs) cleared)
              (length xs))
            (λ xs'. pure (some xs', length xs)) xs (some xs, length xs) (all_code xs) refl
            (each_Reads xs (replicate (length xs) cleared) fit
              (length-replicate (length xs) cleared)))

    -- On a stream that keeps its promises, with memory to be had, and over an element filter that
    -- decodes what it encodes, `xdr_array` encodes an array of one or more elements, within
    -- `maxsize` and within UINT_MAX bytes, as its count and the bytes of the elements, and decodes
    -- it from them into memory of its own.
    pub xdr_array-Codes :
        (junk : ℕ)
        → 0 < length xs
        → alloc (length xs * elsize) ≡ true
        → Writes view
            (xdr_array ops alloc cleared elproc encode (some xs, length xs) maxsize elsize)
            (some xs, length xs)
            (word_bytes (length xs) ++ all_code xs)
          × Reads view
              (xdr_array ops alloc cleared elproc decode (none, junk) maxsize elsize)
              (some xs, length xs)
              (word_bytes (length xs) ++ all_code xs)
    unfolding xdr_array
    xdr_array-Codes junk some_elements room =
        let (count_put, count_got) = xdr_u_int-Codes laws (length xs) small in
        (
          Writes-bind view (xdr_u_int ops encode (length xs)) _ (length xs) (some xs, length xs)
              (word_bytes (length xs)) (all_code xs) count_put
              (rw
                (
                  le→ltb maxsize (length xs) bound,
                  ne→== elsize 0 (omega arith),
                  le→ltb ((2 ^ 32 - 1) / elsize) (length xs) whole,
                )
                body_Writes),
          Reads-bind view (xdr_u_int ops decode junk) _ (length xs) (some xs, length xs)
              (word_bytes (length xs)) (all_code xs) (count_got junk)
              (rw
                (
                  le→ltb maxsize (length xs) bound,
                  ne→== elsize 0 (omega arith),
                  le→ltb ((2 ^ 32 - 1) / elsize) (length xs) whole,
                )
                (body_Reads some_elements room)),
        )
