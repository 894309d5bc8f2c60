-- ===== src/Xdr/Arrays/Pointers.antt =====
-- src/librpc/xdr_ref.c: what is encoded of a pointer is what is decoded.
use rpc_mt.Common.{ℕ, ◌≡◌, refl, Bool, true, Option, none, some, List, ◌++◌, arith}
use rpc_mt.Xdr.{XdrOp, encode, decode, Filter, pure, XdrOps}
use rpc_mt.Xdr.Codec.{View, Reads, Laws, word_bytes, Writes-bind, Reads-bind, Writes-map, Reads-map}
use rpc_mt.Xdr.Ints.{xdr_bool}
use rpc_mt.Xdr.Ints.Codes.{Codes, xdr_bool-Codes}
use rpc_mt.Xdr.Arrays.{is_some, xdr_reference, xdr_pointer}

module _ {S A : Type 0} {ops : XdrOps S} {view : View S} (laws : Laws ops view) (alloc : ℕ → Bool)
    (cleared : A) (elproc : XdrOp → A → Filter S A) (a : A) (code : List ℕ)
    (good : Codes view elproc a code) (size : ℕ) (room : alloc size ≡ true) where
  reference_Codes :
      Codes view (λ op o. xdr_reference ops alloc cleared elproc op o size) (some a) code
  unfolding xdr_reference
  reference_Codes =
      (Writes-map view (elproc encode a) (λ a'. pure (some a')) a (some a) code refl good.0, reads)
    where
      reads :
          (junk : Option A)
          → Reads view (xdr_reference ops alloc cleared elproc decode junk size) (some a) code
      reads none = rw room (
          Reads-map view (elproc decode cleared) (λ a'. pure (some a')) a (some a) code refl
            (good.1 cleared))
      reads (some j) =
          Reads-map view (elproc decode j) (λ a'. pure (some a')) a (some a) code refl (good.1 j)

  -- On a stream that keeps its promises, with memory to be had, and over a filter that decodes what
  -- it encodes, `xdr_pointer` encodes a pointer to an object as 1 and the bytes of the object, and
  -- NULL as 0, and decodes each from them, whether memory was there before or not.
  pub xdr_pointer-Codes :
      Codes view
        (λ op o. xdr_pointer ops alloc cleared elproc op o size)
        (some a)
        (word_bytes 1 ++ code)
      × Codes view (λ op o. xdr_pointer ops alloc cleared elproc op o size) none (word_bytes 0)
  unfolding xdr_pointer
  xdr_pointer-Codes =
      let (put_yes, got_yes) = xdr_bool-Codes laws 1 (omega arith) in
      let (put_no, got_no) = xdr_bool-Codes laws 0 (omega arith) in
      (
        (
          Writes-bind view (xdr_bool ops encode 1) _ 1 (some a) (word_bytes 1) code put_yes
              reference_Codes.0,
          λ junk.
              Reads-bind view (xdr_bool ops decode (is_some ops alloc cleared elproc junk)) _ 1
                (some a) (word_bytes 1) code (got_yes (is_some ops alloc cleared elproc junk))
                (reference_Codes.1 junk),
        ),
        (
          Writes-map view (xdr_bool ops encode 0) _ 0 none (word_bytes 0) refl put_no,
          λ junk.
              Reads-map view (xdr_bool ops decode (is_some ops alloc cleared elproc junk)) _ 0 none
                (word_bytes 0) refl (got_no (is_some ops alloc cleared elproc junk)),
        ),
      )
