-- ===== src/Xdr/Limits.antt =====
-- src/librpc/xdr.c and xdr_array.c: a count past its limit.
use rpc_mt.Common.{ℕ, ◌^◌, ◌<◌, ◌≡◌, refl, Bool, true, Option, List, ◌++◌, ltb, lt→ltb}
use rpc_mt.Xdr.{XdrOp, decode, refused, Filter, ◌>>=◌, XdrOps}
use rpc_mt.Xdr.Codec.{View, Reads, Laws, word_bytes}
use rpc_mt.Xdr.Ints.{xdr_u_int}
use rpc_mt.Xdr.Ints.Codes.{xdr_u_int-Codes}
use rpc_mt.Xdr.Blocks.{xdr_bytes, xdr_string}
use rpc_mt.Xdr.Arrays.{xdr_array}

module _ {S A B : Type 0} (view : View S) (m : Filter S A) (f : A → Filter S B) (a : A)
    (bs : List ℕ) where
  -- What follows a filter refuses at once.
  refuse_after :
      Reads view m a bs
      → ((s : S) → f a s ≡ refused s)
      → (s : S) (t : List ℕ) → view.valid s
      → view.rest s ≡ bs ++ t
      → (s' : S) × ((m >>= f) s ≡ refused s') × (view.rest s' ≡ t)
  refuse_after reads stops s t v here =
      let (s1, e1, v1, r1) = (reads s v).0 t here in (s1, rw e1 (stops s1), r1)

module _ {S A : Type 0} {ops : XdrOps S} {view : View S} (laws : Laws ops view) (alloc : ℕ → Bool)
    (cleared : A) (elproc : XdrOp → A → Filter S A) (maxsize w : ℕ) (word : w < 2 ^ 32)
    (over : maxsize < w) (s : S) (t : List ℕ) (v : view.valid s)
    (here : view.rest s ≡ word_bytes w ++ t) where
  -- On a stream that keeps its promises and comes to a count above `maxsize`, the decoders of
  -- bytes, of strings and of arrays refuse, whatever memory they were given and whatever memory
  -- could be had, and take nothing past the count.
  pub xdr_counted_limit :
      (cpp : Option (List ℕ)) (addr : Option (List A)) (junk elsize : ℕ)
      → ((s' : S) × (xdr_bytes ops alloc decode (cpp, junk) maxsize s ≡ refused s')
          × (view.rest s' ≡ t))
        × ((s' : S) × (xdr_string ops alloc decode cpp maxsize s ≡ refused s') × (view.rest s' ≡ t))
        × ((s' : S) × (xdr_array ops alloc cleared elproc decode (addr, junk) maxsize elsize s
              ≡ refused s')
            × (view.rest s' ≡ t))
  unfolding xdr_bytes xdr_string xdr_array
  xdr_counted_limit cpp addr junk elsize =
      let past : ltb maxsize w ≡ true = lt→ltb maxsize w over in
      (
        refuse_after view (xdr_u_int ops decode junk) _ w (word_bytes w)
            ((xdr_u_int-Codes laws w word).1 junk) (λ x. rw past refl) s t v here,
        refuse_after view (xdr_u_int ops decode 0) _ w (word_bytes w)
            ((xdr_u_int-Codes laws w word).1 0) (λ x. rw past refl) s t v here,
        refuse_after view (xdr_u_int ops decode junk) _ w (word_bytes w)
            ((xdr_u_int-Codes laws w word).1 junk) (λ x. rw past refl) s t v here,
      )
