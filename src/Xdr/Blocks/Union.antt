-- ===== src/Xdr/Blocks/Union.antt =====
-- src/librpc/xdr.c, `xdr_union`: what is encoded of a union is what is decoded.
use rpc_mt.Common.{ℕ, ◌^◌, ◌<◌, ◌≡◌, refl, Option, some, List, ◌++◌}
use rpc_mt.Xdr.{XdrOp, encode, decode, Filter, pure, XdrOps}
use rpc_mt.Xdr.Codec.{View, Laws, word_bytes, Writes-bind, Reads-bind, Writes-map, Reads-map}
use rpc_mt.Xdr.Ints.{xdr_enum}
use rpc_mt.Xdr.Ints.Codes.{Codes, xdr_enum-Codes}
use rpc_mt.Xdr.Blocks.{find_arm, xdr_union}

module _ {S U : Type 0} {ops : XdrOps S} {view : View S} (laws : Laws ops view)
    (choices : List (ℕ × (XdrOp → U → Filter S U))) (dfault : Option (XdrOp → U → Filter S U))
    (dscm : ℕ) (small : dscm < 2 ^ 32) where
  -- On a stream that keeps its promises, if a discriminant below 2 ^ 32 selects an arm, by its
  -- value or as the default, whose filter decodes what it encodes, then `xdr_union` encodes the
  -- union as the discriminant and the bytes of the arm, and decodes it from them.
  pub xdr_union-Codes :
      (proc : XdrOp → U → Filter S U) (u : U) (code : List ℕ)
      → find_arm ops dscm choices dfault ≡ some proc
      → Codes view proc u code
      → Codes view (xdr_union ops choices dfault) (dscm, u) (word_bytes dscm ++ code)
  unfolding xdr_union
  xdr_union-Codes proc u code arm good =
      let (put, got) = xdr_enum-Codes laws dscm small in
      (
        Writes-bind view (xdr_enum ops encode dscm) _ dscm (dscm, u) (word_bytes dscm) code put
            (rw arm
              (Writes-map view (proc encode u) (λ x. pure (dscm, x)) u (dscm, u) code refl good.0)),
        λ junk.
            Reads-bind view (xdr_enum ops decode junk.0) _ dscm (dscm, u) (word_bytes dscm) code
              (got junk.0)
              (rw arm (
                Reads-map view (proc decode junk.1) (λ x. pure (dscm, x)) u (dscm, u) code refl
                  (good.1 junk.1))),
      )
