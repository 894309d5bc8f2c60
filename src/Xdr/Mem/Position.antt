-- ===== src/Xdr/Mem/Position.antt =====
-- src/librpc/xdr_mem.c, the position in the buffer.
use rpc_mt.Common.{
  ℕ, ◌+◌, ◌-◌, ◌%◌, ◌^◌, ◌≤◌, ◌<◌, ◌≡◌, refl, ap, sym, ◌∙◌, false, not, ◌||◌, none, some, List,
  ◌++◌, arith, length, take, drop, ltb, ◌==◌, length-append, length-take, take-append-drop,
  drop-take-append, lt→ltb,
}
use rpc_mt.Xdr.{XdrOp, encode, decode, returned, refused, Filter}
use rpc_mt.Xdr.Ints.Codes.{Codes}
use rpc_mt.Xdr.Mem.{Mem, advance, xdrmem_getpos, xdrmem_setpos, xdrmem_inline}
use rpc_mt.Xdr.Mem.Laws.{IsValid, view}
use rpc_mt.Xdr.Mem.Slices.{take-take, drop-take, drop-drop}

abbrev moved : ℕ → Mem → Mem
moved p s = record s { pos = p; handy = s.pos + s.handy - p }

-- The end of a buffer that `xdrmem_create` made is below 2 ^ 32.
abbrev pub IsShort : Mem → Type 0
IsShort s = s.pos + s.handy < 2 ^ 32

setpos_inside :
    (p : ℕ) (s : Mem)
    → IsShort s
    → p ≤ s.pos + s.handy
    → xdrmem_setpos p s ≡ returned tt (moved p s)
unfolding xdrmem_setpos
setpos_inside p s short inside =
    let fits : (ltb (s.pos + s.handy) p
          || not (s.pos + s.handy - p == (s.pos + s.handy - p) % 2 ^ 32))
        ≡ false =
      ground arith in
    rw fits refl

setpos_outside : (p : ℕ) (s : Mem) → s.pos + s.handy < p → xdrmem_setpos p s ≡ refused s
unfolding xdrmem_setpos
setpos_outside p s out = rw (lt→ltb (s.pos + s.handy) p out) refl

-- In a buffer below 2 ^ 32 bytes, a position up to its end can be set and is then read back, with
-- the memory and the end as before; one past the end is refused and changes nothing.
-- `xdrmem_inline` gives the position and moves past the bytes asked for if there are so many, and
-- gives NULL and changes nothing if not.
pub xdrmem_setpos_lem :
    (p len : ℕ) (s : Mem)
    → IsValid s
    → IsShort s
    → (p ≤ s.pos + s.handy
        → (s' : Mem) × (xdrmem_setpos p s ≡ returned tt s')
          × (xdrmem_getpos s' ≡ p)
          × IsValid s'
          × (s'.base ≡ s.base)
          × (s'.pos + s'.handy ≡ s.pos + s.handy))
      × (s.pos + s.handy < p → xdrmem_setpos p s ≡ refused s)
      × (len ≤ s.handy
          → (s' : Mem) × (xdrmem_inline len s ≡ (some s.pos, s'))
            × (xdrmem_getpos s' ≡ xdrmem_getpos s + len)
            × IsValid s'
            × (s'.pos + s'.handy ≡ s.pos + s.handy))
      × (s.handy < len → xdrmem_inline len s ≡ (none, s))
unfolding xdrmem_getpos xdrmem_inline
xdrmem_setpos_lem p len s v short = (
  λ inside.
      (moved p s, setpos_inside p s short inside, omega arith, omega arith, refl, omega arith),
  λ out. setpos_outside p s out,
  λ fits. (advance len s, ground arith, omega arith, omega arith, omega arith),
  λ out. ground arith,
)

-- The bytes that a writer added lie between the old position and the new.
module _ (s s1 : Mem) (v : IsValid s) (v1 : IsValid s1) (bs : List ℕ)
    (wrote : view.written s1 ≡ view.written s ++ bs) (used : s1.handy + length bs ≡ s.handy) where
  pos_after : s1.pos ≡ s.pos + length bs
  pos_after = omega (
    arith,
    ap length wrote,
    length-append (view.written s) bs,
    length-take s.pos s.base,
    length-take s1.pos s1.base,
  )

  between : take (length bs) (drop s.pos s1.base) ≡ bs
  between =
      let width : length bs ≡ s1.pos - s.pos = omega (arith, pos_after) in
      let start : length (view.written s) ≡ s.pos = omega (arith, length-take s.pos s.base) in
      ap (λ (k : ℕ). take k (drop s.pos s1.base)) width
      ∙ sym (drop-take s.pos s1.pos s1.base)
      ∙ ap (drop s.pos) wrote
      ∙ ap (λ (k : ℕ). drop k (view.written s ++ bs)) (sym start)
      ∙ drop-take-append (view.written s) bs

  -- Back at the old position they come next, and then what came next before.
  rewound : view.rest (moved s.pos s1) ≡ bs ++ view.rest s1
  rewound =
      let room : s1.pos + s1.handy - s.pos ≡ s.handy = omega (arith, pos_after) in
      let left : s1.pos + s1.handy - s.pos - length bs ≡ s1.handy = omega (arith, pos_after) in
      let back = view.rest (moved s.pos s1) in
      let front : take (length bs) back ≡ bs =
        take-take (length bs) (s1.pos + s1.handy - s.pos) (drop s.pos s1.base) (omega arith)
        ∙ between in
      let behind : drop (length bs) back ≡ view.rest s1 =
        drop-take (length bs) (s1.pos + s1.handy - s.pos) (drop s.pos s1.base)
        ∙ ap (λ (k : ℕ). take k (drop (length bs) (drop s.pos s1.base))) left
        ∙ ap (take s1.handy) (
            drop-drop (length bs) s.pos s1.base ∙ ap (λ (k : ℕ). drop k s1.base) (sym pos_after)) in
      sym (take-append-drop (length bs) back)
      ∙ ap (λ (x : List ℕ). x ++ drop (length bs) back) front
      ∙ ap (λ (x : List ℕ). bs ++ x) behind

-- Let a filter decode what it encodes on buffers, and let a buffer below 2 ^ 32 bytes have room for
-- the bytes of an object. Encoding the object, setting the position back and decoding all succeed
-- and give the object again, whatever was in its place; the stream then has left to read what it
-- had after the encoding.
pub xdrmem_roundtrip :
    {A : Type 0} (filter : XdrOp → A → Filter Mem A) (a junk : A) (bs : List ℕ) (s : Mem)
    → Codes view filter a bs
    → IsValid s
    → IsShort s
    → length bs ≤ s.handy
    → (s1 s2 s3 : Mem) × (filter encode a s ≡ returned a s1)
      × (xdrmem_setpos s.pos s1 ≡ returned tt s2)
      × (filter decode junk s2 ≡ returned a s3)
      × (view.rest s3 ≡ view.rest s1)
xdrmem_roundtrip filter a junk bs s codes v short room =
    let (s1, put, v1, wrote, used) = (codes.0 s v).0 room in
    let after : s1.pos ≡ s.pos + length bs = pos_after s s1 v v1 bs wrote used in
    let v2 : IsValid (moved s.pos s1) = omega (arith, after) in
    let (s3, got, v3, rest) =
      (codes.1 junk (moved s.pos s1) v2).0 (view.rest s1) (rewound s s1 v v1 bs wrote used) in
    (
      s1,
      moved s.pos s1,
      s3,
      put,
      setpos_inside s.pos s1 (omega (arith, after)) (omega (arith, after)),
      got,
      rest,
    )
