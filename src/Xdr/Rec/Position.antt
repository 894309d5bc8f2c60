-- ===== src/Xdr/Rec/Position.antt =====
-- src/librpc/xdr_rec.c, the position of the stream: `xdrrec_getpos`, `xdrrec_setpos` and `xdrrec_inline`.
use rpc_mt.Common.{
  ℕ, ◌+◌, ◌-◌, ◌*◌, ◌%◌, ◌^◌, ◌≤◌, ◌<◌, ◌≡◌, refl, ap, ◌∙◌, Bool, true, false, ◌&&◌, Option, none,
  some, arith, ltb, leb, ◌==◌, if◌then◌else◌, ne→==,
}
use rpc_mt.Xdr.{Ran, returned, refused, Filter, XdrOp, encode, decode, free, other}
use rpc_mt.Xdr.Rec.{RecStrm}

-- `(u_int) (-1L)`
abbrev no_position : ℕ
no_position = 2 ^ 32 - 1

-- `a < b` of two `int`.
abbrev int_ltb : (a b : ℕ) → Bool
int_ltb a b = ltb ((a + 2 ^ 31) % 2 ^ 32) ((b + 2 ^ 31) % 2 ^ 32)

-- `p - delta` with an `int`; none below 0.
abbrev back : (p delta : ℕ) → Option ℕ
back p delta =
    if ltb delta (2 ^ 31)
    then if leb delta p then some (p - delta) else none
    else some (p + (2 ^ 32 - delta))

back_forward : (p k : ℕ) → 0 < k → k < 2 ^ 31 → back p (2 ^ 32 - k) ≡ some (p + k)
back_forward p k pos small =
    rw (lt→ltb_false (2 ^ 32 - k) (omega arith)) (ap (λ (n : ℕ). some (p + n)) (omega arith))
  where
    lt→ltb_false : (d : ℕ) → 2 ^ 31 ≤ d → ltb d (2 ^ 31) ≡ false
    lt→ltb_false d h = ground (arith, h)

-- `lseek` gives -1 (`none`) or the position of the descriptor in `tcp_handle`.
module _ {H : Type 0} (lseek : H → Option ℕ) where
  abbrev position : XdrOp → RecStrm H → Option ℕ → ℕ
  position op s none = no_position
  position encode s (some pos) = (pos + s.out_finger) % 2 ^ 32
  position decode s (some pos) = (pos + (2 ^ 64 - (s.in_boundry - s.in_finger))) % 2 ^ 32
  position free s (some pos) = no_position
  position other s (some pos) = no_position

  unfoldable pub xdrrec_getpos : XdrOp → RecStrm H → ℕ
  xdrrec_getpos op s = position op s (lseek s.tcp_handle)

  -- The output is moved to a place in the fragment at hand.
  abbrev move_out : RecStrm H → Option ℕ → Ran (RecStrm H) (Unit {0})
  move_out s none = refused s
  move_out s (some place) =
      if ltb s.frag_header place && ltb place s.out_boundry
      then returned tt (record s { out_finger = place })
      else refused s

  -- The input is moved, and `fbtbc` becomes `left`.
  abbrev move_input : ℕ → RecStrm H → Option ℕ → Option ℕ → Ran (RecStrm H) (Unit {0})
  move_input delta s (some place) (some left) =
      if int_ltb delta (s.fbtbc % 2 ^ 32) && leb place s.in_boundry
      then returned tt (record s { in_finger = place; fbtbc = left })
      else refused s
  move_input delta s none left = refused s
  move_input delta s (some place) none = refused s

  abbrev moved : XdrOp → ℕ → Filter (RecStrm H) (Unit {0})
  moved encode delta s = move_out s (back s.out_finger delta)
  moved decode delta s = move_input delta s (back s.in_finger delta) (back s.fbtbc delta)
  moved free delta s = refused s
  moved other delta s = refused s

  unfoldable pub xdrrec_setpos : XdrOp → (pos : ℕ) → Filter (RecStrm H) (Unit {0})
  xdrrec_setpos op pos s =
      let currpos = xdrrec_getpos op s in
      if currpos == no_position then refused s else moved op ((currpos + (2 ^ 32 - pos)) % 2 ^ 32) s

  -- The place of `len` bytes of a buffer, counted from its base; `none` is NULL.
  unfoldable pub xdrrec_inline : XdrOp → (len : ℕ) → RecStrm H → Option ℕ × RecStrm H
  xdrrec_inline encode len s =
      if leb (s.out_finger + len) s.out_boundry
      then (some s.out_finger, record s { out_finger = s.out_finger + len })
      else (none, s)
  xdrrec_inline decode len s =
      if leb len s.fbtbc && leb (s.in_finger + len) s.in_boundry
      then (some s.in_finger, record s { fbtbc = s.fbtbc - len; in_finger = s.in_finger + len })
      else (none, s)
  xdrrec_inline free len s = (none, s)
  xdrrec_inline other len s = (none, s)

  move_forward :
      (k : ℕ) (s : RecStrm H)
      → 0 < k
      → k < 2 ^ 31
      → s.in_finger + k ≤ s.in_boundry
      → s.fbtbc < 2 ^ 31
      → moved decode (2 ^ 32 - k) s
        ≡ returned tt (record s { in_finger = s.in_finger + k; fbtbc = s.fbtbc + k })
  move_forward k s pos small fits left =
      ap (λ (p : Option ℕ). move_input (2 ^ 32 - k) s p (back s.fbtbc (2 ^ 32 - k)))
        (back_forward s.in_finger k pos small)
      ∙ ap (λ (p : Option ℕ). move_input (2 ^ 32 - k) s (some (s.in_finger + k)) p)
          (back_forward s.fbtbc k pos small)
      ∙ rw allowed refl
    where
      allowed :
          (int_ltb (2 ^ 32 - k) (s.fbtbc % 2 ^ 32) && leb (s.in_finger + k) s.in_boundry) ≡ true
      allowed = ground arith

  -- From a known position, `xdrrec_setpos` to `k` bytes further on in the input buffer succeeds, and counts
  -- `fbtbc`, the bytes left of the fragment, up by `k` where `k` of them were passed; the end of the
  -- fragment, `in_finger + fbtbc`, moves by `2 * k`.
  pub xdrrec_setpos_forward :
      (k : ℕ) (s : RecStrm H)
      → 0 < k
      → k < 2 ^ 31
      → s.in_finger + k ≤ s.in_boundry
      → s.fbtbc < 2 ^ 31
      → xdrrec_getpos decode s + k < 2 ^ 32
      → (s' : RecStrm H) × (xdrrec_setpos decode (xdrrec_getpos decode s + k) s ≡ returned tt s')
        × (s'.in_finger ≡ s.in_finger + k)
        × (s'.in_finger + s'.fbtbc ≡ s.in_finger + s.fbtbc + 2 * k)
  unfolding xdrrec_setpos
  xdrrec_setpos_forward k s pos small fits left known = (
    record s { in_finger = s.in_finger + k; fbtbc = s.fbtbc + k },
    from_position (xdrrec_getpos decode s) known,
    refl,
    omega arith,
  )
    where
      from_position :
          (curr : ℕ)
          → curr + k < 2 ^ 32
          → (if curr == no_position
              then refused s
              else moved decode ((curr + (2 ^ 32 - (curr + k))) % 2 ^ 32) s)
            ≡ returned tt (record s { in_finger = s.in_finger + k; fbtbc = s.fbtbc + k })
      from_position curr h =
          let delta : (curr + (2 ^ 32 - (curr + k))) % 2 ^ 32 ≡ 2 ^ 32 - k = omega arith in
          rw (ne→== curr no_position (omega arith), delta) (move_forward k s pos small fits left)
