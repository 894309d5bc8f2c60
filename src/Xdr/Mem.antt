-- ===== src/Xdr/Mem.antt =====
-- src/librpc/xdr_mem.c: a stream in a buffer.
pub mod Slices
pub mod Laws
pub mod Position
use rpc_mt.Common.{
  ℕ, zero, suc, ◌+◌, ◌-◌, ◌*◌, ◌/◌, ◌%◌, ◌^◌, Bool, true, false, ◌||◌, not, Option, none, some,
  List, [], ◌∷◌, ◌++◌, length, take, drop, ltb, leb, ◌==◌, if◌then◌else◌,
}
use rpc_mt.Xdr.{Ran, returned, refused, broke, Filter, XdrOps, sign_extend}
use rpc_mt.Xdr.Codec.{word_bytes}

-- `XDR` of a buffer: the memory from `x_base` on, `x_private - x_base`, and `x_handy`.
pub record Mem : Type 0 where
  pub base : List ℕ
  pub pos : ℕ
  pub handy : ℕ

-- `size` is of `u_int`; the caller provides the memory.
unfoldable pub xdrmem_create : List ℕ → ℕ → Mem
xdrmem_create base size = record { base = base; pos = 0; handy = size }

-- Bytes of the memory, and bytes put in their place; `none` is outside.
abbrev pub load : List ℕ → ℕ → ℕ → Option (List ℕ)
load base pos n = if leb (pos + n) (length base) then some (take n (drop pos base)) else none

abbrev pub splice : List ℕ → ℕ → List ℕ → List ℕ
splice base pos bs = take pos base ++ (bs ++ drop (pos + length bs) base)

-- `ntohl` of four bytes in memory.
abbrev pub word_of : List ℕ → ℕ → ℕ
word_of [] acc = acc
word_of (b ∷ bs) acc = word_of bs (acc * 256 + b)

-- `x_handy -= n` and `x_private += n`, past the check.
abbrev pub advance : ℕ → Mem → Mem
advance n s = record s { pos = s.pos + n; handy = s.handy - n }

abbrev pub take_bytes : ℕ → Mem → Option (List ℕ) → Ran Mem (List ℕ)
take_bytes n s none = broke
take_bytes n s (some bs) = returned bs (advance n s)

abbrev pub as_word : (ℕ → ℕ) → Ran Mem (List ℕ) → Ran Mem ℕ
as_word f (returned bs s) = returned (f (word_of bs 0)) s
as_word f (refused s) = refused s
as_word f broke = broke

-- `memcpy` into the buffer.
abbrev pub put_bytes : List ℕ → Mem → Ran Mem (Unit {0})
put_bytes bs s =
    if leb (s.pos + length bs) (length s.base)
    then returned tt (advance (length bs) (record s { base = splice s.base s.pos bs }))
    else broke

unfoldable pub xdrmem_getlong : Filter Mem ℕ
xdrmem_getlong s =
    if ltb s.handy 4
    then refused s
    else as_word (sign_extend 32 64) (take_bytes 4 s (load s.base s.pos 4))

unfoldable pub xdrmem_putlong : ℕ → Filter Mem (Unit {0})
xdrmem_putlong l s = if ltb s.handy 4 then refused s else put_bytes (word_bytes (l % 2 ^ 32)) s

unfoldable pub xdrmem_getbytes : ℕ → Filter Mem (List ℕ)
xdrmem_getbytes len s =
    if ltb s.handy len then refused s else take_bytes len s (load s.base s.pos len)

unfoldable pub xdrmem_putbytes : List ℕ → Filter Mem (Unit {0})
xdrmem_putbytes bs s = if ltb s.handy (length bs) then refused s else put_bytes bs s

unfoldable pub xdrmem_getint32 : Filter Mem ℕ
xdrmem_getint32 s =
    if ltb s.handy 4 then refused s else as_word (λ w. w) (take_bytes 4 s (load s.base s.pos 4))

unfoldable pub xdrmem_putint32 : ℕ → Filter Mem (Unit {0})
xdrmem_putint32 w s = if ltb s.handy 4 then refused s else put_bytes (word_bytes w) s

-- The position; a position past `u_int` is reported, and cut.
unfoldable pub xdrmem_getpos : Mem → ℕ
xdrmem_getpos s = s.pos % 2 ^ 32

-- Addresses count from `x_base`, so none is before it. `x_handy` after the move, in 64 bits.
unfoldable pub xdrmem_setpos : ℕ → Filter Mem (Unit {0})
xdrmem_setpos pos s =
    let last = s.pos + s.handy in
    let handy = last - pos in
    if ltb last pos || not (handy == handy % 2 ^ 32)
    then refused s
    else returned tt (record s { pos = pos; handy = handy })

-- The place of `len` bytes of the buffer itself, counted from `x_base`; `none` is NULL.
unfoldable pub xdrmem_inline : ℕ → Mem → Option ℕ × Mem
xdrmem_inline len s = if leb len s.handy then (some s.pos, advance len s) else (none, s)

abbrev pub xdrmem_ops : XdrOps Mem
xdrmem_ops = record {
  getlong = xdrmem_getlong;
  putlong = xdrmem_putlong;
  getbytes = xdrmem_getbytes;
  putbytes = xdrmem_putbytes;
  getint32 = xdrmem_getint32;
  putint32 = xdrmem_putint32;
}
