-- ===== src/Xdr/Rec.antt =====
-- src/librpc/xdr_rec.c: a stream of records, each of one or more fragments behind a header of four bytes,
-- over the `readit` and `writeit` of its creator.
pub mod Input
pub mod Fragments
pub mod Records
pub mod Skip
pub mod Short
pub mod Words
pub mod Exchange
pub mod Position
pub mod Opens
pub mod Output
pub mod Written
pub mod Whole
use rpc_mt.Common.{
  ℕ, zero, suc, ◌+◌, ◌-◌, ◌*◌, ◌/◌, ◌%◌, ◌^◌, Bool, true, false, ◌||◌, ◌&&◌, not, Option, none,
  some, List, [], ◌∷◌, ◌++◌, length, take, drop, replicate, ltb, leb, ◌==◌, if◌then◌else◌,
}
use rpc_mt.Xdr.{
  Ran, returned, refused, broke, Filter, and_then, ◌>>=◌, ◌>>◌, pure, refuse, break, XdrOps,
  sign_extend,
}
use rpc_mt.Xdr.Codec.{word_bytes}
use rpc_mt.Xdr.Mem.{load, splice, word_of}

-- `LAST_FRAG`
abbrev pub last_frag_bit : ℕ
last_frag_bit = 2 ^ 31

-- `readit` gives -1 (`none`) or the bytes that it has put into the buffer; `writeit` the number of those
-- that it has taken, as an `int`.
pub record Handle (H : Type 0) : Type 0 where
  pub readit : (len : ℕ) → H → Option (List ℕ) × H
  pub writeit : List ℕ → H → ℕ × H

-- `struct rec_strm`: the memory from `out_base` to `out_boundry` and from `in_base` on, and the places in
-- them, which count from their bases; both bases are multiples of four.
pub record RecStrm (H : Type 0) : Type 0 where
  pub tcp_handle : H
  pub out : List ℕ
  pub out_finger : ℕ
  pub out_boundry : ℕ
  pub frag_header : ℕ
  pub frag_sent : Bool
  pub buf : List ℕ
  pub in_size : ℕ
  pub in_finger : ℕ
  pub in_boundry : ℕ
  pub fbtbc : ℕ
  pub last_frag : Bool

-- `fix_buf_size`, with `RNDUP` of the XDR library.
unfoldable pub fix_buf_size : ℕ → ℕ
fix_buf_size s = (let t = if ltb s 100 then 4000 else s in (t + 3) / 4 * 4 % 2 ^ 32)

-- Memory is to be had; what it holds is written before it is read.
unfoldable pub xdrrec_create : {H : Type 0} → (sendsize recvsize : ℕ) → H → RecStrm H
xdrrec_create sendsize recvsize tcp_handle = record {
  tcp_handle = tcp_handle;
  out = replicate (fix_buf_size sendsize) 0;
  out_finger = 4;
  out_boundry = fix_buf_size sendsize;
  frag_header = 0;
  frag_sent = false;
  buf = replicate (fix_buf_size recvsize) 0;
  in_size = fix_buf_size recvsize;
  in_finger = fix_buf_size recvsize;
  in_boundry = fix_buf_size recvsize;
  fbtbc = 0;
  last_frag = true;
}

module _ {H : Type 0} (handle : Handle H) where
  -- The bytes that `readit` has put at `i`; more than it was asked for would be outside the buffer.
  abbrev pub filled : ℕ → RecStrm H → Option (List ℕ) × H → Ran (RecStrm H) (Unit {0})
  filled i s (none, h) = refused (record s { tcp_handle = h })
  filled i s (some bs, h) =
      if leb (i + length bs) (length s.buf)
      then returned tt (record s {
        tcp_handle = h;
        buf = splice s.buf i bs;
        in_finger = i;
        in_boundry = i + length bs;
      })
      else broke

  unfoldable pub fill_input_buf : Filter (RecStrm H) (Unit {0})
  fill_input_buf s =
      let i = s.in_boundry % 4 in filled i s (handle.readit (s.in_size - i) s.tcp_handle)

  abbrev pub move_in : ℕ → RecStrm H → RecStrm H
  move_in c s = record s { in_finger = s.in_finger + c }

  -- `memcpy` from the buffer.
  abbrev pub copied : ℕ → RecStrm H → Option (List ℕ) → Ran (RecStrm H) (List ℕ)
  copied c s none = broke
  copied c s (some bs) = returned bs (move_in c s)

  abbrev pub smaller : ℕ → ℕ → ℕ
  smaller a b = if ltb a b then a else b

  -- The loops below take the number of rounds that are looked at, with no result after them; some bytes
  -- in the buffer give two rounds at most for each byte.
  unfoldable pub get_input_bytes : ℕ → (len : ℕ) → Filter (RecStrm H) (List ℕ)
  get_input_bytes zero len s = broke
  get_input_bytes (suc n) len s = elim (len == 0) [
    | true ↦ returned [] s
    | false ↦ elim (s.in_boundry - s.in_finger == 0) [
      | true ↦ and_then (fill_input_buf s) (λ _ s'. get_input_bytes n len s')
      | false ↦
          let c = smaller len (s.in_boundry - s.in_finger) in
          and_then (copied c s (load s.buf s.in_finger c))
            (λ bs s'. and_then (get_input_bytes n (len - c) s') (λ cs s''. returned (bs ++ cs) s''))
    ]
  ]

  unfoldable pub skip_input_bytes : ℕ → (cnt : ℕ) → Filter (RecStrm H) (Unit {0})
  skip_input_bytes zero cnt s = broke
  skip_input_bytes (suc n) cnt s = elim (cnt == 0) [
    | true ↦ returned tt s
    | false ↦ elim (s.in_boundry - s.in_finger == 0) [
      | true ↦ and_then (fill_input_buf s) (λ _ s'. skip_input_bytes n cnt s')
      | false ↦
          let c = smaller cnt (s.in_boundry - s.in_finger) in
          skip_input_bytes n (cnt - c) (move_in c s)
    ]
  ]

  -- The header of a fragment: `last_frag` is set from any, and only 0 is refused.
  abbrev pub take_header : ℕ → Filter (RecStrm H) (Unit {0})
  take_header header s =
      let s' : RecStrm H = record s { last_frag = leb last_frag_bit header } in
      if header == 0 then refused s' else returned tt (record s' { fbtbc = header % last_frag_bit })

  unfoldable pub set_input_fragment : ℕ → Filter (RecStrm H) (Unit {0})
  set_input_fragment n s = and_then (get_input_bytes n 4 s) (λ bs s'. take_header (word_of bs 0) s')

  unfoldable pub get_loop : ℕ → ℕ → (len : ℕ) → Filter (RecStrm H) (List ℕ)
  get_loop n zero len s = broke
  get_loop n (suc m) len s = elim (len == 0) [
    | true ↦ returned [] s
    | false ↦ elim (s.fbtbc % 2 ^ 32 == 0) [
      | true ↦ elim s.last_frag [
        | true ↦ refused s
        | false ↦ and_then (set_input_fragment n s) (λ _ s'. get_loop n m len s')
      ]
      | false ↦
          let c = smaller len (s.fbtbc % 2 ^ 32) in
          and_then (get_input_bytes n c s) (λ bs s'.
            and_then (get_loop n m (len - c) (record s' { fbtbc = s'.fbtbc - c }))
              (λ cs s''. returned (bs ++ cs) s''))
    ]
  ]

  unfoldable pub xdrrec_getbytes : ℕ → (len : ℕ) → Filter (RecStrm H) (List ℕ)
  xdrrec_getbytes n len = get_loop n n len

  -- Four bytes of the buffer, if they are there and belong to the fragment.
  abbrev pub next_word : ℕ → Filter (RecStrm H) (List ℕ)
  next_word n s =
      if leb 4 s.fbtbc && leb 4 (s.in_boundry - s.in_finger)
      then copied 4 (record s { fbtbc = s.fbtbc - 4 }) (load s.buf s.in_finger 4)
      else xdrrec_getbytes n 4 s

  unfoldable pub xdrrec_getlong : ℕ → Filter (RecStrm H) ℕ
  xdrrec_getlong n = next_word n >>= λ bs. pure (sign_extend 32 64 (word_of bs 0))

  unfoldable pub xdrrec_getint32 : ℕ → Filter (RecStrm H) ℕ
  xdrrec_getint32 n = next_word n >>= λ bs. pure (word_of bs 0)

  -- To the end of the record, fragment by fragment.
  unfoldable pub skip_loop : ℕ → ℕ → Filter (RecStrm H) (Unit {0})
  skip_loop n zero s = broke
  skip_loop n (suc m) s = elim (ltb 0 s.fbtbc || not s.last_frag) [
    | true ↦ and_then (skip_input_bytes n s.fbtbc s) (λ _ s'. elim s'.last_frag [
      | true ↦ skip_loop n m (record s' { fbtbc = 0 })
      | false ↦
          and_then (set_input_fragment n (record s' { fbtbc = 0 })) (λ _ s''. skip_loop n m s'')
    ])
    | false ↦ returned tt s
  ]

  unfoldable pub xdrrec_skiprecord : ℕ → Filter (RecStrm H) (Unit {0})
  xdrrec_skiprecord n s =
      and_then (skip_loop n n s) (λ _ s'. returned tt (record s' { last_frag = false }))

  abbrev ended : Ran (RecStrm H) (Unit {0}) → Ran (RecStrm H) Bool
  ended (returned _ s') = returned (s'.in_finger == s'.in_boundry) s'
  ended (refused s') = returned true s'
  ended broke = broke

  -- TRUE on a failure too.
  unfoldable pub xdrrec_eof : ℕ → Filter (RecStrm H) Bool
  xdrrec_eof n s = ended (skip_loop n n s)

  -- `memcpy` to the buffer, and a word at a place of it.
  abbrev pub put_out : List ℕ → RecStrm H → Ran (RecStrm H) (Unit {0})
  put_out bs s =
      if leb (s.out_finger + length bs) (length s.out)
      then returned tt
          (record s { out = splice s.out s.out_finger bs; out_finger = s.out_finger + length bs })
      else broke

  abbrev pub put_header : ℕ → RecStrm H → RecStrm H
  put_header header s = record s { out = splice s.out s.frag_header (word_bytes (header % 2 ^ 32)) }

  -- The length of the fragment at `frag_header`, in 64 bits.
  abbrev pub frag_len : RecStrm H → ℕ
  frag_len s = (s.out_finger + (2 ^ 64 - 4) - s.frag_header) % 2 ^ 64

  -- `len | LAST_FRAG`
  abbrev pub mark_last : ℕ → ℕ
  mark_last len = if len / 2 ^ 31 % 2 == 0 then len + last_frag_bit else len

  abbrev pub flushed : RecStrm H → ℕ → ℕ × H → Ran (RecStrm H) (Unit {0})
  flushed s len (count, h) =
      if count == len % 2 ^ 32
      then returned tt (record s { tcp_handle = h; frag_header = 0; out_finger = 4 })
      else refused (record s { tcp_handle = h })

  unfoldable pub flush_out : (eor : Bool) → Filter (RecStrm H) (Unit {0})
  flush_out eor s0 =
      let s = put_header (if eor then mark_last (frag_len s0) else frag_len s0) s0 in
      flushed s s.out_finger (handle.writeit (take s.out_finger s.out) s.tcp_handle)

  abbrev pub put_word : ℕ → Filter (RecStrm H) (Unit {0})
  put_word w s =
      if ltb s.out_boundry (s.out_finger + 4)
      then and_then (flush_out false (record s { frag_sent = true }))
          (λ _ s'. put_out (word_bytes w) s')
      else put_out (word_bytes w) s

  unfoldable pub xdrrec_putlong : ℕ → Filter (RecStrm H) (Unit {0})
  xdrrec_putlong l = put_word (l % 2 ^ 32)

  unfoldable pub xdrrec_putint32 : ℕ → Filter (RecStrm H) (Unit {0})
  xdrrec_putint32 w = put_word w

  unfoldable pub put_loop : ℕ → List ℕ → Filter (RecStrm H) (Unit {0})
  put_loop zero bs s = broke
  put_loop (suc n) bs s = elim (length bs == 0) [
    | true ↦ returned tt s
    | false ↦
        let c = smaller (length bs) (s.out_boundry - s.out_finger) in
        and_then (put_out (take c bs) s) (λ _ s'.
          elim (s'.out_finger == s'.out_boundry && ltb 0 (length bs - c)) [
            | true ↦
                and_then (flush_out false (record s' { frag_sent = true }))
                  (λ _ s''. put_loop n (drop c bs) s'')
            | false ↦ put_loop n (drop c bs) s'
          ])
  ]

  unfoldable pub xdrrec_putbytes : ℕ → List ℕ → Filter (RecStrm H) (Unit {0})
  xdrrec_putbytes n bs = put_loop n bs

  unfoldable pub xdrrec_endofrecord : (sendnow : Bool) → Filter (RecStrm H) (Unit {0})
  xdrrec_endofrecord sendnow s =
      if sendnow || s.frag_sent || leb s.out_boundry (s.out_finger + 4)
      then flush_out true (record s { frag_sent = false })
      else let s' = put_header (mark_last (frag_len s)) s in
        returned tt (record s' { frag_header = s.out_finger; out_finger = s.out_finger + 4 })

  abbrev pub xdrrec_ops : ℕ → XdrOps (RecStrm H)
  xdrrec_ops n = record {
    getlong = xdrrec_getlong n;
    putlong = xdrrec_putlong;
    getbytes = xdrrec_getbytes n;
    putbytes = xdrrec_putbytes n;
    getint32 = xdrrec_getint32 n;
    putint32 = xdrrec_putint32;
  }
