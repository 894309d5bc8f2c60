-- ===== src/Tests/OnRec.antt =====
-- Runs of the record stream of src/librpc/xdr_rec.c on a connection that loops back.
use rpc_mt.Common.{
  ◌-◌, ◌%◌, ℕ, ◌+◌, ◌^◌, ◌<◌, ◌≡◌, ◌≤◌, refl, sym, arith, true, false, Option, some, none, List, [],
  ◌∷◌, ◌++◌, inr, take, drop, length, replicate, length-take, take-append-drop,
}
use rpc_mt.Xdr.{decode, returned, refused, and_then, ◌>>◌, sign_extend}
use rpc_mt.Xdr.Codec.{word_bytes}
use rpc_mt.Xdr.Rec.{
  Handle, RecStrm, xdrrec_putbytes, xdrrec_endofrecord, xdrrec_putint32, xdrrec_putlong,
  xdrrec_getint32, xdrrec_getlong, xdrrec_getbytes, xdrrec_skiprecord,
}
use rpc_mt.Xdr.Rec.Input.{Reader, IsValid, wire}
use rpc_mt.Xdr.Rec.Fragments.{Carries, final, more}
use rpc_mt.Xdr.Rec.Records.{InRecord, xdrrec_getbytes_lem}
use rpc_mt.Xdr.Rec.Output.{Writer, InOutput}
use rpc_mt.Xdr.Rec.Whole.{xdrrec_getbytes-endofrecord-putbytes}
use rpc_mt.Xdr.Rec.Short.{xdrrec_getbytes_short, AtEnd}
use rpc_mt.Xdr.Rec.Exchange.{xdrrec_getlong-putlong}
use rpc_mt.Xdr.Rec.Position.{xdrrec_getpos, xdrrec_setpos, xdrrec_setpos_forward}
use rpc_mt.Xdr.Rec.Skip.{xdrrec_skiprecord_lem}

abbrev from_pipe : ℕ → List ℕ → Option (List ℕ) × List ℕ
from_pipe len [] = (none, [])
from_pipe len (b ∷ bs) = (some (take len (b ∷ bs)), drop len (b ∷ bs))

abbrev link : Handle (List ℕ)
link = record { readit = from_pipe; writeit = λ bs h. (length bs, h ++ bs) }

from_pipe_gives :
    (len : ℕ) (h : List ℕ)
    → 0 < len
    → 0 < length h
    → (bs : List ℕ) × (h' : List ℕ) × (from_pipe len h ≡ (some bs, h'))
      × (0 < length bs)
      × (length bs ≤ len)
      × (h ≡ bs ++ h')
from_pipe_gives len [] pos some_there = absurd (omega arith)
from_pipe_gives len (b ∷ bs) pos some_there = (
  take len (b ∷ bs),
  drop len (b ∷ bs),
  refl,
  ground (arith, length-take len (b ∷ bs)),
  ground (arith, length-take len (b ∷ bs)),
  sym (take-append-drop len (b ∷ bs)),
)

from_pipe_ends : (len : ℕ) (h : List ℕ) → h ≡ [] → (h' : List ℕ) × (from_pipe len h ≡ (none, h'))
from_pipe_ends len [] e = ([], refl)
from_pipe_ends len (b ∷ bs) e = cc

abbrev link_Reader : Reader link
link_Reader = record { coming = λ h. h; gives = from_pipe_gives; ends = from_pipe_ends }

-- A record of two fragments, and the first fragment of the next one.
abbrev two_fragments : List ℕ
two_fragments =
    word_bytes 2
    ++ ((1 ∷ 2 ∷ [])
        ++ (word_bytes (1 + 2 ^ 31) ++ ((3 ∷ []) ++ (word_bytes (1 + 2 ^ 31) ++ (4 ∷ [])))))

abbrev before_record : RecStrm (List ℕ)
before_record = record {
  tcp_handle = two_fragments;
  out = replicate 8 0;
  out_finger = 4;
  out_boundry = 8;
  frag_header = 0;
  frag_sent = false;
  buf = replicate 8 0;
  in_size = 8;
  in_finger = 8;
  in_boundry = 8;
  fbtbc = 0;
  last_frag = false;
}

abbrev next_record : List ℕ
next_record = word_bytes (1 + 2 ^ 31) ++ (4 ∷ [])

before_record-InRecord : InRecord link link_Reader before_record (1 ∷ 2 ∷ 3 ∷ []) next_record
before_record-InRecord = record {
  valid = record { ordered = omega arith; inside = omega arith; whole = refl; holds = omega arith };
  small = omega arith;
  carries =
      more [] (1 ∷ 2 ∷ 3 ∷ [])
        ((1 ∷ 2 ∷ []) ++ (word_bytes (1 + 2 ^ 31) ++ ((3 ∷ []) ++ next_record))) 2 refl refl
        (omega arith) (omega arith) refl refl
        (more (1 ∷ 2 ∷ []) (3 ∷ []) ((3 ∷ []) ++ next_record) (1 + 2 ^ 31) refl refl (omega arith)
          (omega arith) refl refl (final refl refl refl));
}

xdrrec_getbytes_lem_example :
    (s' : RecStrm (List ℕ)) × (xdrrec_getbytes link 20 3 before_record
      ≡ returned (1 ∷ 2 ∷ 3 ∷ []) s')
    × InRecord link link_Reader s' [] next_record
xdrrec_getbytes_lem_example =
    xdrrec_getbytes_lem link link_Reader 20 before_record (1 ∷ 2 ∷ 3 ∷ []) [] next_record
      (omega arith) (omega arith) before_record-InRecord

xdrrec_skiprecord_lem_example :
    (s' : RecStrm (List ℕ)) × (xdrrec_skiprecord link 20 before_record ≡ returned tt s')
    × IsValid s'
    × (s'.fbtbc ≡ 0)
    × (s'.last_frag ≡ false)
    × (wire link link_Reader s' ≡ next_record)
    × ((payload' rest' : List ℕ)
        → Carries 0 false next_record payload' rest'
        → InRecord link link_Reader s' payload' rest')
xdrrec_skiprecord_lem_example =
    xdrrec_skiprecord_lem link link_Reader 20 before_record (1 ∷ 2 ∷ 3 ∷ []) next_record
      (omega arith) (omega arith) before_record-InRecord

abbrev link_Writer : Writer link
link_Writer = record { sent = λ h. h; takes = λ bs h. (h ++ bs, refl, refl) }

abbrev fresh : RecStrm (List ℕ)
fresh = record before_record { tcp_handle = [] }

fresh-InOutput : InOutput link link_Writer fresh [] []
fresh-InOutput = record {
  done = [];
  header = replicate 4 0;
  current = [];
  room = replicate 4 0;
  fragments = [];
  held = [];
  memory = refl;
  at_header = refl;
  word = refl;
  at_finger = refl;
  whole = refl;
  large = omega arith;
  small = omega arith;
  not_stuck = inr (omega arith);
  output = refl;
  opens = λ wire q rest k. k;
  split = refl;
}

-- Six bytes through a buffer of eight, of which a header takes four: two fragments.
abbrev six : List ℕ
six = 1 ∷ 2 ∷ 3 ∷ 4 ∷ 5 ∷ 6 ∷ []

xdrrec_getbytes-endofrecord-putbytes_example :
    (bytes : List ℕ) × (s' : RecStrm (List ℕ)) × (and_then
        (xdrrec_putbytes link 20 six fresh)
        (λ _ t. xdrrec_endofrecord link true t)
      ≡ returned tt s')
    × InOutput link link_Writer s' ([] ++ bytes) []
    × (true ≡ true → link_Writer.sent s'.tcp_handle ≡ [] ++ bytes)
    × ((t : RecStrm (List ℕ)) (rest : List ℕ)
        → IsValid t
        → t.fbtbc ≡ 0
        → t.last_frag ≡ false
        → wire link link_Reader t ≡ bytes ++ rest
        → (t' : RecStrm (List ℕ)) × (xdrrec_getbytes link 20 (length six) t ≡ returned six t')
          × InRecord link link_Reader t' [] rest)
xdrrec_getbytes-endofrecord-putbytes_example =
    xdrrec_getbytes-endofrecord-putbytes link link_Reader link_Writer 20 fresh [] six true
      (omega arith) (omega arith) fresh-InOutput

xdrrec_getbytes_short_example :
    (s' : RecStrm (List ℕ)) × (xdrrec_getbytes link 20 4 before_record ≡ refused s')
    × AtEnd link link_Reader s' next_record
xdrrec_getbytes_short_example =
    xdrrec_getbytes_short link link_Reader 20 4 before_record (1 ∷ 2 ∷ 3 ∷ []) next_record
      (omega arith) (omega arith) before_record-InRecord (omega arith)

-- The long does not fit behind the first word: the buffer is sent in between.
xdrrec_getlong-putlong_example :
    (bytes : List ℕ) × (s' : RecStrm (List ℕ)) × ((xdrrec_putint32 link 7
          >> xdrrec_putlong link (2 ^ 64 - 1)
          >> xdrrec_endofrecord link true)
        fresh
      ≡ returned tt s')
    × InOutput link link_Writer s' ([] ++ bytes) []
    × (true ≡ true → link_Writer.sent s'.tcp_handle ≡ [] ++ bytes)
    × ((t : RecStrm (List ℕ)) (rest : List ℕ)
        → IsValid t
        → t.fbtbc ≡ 0
        → t.last_frag ≡ false
        → wire link link_Reader t ≡ bytes ++ rest
        → (t1 : RecStrm (List ℕ)) × (t2 : RecStrm (List ℕ)) × (xdrrec_getint32 link 20 t
            ≡ returned 7 t1)
          × (xdrrec_getlong link 20 t1 ≡ returned (sign_extend 32 64 ((2 ^ 64 - 1) % 2 ^ 32)) t2)
          × InRecord link link_Reader t2 [] rest)
xdrrec_getlong-putlong_example =
    xdrrec_getlong-putlong link link_Reader link_Writer 20 7 (2 ^ 64 - 1) fresh [] true
      (omega arith) (omega arith)
      (record { output = fresh-InOutput; finger = refl; boundry = refl })

-- In the middle of the input buffer.
abbrev half_read : RecStrm (List ℕ)
half_read = record before_record { in_finger = 2; fbtbc = 6 }

half_read_known : xdrrec_getpos (λ _. some 8) decode half_read + 3 < 2 ^ 32
unfolding xdrrec_getpos
half_read_known = omega arith

xdrrec_setpos_forward_example :
    (s' : RecStrm (List ℕ)) × (xdrrec_setpos
        (λ _. some 8)
        decode
        (xdrrec_getpos (λ _. some 8) decode half_read + 3)
        half_read
      ≡ returned tt s')
    × (s'.in_finger ≡ 5)
    × (s'.in_finger + s'.fbtbc ≡ 14)
xdrrec_setpos_forward_example =
    xdrrec_setpos_forward (λ _. some 8) 3 half_read (omega arith) (omega arith) (omega arith)
      (omega arith) half_read_known
