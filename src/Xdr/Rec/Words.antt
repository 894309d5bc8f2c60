-- ===== src/Xdr/Rec/Words.antt =====
-- src/librpc/xdr_rec.c, the words of a record: `xdrrec_getlong`, `xdrrec_putlong`, `xdrrec_getint32` and
-- `xdrrec_putint32`.
use rpc_mt.Common.{
  ℕ, ◌+◌, ◌-◌, ◌%◌, ◌^◌, ◌≤◌, ◌<◌, ◌≡◌, refl, ap, sym, ◌∙◌, Bool, true, false, ◌&&◌, List, ◌++◌,
  arith, length, ltb, leb, if◌then◌else◌,
}
use rpc_mt.Xdr.{Ran, returned, and_then, sign_extend}
use rpc_mt.Xdr.Codec.{word_bytes}
use rpc_mt.Xdr.Mem.{load, word_of}
use rpc_mt.Xdr.Mem.Slices.{word_of-word_bytes}
use rpc_mt.Xdr.Rec.{
  Handle, RecStrm, move_in, copied, next_word, put_word, flush_out, put_out, xdrrec_getbytes,
  xdrrec_getlong, xdrrec_getint32, xdrrec_putlong, xdrrec_putint32,
}
use rpc_mt.Xdr.Rec.Input.{Reader, IsValid, wire, copy_lem}
use rpc_mt.Xdr.Rec.Fragments.{Carries-take, append_split}
use rpc_mt.Xdr.Rec.Records.{InRecord, xdrrec_getbytes_lem}
use rpc_mt.Xdr.Rec.Output.{Writer, InOutput, put_out_lem, flush_out-more, length-room}
use rpc_mt.Xdr.Rec.Written.{with_frag_sent}

module _ {H : Type 0} (handle : Handle H) (reader : Reader handle) where
  -- Four bytes, from the buffer or by `xdrrec_getbytes`.
  next_word_lem :
      (n : ℕ) (s : RecStrm H) (bs payload rest : List ℕ)
      → 8 < n
      → length bs ≡ 4
      → InRecord handle reader s (bs ++ payload) rest
      → (s' : RecStrm H) × (next_word handle n s ≡ returned bs s')
        × InRecord handle reader s' payload rest
  next_word_lem n s bs payload rest head four r =
      chosen (leb 4 s.fbtbc && leb 4 (s.in_boundry - s.in_finger)) refl
    where
      chosen :
          (b : Bool)
          → (leb 4 s.fbtbc && leb 4 (s.in_boundry - s.in_finger)) ≡ b
          → (s' : RecStrm H) × ((if b
                then copied handle 4 (record s { fbtbc = s.fbtbc - 4 }) (load s.buf s.in_finger 4)
                else xdrrec_getbytes handle n 4 s)
              ≡ returned bs s')
            × InRecord handle reader s' payload rest
      chosen true e =
          let here : 4 ≤ s.fbtbc = ground (arith, e) in
          let there : 4 ≤ s.in_boundry - s.in_finger = ground (arith, e) in
          let s1 : RecStrm H = record s { fbtbc = s.fbtbc - 4 } in
          let v : IsValid s1 = record {
            ordered = r.valid.ordered;
            inside = r.valid.inside;
            whole = r.valid.whole;
            holds = r.valid.holds;
          } in
          let (cs, got, count, took) = copy_lem handle reader s1 4 v there in
          let (p, split, carries) =
            Carries-take 4 cs (wire handle reader (move_in handle 4 s1)) here count took.taken
              r.carries in
          let (same, left) = append_split bs cs payload p (omega arith) split in
          (
            move_in handle 4 s1,
            got ∙ ap (λ (l : List ℕ). returned l (move_in handle 4 s1)) (sym same),
            record {
              valid = took.valid;
              small = omega (arith, r.small);
              carries = rw left carries;
            },
          )
      chosen false e =
          let (t, got, r') =
            xdrrec_getbytes_lem handle reader n s bs payload rest head (omega arith) r in
          (t, ap (λ (k : ℕ). xdrrec_getbytes handle n k s) (sym four) ∙ got, r')

  pub xdrrec_getint32_lem :
      (n w : ℕ) (s : RecStrm H) (payload rest : List ℕ)
      → 8 < n
      → w < 2 ^ 32
      → InRecord handle reader s (word_bytes w ++ payload) rest
      → (s' : RecStrm H) × (xdrrec_getint32 handle n s ≡ returned w s')
        × InRecord handle reader s' payload rest
  unfolding xdrrec_getint32
  xdrrec_getint32_lem n w s payload rest head small r =
      let (t, got, r') = next_word_lem n s (word_bytes w) payload rest head refl r in
      (
        t,
        ap (λ (m : Ran (RecStrm H) (List ℕ)). and_then m (λ bs u. returned (word_of bs 0) u)) got
            ∙ ap (λ (k : ℕ). returned k t) (word_of-word_bytes w small),
        r',
      )

  pub xdrrec_getlong_lem :
      (n w : ℕ) (s : RecStrm H) (payload rest : List ℕ)
      → 8 < n
      → w < 2 ^ 32
      → InRecord handle reader s (word_bytes w ++ payload) rest
      → (s' : RecStrm H) × (xdrrec_getlong handle n s ≡ returned (sign_extend 32 64 w) s')
        × InRecord handle reader s' payload rest
  unfolding xdrrec_getlong
  xdrrec_getlong_lem n w s payload rest head small r =
      let (t, got, r') = next_word_lem n s (word_bytes w) payload rest head refl r in
      (
        t,
        ap
              (λ (m : Ran (RecStrm H) (List ℕ)).
                and_then m (λ bs u. returned (sign_extend 32 64 (word_of bs 0)) u))
              got
            ∙ ap (λ (k : ℕ). returned (sign_extend 32 64 k) t) (word_of-word_bytes w small),
        r',
      )

module _ {H : Type 0} (handle : Handle H) (writer : Writer handle) where
  -- A record in which only words have been put, into a buffer of words.
  pub record InWords (s : RecStrm H) (before payload : List ℕ) : Type 0 where
    pub output : InOutput handle writer s before payload
    pub finger : s.out_finger % 4 ≡ 0
    pub boundry : s.out_boundry % 4 ≡ 0

  put_word_lem :
      (w : ℕ) (s : RecStrm H) (before payload : List ℕ)
      → InWords s before payload
      → (s' : RecStrm H) × (put_word handle w s ≡ returned tt s')
        × InWords s' before (payload ++ word_bytes w)
  put_word_lem w s before payload r = chosen (ltb s.out_boundry (s.out_finger + 4)) refl
    where
      chosen :
          (b : Bool)
          → ltb s.out_boundry (s.out_finger + 4) ≡ b
          → (s' : RecStrm H) × ((if b
                then and_then
                    (flush_out handle false (record s { frag_sent = true }))
                    (λ _ u. put_out handle (word_bytes w) u)
                else put_out handle (word_bytes w) s)
              ≡ returned tt s')
            × InWords s' before (payload ++ word_bytes w)
      chosen false e =
          let (t, put, r', finger, boundry) =
            put_out_lem handle writer s before payload (word_bytes w) r.output
              (ground (arith, e)) in
          (
            t,
            put,
            record {
              output = r';
              finger = omega (arith, r.finger);
              boundry = omega (arith, r.boundry);
            },
          )
      chosen true e =
          let s1 : RecStrm H = record s { frag_sent = true } in
          let r1 : InOutput handle writer s1 before payload =
            with_frag_sent handle writer s before payload true r.output in
          let full : s.out_boundry < s.out_finger + 4 = ground (arith, e) in
          let at_end = length-room handle writer s1 before payload r1 in
          let some_there : 0 < length r1.current =
            ground (arith, r1.not_stuck, full, at_end, r.finger, r.boundry) in
          let (u, sent, r2, start, same) =
            flush_out-more handle writer s1 before payload r1 some_there in
          let (t, put, r', finger, boundry) =
            put_out_lem handle writer u before payload (word_bytes w) r2
              (omega (arith, r2.large)) in
          (
            t,
            rw sent put,
            record { output = r'; finger = omega arith; boundry = omega (arith, r.boundry) },
          )

  pub xdrrec_putint32_lem :
      (w : ℕ) (s : RecStrm H) (before payload : List ℕ)
      → InWords s before payload
      → (s' : RecStrm H) × (xdrrec_putint32 handle w s ≡ returned tt s')
        × InWords s' before (payload ++ word_bytes w)
  unfolding xdrrec_putint32
  xdrrec_putint32_lem w s before payload r = put_word_lem w s before payload r

  pub xdrrec_putlong_lem :
      (l : ℕ) (s : RecStrm H) (before payload : List ℕ)
      → InWords s before payload
      → (s' : RecStrm H) × (xdrrec_putlong handle l s ≡ returned tt s')
        × InWords s' before (payload ++ word_bytes (l % 2 ^ 32))
  unfolding xdrrec_putlong
  xdrrec_putlong_lem l s before payload r = put_word_lem (l % 2 ^ 32) s before payload r
