-- ===== src/Xdr/Rec/Whole.antt =====
-- src/librpc/xdr_rec.c, `xdrrec_endofrecord`: a record that is written can be read.
use rpc_mt.Common.{
  ℕ, ◌+◌, ◌*◌, ◌%◌, ◌^◌, ◌<◌, ◌≡◌, refl, ap, sym, ◌∙◌, inl, inr, Bool, true, false, ◌||◌, List, [],
  ◌++◌, arith, length, take, drop, leb, leb→lt, if◌then◌else◌, length-append, length-take,
  take-append-drop,
}
use rpc_mt.Xdr.{returned, and_then}
use rpc_mt.Xdr.Codec.{append_assoc, append_nil, word_bytes}
use rpc_mt.Xdr.Rec.{
  Handle, RecStrm, put_header, frag_len, mark_last, flush_out, xdrrec_getbytes, xdrrec_putbytes,
  xdrrec_endofrecord,
}
use rpc_mt.Xdr.Rec.Input.{Reader, IsValid, wire}
use rpc_mt.Xdr.Rec.Fragments.{Carries}
use rpc_mt.Xdr.Rec.Records.{InRecord, xdrrec_getbytes_lem}
use rpc_mt.Xdr.Rec.Opens.{Opens-Carries}
use rpc_mt.Xdr.Rec.Output.{
  Writer, InOutput, send_lem, emptied, length-headed, length-room, frag_len-length, memory_headed,
  regroup,
}
use rpc_mt.Xdr.Rec.Written.{with_frag_sent, put_loop_lem}

module _ {H : Type 0} (handle : Handle H) (writer : Writer handle) where
  -- `xdrrec_putbytes` puts all that it is given into the record, in as many fragments as the buffer takes.
  pub xdrrec_putbytes_lem :
      (n : ℕ) (s : RecStrm H) (before payload bs : List ℕ)
      → length bs + 1 < n
      → InOutput handle writer s before payload
      → (s' : RecStrm H) × (xdrrec_putbytes handle n bs s ≡ returned tt s')
        × InOutput handle writer s' before (payload ++ bs)
  unfolding xdrrec_putbytes
  xdrrec_putbytes_lem n s before payload bs rounds r =
      put_loop_lem handle writer n s before payload bs (inl rounds) r

  -- What `xdrrec_endofrecord` makes of the record: bytes that carry it, whatever comes after them.
  pub record Closed (s' : RecStrm H) (before payload : List ℕ) (now : Bool) : Type 0 where
    pub bytes : List ℕ
    pub carries : (rest : List ℕ) → Carries 0 false (bytes ++ rest) payload rest
    pub output : InOutput handle writer s' (before ++ bytes) []
    pub sent : now ≡ true → writer.sent s'.tcp_handle ≡ before ++ bytes

  last_header :
      (s : RecStrm H) (before payload : List ℕ) (r : InOutput handle writer s before payload)
      → mark_last handle (frag_len handle s) % 2 ^ 32 ≡ length r.current + 2 ^ 31
  last_header s before payload r =
      marked (frag_len handle s) (frag_len-length handle writer s before payload r)
        (omega (arith, r.at_finger, length-room handle writer s before payload r, r.small))
    where
      marked :
          (len : ℕ)
          → len ≡ length r.current
          → length r.current < 2 ^ 31
          → mark_last handle len % 2 ^ 32 ≡ length r.current + 2 ^ 31
      marked len e small = ground (arith, e, small)

  closed_bytes :
      (s : RecStrm H) (before payload : List ℕ) (r : InOutput handle writer s before payload)
      (rest : List ℕ)
      → Carries 0 false
          ((r.fragments
              ++ (word_bytes (mark_last handle (frag_len handle s) % 2 ^ 32) ++ r.current))
            ++ rest)
          payload
          rest
  closed_bytes s before payload r rest =
      rw (last_header s before payload r, r.split)
        (Opens-Carries r.fragments r.held r.current rest r.opens
          (omega (arith, r.at_finger, length-room handle writer s before payload r, r.small)))

  flush_last :
      (s : RecStrm H) (before payload : List ℕ) (now : Bool)
      → InOutput handle writer s before payload
      → (s' : RecStrm H) × (flush_out handle true s ≡ returned tt s') × Closed s' before payload now
  unfolding flush_out
  flush_last s before payload now r =
      let header : ℕ = mark_last handle (frag_len handle s) in
      let (h, sent, all) = send_lem handle writer s before payload header r in
      let bytes : List ℕ = r.fragments ++ (word_bytes (header % 2 ^ 32) ++ r.current) in
      (
        record (put_header handle header s) { tcp_handle = h; frag_header = 0; out_finger = 4 },
        sent,
        record {
          bytes = bytes;
          carries = closed_bytes s before payload r;
          output =
              emptied handle writer s (before ++ bytes) [] [] (put_header handle header s).out h
                (length-headed handle writer s before payload header r) r.large r.small
                (all ∙ sym (append_nil (before ++ bytes))) (λ w q rest k. k);
          sent = λ _. all;
        },
      )

  -- The record is closed in the buffer, and the next one begins behind it.
  close_in_place :
      (s : RecStrm H) (before payload : List ℕ) (now : Bool)
      (r : InOutput handle writer s before payload)
      → now ≡ false
      → s.out_finger + 4 < s.out_boundry
      → Closed
          (record (put_header handle (mark_last handle (frag_len handle s)) s) {
            frag_header = s.out_finger;
            out_finger = s.out_finger + 4;
          })
          before
          payload
          now
  close_in_place s before payload now r later room =
      let header : ℕ = mark_last handle (frag_len handle s) in
      let w : List ℕ = word_bytes (header % 2 ^ 32) in
      let bytes : List ℕ = r.fragments ++ (w ++ r.current) in
      let at_end = length-room handle writer s before payload r in
      record {
        bytes = bytes;
        carries = closed_bytes s before payload r;
        output = record {
          done = r.done ++ (w ++ r.current);
          header = take 4 r.room;
          current = [];
          room = drop 4 r.room;
          fragments = [];
          held = [];
          memory =
              memory_headed handle writer s before payload header r
              ∙ regroup r.done w r.current r.room
              ∙ ap (λ (l : List ℕ). (r.done ++ (w ++ r.current)) ++ l)
                  (sym (take-append-drop 4 r.room));
          at_header = omega (
            arith,
            r.at_finger,
            r.at_header,
            length-append r.done (w ++ r.current),
            length-append w r.current,
          );
          word = omega (arith, at_end, length-take 4 r.room);
          at_finger = omega arith;
          whole = length-headed handle writer s before payload header r;
          large = r.large;
          small = r.small;
          not_stuck = inr room;
          output =
              sym (append_assoc (writer.sent s.tcp_handle) r.done (w ++ r.current))
              ∙ ap (λ (l : List ℕ). l ++ (w ++ r.current)) r.output
              ∙ append_assoc before r.fragments (w ++ r.current)
              ∙ sym (append_nil (before ++ bytes));
          opens = λ wire q rest k. k;
          split = refl;
        };
        sent = λ e. cc;
      }

  -- `xdrrec_endofrecord` closes the record, at once or with the bytes that are sent next.
  pub xdrrec_endofrecord_lem :
      (sendnow : Bool) (s : RecStrm H) (before payload : List ℕ)
      → InOutput handle writer s before payload
      → (s' : RecStrm H) × (xdrrec_endofrecord handle sendnow s ≡ returned tt s')
        × Closed s' before payload sendnow
  unfolding xdrrec_endofrecord
  xdrrec_endofrecord_lem sendnow s before payload r =
      let waits : Bool = sendnow || s.frag_sent || leb s.out_boundry (s.out_finger + 4) in
      chosen waits refl
    where
      not_now : (b c : Bool) → (sendnow || b || c) ≡ false → (sendnow ≡ false) × (c ≡ false)
      not_now b c e = ground (arith, e)

      chosen :
          (b : Bool)
          → (sendnow || s.frag_sent || leb s.out_boundry (s.out_finger + 4)) ≡ b
          → (s' : RecStrm H) × ((if b
                then flush_out handle true (record s { frag_sent = false })
                else returned tt
                    (record (put_header handle (mark_last handle (frag_len handle s)) s) {
                      frag_header = s.out_finger;
                      out_finger = s.out_finger + 4;
                    }))
              ≡ returned tt s')
            × Closed s' before payload sendnow
      chosen true e =
          flush_last (record s { frag_sent = false }) before payload sendnow
            (with_frag_sent handle writer s before payload false r)
      chosen false e =
          let (later, room) = not_now s.frag_sent (leb s.out_boundry (s.out_finger + 4)) e in
          (
            record (put_header handle (mark_last handle (frag_len handle s)) s) {
              frag_header = s.out_finger;
              out_finger = s.out_finger + 4;
            },
            refl,
            close_in_place s before payload sendnow r later (leb→lt _ _ room),
          )

module _ {H : Type 0} (handle : Handle H) (reader : Reader handle) (writer : Writer handle) where
  -- Where a record begins in the output, `xdrrec_putbytes` and `xdrrec_endofrecord` succeed and make some
  -- bytes, which are the next of the output, sent at once if that is asked for. From any valid stream that
  -- stands between records before these bytes, `xdrrec_getbytes` gets the same data back, and comes to the
  -- end of the record. The sizes of the buffers on both sides and the fragments are free; `n` rounds with
  -- 8 < n and 2 * length bs < n are enough.
  pub xdrrec_getbytes-endofrecord-putbytes :
      (n : ℕ) (s : RecStrm H) (before bs : List ℕ) (sendnow : Bool)
      → 8 < n
      → 2 * length bs < n
      → InOutput handle writer s before []
      → (bytes : List ℕ) × (s' : RecStrm H) × (and_then
            (xdrrec_putbytes handle n bs s)
            (λ _ t. xdrrec_endofrecord handle sendnow t)
          ≡ returned tt s')
        × InOutput handle writer s' (before ++ bytes) []
        × (sendnow ≡ true → writer.sent s'.tcp_handle ≡ before ++ bytes)
        × ((t : RecStrm H) (rest : List ℕ)
            → IsValid t
            → t.fbtbc ≡ 0
            → t.last_frag ≡ false
            → wire handle reader t ≡ bytes ++ rest
            → (t' : RecStrm H) × (xdrrec_getbytes handle n (length bs) t ≡ returned bs t')
              × InRecord handle reader t' [] rest)
  xdrrec_getbytes-endofrecord-putbytes n s before bs sendnow head rounds r =
      let (t, put, r') = xdrrec_putbytes_lem handle writer n s before [] bs (omega arith) r in
      let (s', ended, closed) = xdrrec_endofrecord_lem handle writer sendnow t before bs r' in
      (
        closed.bytes,
        s',
        rw put ended,
        closed.output,
        closed.sent,
        λ t rest v none_left open_ here.
            xdrrec_getbytes_lem handle reader n t bs [] rest head rounds (record {
              valid = v;
              small = omega arith;
              carries = rw (none_left, open_, here, append_nil bs) (closed.carries rest);
            }),
      )
