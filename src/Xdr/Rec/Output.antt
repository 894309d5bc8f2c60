-- ===== src/Xdr/Rec/Output.antt =====
-- src/librpc/xdr_rec.c, the output buffer: the fragments that are sent.
use rpc_mt.Common.{
  ℕ, ◌+◌, ◌%◌, ◌^◌, ◌≤◌, ◌<◌, ◌≡◌, refl, ap, sym, ◌∙◌, ◌⊎◌, inr, true, false, List, [], ◌++◌, arith,
  length, take, drop, ◌==◌, length-append, length-take, take-append-drop, drop-take-append,
  take-length-append, ==-self, le→leb,
}
use rpc_mt.Xdr.{returned}
use rpc_mt.Xdr.Codec.{append_assoc, append_nil, word_bytes}
use rpc_mt.Xdr.Mem.{splice}
use rpc_mt.Xdr.Mem.Slices.{drop-append_more, length-splice}
use rpc_mt.Xdr.Rec.{Handle, RecStrm, put_out, put_header, frag_len, flushed, flush_out}
use rpc_mt.Xdr.Rec.Opens.{Opens, Opens-append}

-- What is asked of `writeit`: it takes all that it is given.
pub record Writer {H : Type 0} (handle : Handle H) : Type 0 where
  pub sent : H → List ℕ
  pub takes :
      (bs : List ℕ) (h : H)
      → (h' : H) × (handle.writeit bs h ≡ (length bs, h')) × (sent h' ≡ sent h ++ bs)

-- A write behind the front of the memory.
splice-append :
    (xs ys bs : List ℕ) → splice (xs ++ ys) (length xs) bs ≡ xs ++ (bs ++ drop (length bs) ys)
splice-append xs ys bs =
    ap (λ (l : List ℕ). l ++ (bs ++ drop (length xs + length bs) (xs ++ ys)))
      (take-length-append xs ys)
    ∙ ap (λ (l : List ℕ). xs ++ (bs ++ l)) (drop-append_more xs ys (length bs))

pub regroup : (d h c r : List ℕ) → d ++ (h ++ (c ++ r)) ≡ (d ++ (h ++ c)) ++ r
regroup d h c r =
    ap (λ (l : List ℕ). d ++ l) (sym (append_assoc h c r)) ∙ sym (append_assoc d (h ++ c) r)

-- Bytes behind the fragment at hand, and its header.
put_behind :
    (out d h c r bs : List ℕ) (n : ℕ)
    → out ≡ d ++ (h ++ (c ++ r))
    → n ≡ length d + (length h + length c)
    → splice out n bs ≡ d ++ (h ++ ((c ++ bs) ++ drop (length bs) r))
put_behind out d h c r bs n e count =
    rw (e ∙ regroup d h c r, count ∙ sym front)
      (splice-append (d ++ (h ++ c)) r bs
        ∙ sym (regroup d h c (bs ++ drop (length bs) r))
        ∙ ap (λ (l : List ℕ). d ++ (h ++ l)) (sym (append_assoc c bs (drop (length bs) r))))
  where
    front : length (d ++ (h ++ c)) ≡ length d + (length h + length c)
    front = omega (arith, length-append d (h ++ c), length-append h c)

put_in_front :
    (out d h c r w : List ℕ) (n : ℕ)
    → out ≡ d ++ (h ++ (c ++ r))
    → n ≡ length d
    → length w ≡ length h
    → splice out n w ≡ d ++ (w ++ (c ++ r))
put_in_front out d h c r w n e at same =
    rw (e, at)
      (splice-append d (h ++ (c ++ r)) w
        ∙ ap (λ (k : ℕ). d ++ (w ++ drop k (h ++ (c ++ r)))) same
        ∙ ap (λ (l : List ℕ). d ++ (w ++ l)) (drop-take-append h (c ++ r)))

module _ {H : Type 0} (handle : Handle H) (writer : Writer handle) where
  -- The output of the stream: it was `before`, and a record has begun since, of which these bytes were
  -- put. The buffer holds finished fragments, a header to be filled in, the bytes `current` of the
  -- fragment at hand, and room.
  pub record InOutput (s : RecStrm H) (before payload : List ℕ) : Type 0 where
    pub done : List ℕ
    pub header : List ℕ
    pub current : List ℕ
    pub room : List ℕ
    pub fragments : List ℕ
    pub held : List ℕ
    pub memory : s.out ≡ done ++ (header ++ (current ++ room))
    pub at_header : length done ≡ s.frag_header
    pub word : length header ≡ 4
    pub at_finger : s.out_finger ≡ s.frag_header + 4 + length current
    pub whole : s.out_boundry ≡ length s.out
    pub large : 8 ≤ s.out_boundry
    pub small : s.out_boundry < 2 ^ 31
    pub not_stuck : (0 < length current) ⊎ (s.out_finger < s.out_boundry)
    pub output : writer.sent s.tcp_handle ++ done ≡ before ++ fragments
    pub opens : Opens fragments held
    pub split : payload ≡ held ++ current

  -- Where the finger stands, and what room there is.
  at_length :
      (s : RecStrm H) (before payload : List ℕ) (r : InOutput s before payload)
      → length r.done + (length r.header + length r.current) ≡ s.out_finger
  at_length s before payload r = omega (arith, r.at_header, r.word, r.at_finger)

  pub length-room :
      (s : RecStrm H) (before payload : List ℕ) (r : InOutput s before payload)
      → s.out_finger + length r.room ≡ s.out_boundry
  length-room s before payload r = omega (
    arith,
    at_length s before payload r,
    r.whole,
    ap length r.memory,
    length-append r.done (r.header ++ (r.current ++ r.room)),
    length-append r.header (r.current ++ r.room),
    length-append r.current r.room,
  )

  -- Bytes for which there is room go behind the fragment at hand.
  pub put_out_lem :
      (s : RecStrm H) (before payload bs : List ℕ)
      → InOutput s before payload
      → s.out_finger + length bs ≤ s.out_boundry
      → (s' : RecStrm H) × (put_out handle bs s ≡ returned tt s')
        × InOutput s' before (payload ++ bs)
        × (s'.out_finger ≡ s.out_finger + length bs)
        × (s'.out_boundry ≡ s.out_boundry)
  put_out_lem s before payload bs r fits =
      let out' : List ℕ = splice s.out s.out_finger bs in
      (
        record s { out = out'; out_finger = s.out_finger + length bs },
        rw (le→leb (s.out_finger + length bs) (length s.out) (omega (arith, r.whole))) refl,
        record {
          done = r.done;
          header = r.header;
          current = r.current ++ bs;
          room = drop (length bs) r.room;
          fragments = r.fragments;
          held = r.held;
          memory =
              put_behind s.out r.done r.header r.current r.room bs s.out_finger r.memory
                (sym (at_length s before payload r));
          at_header = r.at_header;
          word = r.word;
          at_finger = omega (arith, r.at_finger, length-append r.current bs);
          whole = r.whole ∙ sym (length-splice s.out s.out_finger bs (omega (arith, r.whole)));
          large = r.large;
          small = r.small;
          not_stuck =
              room_or_bytes (length (r.current ++ bs)) (length-append r.current bs) r.not_stuck;
          output = r.output;
          opens = r.opens;
          split = ap (λ (l : List ℕ). l ++ bs) r.split ∙ append_assoc r.held r.current bs;
        },
        refl,
        refl,
      )
    where
      room_or_bytes :
          (k : ℕ)
          → k ≡ length r.current + length bs
          → (0 < length r.current) ⊎ (s.out_finger < s.out_boundry)
          → (0 < k) ⊎ (s.out_finger + length bs < s.out_boundry)
      room_or_bytes k e stuck = ground (arith, stuck)

  pub memory_headed :
      (s : RecStrm H) (before payload : List ℕ) (header : ℕ) (r : InOutput s before payload)
      → (put_header handle header s).out
        ≡ r.done ++ (word_bytes (header % 2 ^ 32) ++ (r.current ++ r.room))
  memory_headed s before payload header r =
      put_in_front s.out r.done r.header r.current r.room (word_bytes (header % 2 ^ 32))
        s.frag_header r.memory (sym r.at_header) (sym r.word)

  to_finger :
      (s : RecStrm H) (before payload : List ℕ) (header : ℕ) (r : InOutput s before payload)
      → take s.out_finger (put_header handle header s).out
        ≡ r.done ++ (word_bytes (header % 2 ^ 32) ++ r.current)
  to_finger s before payload header r =
      let w : List ℕ = word_bytes (header % 2 ^ 32) in
      let count : s.out_finger ≡ length (r.done ++ (w ++ r.current)) = omega (
        arith,
        at_length s before payload r,
        r.word,
        length-append r.done (w ++ r.current),
        length-append w r.current,
      ) in
      rw (count, memory_headed s before payload header r ∙ regroup r.done w r.current r.room)
        (take-length-append (r.done ++ (w ++ r.current)) r.room)

  flushed_all :
      (s : RecStrm H) (f : ℕ) (h h' : H) (front bs : List ℕ)
      → front ≡ bs
      → handle.writeit bs h ≡ (length bs, h')
      → length bs ≡ f
      → f < 2 ^ 32
      → flushed handle s f (handle.writeit front h)
        ≡ returned tt (record s { tcp_handle = h'; frag_header = 0; out_finger = 4 })
  flushed_all s f h h' front bs e wrote count small =
      let all : (length bs == f % 2 ^ 32) ≡ true =
        ap (λ (k : ℕ). length bs == k) (omega arith) ∙ ==-self (length bs) in
      rw (e, wrote, all) refl

  -- The finished fragments and the one at hand, with this header, are sent.
  pub send_lem :
      (s : RecStrm H) (before payload : List ℕ) (header : ℕ) (r : InOutput s before payload)
      → (h : H) × (flushed handle
            (put_header handle header s)
            s.out_finger
            (handle.writeit (take s.out_finger (put_header handle header s).out) s.tcp_handle)
          ≡ returned tt (record (put_header handle header s) {
            tcp_handle = h;
            frag_header = 0;
            out_finger = 4;
          }))
        × (writer.sent h ≡ before ++ (r.fragments ++ (word_bytes (header % 2 ^ 32) ++ r.current)))
  send_lem s before payload header r =
      let w : List ℕ = word_bytes (header % 2 ^ 32) in
      let bytes : List ℕ = r.done ++ (w ++ r.current) in
      let (h, wrote, now) = writer.takes bytes s.tcp_handle in
      let count : length bytes ≡ s.out_finger = omega (
        arith,
        at_length s before payload r,
        r.word,
        length-append r.done (w ++ r.current),
        length-append w r.current,
      ) in
      (
        h,
        flushed_all (put_header handle header s) s.out_finger s.tcp_handle h
            (take s.out_finger (put_header handle header s).out) bytes
            (to_finger s before payload header r) wrote count
            (omega (arith, length-room s before payload r, r.small)),
        now
            ∙ sym (append_assoc (writer.sent s.tcp_handle) r.done (w ++ r.current))
            ∙ ap (λ (l : List ℕ). l ++ (w ++ r.current)) r.output
            ∙ append_assoc before r.fragments (w ++ r.current),
      )

  pub frag_len-length :
      (s : RecStrm H) (before payload : List ℕ) (r : InOutput s before payload)
      → frag_len handle s ≡ length r.current
  frag_len-length s before payload r =
      omega (arith, r.at_finger, length-room s before payload r, r.small)

  -- An empty buffer after these fragments of a record.
  pub emptied :
      (s : RecStrm H) (before payload fragments out' : List ℕ) (h : H)
      → s.out_boundry ≡ length out'
      → 8 ≤ s.out_boundry
      → s.out_boundry < 2 ^ 31
      → writer.sent h ≡ before ++ fragments
      → Opens fragments payload
      → InOutput
          (record s { tcp_handle = h; out = out'; frag_header = 0; out_finger = 4 })
          before
          payload
  emptied s before payload fragments out' h whole large small now opens = record {
    done = [];
    header = take 4 out';
    current = [];
    room = drop 4 out';
    fragments = fragments;
    held = payload;
    memory = sym (take-append-drop 4 out');
    at_header = refl;
    word = omega (arith, length-take 4 out');
    at_finger = refl;
    whole = whole;
    large = large;
    small = small;
    not_stuck = inr (omega arith);
    output = append_nil (writer.sent h) ∙ now;
    opens = opens;
    split = sym (append_nil payload);
  }

  pub length-headed :
      (s : RecStrm H) (before payload : List ℕ) (header : ℕ) (r : InOutput s before payload)
      → s.out_boundry ≡ length (put_header handle header s).out
  length-headed s before payload header r =
      r.whole
      ∙ sym (
          length-splice s.out s.frag_header (word_bytes (header % 2 ^ 32))
            (omega (arith, r.at_finger, r.whole, length-room s before payload r)))

  -- The fragment at hand is finished and sent, and is not the last.
  pub flush_out-more :
      (s : RecStrm H) (before payload : List ℕ) (r : InOutput s before payload)
      → 0 < length r.current
      → (s' : RecStrm H) × (flush_out handle false s ≡ returned tt s')
        × InOutput s' before payload
        × (s'.out_finger ≡ 4)
        × (s'.out_boundry ≡ s.out_boundry)
  unfolding flush_out
  flush_out-more s before payload r some_there =
      let len : ℕ = frag_len handle s in
      let is_length = frag_len-length s before payload r in
      let under : length r.current < 2 ^ 31 =
        omega (arith, r.at_finger, length-room s before payload r, r.small) in
      let (h, sent, now) = send_lem s before payload len r in
      (
        record (put_header handle len s) { tcp_handle = h; frag_header = 0; out_finger = 4 },
        sent,
        emptied s before payload (r.fragments ++ (word_bytes (length r.current) ++ r.current))
            (put_header handle len s).out h (length-headed s before payload len r) r.large r.small
            (now
              ∙ ap (λ (k : ℕ). before ++ (r.fragments ++ (word_bytes k ++ r.current)))
                  (omega (arith, is_length, under)))
            (rw r.split (Opens-append r.fragments r.held r.current r.opens some_there under)),
        refl,
        refl,
      )
