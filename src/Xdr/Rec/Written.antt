-- ===== src/Xdr/Rec/Written.antt =====
-- src/librpc/xdr_rec.c, `xdrrec_putbytes` and `xdrrec_endofrecord`: the records that are sent.
use rpc_mt.Common.{
  ℕ, zero, suc, ◌+◌, ◌-◌, ◌≤◌, ◌<◌, ◌≡◌, refl, ap, sym, ◌∙◌, ◌⊎◌, inl, inr, Bool, true, false, ◌&&◌,
  List, [], ◌++◌, arith, length, take, drop, ltb, ◌==◌, length-take, length-drop, take-append-drop,
  eq_nil_of_length, Bool-cases, ==→eq, ==→ne, ne→==,
}
use rpc_mt.Xdr.{Ran, returned, and_then}
use rpc_mt.Xdr.Codec.{append_assoc, append_nil}
use rpc_mt.Xdr.Rec.{Handle, RecStrm, smaller, put_out, flush_out, put_loop}
use rpc_mt.Xdr.Rec.Output.{Writer, InOutput, put_out_lem, flush_out-more, length-room}

module _ {H : Type 0} (handle : Handle H) (writer : Writer handle) where
  pub with_frag_sent :
      (s : RecStrm H) (before payload : List ℕ) (sent : Bool)
      → InOutput handle writer s before payload
      → InOutput handle writer (record s { frag_sent = sent }) before payload
  with_frag_sent s before payload sent r = record {
    done = r.done;
    header = r.header;
    current = r.current;
    room = r.room;
    fragments = r.fragments;
    held = r.held;
    memory = r.memory;
    at_header = r.at_header;
    word = r.word;
    at_finger = r.at_finger;
    whole = r.whole;
    large = r.large;
    small = r.small;
    not_stuck = r.not_stuck;
    output = r.output;
    opens = r.opens;
    split = r.split;
  }

  -- What a round of the loop does when it has put its bytes.
  abbrev go_on : ℕ → List ℕ → RecStrm H → Bool → Ran (RecStrm H) (Unit {0})
  go_on n rest t full = elim full [
    | true ↦
        and_then (flush_out handle false (record t { frag_sent = true }))
          (λ _ u. put_loop handle n rest u)
    | false ↦ put_loop handle n rest t
  ]

  abbrev part : List ℕ → RecStrm H → ℕ
  part bs s = smaller handle (length bs) (s.out_boundry - s.out_finger)

  put_step :
      (n : ℕ) (s t : RecStrm H) (bs : List ℕ) (full : Bool)
      → (length bs == 0) ≡ false
      → put_out handle (take (part bs s) bs) s ≡ returned tt t
      → (t.out_finger == t.out_boundry && ltb 0 (length bs - part bs s)) ≡ full
      → put_loop handle (suc n) bs s ≡ go_on n (drop (part bs s) bs) t full
  unfolding put_loop
  put_step n s t bs full on put e =
      rw (on, put_loop)
        (ap
          (λ (m : Ran (RecStrm H) (Unit {0})). and_then m (λ _ t'.
            go_on n (drop (part bs s) bs) t'
              (t'.out_finger == t'.out_boundry && ltb 0 (length bs - part bs s))))
          put)
      ∙ ap (λ (b : Bool). go_on n (drop (part bs s) bs) t b) e

  put_none :
      (n : ℕ) (s : RecStrm H) (bs : List ℕ)
      → 0 < n
      → length bs ≡ 0
      → put_loop handle n bs s ≡ returned tt s
  unfolding put_loop
  put_none zero s bs pos e = absurd (omega arith)
  put_none (suc n) s bs pos e = rw (e, put_loop) refl

  -- A round that puts some bytes, with what the rest of the loop does from there.
  put_round :
      (n : ℕ) (s t : RecStrm H) (before payload bs : List ℕ)
      → (length bs + 1 < suc n) ⊎ ((length bs < suc n) × (s.out_finger < s.out_boundry))
      → 0 < length bs
      → s.out_finger ≤ s.out_boundry
      → put_out handle (take (part bs s) bs) s ≡ returned tt t
      → InOutput handle writer t before (payload ++ take (part bs s) bs)
      → t.out_finger ≡ s.out_finger + part bs s
      → t.out_boundry ≡ s.out_boundry
      → ((u : RecStrm H)
          → (length (drop (part bs s) bs) + 1 < n)
            ⊎ ((length (drop (part bs s) bs) < n) × (u.out_finger < u.out_boundry))
          → InOutput handle writer u before (payload ++ take (part bs s) bs)
          → (s' : RecStrm H) × (put_loop handle n (drop (part bs s) bs) u ≡ returned tt s')
            × InOutput handle writer s' before
                ((payload ++ take (part bs s) bs) ++ drop (part bs s) bs))
      → (full : Bool) → (t.out_finger == t.out_boundry && ltb 0 (length bs - part bs s)) ≡ full
      → (s' : RecStrm H) × (put_loop handle (suc n) bs s ≡ returned tt s')
        × InOutput handle writer s' before ((payload ++ take (part bs s) bs) ++ drop (part bs s) bs)
  put_round n s t before payload bs rounds some_left at_end put r finger boundry rest false e =
      let none_left : length (drop (part bs s) bs) ≡ 0 =
        ground (arith, length-drop (part bs s) bs, e, finger, boundry, at_end) in
      let nil : drop (part bs s) bs ≡ [] = eq_nil_of_length (drop (part bs s) bs) none_left in
      (
        t,
        put_step n s t bs false (ne→== (length bs) 0 (omega arith)) put e
            ∙ put_none n t (drop (part bs s) bs) (ground (arith, rounds)) none_left,
        rw (nil, append_nil (payload ++ take (part bs s) bs)) r,
      )
  put_round n s t before payload bs rounds some_left at_end put r finger boundry rest true e =
      let t' : RecStrm H = record t { frag_sent = true } in
      let r' : InOutput handle writer t' before (payload ++ take (part bs s) bs) =
        with_frag_sent t before (payload ++ take (part bs s) bs) true r in
      let at_boundry : t.out_finger ≡ t.out_boundry = ground (arith, e) in
      let some_there : 0 < length r'.current = ground (arith, r'.not_stuck, at_boundry) in
      let (u, sent, m, start, same) =
        flush_out-more handle writer t' before (payload ++ take (part bs s) bs) r' some_there in
      let some_room : u.out_finger < u.out_boundry = omega (arith, m.large) in
      let (v, done, ended) = rest u (rounds_left u some_room) m in
      (v, put_step n s t bs true (ne→== (length bs) 0 (omega arith)) put e ∙ rw sent done, ended)
    where
      rounds_left :
          (u : RecStrm H)
          → u.out_finger < u.out_boundry
          → (length (drop (part bs s) bs) + 1 < n)
            ⊎ ((length (drop (part bs s) bs) < n) × (u.out_finger < u.out_boundry))
      rounds_left u some_room =
          inr (ground (arith, length-drop (part bs s) bs, rounds, some_left, at_end), some_room)

  pub put_loop_lem :
      (n : ℕ) (s : RecStrm H) (before payload bs : List ℕ)
      → (length bs + 1 < n) ⊎ ((length bs < n) × (s.out_finger < s.out_boundry))
      → InOutput handle writer s before payload
      → (s' : RecStrm H) × (put_loop handle n bs s ≡ returned tt s')
        × InOutput handle writer s' before (payload ++ bs)
  put_loop_lem zero s before payload bs rounds r = absurd (ground (arith, rounds))
  put_loop_lem (suc n) s before payload bs rounds r = elim (Bool-cases (length bs == 0)) [
    | inl end ↦
        let none_left : length bs ≡ 0 = ==→eq _ _ end in
        (
          s,
          put_none (suc n) s bs (omega arith) none_left,
          rw (eq_nil_of_length bs none_left, append_nil payload) r,
        )
    | inr on ↦
        let c : ℕ = part bs s in
        let some_left = ==→ne _ _ on in
        let at_end = length-room handle writer s before payload r in
        let within : c ≤ length bs = ground arith in
        let fits : s.out_finger + c ≤ s.out_boundry = ground (arith, at_end) in
        let count : length (take c bs) ≡ c = omega (arith, length-take c bs) in
        let (t, put, r', finger, boundry) =
          put_out_lem handle writer s before payload (take c bs) r (omega arith) in
        let (s', done, ended) =
          put_round n s t before payload bs rounds (omega arith) (omega (arith, at_end)) put r'
            (omega (arith, finger, count)) boundry
            (λ u left m. put_loop_lem n u before (payload ++ take c bs) (drop c bs) left m)
            (t.out_finger == t.out_boundry && ltb 0 (length bs - c)) refl in
        (s', done, rw (sym whole) ended)
  ]
    where
      whole : (payload ++ take (part bs s) bs) ++ drop (part bs s) bs ≡ payload ++ bs
      whole =
          append_assoc payload (take (part bs s) bs) (drop (part bs s) bs)
          ∙ ap (λ (l : List ℕ). payload ++ l) (take-append-drop (part bs s) bs)
