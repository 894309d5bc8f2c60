-- ===== src/Tcp/Stream.antt =====
-- src/librpc/svc_tcp.c, `readtcp` and `writetcp`: they keep what the record stream asks of them.
use rpc_mt.Common.{
  ℕ, zero, suc, ◌+◌, ◌≤◌, ◌<◌, ◌≡◌, refl, ap, sym, ◌∙◌, inl, inr, Bool, true, false, Option, none,
  some, List, [], ◌∷◌, ◌++◌, arith, length, take, drop, ◌==◌, length-drop, take-append-drop,
  eq_nil_of_length, Bool-cases, ==→eq, ==→ne,
}
use rpc_mt.Xdr.Codec.{append_assoc, append_nil}
use rpc_mt.Xdr.Rec.{Handle}
use rpc_mt.Xdr.Rec.Input.{Reader}
use rpc_mt.Xdr.Rec.Output.{Writer}
use rpc_mt.Tcp.{
  Socket, Polled, ready, TcpConn, xprt_died, pollin, pollnval, event, give_up, go_on, poll_loop,
  readtcp, write_loop, written, writetcp, readable, fatal,
}

-- A socket that works: `poll` finds it readable, with bytes or at the end of them; `read` takes some of the
-- bytes that are to come, and none after the last; `write` takes a first part, which is not empty.
pub record Works {N : Type 0} (socket : Socket N) : Type 0 where
  pub coming : N → List ℕ
  pub sent : N → List ℕ
  pub polls :
      (net : N)
      → (revents : ℕ) × (net' : N) × (socket.poll net ≡ (ready revents, net'))
        × (pollin revents ≡ true)
        × (pollnval revents ≡ false)
        × (coming net' ≡ coming net)
        × (sent net' ≡ sent net)
  pub reads :
      (len : ℕ) (net : N)
      → 0 < len
      → 0 < length (coming net)
      → (b : ℕ) × (bs : List ℕ) × (net' : N) × (socket.read len net ≡ (some (b ∷ bs), net'))
        × (length (b ∷ bs) ≤ len)
        × (coming net ≡ (b ∷ bs) ++ coming net')
        × (sent net' ≡ sent net)
  pub ends :
      (len : ℕ) (net : N)
      → coming net ≡ []
      → (net' : N) × (socket.read len net ≡ (some [], net'))
        × (coming net' ≡ [])
        × (sent net' ≡ sent net)
  pub writes :
      (bs : List ℕ) (net : N)
      → 0 < length bs
      → (w : ℕ) × (net' : N) × (socket.write bs net ≡ (some w, net'))
        × (0 < w)
        × (sent net' ≡ sent net ++ take w bs)
        × (coming net' ≡ coming net)

module _ {N : Type 0} (socket : Socket N) (works : Works socket) where
  poll_found :
      (n revents new : ℕ) (c : TcpConn N) (net : N)
      → socket.poll c.net ≡ (ready new, net)
      → pollin new ≡ true
      → pollnval new ≡ false
      → poll_loop socket (suc n) revents c ≡ readable (record c { net = net; busy = true })
  unfolding poll_loop
  poll_found n revents new c net polled input valid =
      ap
        (λ (r : Polled × N).
          let c' : TcpConn N = record c { net = r.1; busy = true } in
          elim (event revents r.0) [
            | give_up ↦ fatal c'
            | go_on e ↦ elim (pollin e) [ true ↦ readable c' | false ↦ poll_loop socket n e c' ]
          ])
        polled
      ∙ rw valid (rw input refl)

  write_step :
      (n w : ℕ) (bs : List ℕ) (c : TcpConn N) (net : N)
      → (length bs == 0) ≡ false
      → socket.write bs c.net ≡ (some w, net)
      → write_loop socket (suc n) bs c ≡ write_loop socket n (drop w bs) (record c { net = net })
  unfolding write_loop
  write_step n w bs c net on wrote =
      rw (on, write_loop)
        (ap
          (λ (r : Option ℕ × N). elim r.0 [
            | none ↦ some (false, record c { net = r.1; strm_stat = xprt_died })
            | some k ↦ write_loop socket n (drop k bs) (record c { net = r.1 })
          ])
          wrote)

  poll_loop_lem :
      (n revents : ℕ) (c : TcpConn N)
      → 0 < n
      → (net : N) × (poll_loop socket n revents c ≡ readable (record c { net = net; busy = true }))
        × (works.coming net ≡ works.coming c.net)
        × (works.sent net ≡ works.sent c.net)
  poll_loop_lem zero revents c pos = absurd (omega arith)
  poll_loop_lem (suc n) revents c pos =
      let (new, net, polled, input, valid, in_, out) = works.polls c.net in
      (net, poll_found n revents new c net polled input valid, in_, out)

  write_loop_lem :
      (n : ℕ) (bs : List ℕ) (c : TcpConn N)
      → length bs < n
      → (net : N) × (write_loop socket n bs c ≡ some (true, record c { net = net }))
        × (works.sent net ≡ works.sent c.net ++ bs)
        × (works.coming net ≡ works.coming c.net)
  unfolding write_loop
  write_loop_lem zero bs c rounds = absurd (omega arith)
  write_loop_lem (suc n) bs c rounds = elim (Bool-cases (length bs == 0)) [
    | inl end ↦
        let nil = eq_nil_of_length bs (==→eq _ _ end) in
        (c.net, rw (end, write_loop) refl, sym (rw nil (append_nil (works.sent c.net))), refl)
    | inr on ↦
        let some_left = ==→ne _ _ on in
        let (w, net, wrote, pos, out, in_) = works.writes bs c.net (omega arith) in
        let (net', done, out', in_') =
          write_loop_lem n (drop w bs) (record c { net = net }) (omega (arith, length-drop w bs)) in
        (
          net',
          write_step n w bs c net on wrote ∙ done,
          out'
              ∙ ap (λ (l : List ℕ). l ++ drop w bs) out
              ∙ append_assoc (works.sent c.net) (take w bs) (drop w bs)
              ∙ ap (λ (l : List ℕ). works.sent c.net ++ l) (take-append-drop w bs),
          in_' ∙ in_,
        )
  ]

  -- With a socket that works, `readtcp` for a positive length gives at least one of the bytes that are to
  -- come, at most as many as it is asked for and in order, leaves the rest to come, and sets XPRT_DONE_READ;
  -- after the last byte it gives -1 and the connection is XPRT_DIED. One round of `poll` is enough, whatever
  -- `revents` held before.
  pub readtcp_lem :
      (n revents len : ℕ) (c : TcpConn N)
      → 0 < n
      → (0 < len
          → 0 < length (works.coming c.net)
          → (bs : List ℕ) × (c' : TcpConn N) × (readtcp socket n revents len c ≡ some (some bs, c'))
            × (0 < length bs)
            × (length bs ≤ len)
            × (works.coming c.net ≡ bs ++ works.coming c'.net)
            × (c'.strm_stat ≡ c.strm_stat)
            × (c'.done_read ≡ true))
        × (works.coming c.net ≡ []
            → (c' : TcpConn N) × (readtcp socket n revents len c ≡ some (none, c'))
              × (c'.strm_stat ≡ xprt_died))
  unfolding readtcp
  readtcp_lem n revents len c rounds =
      let (net, polled, in_, out) = poll_loop_lem n revents c rounds in
      (
        λ pos some_there.
            let (b, bs, net', got, count, taken, _) =
              works.reads len net pos (omega (arith, ap length in_)) in
            (
              b ∷ bs,
              record c { net = net'; done_read = true; busy = false },
              rw polled (rw got refl),
              omega arith,
              count,
              sym in_ ∙ taken,
              refl,
              refl,
            ),
        λ at_end.
            let (net', got, _, _) = works.ends len net (in_ ∙ at_end) in
            (
              record c { net = net'; strm_stat = xprt_died; busy = true },
              rw polled (rw got refl),
              refl,
            ),
      )

  -- With a socket that works, `writetcp` sends all the bytes in order, however many `write` takes at a
  -- time, and gives their number; a round more than there are bytes is enough.
  pub writetcp_lem :
      (n : ℕ) (bs : List ℕ) (c : TcpConn N)
      → length bs < n
      → (c' : TcpConn N) × (writetcp socket n bs c ≡ some (length bs, c'))
        × (works.sent c'.net ≡ works.sent c.net ++ bs)
        × (works.coming c'.net ≡ works.coming c.net)
        × (c'.strm_stat ≡ c.strm_stat)
  unfolding writetcp
  writetcp_lem n bs c rounds =
      let (net, done, out, in_) = write_loop_lem n bs c rounds in
      (
        record c { net = net },
        ap (λ (m : Option (Bool × TcpConn N)). written socket (length bs) m) done,
        out,
        in_,
        refl,
      )

  some_inj : {A : Type 0} (x y : A) → some x ≡ some y → x ≡ y
  some_inj x y e = cc

  -- A record stream over `readtcp` and `writetcp` has what it asks of its connection.
  pub tcp_Writer :
      (handle : Handle (TcpConn N))
      → ((bs : List ℕ) (c : TcpConn N)
          → writetcp socket (length bs + 1) bs c ≡ some (handle.writeit bs c))
      → Writer handle
  tcp_Writer handle same = record {
    sent = λ c. works.sent c.net;
    takes = λ bs c.
        let (c', done, out, _, _) = writetcp_lem (length bs + 1) bs c (omega arith) in
        (c', some_inj _ _ (sym (same bs c) ∙ done), out);
  }

  pub tcp_Reader :
      (handle : Handle (TcpConn N)) (revents : ℕ)
      → ((len : ℕ) (c : TcpConn N) → readtcp socket 1 revents len c ≡ some (handle.readit len c))
      → Reader handle
  tcp_Reader handle revents same = record {
    coming = λ c. works.coming c.net;
    gives = λ len c pos some_there.
        let (bs, c', got, first, count, taken, _, _) =
          (readtcp_lem 1 revents len c (omega arith)).0 pos some_there in
        (bs, c', some_inj _ _ (sym (same len c) ∙ got), first, count, taken);
    ends = λ len c at_end.
        let (c', got, _) = (readtcp_lem 1 revents len c (omega arith)).1 at_end in
        (c', some_inj _ _ (sym (same len c) ∙ got));
  }
