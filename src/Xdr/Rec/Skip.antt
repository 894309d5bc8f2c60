-- ===== src/Xdr/Rec/Skip.antt =====
-- src/librpc/xdr_rec.c, `xdrrec_skiprecord`: to the start of the next record.
use rpc_mt.Common.{
  ℕ, zero, suc, ◌+◌, ◌-◌, ◌*◌, ◌≤◌, ◌<◌, ◌≡◌, refl, ap, sym, ◌∙◌, ◌⊎◌, inl, inr, Bool, true, false,
  not, ◌||◌, List, [], ◌++◌, arith, length, ltb, ◌==◌, length-append, eq_nil_of_length, Bool-cases,
  ==→eq, ==→ne,
}
use rpc_mt.Xdr.{returned, and_then}
use rpc_mt.Xdr.Rec.{
  Handle, RecStrm, smaller, fill_input_buf, move_in, skip_input_bytes, set_input_fragment,
  skip_loop, xdrrec_skiprecord,
}
use rpc_mt.Xdr.Rec.Input.{
  Reader, IsValid, wire, Took, Took-nil, Took-append, fill_lem, copy_lem, fill_rounds, copy_rounds,
}
use rpc_mt.Xdr.Rec.Fragments.{Carries, Carries-length, Carries-take, Carries-last, Carries-payload}
use rpc_mt.Xdr.Rec.Records.{InRecord, next_fragment}

module _ {H : Type 0} (handle : Handle H) (reader : Reader handle) where
  skip_fill :
      (n cnt : ℕ) (s : RecStrm H)
      → (cnt == 0) ≡ false
      → (s.in_boundry - s.in_finger == 0) ≡ true
      → skip_input_bytes handle (suc n) cnt s
        ≡ and_then (fill_input_buf handle s) (λ _ t. skip_input_bytes handle n cnt t)
  unfolding skip_input_bytes
  skip_fill n cnt s on empty = rw (on, empty, skip_input_bytes) refl

  -- Skipping takes as many bytes off as reading.
  pub skip_input_bytes_lem :
      (n cnt : ℕ) (s : RecStrm H)
      → IsValid s
      → (2 * cnt < n) ⊎ ((2 * cnt ≤ n) × (0 < cnt) × (s.in_finger < s.in_boundry))
      → cnt ≤ length (wire handle reader s)
      → (bs : List ℕ) × (s' : RecStrm H) × (skip_input_bytes handle n cnt s ≡ returned tt s')
        × (length bs ≡ cnt)
        × Took handle reader s bs s'
  unfolding skip_input_bytes
  skip_input_bytes_lem zero cnt s v rounds more = absurd (ground (arith, rounds))
  skip_input_bytes_lem (suc n) cnt s v rounds more = elim (Bool-cases (cnt == 0)) [
    | inl end ↦
        let none_asked : 0 ≡ cnt = sym (==→eq _ _ end) in
        ([], s, rw (end, skip_input_bytes) refl, none_asked, Took-nil handle reader s v)
    | inr on ↦ elim (Bool-cases (s.in_boundry - s.in_finger == 0)) [
      | inl empty ↦
          let asked = ==→ne _ _ on in
          let (t, filled, took, there) =
            fill_lem handle reader s v (==→eq _ _ empty) (omega arith) in
          let enough : cnt ≤ length (wire handle reader t) = omega (arith, ap length took.taken) in
          let (bs, u, got, count, took') =
            skip_input_bytes_lem n cnt t took.valid
              (inr (fill_rounds handle reader s n cnt rounds empty, omega arith, there)) enough in
          (
            bs,
            u,
            skip_fill n cnt s on empty ∙ rw filled got,
            count,
            Took-append handle reader s t u [] bs took took',
          )
      | inr some_there ↦
          let c : ℕ = smaller handle cnt (s.in_boundry - s.in_finger) in
          let asked = ==→ne _ _ on in
          let full = ==→ne _ _ some_there in
          let some_c : 0 < c = ground (arith, asked, full) in
          let le : c ≤ cnt = ground arith in
          let le' : c ≤ s.in_boundry - s.in_finger = ground arith in
          let (bs, done, count, took) = copy_lem handle reader s c v le' in
          let left : cnt - c ≤ length (wire handle reader (move_in handle c s)) = omega (
            arith,
            ap length took.taken,
            length-append bs (wire handle reader (move_in handle c s)),
          ) in
          let (cs, u, got, count', took') =
            skip_input_bytes_lem n (cnt - c) (move_in handle c s) took.valid
              (inl (copy_rounds handle reader s n cnt c some_c le rounds)) left in
          (
            bs ++ cs,
            u,
            rw (on, some_there, skip_input_bytes) got,
            omega (arith, length-append bs cs),
            Took-append handle reader s (move_in handle c s) u bs cs took took',
          )
    ]
  ]

  skip_last :
      (n m : ℕ) (s t : RecStrm H)
      → (ltb 0 s.fbtbc || not s.last_frag) ≡ true
      → skip_input_bytes handle n s.fbtbc s ≡ returned tt t
      → t.last_frag ≡ true
      → skip_loop handle n (suc m) s ≡ skip_loop handle n m (record t { fbtbc = 0 })
  unfolding skip_loop
  skip_last n m s t on skipped closed = rw (on, skip_loop) (rw skipped (chosen t.last_frag closed))
    where
      chosen :
          (b : Bool)
          → b ≡ true
          → (elim b [
            | true ↦ skip_loop handle n m (record t { fbtbc = 0 })
            | false ↦
                and_then
                  (set_input_fragment handle n (record t { fbtbc = 0 }))
                  (λ _ u. skip_loop handle n m u)
          ])
            ≡ skip_loop handle n m (record t { fbtbc = 0 })
      chosen true e = refl
      chosen false e = cc

  skip_more :
      (n m : ℕ) (s t u : RecStrm H)
      → (ltb 0 s.fbtbc || not s.last_frag) ≡ true
      → skip_input_bytes handle n s.fbtbc s ≡ returned tt t
      → t.last_frag ≡ false
      → set_input_fragment handle n (record t { fbtbc = 0 }) ≡ returned tt u
      → skip_loop handle n (suc m) s ≡ skip_loop handle n m u
  unfolding skip_loop
  skip_more n m s t u on skipped open_ header =
      rw (on, skip_loop) (rw skipped (chosen t.last_frag open_))
    where
      chosen :
          (b : Bool)
          → b ≡ false
          → (elim b [
            | true ↦ skip_loop handle n m (record t { fbtbc = 0 })
            | false ↦
                and_then
                  (set_input_fragment handle n (record t { fbtbc = 0 }))
                  (λ _ u. skip_loop handle n m u)
          ])
            ≡ skip_loop handle n m u
      chosen true e = cc
      chosen false e = rw header refl

  emptied :
      (s t : RecStrm H) (p rest : List ℕ)
      → IsValid t
      → t.last_frag ≡ s.last_frag
      → Carries (s.fbtbc - s.fbtbc) s.last_frag (wire handle reader t) p rest
      → InRecord handle reader (record t { fbtbc = 0 }) p rest
  emptied s t p rest v last carries = record {
    valid = record { ordered = v.ordered; inside = v.inside; whole = v.whole; holds = v.holds };
    small = omega arith;
    carries =
        at_fields (s.fbtbc - s.fbtbc) s.last_frag t.last_frag (omega arith) (sym last) carries;
  }
    where
      at_fields :
          (n : ℕ) (l l' : Bool)
          → n ≡ 0
          → l ≡ l'
          → Carries n l (wire handle reader t) p rest
          → Carries 0 l' (wire handle reader t) p rest
      at_fields n l l' e f k = rw (e, f) at k

  -- From anywhere in a record, the loop comes to its end.
  skip_loop_lem :
      (n m : ℕ) (s : RecStrm H) (payload rest : List ℕ)
      → 8 < n
      → 2 * length payload < n
      → (length payload + 2 < m)
        ⊎ ((length payload + 1 < m) × ((0 < s.fbtbc) ⊎ (s.last_frag ≡ true)))
      → InRecord handle reader s payload rest
      → (s' : RecStrm H) × (skip_loop handle n m s ≡ returned tt s')
        × IsValid s'
        × (s'.fbtbc ≡ 0)
        × (wire handle reader s' ≡ rest)
  unfolding skip_loop
  skip_loop_lem n zero s payload rest head inner rounds r = absurd (ground (arith, rounds))
  skip_loop_lem n (suc m) s payload rest head inner rounds r =
      elim (Bool-cases (ltb 0 s.fbtbc || not s.last_frag)) [
        | inr end ↦
            let (ended, closed) = at_end s.fbtbc s.last_frag end in
            let (count, here) = Carries-last closed r.carries in
            let none_left : payload ≡ [] = eq_nil_of_length payload (count ∙ ended) in
            (
              s,
              rw (end, skip_loop) refl,
              r.valid,
              ended,
              here ∙ ap (λ (l : List ℕ). l ++ rest) none_left,
            )
        | inl on ↦
            let (w, t, skipped, count, took) =
              skip_input_bytes_lem n s.fbtbc s r.valid
                (inl (omega (arith, Carries-payload r.carries))) (Carries-length r.carries) in
            let (p, split, carries) =
              Carries-take s.fbtbc w (wire handle reader t) (omega arith) count took.taken
                r.carries in
            let left : length payload ≡ s.fbtbc + length p =
              omega (arith, ap length split, length-append w p) in
            let r' = emptied s t p rest took.valid took.last_frag carries in
            elim (Bool-cases s.last_frag) [
              | inl closed ↦
                  let pos = open_or_some s.fbtbc s.last_frag on closed in
                  let (u, done, valid, ended, here) =
                    skip_loop_lem n m (record t { fbtbc = 0 }) p rest head (omega arith)
                      (inr (last_rounds p left pos rounds, inr (took.last_frag ∙ closed))) r' in
                  (
                    u,
                    skip_last n m s t on skipped (took.last_frag ∙ closed) ∙ done,
                    valid,
                    ended,
                    here,
                  )
              | inr open_ ↦
                  let (v, header, r'', _, some_there) =
                    next_fragment handle reader n (record t { fbtbc = 0 }) p rest head r' refl
                      (took.last_frag ∙ open_) in
                  let (u, done, valid, ended, here) =
                    skip_loop_lem n m v p rest head (omega arith)
                      (inr (more_rounds p left open_ rounds, some_there)) r'' in
                  (
                    u,
                    skip_more n m s t v on skipped (took.last_frag ∙ open_) header ∙ done,
                    valid,
                    ended,
                    here,
                  )
            ]
      ]
    where
      at_end : (f : ℕ) (l : Bool) → (ltb 0 f || not l) ≡ false → (f ≡ 0) × (l ≡ true)
      at_end f true e = (ground (arith, e), refl)
      at_end f false e = absurd (ground (arith, e))

      open_or_some : (f : ℕ) (l : Bool) → (ltb 0 f || not l) ≡ true → l ≡ true → 0 < f
      open_or_some f true e closed = ground (arith, e)
      open_or_some f false e closed = cc

      last_rounds :
          (p : List ℕ)
          → length payload ≡ s.fbtbc + length p
          → 0 < s.fbtbc
          → (length payload + 2 < suc m)
            ⊎ ((length payload + 1 < suc m) × ((0 < s.fbtbc) ⊎ (s.last_frag ≡ true)))
          → length p + 1 < m
      last_rounds p left pos (inl lt) = omega arith
      last_rounds p left pos (inr (lt, _)) = omega arith

      more_rounds :
          (p : List ℕ)
          → length payload ≡ s.fbtbc + length p
          → s.last_frag ≡ false
          → (length payload + 2 < suc m)
            ⊎ ((length payload + 1 < suc m) × ((0 < s.fbtbc) ⊎ (s.last_frag ≡ true)))
          → length p + 1 < m
      more_rounds p left open_ (inl lt) = omega arith
      more_rounds p left open_ (inr (lt, inl pos)) = omega arith
      more_rounds p left open_ (inr (lt, inr closed)) = cc

  -- Over a connection that keeps the contract Reader: from anywhere in a record, whatever its fragments
  -- are, `xdrrec_skiprecord` comes to the end of the record and takes nothing of what follows; a record
  -- that follows can be read from there. `n` rounds with 8 < n and 2 * length payload < n are enough, where
  -- `payload` is what is left of the record.
  pub xdrrec_skiprecord_lem :
      (n : ℕ) (s : RecStrm H) (payload rest : List ℕ)
      → 8 < n
      → 2 * length payload < n
      → InRecord handle reader s payload rest
      → (s' : RecStrm H) × (xdrrec_skiprecord handle n s ≡ returned tt s')
        × IsValid s'
        × (s'.fbtbc ≡ 0)
        × (s'.last_frag ≡ false)
        × (wire handle reader s' ≡ rest)
        × ((payload' rest' : List ℕ)
            → Carries 0 false rest payload' rest'
            → InRecord handle reader s' payload' rest')
  unfolding xdrrec_skiprecord
  xdrrec_skiprecord_lem n s payload rest head inner r =
      let (t, done, valid, ended, here) =
        skip_loop_lem n n s payload rest head inner (inl (omega arith)) r in
      let t' : RecStrm H = record t { last_frag = false } in
      let v : IsValid t' = record {
        ordered = valid.ordered;
        inside = valid.inside;
        whole = valid.whole;
        holds = valid.holds;
      } in
      (
        t',
        rw done refl,
        v,
        ended,
        refl,
        here,
        λ payload' rest' next. record {
          valid = v;
          small = omega arith;
          carries = rw (ended, here) next;
        },
      )
