-- ===== src/Xdr/Rec/Records.antt =====
-- src/librpc/xdr_rec.c, `xdrrec_getbytes` and `xdrrec_skiprecord`: a record is read whole, whatever its
-- fragments are.
use rpc_mt.Common.{
  ℕ, zero, suc, ◌-◌, ◌*◌, ◌%◌, ◌^◌, ◌≤◌, ◌<◌, ◌≡◌, refl, ap, sym, ◌∙◌, ◌⊎◌, inl, inr, Bool, true,
  false, List, [], ◌++◌, arith, length, leb, leb→lt, ◌==◌, length-append, Bool-cases, ==→eq, ==→ne,
}
use rpc_mt.Xdr.{returned, refused, and_then}
use rpc_mt.Xdr.Codec.{append_assoc}
use rpc_mt.Xdr.Rec.{
  Handle, RecStrm, smaller, get_input_bytes, set_input_fragment, get_loop, xdrrec_getbytes,
}
use rpc_mt.Xdr.Rec.Input.{Reader, IsValid, wire, get_input_bytes_lem}
use rpc_mt.Xdr.Rec.Fragments.{
  Carries, Carries-length, Carries-take, Carries-header, Carries-last, set_input_fragment_lem,
  append_split,
}

module _ {H : Type 0} (handle : Handle H) (reader : Reader handle) where
  -- The stream stands in a record of which these bytes are left, with `rest` after it.
  pub record InRecord (s : RecStrm H) (payload rest : List ℕ) : Type 0 where
    pub valid : IsValid s
    pub small : s.fbtbc < 2 ^ 32
    pub carries : Carries s.fbtbc s.last_frag (wire handle reader s) payload rest

  pub get_header :
      (n m len : ℕ) (s : RecStrm H)
      → (len == 0) ≡ false
      → (s.fbtbc % 2 ^ 32 == 0) ≡ true
      → s.last_frag ≡ false
      → get_loop handle n (suc m) len s
        ≡ and_then (set_input_fragment handle n s) (λ _ t. get_loop handle n m len t)
  unfolding get_loop
  get_header n m len s on end open_ = rw (on, end, get_loop) (chosen s.last_frag open_)
    where
      chosen :
          (b : Bool)
          → b ≡ false
          → (elim b [
            | true ↦ refused s
            | false ↦ and_then (set_input_fragment handle n s) (λ _ t. get_loop handle n m len t)
          ])
            ≡ and_then (set_input_fragment handle n s) (λ _ t. get_loop handle n m len t)
      chosen true e = cc
      chosen false e = refl

  pub get_part :
      (n m len : ℕ) (s : RecStrm H)
      → (len == 0) ≡ false
      → (s.fbtbc % 2 ^ 32 == 0) ≡ false
      → get_loop handle n (suc m) len s ≡ (
          let c = smaller handle len (s.fbtbc % 2 ^ 32) in
          and_then (get_input_bytes handle n c s) (λ bs t.
            and_then
              (get_loop handle n m (len - c) (record t { fbtbc = t.fbtbc - c }))
              (λ cs u. returned (bs ++ cs) u)))
  unfolding get_loop
  get_part n m len s on inside = rw (on, inside, get_loop) refl

  pub next_fragment :
      (n : ℕ) (s : RecStrm H) (payload rest : List ℕ)
      → 8 < n
      → InRecord s payload rest
      → s.fbtbc ≡ 0
      → s.last_frag ≡ false
      → (s' : RecStrm H) × (set_input_fragment handle n s ≡ returned tt s')
        × InRecord s' payload rest
        × (0 < length payload → 0 < s'.fbtbc)
        × ((0 < s'.fbtbc) ⊎ (s'.last_frag ≡ true))
  next_fragment n s payload rest rounds r end open_ =
      let (h, w, pos, small, here, later) = Carries-header end open_ r.carries in
      let (t, got, left, valid, fbtbc, last) =
        set_input_fragment_lem handle reader n h s w rounds r.valid pos small here in
      (
        t,
        got,
        record { valid = valid; small = omega arith; carries = rw (fbtbc, last, left) later },
        λ some_left. rw fbtbc (not_empty h w later pos some_left (Bool-cases (leb (2 ^ 31) h))),
        rw (fbtbc, last) (either h pos (Bool-cases (leb (2 ^ 31) h))),
      )
    where
      not_empty :
          (h : ℕ) (w : List ℕ)
          → Carries (h % 2 ^ 31) (leb (2 ^ 31) h) w payload rest
          → 0 < h
          → 0 < length payload
          → (leb (2 ^ 31) h ≡ true) ⊎ (leb (2 ^ 31) h ≡ false)
          → 0 < h % 2 ^ 31
      not_empty h w later pos some_left (inl closed) = omega (arith, (Carries-last closed later).0)
      not_empty h w later pos some_left (inr open_) = omega (arith, leb→lt _ _ open_)

      either :
          (h : ℕ)
          → 0 < h
          → (leb (2 ^ 31) h ≡ true) ⊎ (leb (2 ^ 31) h ≡ false)
          → (0 < h % 2 ^ 31) ⊎ (leb (2 ^ 31) h ≡ true)
      either h pos (inl closed) = inr closed
      either h pos (inr open_) = inl (omega (arith, leb→lt _ _ open_))

  -- The part that was taken is taken off `fbtbc`.
  pub taken_part :
      (s t : RecStrm H) (c : ℕ) (p rest : List ℕ) {payload : List ℕ}
      → InRecord s payload rest
      → IsValid t
      → t.fbtbc ≡ s.fbtbc
      → t.last_frag ≡ s.last_frag
      → Carries (s.fbtbc - c) s.last_frag (wire handle reader t) p rest
      → InRecord (record t { fbtbc = t.fbtbc - c }) p rest
  taken_part s t c p rest r v fbtbc last carries = record {
    valid = record { ordered = v.ordered; inside = v.inside; whole = v.whole; holds = v.holds };
    small = omega (arith, r.small);
    carries =
        at_fields (s.fbtbc - c) (t.fbtbc - c) s.last_frag t.last_frag (omega arith) (sym last)
          carries;
  }
    where
      at_fields :
          (n n' : ℕ) (l l' : Bool)
          → n ≡ n'
          → l ≡ l'
          → Carries n l (wire handle reader t) p rest
          → Carries n' l' (wire handle reader t) p rest
      at_fields n n' l l' e f k = rw (e, f) at k

  part_joined :
      (n m len : ℕ) (s t u : RecStrm H) (bs cs payload p payload' rest : List ℕ)
      → (len == 0) ≡ false
      → (s.fbtbc % 2 ^ 32 == 0) ≡ false
      → get_input_bytes handle n (smaller handle len (s.fbtbc % 2 ^ 32)) s ≡ returned bs t
      → get_loop handle n m
          (len - smaller handle len (s.fbtbc % 2 ^ 32))
          (record t { fbtbc = t.fbtbc - smaller handle len (s.fbtbc % 2 ^ 32) })
        ≡ returned cs u
      → length bs ≡ smaller handle len (s.fbtbc % 2 ^ 32)
      → length cs ≡ len - smaller handle len (s.fbtbc % 2 ^ 32)
      → smaller handle len (s.fbtbc % 2 ^ 32) ≤ len
      → payload ≡ bs ++ p
      → p ≡ cs ++ payload'
      → InRecord u payload' rest
      → (ds : List ℕ) × (q : List ℕ) × (s' : RecStrm H) × (get_loop handle n (suc m) len s
          ≡ returned ds s')
        × (length ds ≡ len)
        × (payload ≡ ds ++ q)
        × InRecord s' q rest
  part_joined n m len s t u bs cs payload p payload' rest on inside got done count count' within
        split split' r =
      (
        bs ++ cs,
        payload',
        u,
        get_part n m len s on inside ∙ rw got (rw done refl),
        omega (arith, length-append bs cs),
        split ∙ ap (λ (l : List ℕ). bs ++ l) split' ∙ sym (append_assoc bs cs payload'),
        r,
      )

  -- From a record with bytes left, the loop takes as many as it is asked for.
  get_loop_lem :
      (n m len : ℕ) (s : RecStrm H) (payload rest : List ℕ)
      → 8 < n
      → 2 * len < n
      → (2 * len < m) ⊎ ((2 * len ≤ m) × (0 < len) × (0 < s.fbtbc))
      → InRecord s payload rest
      → len ≤ length payload
      → (bs : List ℕ) × (payload' : List ℕ) × (s' : RecStrm H) × (get_loop handle n m len s
          ≡ returned bs s')
        × (length bs ≡ len)
        × (payload ≡ bs ++ payload')
        × InRecord s' payload' rest
  unfolding get_loop
  get_loop_lem n zero len s payload rest head inner rounds r le = absurd (ground (arith, rounds))
  get_loop_lem n (suc m) len s payload rest head inner rounds r le = elim (Bool-cases (len == 0)) [
    | inl end ↦
        let none_asked : 0 ≡ len = sym (==→eq _ _ end) in
        ([], payload, s, rw (end, get_loop) refl, none_asked, refl, r)
    | inr on ↦ elim (Bool-cases (s.fbtbc % 2 ^ 32 == 0)) [
      | inl end ↦
          let asked = ==→ne _ _ on in
          let small = r.small in
          let ended : s.fbtbc ≡ 0 = (let e = ==→eq _ _ end in omega arith) in
          let open_ : s.last_frag ≡ false = not_last ended (omega arith) (Bool-cases s.last_frag) in
          let (t, got, in_record, some_left, _) =
            next_fragment n s payload rest head r ended open_ in
          let (bs, payload', u, done, count, split, r') =
            get_loop_lem n m len t payload rest head inner
              (inr (header_rounds rounds ended, omega arith, some_left (omega arith))) in_record
              le in
          (bs, payload', u, get_header n m len s on end open_ ∙ rw got done, count, split, r')
      | inr inside ↦
          let c : ℕ = smaller handle len (s.fbtbc % 2 ^ 32) in
          let asked = ==→ne _ _ on in
          let some_there = ==→ne _ _ inside in
          let small = r.small in
          let whole : s.fbtbc % 2 ^ 32 ≡ s.fbtbc = omega arith in
          let some_c : 0 < c = ground (arith, asked, some_there) in
          let within : c ≤ len = ground arith in
          let within' : c ≤ s.fbtbc = ground (arith, whole) in
          let (bs, t, got, count, took) =
            get_input_bytes_lem handle reader n c s r.valid (inl (omega arith))
              (omega (arith, Carries-length r.carries)) in
          let (p, split, carries) =
            Carries-take c bs (wire handle reader t) within' count took.taken r.carries in
          let t' : RecStrm H = record t { fbtbc = t.fbtbc - c } in
          let in_record : InRecord t' p rest =
            taken_part s t c p rest r took.valid took.fbtbc took.last_frag carries in
          let (cs, payload', u, done, count', split', r') =
            get_loop_lem n m (len - c) t' p rest head (omega arith)
              (inl (part_rounds c some_c within rounds)) in_record
              (omega (arith, ap length split, length-append bs p)) in
          part_joined n m len s t u bs cs payload p payload' rest on inside got done count count'
            within split split' r'
    ]
  ]
    where
      not_last :
          s.fbtbc ≡ 0
          → 0 < length payload
          → (s.last_frag ≡ true) ⊎ (s.last_frag ≡ false)
          → s.last_frag ≡ false
      not_last ended some_left (inl closed) =
          absurd (omega (arith, (Carries-last closed r.carries).0))
      not_last ended some_left (inr open_) = open_

      header_rounds :
          (2 * len < suc m) ⊎ ((2 * len ≤ suc m) × (0 < len) × (0 < s.fbtbc))
          → s.fbtbc ≡ 0
          → 2 * len ≤ m
      header_rounds (inl lt) e = omega arith
      header_rounds (inr (_, _, there)) e = absurd (omega arith)

      part_rounds :
          (c : ℕ)
          → 0 < c
          → c ≤ len
          → (2 * len < suc m) ⊎ ((2 * len ≤ suc m) × (0 < len) × (0 < s.fbtbc))
          → 2 * (len - c) < m
      part_rounds c some_c within (inl lt) = omega arith
      part_rounds c some_c within (inr (lt, _, _)) = omega arith

  -- Over a connection that keeps the contract Reader: in a record of which `bs ++ payload` is left,
  -- `xdrrec_getbytes` for the length of `bs` gives `bs`, whatever the fragments of the record and the
  -- portions of the connection are, and leaves `payload` of the same record; `n` rounds with 8 < n and
  -- 2 * length bs < n are enough.
  pub xdrrec_getbytes_lem :
      (n : ℕ) (s : RecStrm H) (bs payload rest : List ℕ)
      → 8 < n
      → 2 * length bs < n
      → InRecord s (bs ++ payload) rest
      → (s' : RecStrm H) × (xdrrec_getbytes handle n (length bs) s ≡ returned bs s')
        × InRecord s' payload rest
  unfolding xdrrec_getbytes
  xdrrec_getbytes_lem n s bs payload rest head rounds r =
      let (cs, q, t, got, count, split, r') =
        get_loop_lem n n (length bs) s (bs ++ payload) rest head rounds (inl rounds) r
          (omega (arith, length-append bs payload)) in
      let (same, left) = append_split bs cs payload q (sym count) split in
      (t, got ∙ rw same refl, rw left r')
