-- ===== src/Xdr/Rec/Short.antt =====
-- src/librpc/xdr_rec.c, `xdrrec_getbytes` where the record has fewer bytes than it is asked for.
use rpc_mt.Common.{
  ◌++◌, ℕ, zero, suc, ◌+◌, ◌-◌, ◌*◌, ◌%◌, ◌^◌, ◌<◌, ◌≡◌, refl, ap, ◌∙◌, ◌⊎◌, inl, inr, Bool, true,
  false, List, arith, length, ◌==◌, eq_nil_of_length, length-append, Bool-cases, ==→eq, ==→ne,
  ne→==,
}
use rpc_mt.Xdr.{refused, and_then}
use rpc_mt.Xdr.Rec.{Handle, RecStrm, smaller, set_input_fragment, get_loop, xdrrec_getbytes}
use rpc_mt.Xdr.Rec.Input.{IsValid, Reader, wire, get_input_bytes_lem}
use rpc_mt.Xdr.Rec.Fragments.{Carries-last, Carries-length, Carries-payload, Carries-take}
use rpc_mt.Xdr.Rec.Records.{InRecord, next_fragment, taken_part, get_header, get_part}

module _ {H : Type 0} (handle : Handle H) (reader : Reader handle) where
  get_ended :
      (n m len : ℕ) (s : RecStrm H)
      → (len == 0) ≡ false
      → (s.fbtbc % 2 ^ 32 == 0) ≡ true
      → s.last_frag ≡ true
      → get_loop handle n (suc m) len s ≡ refused s
  unfolding get_loop
  get_ended n m len s on end closed = rw (on, end, get_loop) (chosen s.last_frag closed)
    where
      chosen :
          (b : Bool)
          → b ≡ true
          → (elim b [
            | true ↦ refused s
            | false ↦ and_then (set_input_fragment handle n s) (λ _ t. get_loop handle n m len t)
          ])
            ≡ refused s
      chosen true e = refl
      chosen false e = cc

  -- The stream stands at the end of a record, with `rest` still to be read.
  pub record AtEnd (s : RecStrm H) (rest : List ℕ) : Type 0 where
    pub valid : IsValid s
    pub fbtbc : s.fbtbc ≡ 0
    pub last_frag : s.last_frag ≡ true
    pub left : wire handle reader s ≡ rest

  InRecord-AtEnd :
      (s : RecStrm H) (payload rest : List ℕ)
      → InRecord handle reader s payload rest
      → (s.fbtbc % 2 ^ 32 == 0) ≡ true
      → s.last_frag ≡ true
      → AtEnd s rest
  InRecord-AtEnd s payload rest r end closed =
      let small = r.small in
      let ended : s.fbtbc ≡ 0 = (let e = ==→eq _ _ end in omega arith) in
      let (count, here) = Carries-last closed r.carries in
      record {
        valid = r.valid;
        fbtbc = ended;
        last_frag = closed;
        left = here ∙ ap (λ (l : List ℕ). l ++ rest) (eq_nil_of_length payload (count ∙ ended));
      }

  get_loop_short :
      (n m len : ℕ) (s : RecStrm H) (payload rest : List ℕ)
      → 8 < n
      → 2 * length payload < n
      → (2 * length payload + 1 < m)
        ⊎ ((2 * length payload < m) × ((0 < s.fbtbc) ⊎ (s.last_frag ≡ true)))
      → InRecord handle reader s payload rest
      → length payload < len
      → (s' : RecStrm H) × (get_loop handle n m len s ≡ refused s') × AtEnd s' rest
  get_loop_short n zero len s payload rest head inner rounds r more =
      absurd (ground (arith, rounds))
  get_loop_short n (suc m) len s payload rest head inner rounds r more =
      elim (Bool-cases (s.fbtbc % 2 ^ 32 == 0)) [
        | inl end ↦ elim (Bool-cases s.last_frag) [
          | inl closed ↦
              (s, get_ended n m len s on end closed, InRecord-AtEnd s payload rest r end closed)
          | inr open_ ↦
              let small = r.small in
              let ended : s.fbtbc ≡ 0 = (let e = ==→eq _ _ end in omega arith) in
              let (t, got, in_record, _, progress) =
                next_fragment handle reader n s payload rest head r ended open_ in
              let (u, done, stands) =
                get_loop_short n m len t payload rest head inner
                  (inr (header_rounds ended open_ rounds, progress)) in_record more in
              (u, get_header handle reader n m len s on end open_ ∙ rw got done, stands)
        ]
        | inr inside ↦
            let c : ℕ = smaller handle len (s.fbtbc % 2 ^ 32) in
            let some_there = ==→ne _ _ inside in
            let small = r.small in
            let held = Carries-payload r.carries in
            let all : c ≡ s.fbtbc = ground arith in
            let (bs, t, got, count, took) =
              get_input_bytes_lem handle reader n c s r.valid (inl (omega arith))
                (omega (arith, Carries-length r.carries)) in
            let (p, split, carries) =
              Carries-take c bs (wire handle reader t) (omega arith) count took.taken r.carries in
            let shorter : length payload ≡ c + length p =
              omega (arith, ap length split, length-append bs p) in
            let (u, done, stands) =
              get_loop_short n m (len - c) (record t { fbtbc = t.fbtbc - c }) p rest head
                (omega arith) (inl (part_rounds c (length p) shorter (omega arith) rounds))
                (taken_part handle reader s t c p rest r took.valid took.fbtbc took.last_frag
                  carries)
                (omega arith) in
            (u, get_part handle reader n m len s on inside ∙ rw got (rw done refl), stands)
      ]
    where
      on : (len == 0) ≡ false
      on = ne→== len 0 (omega arith)

      header_rounds :
          s.fbtbc ≡ 0
          → s.last_frag ≡ false
          → (2 * length payload + 1 < suc m)
            ⊎ ((2 * length payload < suc m) × ((0 < s.fbtbc) ⊎ (s.last_frag ≡ true)))
          → 2 * length payload < m
      header_rounds ended open_ (inl lt) = omega arith
      header_rounds ended open_ (inr (lt, inl there)) = absurd (omega arith)
      header_rounds ended open_ (inr (lt, inr closed)) = cc

      part_rounds :
          (c k : ℕ)
          → length payload ≡ c + k
          → 0 < c
          → (2 * length payload + 1 < suc m)
            ⊎ ((2 * length payload < suc m) × ((0 < s.fbtbc) ⊎ (s.last_frag ≡ true)))
          → 2 * k + 1 < m
      part_rounds c k e pos (inl lt) = omega arith
      part_rounds c k e pos (inr (lt, _)) = omega arith

  -- Over a connection that keeps the contract Reader: in a record with fewer bytes left than `len`,
  -- `xdrrec_getbytes` for `len` bytes comes to an end and refuses, and then stands at the end of that
  -- record: no byte of the fragment is left, it is the last one, and what is to be read next are the bytes
  -- after the record, all of them. `n` rounds with 8 < n and 2 * length payload + 1 < n are enough, where
  -- `payload` is what is left of the record.
  pub xdrrec_getbytes_short :
      (n len : ℕ) (s : RecStrm H) (payload rest : List ℕ)
      → 8 < n
      → 2 * length payload + 1 < n
      → InRecord handle reader s payload rest
      → length payload < len
      → (s' : RecStrm H) × (xdrrec_getbytes handle n len s ≡ refused s') × AtEnd s' rest
  unfolding xdrrec_getbytes
  xdrrec_getbytes_short n len s payload rest head rounds r more =
      get_loop_short n n len s payload rest head (omega arith) (inl rounds) r more
