-- ===== src/Xdr/Rec/Input.antt =====
-- src/librpc/xdr_rec.c, the input buffer: what is left of the connection.
use rpc_mt.Common.{
  ℕ, zero, suc, ◌+◌, ◌-◌, ◌*◌, ◌%◌, ◌≤◌, ◌<◌, ◌≡◌, refl, ap, sym, ◌∙◌, ◌⊎◌, inl, inr, true, false,
  none, some, List, [], ◌++◌, arith, length, take, drop, ◌==◌, eq_nil_of_length, length-append,
  length-take, length-drop, take-length-append, drop-take-append, take-append-drop, Bool-cases,
  ==→eq, ==→ne, le→leb,
}
use rpc_mt.Xdr.{returned, and_then}
use rpc_mt.Xdr.Codec.{append_assoc}
use rpc_mt.Xdr.Mem.{load, splice}
use rpc_mt.Xdr.Mem.Slices.{length-splice, take-take, drop-take, drop-drop}
use rpc_mt.Xdr.Rec.{
  Handle, RecStrm, fill_input_buf, filled, move_in, smaller, copied, get_input_bytes,
}

-- What is asked of `readit`: it gives at least one of the bytes that are to come and no more than it was
-- asked for, and -1 at the end.
pub record Reader {H : Type 0} (handle : Handle H) : Type 0 where
  pub coming : H → List ℕ
  pub gives :
      (len : ℕ) (h : H)
      → 0 < len
      → 0 < length (coming h)
      → (bs : List ℕ) × (h' : H) × (handle.readit len h ≡ (some bs, h'))
        × (0 < length bs)
        × (length bs ≤ len)
        × (coming h ≡ bs ++ coming h')
  pub ends : (len : ℕ) (h : H) → coming h ≡ [] → (h' : H) × (handle.readit len h ≡ (none, h'))

drop-splice :
    (base : List ℕ) (pos : ℕ) (bs : List ℕ)
    → pos ≤ length base
    → drop pos (splice base pos bs) ≡ bs ++ drop (pos + length bs) base
drop-splice base pos bs h =
    let e : length (take pos base) ≡ pos = omega (arith, length-take pos base) in
    ap (λ (k : ℕ). drop k (splice base pos bs)) (sym e)
    ∙ drop-take-append (take pos base) (bs ++ drop (pos + length bs) base)

module _ {H : Type 0} where
  -- `readit` has put these bytes at `i`.
  abbrev refilled : ℕ → List ℕ → H → RecStrm H → RecStrm H
  refilled i bs h s = record s {
    tcp_handle = h;
    buf = splice s.buf i bs;
    in_finger = i;
    in_boundry = i + length bs;
  }

  -- The places lie in the buffer, which holds a word.
  pub record IsValid (s : RecStrm H) : Type 0 where
    pub ordered : s.in_finger ≤ s.in_boundry
    pub inside : s.in_boundry ≤ length s.buf
    pub whole : s.in_size ≡ length s.buf
    pub holds : 4 ≤ s.in_size

  abbrev pub avail : RecStrm H → List ℕ
  avail s = take (s.in_boundry - s.in_finger) (drop s.in_finger s.buf)

  length-avail : (s : RecStrm H) → IsValid s → length (avail s) ≡ s.in_boundry - s.in_finger
  length-avail s v = omega (
    arith,
    v.ordered,
    v.inside,
    length-take (s.in_boundry - s.in_finger) (drop s.in_finger s.buf),
    length-drop s.in_finger s.buf,
  )

module _ {H : Type 0} (handle : Handle H) (reader : Reader handle) where
  -- All that is left to read of the connection.
  abbrev pub wire : RecStrm H → List ℕ
  wire s = avail s ++ reader.coming s.tcp_handle

  -- From `s` to `s'` these bytes were taken off the connection, and the fragment's state is as before.
  pub record Took (s : RecStrm H) (bs : List ℕ) (s' : RecStrm H) : Type 0 where
    pub taken : wire s ≡ bs ++ wire s'
    pub valid : IsValid s'
    pub fbtbc : s'.fbtbc ≡ s.fbtbc
    pub last_frag : s'.last_frag ≡ s.last_frag

  refill_Took :
      (s : RecStrm H) (i : ℕ) (bs : List ℕ) (h : H)
      → IsValid s
      → avail s ≡ []
      → reader.coming s.tcp_handle ≡ bs ++ reader.coming h
      → i + length bs ≤ length s.buf
      → Took s [] (refilled i bs h s)
  refill_Took s i bs h v nothing rest room =
      let s' = refilled i bs h s in
      let count : i + length bs - i ≡ length bs = omega arith in
      let now : avail s' ≡ bs =
        ap (λ (k : ℕ). take k (drop i (splice s.buf i bs))) count
        ∙ ap (take (length bs)) (drop-splice s.buf i bs (omega arith))
        ∙ take-length-append bs (drop (i + length bs) s.buf) in
      record {
        taken =
            ap (λ (t : List ℕ). t ++ reader.coming s.tcp_handle) nothing
            ∙ rest
            ∙ ap (λ (t : List ℕ). t ++ reader.coming h) (sym now);
        valid = record {
          ordered = omega arith;
          inside = omega (arith, length-splice s.buf i bs room);
          whole = omega (arith, v.whole, length-splice s.buf i bs room);
          holds = v.holds;
        };
        fbtbc = refl;
        last_frag = refl;
      }

  -- With nothing in the buffer and more to come, the buffer is filled; with nothing to come it is not.
  pub fill_lem :
      (s : RecStrm H)
      → IsValid s
      → s.in_boundry - s.in_finger ≡ 0
      → 0 < length (wire s)
      → (s' : RecStrm H) × (fill_input_buf handle s ≡ returned tt s')
        × Took s [] s'
        × (s'.in_finger < s'.in_boundry)
  unfolding fill_input_buf
  fill_lem s v empty more =
      let none_there : length (avail s) ≡ 0 = omega (arith, length-avail s v) in
      let (bs, h', got, some_got, fits, rest) =
        reader.gives (s.in_size - s.in_boundry % 4) s.tcp_handle (omega (arith, v.holds))
          (omega (arith, length-append (avail s) (reader.coming s.tcp_handle))) in
      let room : s.in_boundry % 4 + length bs ≤ length s.buf = omega (arith, v.whole, v.holds) in
      (
        refilled (s.in_boundry % 4) bs h' s,
        rw (got, le→leb _ _ room) refl,
        refill_Took s (s.in_boundry % 4) bs h' v (eq_nil_of_length (avail s) none_there) rest room,
        omega (arith, some_got),
      )

  -- Bytes of the buffer.
  pub copy_lem :
      (s : RecStrm H) (c : ℕ)
      → IsValid s
      → c ≤ s.in_boundry - s.in_finger
      → (bs : List ℕ) × (copied handle c s (load s.buf s.in_finger c)
          ≡ returned bs (move_in handle c s))
        × (length bs ≡ c)
        × Took s bs (move_in handle c s)
  copy_lem s c v le =
      let room : s.in_finger + c ≤ length s.buf = omega (arith, v.ordered, v.inside) in
      let bs : List ℕ = take c (drop s.in_finger s.buf) in
      let first : take c (avail s) ≡ bs =
        take-take c (s.in_boundry - s.in_finger) (drop s.in_finger s.buf) le in
      let count : s.in_boundry - s.in_finger - c ≡ s.in_boundry - (s.in_finger + c) = omega arith in
      let second : drop c (avail s) ≡ avail (move_in handle c s) =
        drop-take c (s.in_boundry - s.in_finger) (drop s.in_finger s.buf)
        ∙ ap (take (s.in_boundry - s.in_finger - c)) (drop-drop c s.in_finger s.buf)
        ∙ ap (λ (k : ℕ). take k (drop (s.in_finger + c) s.buf)) count in
      (
        bs,
        rw (le→leb _ _ room) refl,
        omega (
          arith,
          length-take c (drop s.in_finger s.buf),
          length-drop s.in_finger s.buf,
          v.ordered,
          v.inside,
        ),
        record {
          taken =
              ap (λ (t : List ℕ). t ++ reader.coming s.tcp_handle)
                (sym (take-append-drop c (avail s))
                  ∙ ap (λ (t : List ℕ). t ++ drop c (avail s)) first
                  ∙ ap (λ (t : List ℕ). bs ++ t) second)
              ∙ append_assoc bs (avail (move_in handle c s)) (reader.coming s.tcp_handle);
          valid = record {
            ordered = omega arith;
            inside = v.inside;
            whole = v.whole;
            holds = v.holds;
          };
          fbtbc = refl;
          last_frag = refl;
        },
      )

  pub Took-append :
      (s t u : RecStrm H) (bs cs : List ℕ) → Took s bs t → Took t cs u → Took s (bs ++ cs) u
  Took-append s t u bs cs first second = record {
    taken =
        first.taken ∙ ap (λ (r : List ℕ). bs ++ r) second.taken ∙ sym (append_assoc bs cs (wire u));
    valid = second.valid;
    fbtbc = second.fbtbc ∙ first.fbtbc;
    last_frag = second.last_frag ∙ first.last_frag;
  }

  pub Took-nil : (s : RecStrm H) → IsValid s → Took s [] s
  Took-nil s v = record { taken = refl; valid = v; fbtbc = refl; last_frag = refl }

  get_fill :
      (n len : ℕ) (s : RecStrm H)
      → (len == 0) ≡ false
      → (s.in_boundry - s.in_finger == 0) ≡ true
      → get_input_bytes handle (suc n) len s
        ≡ and_then (fill_input_buf handle s) (λ _ t. get_input_bytes handle n len t)
  unfolding get_input_bytes
  get_fill n len s on empty = rw (on, empty, get_input_bytes) refl

  get_copy :
      (n len : ℕ) (s : RecStrm H)
      → (len == 0) ≡ false
      → (s.in_boundry - s.in_finger == 0) ≡ false
      → get_input_bytes handle (suc n) len s ≡ (
          let c = smaller handle len (s.in_boundry - s.in_finger) in
          and_then (copied handle c s (load s.buf s.in_finger c)) (λ bs t.
            and_then (get_input_bytes handle n (len - c) t) (λ cs u. returned (bs ++ cs) u)))
  unfolding get_input_bytes
  get_copy n len s on more = rw (on, more, get_input_bytes) refl

  pub fill_rounds :
      (s : RecStrm H) (n len : ℕ)
      → (2 * len < suc n) ⊎ ((2 * len ≤ suc n) × (0 < len) × (s.in_finger < s.in_boundry))
      → (s.in_boundry - s.in_finger == 0) ≡ true
      → 2 * len ≤ n
  fill_rounds s n len (inl lt) empty = omega arith
  fill_rounds s n len (inr (_, _, there)) empty = absurd (ground (arith, there, empty))

  pub copy_rounds :
      (s : RecStrm H) (n len c : ℕ)
      → 0 < c
      → c ≤ len
      → (2 * len < suc n) ⊎ ((2 * len ≤ suc n) × (0 < len) × (s.in_finger < s.in_boundry))
      → 2 * (len - c) < n
  copy_rounds s n len c some_c le (inl lt) = omega arith
  copy_rounds s n len c some_c le (inr (lt, _, _)) = omega arith

  -- The loop: enough rounds, and enough that comes.
  pub get_input_bytes_lem :
      (n len : ℕ) (s : RecStrm H)
      → IsValid s
      → (2 * len < n) ⊎ ((2 * len ≤ n) × (0 < len) × (s.in_finger < s.in_boundry))
      → len ≤ length (wire s)
      → (bs : List ℕ) × (s' : RecStrm H) × (get_input_bytes handle n len s ≡ returned bs s')
        × (length bs ≡ len)
        × Took s bs s'
  unfolding get_input_bytes
  get_input_bytes_lem zero len s v rounds more = absurd (ground (arith, rounds))
  get_input_bytes_lem (suc n) len s v rounds more = elim (Bool-cases (len == 0)) [
    | inl end ↦
        let none_asked : 0 ≡ len = sym (==→eq _ _ end) in
        ([], s, rw (end, get_input_bytes) refl, none_asked, Took-nil s v)
    | inr on ↦ elim (Bool-cases (s.in_boundry - s.in_finger == 0)) [
      | inl empty ↦
          let asked = ==→ne _ _ on in
          let (t, filled, took, there) = fill_lem s v (==→eq _ _ empty) (omega arith) in
          let enough : len ≤ length (wire t) = omega (arith, ap length took.taken) in
          let (bs, u, got, count, took') =
            get_input_bytes_lem n len t took.valid
              (inr (fill_rounds s n len rounds empty, omega arith, there)) enough in
          (
            bs,
            u,
            get_fill n len s on empty ∙ rw filled got,
            count,
            Took-append s t u [] bs took took',
          )
      | inr some_there ↦
          let c : ℕ = smaller handle len (s.in_boundry - s.in_finger) in
          let asked = ==→ne _ _ on in
          let full = ==→ne _ _ some_there in
          let some_c : 0 < c = ground (arith, asked, full) in
          let le : c ≤ len = ground arith in
          let le' : c ≤ s.in_boundry - s.in_finger = ground arith in
          let (bs, done, count, took) = copy_lem s c v le' in
          let left : len - c ≤ length (wire (move_in handle c s)) =
            omega (arith, ap length took.taken, length-append bs (wire (move_in handle c s))) in
          let (cs, u, got, count', took') =
            get_input_bytes_lem n (len - c) (move_in handle c s) took.valid
              (inl (copy_rounds s n len c some_c le rounds)) left in
          (
            bs ++ cs,
            u,
            get_copy n len s on some_there ∙ rw done (rw got refl),
            omega (arith, length-append bs cs),
            Took-append s (move_in handle c s) u bs cs took took',
          )
    ]
  ]
