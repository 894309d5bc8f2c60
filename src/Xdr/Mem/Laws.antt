-- ===== src/Xdr/Mem/Laws.antt =====
-- src/librpc/xdr_mem.c keeps what a stream promises.
use rpc_mt.Common.{
  ℕ, ◌+◌, ◌-◌, ◌%◌, ◌^◌, ◌≤◌, ◌<◌, ◌≡◌, refl, ap, sym, ◌∙◌, some, List, ◌++◌, arith, length, take,
  drop, ltb, if◌then◌else◌, length-append, length-take, length-drop, drop-take-append,
  take-length-append, le→leb, lt→ltb, le→ltb,
}
use rpc_mt.Xdr.{Filter, XdrOps, returned, refused, sign_extend}
use rpc_mt.Xdr.Codec.{View, Writes, Reads, Laws, word_bytes}
use rpc_mt.Xdr.Mem.{
  Mem, word_of, load, splice, advance, take_bytes, as_word, put_bytes, xdrmem_ops, xdrmem_getlong,
  xdrmem_putlong, xdrmem_getbytes, xdrmem_putbytes, xdrmem_getint32, xdrmem_putint32,
}
use rpc_mt.Xdr.Mem.Slices.{
  take-take, drop-take, drop-drop, length-splice, take-splice, word_of-word_bytes,
}

-- The buffer is at least as long as the stream may reach.
abbrev pub IsValid : Mem → Type 0
IsValid s = s.pos + s.handy ≤ length s.base

abbrev pub view : View Mem
view = record {
  valid = IsValid;
  written = λ s. take s.pos s.base;
  room = λ s. s.handy;
  rest = λ s. take s.handy (drop s.pos s.base);
}

-- What is left to read is as long as `x_handy`.
length-rest : (s : Mem) → IsValid s → length (view.rest s) ≡ s.handy
length-rest s v = omega (arith, length-take s.handy (drop s.pos s.base), length-drop s.pos s.base)

module _ (s : Mem) (v : IsValid s) where
  put_bytes_fits :
      (bs : List ℕ)
      → length bs ≤ s.handy
      → (s' : Mem) × (put_bytes bs s ≡ returned tt s')
        × IsValid s'
        × (view.written s' ≡ view.written s ++ bs)
        × (s'.handy + length bs ≡ s.handy)
  put_bytes_fits bs h = (
    advance (length bs) (record s { base = splice s.base s.pos bs }),
    rw (le→leb (s.pos + length bs) (length s.base) (omega arith)) refl,
    omega (arith, length-splice s.base s.pos bs (omega arith)),
    take-splice s.base s.pos bs (omega arith),
    omega arith,
  )

  loaded : (bs t : List ℕ) → view.rest s ≡ bs ++ t → load s.base s.pos (length bs) ≡ some bs
  loaded bs t here =
      let fits : length bs ≤ s.handy =
        omega (arith, length-rest s v, ap length here, length-append bs t) in
      rw (le→leb (s.pos + length bs) (length s.base) (omega arith)) (
        ap some (
          sym (take-take (length bs) s.handy (drop s.pos s.base) fits)
          ∙ ap (take (length bs)) here
          ∙ take-length-append bs t))

  left_over : (bs t : List ℕ) → view.rest s ≡ bs ++ t → view.rest (advance (length bs) s) ≡ t
  left_over bs t here =
      ap (take (s.handy - length bs)) (sym (drop-drop (length bs) s.pos s.base))
      ∙ sym (drop-take (length bs) s.handy (drop s.pos s.base))
      ∙ ap (drop (length bs)) here
      ∙ drop-take-append bs t

  long_enough : (bs t : List ℕ) → view.rest s ≡ bs ++ t → length bs ≤ s.handy
  long_enough bs t here = omega (arith, length-rest s v, ap length here, length-append bs t)

  cut_short : (bs u : List ℕ) → 0 < length u → view.rest s ++ u ≡ bs → s.handy < length bs
  cut_short bs u more here =
      omega (arith, length-rest s v, ap length here, length-append (view.rest s) u)

putbytes_Writes : (bs : List ℕ) → Writes view (xdrmem_putbytes bs) tt bs
unfolding xdrmem_putbytes
putbytes_Writes bs s v = (
  λ fits.
      let (s', e, v', w, r) = put_bytes_fits s v bs fits in
      (s', rw (le→ltb s.handy (length bs) fits) e, v', w, r),
  λ short. (s, rw (lt→ltb s.handy (length bs) short) refl, v),
)

getbytes_Reads : (bs : List ℕ) → Reads view (xdrmem_getbytes (length bs)) bs bs
unfolding xdrmem_getbytes
getbytes_Reads bs s v = (
  λ t here. (
    advance (length bs) s,
    rw (le→ltb s.handy (length bs) (long_enough s v bs t here)) (rw (loaded s v bs t here) refl),
    omega (arith, long_enough s v bs t here),
    left_over s v bs t here,
  ),
  λ u more here. (s, rw (lt→ltb s.handy (length bs) (cut_short s v bs u more here)) refl, v),
)

putword_Writes :
    (w : ℕ)
    → Writes view
        (λ s. if ltb s.handy 4 then refused s else put_bytes (word_bytes w) s)
        tt
        (word_bytes w)
putword_Writes w s v = (
  λ fits.
      let (s', e, v', w', r) = put_bytes_fits s v (word_bytes w) fits in
      (s', rw (le→ltb s.handy 4 fits) e, v', w', r),
  λ short. (s, rw (lt→ltb s.handy 4 short) refl, v),
)

getword_Reads :
    (f : ℕ → ℕ) (w : ℕ)
    → w < 2 ^ 32
    → Reads view
        (λ s. if ltb s.handy 4 then refused s else as_word f (take_bytes 4 s (load s.base s.pos 4)))
        (f w)
        (word_bytes w)
getword_Reads f w h s v = (
  λ t here. (
    advance 4 s,
    rw (le→ltb s.handy 4 (long_enough s v (word_bytes w) t here)) (
        rw (loaded s v (word_bytes w) t here)
          (ap (λ (x : ℕ). returned (f x) (advance 4 s)) (word_of-word_bytes w h))),
    omega (arith, long_enough s v (word_bytes w) t here),
    left_over s v (word_bytes w) t here,
  ),
  λ u more here. (s, rw (lt→ltb s.handy 4 (cut_short s v (word_bytes w) u more here)) refl, v),
)

-- A step over `n` bytes of the buffer: with fewer left, it refuses and changes nothing; else it succeeds,
-- with the position and what is left moved by `n`, in a memory of the same length.
abbrev pub Guarded : {A : Type 0} → (n : ℕ) → Filter Mem A → Type 0
Guarded {A} n m =
    (s : Mem)
    → IsValid s
    → (s.handy < n → m s ≡ refused s)
      × (n ≤ s.handy
          → (a : A) × (s' : Mem) × (m s ≡ returned a s')
            × IsValid s'
            × (s'.pos ≡ s.pos + n)
            × (s'.handy + n ≡ s.handy)
            × (length s'.base ≡ length s.base))

-- Every operation is such a step, of four bytes or as many as it is given.
pub record Guards (ops : XdrOps Mem) : Type 0 where
  pub putlong_lem : (l : ℕ) → Guarded 4 (ops.putlong l)
  pub getlong_lem : Guarded 4 ops.getlong
  pub putint32_lem : (w : ℕ) → Guarded 4 (ops.putint32 w)
  pub getint32_lem : Guarded 4 ops.getint32
  pub putbytes_lem : (bs : List ℕ) → Guarded (length bs) (ops.putbytes bs)
  pub getbytes_lem : (len : ℕ) → Guarded len (ops.getbytes len)

put_Guarded :
    (n : ℕ) (bs : List ℕ)
    → length bs ≡ n
    → Guarded n (λ s. if ltb s.handy n then refused s else put_bytes bs s)
put_Guarded n bs count s v = (
  λ short. rw (lt→ltb s.handy n short) refl,
  λ fits. (
    tt,
    advance (length bs) (record s { base = splice s.base s.pos bs }),
    rw (le→ltb s.handy n fits) (rw (le→leb (s.pos + length bs) (length s.base) (omega arith)) refl),
    omega (arith, length-splice s.base s.pos bs (omega arith)),
    omega arith,
    omega arith,
    length-splice s.base s.pos bs (omega arith),
  ),
)

loads :
    (s : Mem) (n : ℕ)
    → IsValid s
    → n ≤ s.handy
    → load s.base s.pos n ≡ some (take n (drop s.pos s.base))
loads s n v fits = rw (le→leb (s.pos + n) (length s.base) (omega arith)) refl

get_Guarded :
    (n : ℕ)
    → Guarded n (λ s. if ltb s.handy n then refused s else take_bytes n s (load s.base s.pos n))
get_Guarded n s v = (
  λ short. rw (lt→ltb s.handy n short) refl,
  λ fits. (
    take n (drop s.pos s.base),
    advance n s,
    rw (le→ltb s.handy n fits) (rw (loads s n v fits) refl),
    omega arith,
    refl,
    omega arith,
    refl,
  ),
)

getword_Guarded :
    (f : ℕ → ℕ)
    → Guarded 4
        (λ s. if ltb s.handy 4 then refused s else as_word f (take_bytes 4 s (load s.base s.pos 4)))
getword_Guarded f s v = (
  λ short. rw (lt→ltb s.handy 4 short) refl,
  λ fits. (
    f (word_of (take 4 (drop s.pos s.base)) 0),
    advance 4 s,
    rw (le→ltb s.handy 4 fits) (rw (loads s 4 v fits) refl),
    omega arith,
    refl,
    omega arith,
    refl,
  ),
)

pub xdrmem_ops-Laws : Laws xdrmem_ops view × Guards xdrmem_ops
unfolding xdrmem_putlong xdrmem_getlong xdrmem_putint32 xdrmem_getint32 xdrmem_putbytes
    xdrmem_getbytes
xdrmem_ops-Laws = (
  record {
    putlong_lem = λ l. putword_Writes (l % 2 ^ 32);
    getlong_lem = λ w. getword_Reads (sign_extend 32 64) w;
    putint32_lem = λ w h. putword_Writes w;
    getint32_lem = λ w. getword_Reads (λ x. x) w;
    putbytes_lem = putbytes_Writes;
    getbytes_lem = getbytes_Reads;
  },
  record {
    putlong_lem = λ l. put_Guarded 4 (word_bytes (l % 2 ^ 32)) refl;
    getlong_lem = getword_Guarded (sign_extend 32 64);
    putint32_lem = λ w. put_Guarded 4 (word_bytes w) refl;
    getint32_lem = getword_Guarded (λ x. x);
    putbytes_lem = λ bs. put_Guarded (length bs) bs refl;
    getbytes_lem = get_Guarded;
  },
)
