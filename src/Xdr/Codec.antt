-- ===== src/Xdr/Codec.antt =====
-- What a filter promises of a stream: the bytes it adds, and those it takes.
use rpc_mt.Common.{
  ℕ, ◌+◌, ◌/◌, ◌%◌, ◌^◌, ◌≤◌, ◌<◌, ◌≡◌, refl, ap, sym, ◌∙◌, ◌⊎◌, inl, inr, List, [], ◌∷◌, ◌++◌,
  arith, length, length-append,
}
use native.Mathlib.Decide.{dec_lt}
use rpc_mt.Xdr.{returned, refused, Filter, ◌>>=◌, pure, XdrOps, sign_extend}

-- What can be seen of a stream: the bytes written, the room for more, and the bytes left to read.
pub record View (S : Type 0) : Type 1 where
  pub valid : S → Type 0
  pub written : S → List ℕ
  pub room : S → ℕ
  pub rest : S → List ℕ

module _ {S A : Type 0} (view : View S) where
  -- With room for them, the filter adds exactly these bytes; with less, it refuses
  -- and the stream is still valid.
  abbrev pub Writes : Filter S A → A → List ℕ → Type 0
  Writes m a bs =
      (s : S)
      → view.valid s
      → (length bs ≤ view.room s
          → (s' : S) × (m s ≡ returned a s')
            × view.valid s'
            × (view.written s' ≡ view.written s ++ bs)
            × (view.room s' + length bs ≡ view.room s))
        × (view.room s < length bs → (s' : S) × (m s ≡ refused s') × view.valid s')

  -- Where these bytes come next, the filter takes exactly them and gives `a`; where they are cut short,
  -- it refuses and the stream is still valid.
  abbrev pub Reads : Filter S A → A → List ℕ → Type 0
  Reads m a bs =
      (s : S)
      → view.valid s
      → ((t : List ℕ)
          → view.rest s ≡ bs ++ t
          → (s' : S) × (m s ≡ returned a s') × view.valid s' × (view.rest s' ≡ t))
        × ((u : List ℕ)
            → 0 < length u
            → view.rest s ++ u ≡ bs
            → (s' : S) × (m s ≡ refused s') × view.valid s')

-- The bytes of a 32-bit word in network order, and the word of some bytes.
abbrev pub word_bytes : ℕ → List ℕ
word_bytes w = w / 2 ^ 24 % 256 ∷ w / 2 ^ 16 % 256 ∷ w / 2 ^ 8 % 256 ∷ w % 256 ∷ []

-- What the operations of a stream promise.
pub record Laws {S : Type 0} (ops : XdrOps S) (view : View S) : Type 0 where
  pub putlong_lem : (l : ℕ) → Writes view (ops.putlong l) tt (word_bytes (l % 2 ^ 32))
  pub getlong_lem :
      (w : ℕ) → w < 2 ^ 32 → Reads view ops.getlong (sign_extend 32 64 w) (word_bytes w)
  pub putint32_lem : (w : ℕ) → w < 2 ^ 32 → Writes view (ops.putint32 w) tt (word_bytes w)
  pub getint32_lem : (w : ℕ) → w < 2 ^ 32 → Reads view ops.getint32 w (word_bytes w)
  pub putbytes_lem : (bs : List ℕ) → Writes view (ops.putbytes bs) tt bs
  pub getbytes_lem : (bs : List ℕ) → Reads view (ops.getbytes (length bs)) bs bs

-- A list cut in two ways: the one cut is inside the first part, or the other is.
pub cut_twice :
    (r u bs cs : List ℕ)
    → r ++ u ≡ bs ++ cs
    → ((v : List ℕ) × (r ++ v ≡ bs) × (0 < length v))
      ⊎ ((t : List ℕ) × (r ≡ bs ++ t) × (t ++ u ≡ cs))
cut_twice r u [] cs e = inr (r, refl, e)
cut_twice [] u (b ∷ bs) cs e = inl (b ∷ bs, refl, omega arith)
cut_twice (x ∷ r) u (b ∷ bs) cs e =
    let same : x ≡ b = cc in
    let later : r ++ u ≡ bs ++ cs = cc in
    elim (cut_twice r u bs cs later) [
      | inl (v, short, more) ↦ inl (v, cc, more)
      | inr (t, long, last) ↦ inr (t, cc, last)
    ]

pub append_assoc : (xs ys zs : List ℕ) → (xs ++ ys) ++ zs ≡ xs ++ (ys ++ zs)
append_assoc [] ys zs = refl
append_assoc (x ∷ xs) ys zs = ap (λ (t : List ℕ). x ∷ t) (append_assoc xs ys zs)

pub append_nil : (xs : List ℕ) → xs ++ [] ≡ xs
append_nil [] = refl
append_nil (x ∷ xs) = ap (λ (t : List ℕ). x ∷ t) (append_nil xs)

module _ {S A B : Type 0} (view : View S) (m : Filter S A) (f : A → Filter S B) (a : A) (b : B)
    (bs cs : List ℕ) where
  pub Writes-bind : Writes view m a bs → Writes view (f a) b cs → Writes view (m >>= f) b (bs ++ cs)
  Writes-bind first second s v = (
    λ fits.
        let (s1, e1, v1, w1, r1) = (first s v).0 (omega (arith, length-append bs cs)) in
        let (s2, e2, v2, w2, r2) = (second s1 v1).0 (omega (arith, length-append bs cs)) in
        (
          s2,
          rw e1 e2,
          v2,
          w2 ∙ ap (λ (t : List ℕ). t ++ cs) w1 ∙ append_assoc (view.written s) bs cs,
          omega (arith, length-append bs cs),
        ),
    λ short. elim (dec_lt (view.room s) (length bs)) [
      | yes none ↦ let (s1, e1, v1) = (first s v).1 none in (s1, rw e1 refl, v1)
      | no some_room ↦
          let (s1, e1, v1, w1, r1) = (first s v).0 (omega arith) in
          let (s2, e2, v2) = (second s1 v1).1 (omega (arith, length-append bs cs)) in
          (s2, rw e1 e2, v2)
    ],
  )

  pub Reads-bind : Reads view m a bs → Reads view (f a) b cs → Reads view (m >>= f) b (bs ++ cs)
  Reads-bind first second s v = (
    λ t here.
        let (s1, e1, v1, r1) = (first s v).0 (cs ++ t) (here ∙ append_assoc bs cs t) in
        let (s2, e2, v2, r2) = (second s1 v1).0 t r1 in (s2, rw e1 e2, v2, r2),
    λ u some_lost here. elim (cut_twice (view.rest s) u bs cs here) [
      | inl (w, short, more) ↦ let (s1, e1, v1) = (first s v).1 w more short in (s1, rw e1 refl, v1)
      | inr (t, long, last) ↦
          let (s1, e1, v1, r1) = (first s v).0 t long in
          let (s2, e2, v2) = (second s1 v1).1 u some_lost (ap (λ (t : List ℕ). t ++ u) r1 ∙ last) in
          (s2, rw e1 e2, v2)
    ],
  )

module _ {S A : Type 0} (view : View S) where
  pub Writes-pure : (a : A) → Writes view (pure a) a []
  Writes-pure a s v = (
    λ _. (s, refl, v, sym (append_nil (view.written s)), omega arith),
    λ short. absurd (omega arith),
  )

  pub Reads-pure : (a : A) → Reads view (pure a) a []
  Reads-pure a s v = (
    λ t here. (s, refl, v, here),
    λ u more here. absurd (omega (arith, length-append (view.rest s) u, ap length here)),
  )

-- A filter followed by a conversion of its result.
module _ {S A B : Type 0} (view : View S) (m : Filter S A) (f : A → Filter S B) (a : A) (b : B)
    (bs : List ℕ) (same : f a ≡ pure b) where
  pub Writes-map : Writes view m a bs → Writes view (m >>= f) b bs
  Writes-map first =
      rw (append_nil bs) at (Writes-bind view m f a b bs [] first (rw same (Writes-pure view b)))

  pub Reads-map : Reads view m a bs → Reads view (m >>= f) b bs
  Reads-map first =
      rw (append_nil bs) at (Reads-bind view m f a b bs [] first (rw same (Reads-pure view b)))
