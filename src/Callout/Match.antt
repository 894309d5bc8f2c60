-- ===== src/Callout/Match.antt =====
-- src/librpc/svc.c, `request_match_prog_version`: which answer a request gets.
use rpc_mt.Common.{
  ℕ, ◌≤◌, ◌≡◌, refl, ap, sym, ◌∙◌, ◌⊎◌, inl, inr, Bool, true, false, ◌||◌, List, [], ◌∷◌, ◌++◌,
  arith, if◌then◌else◌, ◌==◌, ltb, Bool-cases, ==-self,
}
use rpc_mt.Callout.{
  Callout, Answer, dispatch_to, no_prog, prog_vers, max_vers, is_for, match_loop,
  request_match_prog_version,
}
use rpc_mt.Callout.Find.{serves}

-- The versions are of `rpcvers_t`.
abbrev pub IsSmall : List Callout → Type 0
IsSmall [] = Unit
IsSmall (s ∷ l) = (s.vers ≤ max_vers) × IsSmall l

-- The answers that fit a list: the first callout for the program and version; that no version of the
-- program is served; or that this one is not, with the lowest and the highest that are.
pub data Fits (prog vers : ℕ) (l : List Callout) : Answer → Type 0 where
  served :
      (before : List Callout) (s : Callout) (after : List Callout)
      → before ++ (s ∷ after) ≡ l
      → serves prog vers before ≡ false
      → is_for prog vers s ≡ true
      → Fits prog vers l (dispatch_to s)
  unknown : ((v : ℕ) → serves prog v l ≡ false) → Fits prog vers l no_prog
  mismatch :
      (low high : ℕ)
      → serves prog vers l ≡ false
      → serves prog low l ≡ true
      → serves prog high l ≡ true
      → ((v : ℕ) → serves prog v l ≡ true → (low ≤ v) × (v ≤ high))
      → Fits prog vers l (prog_vers low high)

-- How the loop ends from any state of its variables.
data Ends (prog vers : ℕ) (l : List Callout) (found : Bool) (low high : ℕ) : Answer → Type 0 where
  at_callout :
      (before : List Callout) (s : Callout) (after : List Callout)
      → before ++ (s ∷ after) ≡ l
      → serves prog vers before ≡ false
      → is_for prog vers s ≡ true
      → Ends prog vers l found low high (dispatch_to s)
  at_end :
      found ≡ false → ((v : ℕ) → serves prog v l ≡ false) → Ends prog vers l found low high no_prog
  bounds :
      (low' high' : ℕ)
      → serves prog vers l ≡ false
      → low' ≤ low
      → high ≤ high'
      → ((v : ℕ) → serves prog v l ≡ true → (low' ≤ v) × (v ≤ high'))
      → ((low' ≡ low) ⊎ (serves prog low' l ≡ true))
      → ((high' ≡ high) ⊎ (serves prog high' l ≡ true))
      → (found ≡ true) ⊎ ((v : ℕ) × (serves prog v l ≡ true))
      → Ends prog vers l found low high (prog_vers low' high')

-- A callout of another program changes nothing.
skip :
    (prog vers : ℕ) (s : Callout) (l : List Callout) (found : Bool) (low high : ℕ) {a : Answer}
    → (s.prog == prog) ≡ false
    → Ends prog vers l found low high a
    → Ends prog vers (s ∷ l) found low high a
skip prog vers s l found low high other (at_callout before t after cut nowhere it) =
    at_callout (s ∷ before) t after (ap (λ (m : List Callout). s ∷ m) cut)
      (rw (other, nowhere) refl) it
skip prog vers s l found low high other (at_end e nowhere) =
    at_end e (λ v. rw (other, nowhere v) refl)
skip prog vers s l found low high other
      (bounds low' high' nowhere le ge all at_low at_high some_prog) =
    bounds low' high' (rw (other, nowhere) refl) le ge (λ v. rw other (all v)) (rw other at_low)
      (rw other at_high) (rw other some_prog)

own : (v : ℕ) (s : Callout) → v ≡ s.vers → (s.vers == v) ≡ true
own v s e = rw e (==-self s.vers)

or_true : (b : Bool) {c : Bool} → c ≡ true → (b || c) ≡ true
or_true true e = refl
or_true false e = e

-- One of another version widens the bounds.
widen :
    (prog vers : ℕ) (s : Callout) (l : List Callout) (found : Bool) (low high : ℕ) {a : Answer}
    → (s.prog == prog) ≡ true
    → (s.vers == vers) ≡ false
    → Ends prog vers l true
        (if ltb s.vers low then s.vers else low)
        (if ltb high s.vers then s.vers else high)
        a
    → Ends prog vers (s ∷ l) found low high a
widen prog vers s l found low high same other (at_callout before t after cut nowhere it) =
    at_callout (s ∷ before) t after (ap (λ (m : List Callout). s ∷ m) cut)
      (rw (same, other, nowhere) refl) it
widen prog vers s l found low high same other (at_end e nowhere) = absurd (cc)
widen prog vers s l found low high same other
      (bounds low' high' nowhere le ge all at_low at_high some_prog) =
    bounds low' high' (rw (same, other, nowhere) refl) (ground arith) (ground arith)
      (λ v e. elim (Bool-cases (s.vers == v)) [
        | inl it ↦ ground (arith, it, le, ge)
        | inr no_match ↦ all v (rw (same, no_match) at e)
      ])
      (elim at_low [
        | inl e ↦ elim (Bool-cases (ltb s.vers low)) [
          | inl lower ↦ inr (rw (same, own low' s (rw lower at e)) refl)
          | inr not_lower ↦ inl (rw not_lower at e)
        ]
        | inr e ↦ inr (or_true (is_for prog low' s) e)
      ])
      (elim at_high [
        | inl e ↦ elim (Bool-cases (ltb high s.vers)) [
          | inl higher ↦ inr (rw (same, own high' s (rw higher at e)) refl)
          | inr not_higher ↦ inl (rw not_higher at e)
        ]
        | inr e ↦ inr (or_true (is_for prog high' s) e)
      ])
      (inr (s.vers, rw (same, ==-self s.vers) refl))

match_loop-Ends :
    (prog vers : ℕ) (l : List Callout) (found : Bool) (low high : ℕ)
    → Ends prog vers l found low high (match_loop prog vers l found low high)
unfolding match_loop
match_loop-Ends prog vers [] true low high =
    bounds low high refl (omega arith) (omega arith) (λ v h. cc) (inl refl) (inl refl) (inl refl)
match_loop-Ends prog vers [] false low high = at_end refl (λ v. refl)
match_loop-Ends prog vers (s ∷ l) found low high = elim (Bool-cases (s.prog == prog)) [
  | inr other ↦
      rw other
        (skip prog vers s l found low high other (match_loop-Ends prog vers l found low high))
  | inl same ↦ elim (Bool-cases (s.vers == vers)) [
    | inl it ↦ rw (same, it) (at_callout [] s l refl refl (rw (same, it) refl))
    | inr other ↦
        rw (same, other)
          (widen prog vers s l found low high same other (
            match_loop-Ends prog vers l true (if ltb s.vers low then s.vers else low)
              (if ltb high s.vers then s.vers else high)))
  ]
]

served_small : (prog v : ℕ) (l : List Callout) → IsSmall l → serves prog v l ≡ true → v ≤ max_vers
served_small prog v [] small e = absurd (cc)
served_small prog v (s ∷ l) small e = elim (Bool-cases (is_for prog v s)) [
  | inl it ↦ ground (arith, it, small.0)
  | inr other ↦ served_small prog v l small.1 (rw other at e)
]

-- A bound is attained, or is where it started, and then a served version meets it.
attained :
    (prog : ℕ) (l : List Callout) (b start v : ℕ)
    → ((b ≡ start) ⊎ (serves prog b l ≡ true))
    → serves prog v l ≡ true
    → (b ≡ start → v ≡ b)
    → serves prog b l ≡ true
attained prog l b start v (inl e) h meets = ap (λ t. serves prog t l) (sym (meets e)) ∙ h
attained prog l b start v (inr e) h meets = e

fit :
    (prog vers : ℕ) (l : List Callout) {a : Answer}
    → IsSmall l
    → Ends prog vers l false max_vers 0 a
    → Fits prog vers l a
fit prog vers l small (at_callout before s after cut nowhere it) =
    served before s after cut nowhere it
fit prog vers l small (at_end e nowhere) = unknown nowhere
fit prog vers l small (bounds low high nowhere le ge all at_low at_high (inl e)) = absurd (cc)
fit prog vers l small (bounds low high nowhere le ge all at_low at_high (inr (v, e))) =
    mismatch low high nowhere
      (attained prog l low max_vers v at_low e
        (λ t. omega (arith, (all v e).0, served_small prog v l small e)))
      (attained prog l high 0 v at_high e (λ t. omega (arith, (all v e).1))) all

-- For any list of services, with versions of `rpcvers_t`, the answer to a request is one that fits:
-- dispatch to the first callout for the program and version; PROG_UNAVAIL, and no version of the
-- program is served; or PROG_MISMATCH with the lowest and the highest version that are served, and
-- this one is not.
pub request_match_prog_version-Fits :
    (prog vers : ℕ) (l : List Callout)
    → IsSmall l
    → Fits prog vers l (request_match_prog_version prog vers l)
unfolding request_match_prog_version
request_match_prog_version-Fits prog vers l small =
    fit prog vers l small (match_loop-Ends prog vers l false max_vers 0)
