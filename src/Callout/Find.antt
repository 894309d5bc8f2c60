-- ===== src/Callout/Find.antt =====
-- What `svc_find` finds.
use rpc_mt.Common.{
  ℕ, ◌≡◌, refl, ap, ◌∙◌, Bool, true, false, ◌||◌, Option, none, some, List, [], ◌∷◌, ◌++◌, arith,
  if◌then◌else◌, Bool-cases, inl, inr,
}
use rpc_mt.Callout.{Callout, is_for, svc_find}

-- Some callout of the list is for the program and version.
abbrev pub serves : ℕ → ℕ → List Callout → Bool
serves prog vers [] = false
serves prog vers (s ∷ l) = is_for prog vers s || serves prog vers l

-- The dispatch function that the list gives a program and version: the table that a list stands for.
abbrev pub dispatch_of : List Callout → ℕ → ℕ → Option ℕ
dispatch_of [] prog vers = none
dispatch_of (s ∷ l) prog vers =
    if is_for prog vers s then some s.dispatch else dispatch_of l prog vers

-- No two callouts are for one program and version.
abbrev pub Distinct : List Callout → Type 0
Distinct [] = Unit
Distinct (s ∷ l) = (serves s.prog s.vers l ≡ false) × Distinct l

-- The two ways for a search to end: at the first callout for the program and version, or past a list
-- that has none.
pub data Search (prog vers : ℕ) (l : List Callout) : Type 0 where
  hit :
      (before : List Callout) (s : Callout) (after : List Callout)
      → svc_find prog vers l ≡ (before, s ∷ after)
      → before ++ (s ∷ after) ≡ l
      → serves prog vers before ≡ false
      → is_for prog vers s ≡ true
      → Search prog vers l
  miss : svc_find prog vers l ≡ (l, []) → serves prog vers l ≡ false → Search prog vers l

later :
    (prog vers : ℕ) (s : Callout) (l : List Callout)
    → is_for prog vers s ≡ false
    → svc_find prog vers (s ∷ l) ≡ (s ∷ (svc_find prog vers l).0, (svc_find prog vers l).1)
unfolding svc_find
later prog vers s l other = rw other refl

here :
    (prog vers : ℕ) (s : Callout) (l : List Callout)
    → is_for prog vers s ≡ true
    → svc_find prog vers (s ∷ l) ≡ ([], s ∷ l)
unfolding svc_find
here prog vers s l same = rw same refl

pub svc_find-Search : (prog vers : ℕ) (l : List Callout) → Search prog vers l
svc_find-Search prog vers [] = miss nothing refl
  where
    nothing : svc_find prog vers [] ≡ ([], [])
    nothing = unfold svc_find in refl
svc_find-Search prog vers (t ∷ l) = elim (Bool-cases (is_for prog vers t)) [
  | inl same ↦ hit [] t l (here prog vers t l same) refl refl same
  | inr other ↦ elim (svc_find-Search prog vers l) [
    | hit before s after e cut none_before it ↦
        hit (t ∷ before) s after
          (later prog vers t l other ∙ ap (λ (p : List Callout × List Callout). (t ∷ p.0, p.1)) e)
          (ap (λ (m : List Callout). t ∷ m) cut) (rw other none_before) it
    | miss e nowhere ↦
        miss
          (later prog vers t l other ∙ ap (λ (p : List Callout × List Callout). (t ∷ p.0, p.1)) e)
          (rw other nowhere)
  ]
]

-- A cut list serves what its parts serve, and its table asks the first part first.
pub serves-append :
    (prog vers : ℕ) (l m : List Callout)
    → serves prog vers (l ++ m) ≡ (serves prog vers l || serves prog vers m)
serves-append prog vers [] m = refl
serves-append prog vers (s ∷ l) m = ground (arith, serves-append prog vers l m)

pub dispatch_of-append :
    (l m : List Callout) (prog vers : ℕ)
    → dispatch_of (l ++ m) prog vers
      ≡ (if serves prog vers l then dispatch_of l prog vers else dispatch_of m prog vers)
dispatch_of-append [] m prog vers = refl
dispatch_of-append (s ∷ l) m prog vers = ground (arith, dispatch_of-append l m prog vers)

pub dispatch_of-none :
    (l : List Callout) (prog vers : ℕ) → serves prog vers l ≡ false → dispatch_of l prog vers ≡ none
dispatch_of-none [] prog vers h = refl
dispatch_of-none (s ∷ l) prog vers h = ground (arith, h, dispatch_of-none l prog vers)
