-- ===== src/Callout/Register.antt =====
-- What `svc_register` does to the table, and what its result says.
use rpc_mt.Common.{
  ℕ, ◌≡◌, refl, ap, sym, ◌∙◌, Bool, true, false, ◌&&◌, Option, some, List, [], ◌∷◌, ◌++◌, arith,
  if◌then◌else◌, ◌==◌, Bool-cases, inl, inr, ==-self, ==→eq,
}
use mathlib.Core.Option
use mathlib.Core.Path.{subst₃, ap₂}
use rpc_mt.Common.Outcome.{ok, >>=-eq-ok, ok-injective}
use rpc_mt.Registry.{Registry, XprtPtr, xprt_to_mtxprt, check_svcxprt_exists}
use rpc_mt.Callout.{Callout, Services, Binder, PmapCall, is_for, pmap_it, svc_register}
use rpc_mt.Callout.Find.{
  serves, dispatch_of, Distinct, hit, miss, svc_find-Search, dispatch_of-append, dispatch_of-none,
}
use rpc_mt.Callout.Table.{Distinct-replace}

-- The first registration of a program and version stands.
abbrev pub registered : ℕ → ℕ → ℕ → List Callout → ℕ → ℕ → Option ℕ
registered prog vers dispatch l p v =
    if (p == prog) && (v == vers)
    then some (Option.get_or (dispatch_of l prog vers) dispatch)
    else dispatch_of l p v

-- The state of the table after a registration, and what the flag says.
abbrev Registered : ℕ → ℕ → ℕ → List Callout → Bool → List Callout → Type 0
Registered prog vers dispatch l b l' =
    Distinct l'
    × ((q v : ℕ) → dispatch_of l' q v ≡ registered prog vers dispatch l q v)
    × (b ≡ true → dispatch_of l' prog vers ≡ some dispatch)

-- A new callout at the head.
added :
    (l : List Callout) (t : Callout) (b : Bool)
    → serves t.prog t.vers l ≡ false
    → Distinct l
    → Registered t.prog t.vers t.dispatch l b (t ∷ l)
added l t b nowhere d = (
  (nowhere, d),
  λ q v. ground (arith, dispatch_of-none l t.prog t.vers nowhere),
  λ _. ground (arith, ==-self t.prog, ==-self t.vers),
)

added_as :
    (prog vers dispatch : ℕ) (l : List Callout) (t : Callout) (b : Bool)
    → t.prog ≡ prog
    → t.vers ≡ vers
    → t.dispatch ≡ dispatch
    → serves prog vers l ≡ false
    → Distinct l
    → Registered prog vers dispatch l b (t ∷ l)
added_as prog vers dispatch l t b ep ev ed nowhere d =
    subst₃ (λ p v f. Registered p v f l b (t ∷ l)) ep ev ed
      (added l t b (ap₂ (λ p v. serves p v l) ep ev ∙ nowhere) d)

known :
    (prog vers dispatch : ℕ) (l : List Callout) {old : ℕ}
    → dispatch_of l prog vers ≡ some old
    → (q v : ℕ) → dispatch_of l q v ≡ registered prog vers dispatch l q v
known prog vers dispatch l e q v = elim (Bool-cases ((q == prog) && (v == vers))) [
  | inr other ↦ rw other refl
  | inl same ↦ let (eq, ev) = both q prog v vers same in rw same (rw (eq, ev, e) refl)
]
  where
    both : (a b c d : ℕ) → ((a == b) && (c == d)) ≡ true → (a ≡ b) × (c ≡ d)
    both a b c d h = ground (arith, h)

module _ (before : List Callout) (s : Callout) (after : List Callout) (prog vers : ℕ)
    (none_before : serves prog vers before ≡ false) (it : is_for prog vers s ≡ true) where
  at_cut : dispatch_of (before ++ (s ∷ after)) prog vers ≡ some s.dispatch
  at_cut = rw (dispatch_of-append before (s ∷ after) prog vers, none_before, it) refl

  -- A callout for the same program and version in its place changes nothing.
  swapped :
      (t : Callout)
      → t.prog ≡ s.prog
      → t.vers ≡ s.vers
      → t.dispatch ≡ s.dispatch
      → (q v : ℕ)
      → dispatch_of (before ++ (t ∷ after)) q v ≡ dispatch_of (before ++ (s ∷ after)) q v
  swapped t ep ev ed q v =
      rw
        (
          dispatch_of-append before (t ∷ after) q v,
          dispatch_of-append before (s ∷ after) q v,
          ep,
          ev,
          ed,
        )
        refl

  kept :
      (dispatch : ℕ) (t : Callout) (b : Bool)
      → t.prog ≡ s.prog
      → t.vers ≡ s.vers
      → t.dispatch ≡ s.dispatch
      → (b ≡ true → s.dispatch ≡ dispatch)
      → Distinct (before ++ (s ∷ after))
      → Registered prog vers dispatch (before ++ (s ∷ after)) b (before ++ (t ∷ after))
  kept dispatch t b ep ev ed agree d = (
    Distinct-replace before after s t ep ev d,
    λ q v. swapped t ep ev ed q v ∙ known prog vers dispatch (before ++ (s ∷ after)) at_cut q v,
    λ yes_said. swapped t ep ev ed prog vers ∙ at_cut ∙ ap some (agree yes_said),
  )

module _ (binder : Binder) (p : XprtPtr) (prog vers protocol : ℕ) (r : Registry) where
  -- The list keeps its shape; at most the mark `sc_mapped` of the callout changes.
  pmap_it_ok :
      (calls : List PmapCall) (before : List Callout) (s : Callout) (after : List Callout)
      {b : Bool} {sv' : Services}
      → pmap_it binder p prog vers protocol r calls before s after ≡ ok (b, sv')
      → (t : Callout) × (sv'.head ≡ before ++ (t ∷ after))
        × (t.prog ≡ s.prog)
        × (t.vers ≡ s.vers)
        × (t.dispatch ≡ s.dispatch)
  unfolding pmap_it
  pmap_it_ok calls before s after {b} {sv'} e = elim (Bool-cases (protocol == 0)) [
    | inl none_wanted ↦ (
      s,
      ap (λ (t : Bool × Services). t.1.head) (sym (ok-injective (rw none_wanted at e))),
      refl,
      refl,
      refl,
    )
    | inr wanted ↦
        let (x, live, last) = >>=-eq-ok (xprt_to_mtxprt p r) _ (rw wanted at e) in
        elim (Bool-cases (binder prog vers protocol x.port)) [
          | inl set ↦ (
            record s { mapped = true },
            ap (λ (t : Bool × Services). t.1.head) (sym (ok-injective (rw set at last))),
            refl,
            refl,
            refl,
          )
          | inr refused ↦ (
            s,
            ap (λ (t : Bool × Services). t.1.head) (sym (ok-injective (rw refused at last))),
            refl,
            refl,
            refl,
          )
        ]
  ]

  -- On a list of distinct callouts, whatever the binder answers, a registration that returns keeps
  -- them distinct, gives the program and version the dispatch function if they had none, and leaves
  -- the rest of the table as it was. It reports success only if the table now gives them this
  -- function.
  pub svc_register_lem :
      (dispatch : ℕ) (sv : Services) (b : Bool) (sv' : Services)
      → Distinct sv.head
      → svc_register binder p prog vers dispatch protocol r sv ≡ ok (b, sv')
      → Distinct sv'.head
        × ((q v : ℕ) → dispatch_of sv'.head q v ≡ registered prog vers dispatch sv.head q v)
        × (b ≡ true → dispatch_of sv'.head prog vers ≡ some dispatch)
  unfolding svc_register
  svc_register_lem dispatch sv b sv' d e =
      let (_, _, rest) = >>=-eq-ok (check_svcxprt_exists p r) _ e in
      elim (svc_find-Search prog vers sv.head) [
        | miss f nowhere ↦
            let (t, is, ep, ev, ed) =
              pmap_it_ok sv.calls []
                (record { prog = prog; vers = vers; dispatch = dispatch; mapped = false }) sv.head
                (rw f at rest) in
            rw is (added_as prog vers dispatch sv.head t b ep ev ed nowhere d)
        | hit before s after f cut none_before it ↦
            rw (← cut) (elim (Bool-cases (s.dispatch == dispatch)) [
              | inl same ↦
                  let (t, is, ep, ev, ed) =
                    pmap_it_ok sv.calls before s after (rw same at (rw f at rest)) in
                  rw is (
                    kept before s after prog vers none_before it dispatch t b ep ev ed
                      (λ _. ==→eq _ _ same) (rw cut d))
              | inr other ↦
                  let done = ok-injective (rw other at (rw f at rest)) in
                  rw (← ap (λ (t : Bool × Services). t.1.head) done, ← cut)
                    (kept before s after prog vers none_before it dispatch s b refl refl refl
                      (λ said.
                        absurd (ground (arith, ap (λ (t : Bool × Services). t.0) done, said)))
                      (rw cut d))
            ])
      ]
