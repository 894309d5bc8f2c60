-- ===== src/Callout/Table.antt =====
-- The callout list as a table from program and version to a dispatch function.
use rpc_mt.Common.{
  ℕ, ◌≡◌, refl, ap, ◌∙◌, true, false, ◌&&◌, none, List, [], ◌∷◌, ◌++◌, arith, if◌then◌else◌, ◌==◌,
  Bool-cases, inl, inr,
}
use rpc_mt.Callout.{Callout, Services, pmap_unset, is_for, svc_is_mapped, svc_unregister}
use rpc_mt.Callout.Find.{
  serves, dispatch_of, Distinct, hit, miss, svc_find-Search, serves-append, dispatch_of-append,
  dispatch_of-none,
}

-- Replacing a callout by one for the same program and version, and dropping one.
pub Distinct-replace :
    (before after : List Callout) (s t : Callout)
    → t.prog ≡ s.prog
    → t.vers ≡ s.vers
    → Distinct (before ++ (s ∷ after))
    → Distinct (before ++ (t ∷ after))
Distinct-replace [] after s t p v d = rw (p, v) d
Distinct-replace (u ∷ before) after s t p v d = (
  ground (
    arith,
    d.0,
    serves-append u.prog u.vers before (s ∷ after),
    serves-append u.prog u.vers before (t ∷ after),
  ),
  Distinct-replace before after s t p v d.1,
)

Distinct-drop :
    (before after : List Callout) (s : Callout)
    → Distinct (before ++ (s ∷ after))
    → Distinct (before ++ after)
Distinct-drop [] after s d = d.1
Distinct-drop (u ∷ before) after s d = (
  ground (
    arith,
    d.0,
    serves-append u.prog u.vers before (s ∷ after),
    serves-append u.prog u.vers before after,
  ),
  Distinct-drop before after s d.1,
)

-- In a list with one callout for each, the rest of a cut serves the cut's callout no more.
Distinct-after :
    (before after : List Callout) (s : Callout)
    → Distinct (before ++ (s ∷ after))
    → serves s.prog s.vers after ≡ false
Distinct-after [] after s d = d.0
Distinct-after (u ∷ before) after s d = Distinct-after before after s d.1

is_for_eq :
    (prog vers : ℕ) (s : Callout) → is_for prog vers s ≡ true → (s.prog ≡ prog) × (s.vers ≡ vers)
is_for_eq prog vers s e = ground (arith, e)

-- The table without a program and version that the list does not serve is the table.
without_absent :
    (prog vers : ℕ) (l : List Callout) (p v : ℕ)
    → serves prog vers l ≡ false
    → dispatch_of l p v ≡ (if (p == prog) && (v == vers) then none else dispatch_of l p v)
without_absent prog vers l p v nowhere = elim (Bool-cases ((p == prog) && (v == vers))) [
  | inr other ↦ rw other refl
  | inl same ↦
      let (ep, ev) = both p prog v vers same in
      rw same (rw (ep, ev) (dispatch_of-none l prog vers nowhere))
]
  where
    both : (a b c d : ℕ) → ((a == b) && (c == d)) ≡ true → (a ≡ b) × (c ≡ d)
    both a b c d h = ground (arith, h)

pub unmapped :
    (prog vers : ℕ) (l : List Callout)
    → serves prog vers l ≡ false
    → svc_is_mapped prog vers l ≡ false
unfolding svc_is_mapped
unmapped prog vers l nowhere = elim (svc_find-Search prog vers l) [
  | miss e _ ↦ rw e refl
  | hit before s after e cut none_before it ↦
      let nowhere' : serves prog vers (before ++ (s ∷ after)) ≡ false = rw cut nowhere in
      absurd (ground (arith, nowhere', serves-append prog vers before (s ∷ after), it))
]

module _ (prog vers : ℕ) (before : List Callout) (s : Callout) (after : List Callout)
    (none_before : serves prog vers before ≡ false) (it : is_for prog vers s ≡ true)
    (d : Distinct (before ++ (s ∷ after))) where
  gone : serves prog vers (before ++ after) ≡ false
  gone =
      let (ep, ev) = is_for_eq prog vers s it in
      ground (
        arith,
        serves-append prog vers before after,
        none_before,
        rw (ep, ev) at (Distinct-after before after s d),
      )

  dropped :
      (p v : ℕ)
      → dispatch_of (before ++ after) p v
        ≡ (if (p == prog) && (v == vers) then none else dispatch_of (before ++ (s ∷ after)) p v)
  dropped p v = elim (Bool-cases ((p == prog) && (v == vers))) [
    | inl same ↦ without_absent prog vers (before ++ after) p v gone ∙ rw same refl
    | inr other ↦
        rw (other, dispatch_of-append before after p v, dispatch_of-append before (s ∷ after) p v)
          (ground (arith, other, it))
  ]

  served : serves prog vers (before ++ (s ∷ after)) ≡ true
  served = ground (arith, serves-append prog vers before (s ∷ after), it)

-- On a list of distinct callouts, unregistering takes exactly the program and version out of the
-- table and keeps the callouts distinct. If they were served, the binder is told to forget them; if
-- not, it is told nothing.
pub svc_unregister_lem :
    (prog vers : ℕ) (sv : Services)
    → Distinct sv.head
    → Distinct (svc_unregister prog vers sv).head
      × ((p v : ℕ)
          → dispatch_of (svc_unregister prog vers sv).head p v
            ≡ (if (p == prog) && (v == vers) then none else dispatch_of sv.head p v))
      × ((svc_unregister prog vers sv).calls
          ≡ (if serves prog vers sv.head then pmap_unset prog vers ∷ sv.calls else sv.calls))
unfolding svc_unregister svc_is_mapped
svc_unregister_lem prog vers sv d = elim (svc_find-Search prog vers sv.head) [
  | miss e nowhere ↦ rw e (d, λ p v. without_absent prog vers sv.head p v nowhere, rw nowhere refl)
  | hit before s after e cut none_before it ↦ rw e (
      let d' : Distinct (before ++ (s ∷ after)) = rw cut d in
      (
        Distinct-drop before after s d',
        λ p v.
            dropped prog vers before s after none_before it d' p v
            ∙ ap
                (λ (t : List Callout).
                  if (p == prog) && (v == vers) then none else dispatch_of t p v)
                cut,
        rw
            (
              unmapped prog vers (before ++ after)
                  (gone prog vers before s after none_before it d'),
              ← cut,
              served prog vers before s after none_before it d',
            )
            refl,
      ))
]
