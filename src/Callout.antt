-- ===== src/Callout.antt =====
-- src/librpc/svc.c, the callout list: the services that the server dispatches to, and the entries that
-- it makes for them at the local binder.
pub mod Find
pub mod Cleanup
pub mod Match
pub mod Register
pub mod Table
use rpc_mt.Common.{
  ℕ, zero, suc, ◌-◌, ◌^◌, Bool, true, false, ◌&&◌, List, [], ◌∷◌, ◌++◌, if◌then◌else◌, ◌==◌, ltb,
}
use rpc_mt.Common.Outcome.{Outcome, ok, ◌>>=◌, ◌>>◌}
use rpc_mt.Registry.{Registry, XprtPtr, xprt_to_mtxprt, check_svcxprt_exists}

-- `struct svc_callout`; a dispatch function is its address.
pub record Callout : Type 0 where
  pub prog : ℕ
  pub vers : ℕ
  pub dispatch : ℕ
  pub mapped : Bool

-- What the code asks of the local binder.
pub data PmapCall : Type 0 where
  pmap_set : (prog vers protocol port : ℕ) → PmapCall
  pmap_unset : (prog vers : ℕ) → PmapCall

-- `svc_head`, and the binder calls made so far, the latest first.
pub record Services : Type 0 where
  pub head : List Callout
  pub calls : List PmapCall

abbrev pub is_for : ℕ → ℕ → Callout → Bool
is_for prog vers s = s.prog == prog && s.vers == vers

-- The callouts before the one sought, of which the last is `*prev`, and the rest from it on.
unfoldable pub svc_find : ℕ → ℕ → List Callout → List Callout × List Callout
svc_find prog vers [] = ([], [])
svc_find prog vers (s ∷ l) =
    let (before, rest) = svc_find prog vers l in
    if is_for prog vers s then ([], s ∷ l) else (s ∷ before, rest)

abbrev mapped_head : List Callout → Bool
mapped_head [] = false
mapped_head (s ∷ l) = s.mapped

unfoldable pub svc_is_mapped : ℕ → ℕ → List Callout → Bool
svc_is_mapped prog vers l = mapped_head (svc_find prog vers l).1

-- What the binder answers to `pmap_set`.
abbrev pub Binder : Type 0
Binder = (prog vers protocol port : ℕ) → Bool

module _ (binder : Binder) where
  -- From the label `pmap_it` on: `s` is the callout, `before` and `after` stand around it.
  unfoldable pub pmap_it :
      XprtPtr
      → ℕ
      → ℕ
      → ℕ
      → Registry
      → List PmapCall
      → List Callout
      → Callout
      → List Callout
      → Outcome (Bool × Services)
  pmap_it p prog vers protocol r calls before s after =
      if protocol == 0
      then ok (true, record { head = before ++ (s ∷ after); calls = calls })
      else (do
        x ← xprt_to_mtxprt p r
        let calls' = pmap_set prog vers protocol x.port ∷ calls
        ok (
            if binder prog vers protocol x.port
            then (
              true,
              record { head = before ++ (record s { mapped = true } ∷ after); calls = calls' },
            )
            else (false, record { head = before ++ (s ∷ after); calls = calls' })))

  abbrev register_at :
      XprtPtr
      → ℕ
      → ℕ
      → ℕ
      → ℕ
      → Registry
      → Services
      → List Callout × List Callout
      → Outcome (Bool × Services)
  register_at p prog vers dispatch protocol r sv (before, []) =
      pmap_it p prog vers protocol r sv.calls []
        (record { prog = prog; vers = vers; dispatch = dispatch; mapped = false }) sv.head
  register_at p prog vers dispatch protocol r sv (before, s ∷ after) =
      if s.dispatch == dispatch
      then pmap_it p prog vers protocol r sv.calls before s after
      else ok (false, sv)

  unfoldable pub svc_register :
      XprtPtr → ℕ → ℕ → ℕ → ℕ → Registry → Services → Outcome (Bool × Services)
  svc_register p prog vers dispatch protocol r sv = do
    check_svcxprt_exists p r
    register_at p prog vers dispatch protocol r sv (svc_find prog vers sv.head)

abbrev unregister_at : ℕ → ℕ → Services → List Callout × List Callout → Services
unregister_at prog vers sv (before, []) = sv
unregister_at prog vers sv (before, s ∷ after) = record {
  head = before ++ after;
  calls =
      if svc_is_mapped prog vers (before ++ after)
      then sv.calls
      else pmap_unset prog vers ∷ sv.calls;
}

unfoldable pub svc_unregister : ℕ → ℕ → Services → Services
svc_unregister prog vers sv = unregister_at prog vers sv (svc_find prog vers sv.head)

-- `rpc_thread_svc_cleanup`: unregister the head until there is none. The first argument is the number
-- of rounds allowed.
unfoldable pub rpc_thread_svc_cleanup : ℕ → Services → Services
rpc_thread_svc_cleanup zero sv = sv
rpc_thread_svc_cleanup (suc k) sv = elim sv.head [
  | [] ↦ sv
  | s ∷ l ↦ rpc_thread_svc_cleanup k (svc_unregister s.prog s.vers sv)
]

-- What becomes of a request: the callout to dispatch to, `svcerr_noprog`, or `svcerr_progvers`.
pub data Answer : Type 0 where
  dispatch_to : Callout → Answer
  no_prog : Answer
  prog_vers : (low high : ℕ) → Answer

-- `__MAX(rpcvers_t)`
abbrev pub max_vers : ℕ
max_vers = 2 ^ 64 - 1

-- The loop of `request_match_prog_version`, with its variables `prog_found`, `low_vers` and `high_vers`.
unfoldable pub match_loop : ℕ → ℕ → List Callout → Bool → ℕ → ℕ → Answer
match_loop prog vers [] found low high = if found then prog_vers low high else no_prog
match_loop prog vers (s ∷ l) found low high =
    let same =
      match_loop prog vers l true (if ltb s.vers low then s.vers else low)
        (if ltb high s.vers then s.vers else high) in
    let other = match_loop prog vers l found low high in
    if s.prog == prog then (if s.vers == vers then dispatch_to s else same) else other

unfoldable pub request_match_prog_version : ℕ → ℕ → List Callout → Answer
unfolding match_loop
request_match_prog_version prog vers l = match_loop prog vers l false max_vers 0
