-- ===== src/Callout/Cleanup.antt =====
-- src/librpc/svc.c, `rpc_thread_svc_cleanup`: it ends, with every service unregistered.
use rpc_mt.Common.{ℕ, zero, suc, ◌≤◌, ◌≡◌, refl, false, List, [], ◌∷◌, arith, length, ==-self}
use rpc_mt.Callout.{Callout, PmapCall, pmap_unset, svc_find, svc_unregister, rpc_thread_svc_cleanup}
use rpc_mt.Callout.Find.{serves, Distinct}
use rpc_mt.Callout.Table.{unmapped}

-- The binder is told to forget each service in turn.
abbrev unset_all : List Callout → List PmapCall → List PmapCall
unset_all [] calls = calls
unset_all (s ∷ l) calls = unset_all l (pmap_unset s.prog s.vers ∷ calls)

svc_unregister_first :
    (s : Callout) (l : List Callout) (calls : List PmapCall)
    → serves s.prog s.vers l ≡ false
    → svc_unregister s.prog s.vers (record { head = s ∷ l; calls = calls })
      ≡ record { head = l; calls = pmap_unset s.prog s.vers ∷ calls }
unfolding svc_unregister svc_find
svc_unregister_first s l calls nowhere =
    rw (==-self s.prog, ==-self s.vers, unmapped s.prog s.vers l nowhere) refl

-- On a list of distinct callouts, with as many rounds as there are callouts or more, the loop comes
-- to its end: no callout is left, and the binder was told to forget each, in the order of the list.
pub rpc_thread_svc_cleanup_total :
    (k : ℕ) (l : List Callout) (calls : List PmapCall)
    → Distinct l
    → length l ≤ k
    → rpc_thread_svc_cleanup k (record { head = l; calls = calls })
      ≡ record { head = []; calls = unset_all l calls }
unfolding rpc_thread_svc_cleanup
rpc_thread_svc_cleanup_total zero [] calls d h = refl
rpc_thread_svc_cleanup_total zero (s ∷ l) calls d h = absurd (omega arith)
rpc_thread_svc_cleanup_total (suc k) [] calls d h = refl
rpc_thread_svc_cleanup_total (suc k) (s ∷ l) calls d h =
    rw (svc_unregister_first s l calls d.0)
      (rpc_thread_svc_cleanup_total k l (pmap_unset s.prog s.vers ∷ calls) d.1 (omega arith))
