-- ===== src/Tests/OnCallout.antt =====
-- Runs of the callout list of src/librpc/svc.c on two services of one program.
use rpc_mt.Common.{ℕ, ◌≡◌, refl, true, false, ◌&&◌, ◌==◌, arith, [], ◌∷◌, none, some, if◌then◌else◌}
use rpc_mt.Common.Outcome.{ok}
use rpc_mt.Registry.{at, check_svcxprt_exists}
use rpc_mt.Callout.{
  Callout, Services, Binder, pmap_set, pmap_unset, svc_find, svc_register, svc_unregister,
  rpc_thread_svc_cleanup, request_match_prog_version, pmap_it,
}
use rpc_mt.Callout.Find.{Distinct, dispatch_of, serves}
use rpc_mt.Callout.Table.{svc_unregister_lem}
use rpc_mt.Callout.Register.{svc_register_lem, registered}
use rpc_mt.Callout.Cleanup.{rpc_thread_svc_cleanup_total}
use rpc_mt.Callout.Match.{request_match_prog_version-Fits, Fits}
use rpc_mt.Tests.OnRegistry.{cold}

abbrev one : Callout
one = record { prog = 7; vers = 1; dispatch = 100; mapped = false }

abbrev two : Callout
two = record { prog = 7; vers = 4; dispatch = 200; mapped = true }

abbrev services : Services
services = record { head = one ∷ two ∷ []; calls = [] }

abbrev answers_yes : Binder
answers_yes p v proto port = true

abbrev with_two : Services
with_two = record { head = two ∷ []; calls = pmap_set 7 4 17 111 ∷ [] }

abbrev nothing : Services
nothing = record { head = []; calls = [] }

register_two : svc_register answers_yes (at 1) 7 4 200 17 cold nothing ≡ ok (true, with_two)
unfolding svc_register svc_find pmap_it check_svcxprt_exists
register_two = refl

svc_register_lem_example :
    Distinct with_two.head
    × ((q v : ℕ) → dispatch_of with_two.head q v ≡ registered 7 4 200 nothing.head q v)
    × (true ≡ true → dispatch_of with_two.head 7 4 ≡ some 200)
svc_register_lem_example =
    svc_register_lem answers_yes (at 1) 7 4 17 cold 200 nothing true with_two tt register_two

svc_unregister_lem_example :
    Distinct (svc_unregister 7 1 services).head
    × ((p v : ℕ)
        → dispatch_of (svc_unregister 7 1 services).head p v
          ≡ (if (p == 7) && (v == 1) then none else dispatch_of services.head p v))
    × ((svc_unregister 7 1 services).calls
        ≡ (if serves 7 1 services.head then pmap_unset 7 1 ∷ services.calls else services.calls))
svc_unregister_lem_example = svc_unregister_lem 7 1 services (refl, (refl, tt))

rpc_thread_svc_cleanup_total_example :
    rpc_thread_svc_cleanup 2 services
    ≡ record { head = []; calls = pmap_unset 7 4 ∷ pmap_unset 7 1 ∷ [] }
rpc_thread_svc_cleanup_total_example =
    rpc_thread_svc_cleanup_total 2 (one ∷ two ∷ []) [] (refl, (refl, tt)) (omega arith)

request_match_prog_version-Fits_example :
    Fits 7 2 (one ∷ two ∷ []) (request_match_prog_version 7 2 (one ∷ two ∷ []))
request_match_prog_version-Fits_example =
    request_match_prog_version-Fits 7 2 (one ∷ two ∷ []) (omega arith, (omega arith, tt))
