-- ===== src/Registry/Enrol/Present.antt =====
-- src/librpc/svc.c, the checks of `xprt_unregister` on a transport that stands in its slot.
use rpc_mt.Common.{ℕ, ◌≤◌, ◌≡◌, true, some, arith, get_elem?, ==-self}
use rpc_mt.Common.Outcome.{ok}
use rpc_mt.Registry.{Registry, Xprt, at, check_svcxprt_exists}
use rpc_mt.Registry.Ids.{unregister_id}
use rpc_mt.Registry.Enrol.{detach, xprt_unregister_with_lock}

module _ (r : Registry) (a : ℕ) (x : Xprt) (created : r.created ≡ true) (here : r.heap a ≡ some x)
    (slot : get_elem? r.xports x.id ≡ some (at a)) (id : x.id ≤ r.xports_maxid) where
  checks : check_svcxprt_exists (at a) r ≡ ok tt
  unfolding check_svcxprt_exists
  checks = ground (arith, created, here, slot, ==-self a)

  pub unregister_steps :
      (r1 : Registry)
      → detach x r ≡ ok r1
      → xprt_unregister_with_lock (at a) r ≡ unregister_id x.id r1
  unfolding xprt_unregister_with_lock
  unregister_steps r1 done = rw (checks, here) (ground (arith, here, slot, ==-self a, id, done))
