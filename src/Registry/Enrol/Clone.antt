-- ===== src/Registry/Enrol/Clone.antt =====
-- src/librpc/svc.c, `xprt_unregister` of a clone that is registered: it succeeds.
use rpc_mt.Common.{
  ℕ, ◌≤◌, ◌≡◌, ◌≢◌, refl, ap, ◌∙◌, true, false, some, arith, get_elem?, set, get_elem?-set_self,
  lt_of_get_elem?, ==-self, ne→==,
}
use rpc_mt.Common.Outcome.{ok}
use rpc_mt.Bitvec.{Bitvec, bitvec_get_bit, bitvec_clr_bit}
use rpc_mt.Bitvec.Cells.{clr_bit_total, get_bit-clr_bit, same_cell_self}
use rpc_mt.Registry.{
  Registry, Xprt, at, bad, no_parent, write_xprt, incr_counter, decr_counter, decr_int,
}
use rpc_mt.Registry.Ids.{unregister_id}
use rpc_mt.Registry.Enrol.{count_parent, detach, xprt_unregister_with_lock}
use rpc_mt.Registry.Enrol.Present.{unregister_steps}
use rpc_mt.Registry.Enrol.Valid.{IsValid}
use rpc_mt.Registry.Enrol.Unregister.{xprt_unregister_with_lock-IsValid}

-- A clone at address `a` stands in the slot of its id, and its bit is set; its parent stands at
-- address `b`.
pub record Cloned (r : Registry) (a : ℕ) (x : Xprt) (b : ℕ) (y : Xprt) : Type 0 where
  pub here : r.heap a ≡ some x
  pub child : x.parent ≢ no_parent
  pub slot : get_elem? r.xports x.id ≡ some (at a)
  pub id : x.id ≤ r.xports_maxid
  pub marked : bitvec_get_bit r.xports_idset x.id ≡ ok true
  pub parent : get_elem? r.xports x.parent ≡ some (at b)
  pub up : r.heap b ≡ some y

abbrev pub one_less : Xprt → Xprt
one_less y = record y { refcnt = decr_int y.refcnt }

-- What an unregistering of the clone leaves.
abbrev pub orphaned : Xprt → ℕ → Xprt → Bitvec → Registry → Registry
orphaned x b y idset r = record (write_xprt (at b) (one_less y) r) {
  xports = set r.xports x.id bad;
  xports_version = incr_counter r.xports_version;
  xports_idset = idset;
  xports_count = decr_counter r.xports_count;
}

module _ (r : Registry) (a : ℕ) (x : Xprt) (b : ℕ) (y : Xprt) (v : IsValid r)
    (w : Cloned r a x b y) where
  count_run : count_parent decr_int x.parent r ≡ ok (write_xprt (at b) (one_less y) r)
  unfolding count_parent
  count_run = let there = w.parent in let up = w.up in rw there (rw up refl)

  detach_run : detach x r ≡ ok (write_xprt (at b) (one_less y) r)
  unfolding detach
  detach_run = rw (ne→== x.parent no_parent w.child) count_run

  id_run :
      (idset : Bitvec)
      → bitvec_clr_bit r.xports_idset x.id ≡ ok idset
      → unregister_id x.id (write_xprt (at b) (one_less y) r) ≡ ok (orphaned x b y idset r)
  unfolding unregister_id
  id_run idset cleared = ground (arith, w.id, cleared, lt_of_get_elem? r.xports x.id w.slot)

  -- In a well-formed registry, unregistering a registered clone succeeds and leaves a well-formed
  -- registry: the slot of its id is empty and its bit clear, its parent counts one reference less, and
  -- no other structure, no socket and no polled descriptor changes.
  pub xprt_unregister_clone_total :
      (r' : Registry) × (xprt_unregister_with_lock (at a) r ≡ ok r')
      × IsValid r'
      × (get_elem? r'.xports x.id ≡ some bad)
      × (bitvec_get_bit r'.xports_idset x.id ≡ ok false)
      × (r'.heap b ≡ some (one_less y))
      × ((c : ℕ) → c ≢ b → r'.heap c ≡ r.heap c)
      × (r'.sock_xports ≡ r.sock_xports)
      × (r'.pollfd ≡ r.pollfd)
  xprt_unregister_clone_total =
      let (idset, cleared) = clr_bit_total r.xports_idset x.id w.marked in
      let done =
        unregister_steps r a x v.sized.created w.here w.slot w.id (write_xprt (at b) (one_less y) r)
          detach_run
        ∙ id_run idset cleared in
      (
        orphaned x b y idset r,
        done,
        xprt_unregister_with_lock-IsValid (at a) r (orphaned x b y idset r) v done,
        get_elem?-set_self r.xports x.id bad (lt_of_get_elem? r.xports x.id w.slot),
        get_bit-clr_bit r.xports_idset x.id x.id cleared w.marked ∙ ap ok (same_cell_self x.id),
        rw (==-self b) refl,
        λ c apart. rw (ne→== c b apart) refl,
        refl,
        refl,
      )
