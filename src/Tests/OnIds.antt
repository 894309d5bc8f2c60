-- ===== src/Tests/OnIds.antt =====
-- Runs of the identifiers of transports of src/librpc/svc.c.
use rpc_mt.Common.{ℕ, zero, suc, ◌≡◌, refl, ◌≤◌, arith, true, false, [], ◌∷◌, replicate, get_elem?}
use rpc_mt.Common.Outcome.{ok}
use rpc_mt.Bitvec.{bitvec_init, bitvec_set_bit, bitvec_clr_bit, bitvec_get_bit, wpos, bpos}
use rpc_mt.Registry.{Registry, at, create_xports}
use rpc_mt.Registry.Ids.{xprt_id_alloc, unregister_id, candidate, scan_ids, id_is_valid}
use rpc_mt.Registry.Ids.Reuse.{xprt_id_alloc_reuses}
use rpc_mt.Registry.Unique.{Small, start, occupied, xprt_id_alloc_unique}
use rpc_mt.Tests.OnRegistry.{cold, ready, value, either}

-- Ids 0 to 9 are given out; 1 and 9 share a bit.
abbrev ten : Registry
ten = record cold {
  created = true;
  xports = replicate 66 (at 1);
  xports_idset = record { vec = 1 ∷ 255 ∷ []; sz = 66 };
  xports_size = 66;
  xports_count = 10;
  xports_maxid = 9;
}

abbrev nine : Registry
unfolding unregister_id bitvec_clr_bit wpos bpos id_is_valid
nine = either ten (unregister_id 9 ten)

nine_lem : unregister_id 9 ten ≡ ok nine
unfolding unregister_id bitvec_clr_bit wpos bpos id_is_valid
nine_lem = refl

abbrev reused : Registry
reused = value nine (xprt_id_alloc nine)

reused_lem : xprt_id_alloc nine ≡ ok (1, reused)
unfolding xprt_id_alloc candidate scan_ids bitvec_set_bit bitvec_get_bit wpos bpos unregister_id
    bitvec_clr_bit id_is_valid
reused_lem = refl

busy : (j : ℕ) → j ≤ 1 → bitvec_get_bit ten.xports_idset j ≡ ok true
unfolding bitvec_get_bit wpos bpos
busy zero h = refl
busy (suc zero) h = refl
busy (suc (suc j)) h = absurd (omega arith)

xprt_id_alloc_reuses_example :
    ◌≡◌ {A = ℕ} 1 1 × (get_elem? reused.xports 1 ≡ get_elem? ten.xports 1)
xprt_id_alloc_reuses_example =
    xprt_id_alloc_reuses ten nine reused 1 1 (omega arith) (omega arith) (omega arith) busy nine_lem
      reused_lem

abbrev first_given : Registry
first_given = value ready (xprt_id_alloc ready)

first_given_lem : xprt_id_alloc ready ≡ ok (0, first_given)
unfolding ready xprt_id_alloc create_xports candidate bitvec_set_bit bitvec_init wpos bpos
first_given_lem = refl

ready-Small : Small (create_xports 66 cold) ready
unfolding ready
ready-Small = start

xprt_id_alloc_unique_example : occupied ready 0 ≡ false
xprt_id_alloc_unique_example =
    xprt_id_alloc_unique 66 cold ready first_given 0 (omega arith) ready-Small first_given_lem
      (omega arith)
