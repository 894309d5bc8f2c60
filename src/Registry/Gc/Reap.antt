-- ===== src/Registry/Gc/Reap.antt =====
-- src/librpc/svc.c, `xprt_gc_mark` and `xprt_gc_reap_one`: a marked transport is destroyed once.
use native.Mathlib.Decide.{ℕ_discrete}
use rpc_mt.Common.{
  ℕ, ◌<◌, ◌≡◌, ◌≢◌, refl, ap, sym, ◌∙◌, true, false, none, some, arith, length, get_elem?, set,
  get_elem?-set_self, get_elem?-set_ne, lt_of_get_elem?, length-set, ==-self,
}
use rpc_mt.Common.Outcome.{ok}
use rpc_mt.Bitvec.{Bitvec, bitvec_get_bit, bitvec_clr_bit}
use rpc_mt.Bitvec.Cells.{clr_bit_total, get_bit-clr_bit, same_cell_self}
use rpc_mt.Registry.{Registry, Xprt, at, bad, no_parent, decr_counter}
use rpc_mt.Registry.Enrol.Valid.{IsValid}
use rpc_mt.Registry.Enrol.Leave.{Enrolled}
use rpc_mt.Registry.Gc.{svc_destroy, reap, unmark, reap_marked, xprt_gc_reap_one}
use rpc_mt.Registry.Gc.Destroy.{svc_destroy_total}

-- The slot is emptied once more, and the mark taken away.
abbrev pub swept : ℕ → Bitvec → Registry → Registry
swept id idset r = record r {
  xports = set r.xports id bad;
  xprtgc_idset = idset;
  mark_count = decr_counter r.mark_count;
}

swept-IsValid :
    (id : ℕ) (idset : Bitvec) (r : Registry)
    → id < length r.xports
    → IsValid r
    → IsValid (swept id idset r)
swept-IsValid id idset r lt v = record {
  sized = record {
    created = v.sized.created;
    size = v.sized.size;
    xports = length-set r.xports id bad ∙ v.sized.xports;
    sock_xports = v.sized.sock_xports;
    idset = v.sized.idset;
    pollfd = v.sized.pollfd;
    polled = v.sized.polled;
  };
  owned = λ j b e. elim (ℕ_discrete id j) [
    | yes same ↦
        let now : get_elem? (set r.xports id bad) j ≡ some bad =
          rw (sym same) (get_elem?-set_self r.xports id bad lt) in
        absurd (ground (arith, now, e))
    | no apart ↦ v.owned j b (sym (get_elem?-set_ne r.xports bad apart) ∙ e)
  ];
}

module _ (r : Registry) (a : ℕ) (x : Xprt) (v : IsValid r) (w : Enrolled r a x)
    (marked : bitvec_get_bit r.xprtgc_idset x.id ≡ ok true) where
  reap_run :
      (r' : Registry)
      → x.refcnt ≡ 0
      → svc_destroy (at a) r ≡ ok r'
      → x.id < length r'.xports
      → reap (at a) x.id x r ≡ ok (1, record r' { xports = set r'.xports x.id bad })
  unfolding reap
  reap_run r' lonely done lt = ground (arith, w.whole, lonely, done, lt, ==-self no_parent)

  spared_run : x.refcnt ≢ 0 → reap (at a) x.id x r ≡ ok (0, r)
  unfolding reap
  spared_run parents = ground (arith, w.whole, parents, ==-self no_parent)

  one_run :
      (count : ℕ) (r' : Registry) (idset : Bitvec)
      → reap (at a) x.id x r ≡ ok (count, r')
      → bitvec_clr_bit r'.xprtgc_idset x.id ≡ ok idset
      → xprt_gc_reap_one x.id r
        ≡ ok (count, record r' { xprtgc_idset = idset; mark_count = decr_counter r'.mark_count })
  unfolding xprt_gc_reap_one reap_marked unmark
  one_run count r' idset reaped cleared =
      let slot = w.slot in let here = w.here in rw (marked, slot, here, reaped) (rw cleared refl)

  -- In a well-formed registry, take a registered transport that is no clone and is marked. If no clone
  -- refers to it, reaping its id destroys it and counts 1: its structure is freed, its slot is empty,
  -- its socket is closed, and the registry stays well formed. If a clone does, nothing is destroyed, and
  -- 0 is counted. Either way its mark is gone, and there is one mark less.
  pub xprt_gc_reap_one_total :
      (x.refcnt ≡ 0
        → (r' : Registry) × (xprt_gc_reap_one x.id r ≡ ok (1, r'))
          × IsValid r'
          × (r'.heap a ≡ none)
          × (get_elem? r'.xports x.id ≡ some bad)
          × (r'.open_fd x.sock ≡ false)
          × (bitvec_get_bit r'.xprtgc_idset x.id ≡ ok false)
          × (r'.mark_count ≡ decr_counter r.mark_count))
      × (x.refcnt ≢ 0
          → (idset : Bitvec) × (xprt_gc_reap_one x.id r
              ≡ ok (0, record r { xprtgc_idset = idset; mark_count = decr_counter r.mark_count }))
            × (bitvec_get_bit idset x.id ≡ ok false))
  xprt_gc_reap_one_total =
      let (idset, cleared) = clr_bit_total r.xprtgc_idset x.id marked in
      let clear : bitvec_get_bit idset x.id ≡ ok false =
        get_bit-clr_bit r.xprtgc_idset x.id x.id cleared marked ∙ ap ok (same_cell_self x.id) in
      (
        λ lonely.
            let (r', done, (valid, freed, kept, slot, sock, closed, marks, count)) =
              svc_destroy_total r a x v w in
            let lt : x.id < length r'.xports = lt_of_get_elem? r'.xports x.id slot in
            (
              swept x.id idset r',
              one_run 1 (record r' { xports = set r'.xports x.id bad }) idset
                  (reap_run r' lonely done lt)
                  (ap (λ (t : Bitvec). bitvec_clr_bit t x.id) marks ∙ cleared),
              swept-IsValid x.id idset r' lt valid,
              freed,
              get_elem?-set_self r'.xports x.id bad lt,
              closed,
              clear,
              ap decr_counter count,
            ),
        λ parents. (idset, one_run 0 r idset (spared_run parents) cleared, clear),
      )
