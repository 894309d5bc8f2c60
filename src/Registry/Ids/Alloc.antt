-- ===== src/Registry/Ids/Alloc.antt =====
-- What `xprt_id_alloc` gives out.
use rpc_mt.Common.{
  sym, ap, ◌∙◌, ℕ, ◌+◌, ◌≤◌, ◌<◌, ◌≡◌, ◌≢◌, ◌⊎◌, inl, inr, true, false, arith, leb, Bool-cases,
  ne→==,
}
use rpc_mt.Common.Outcome.{ok, >>=-eq-ok}
use rpc_mt.Bitvec.{Bitvec, bitvec_get_bit, bitvec_set_bit}
use rpc_mt.Bitvec.Cells.{set_bit_self}
use rpc_mt.Registry.{Registry, no_maxid, incr_counter}
use rpc_mt.Registry.Ids.{scan_ids, candidate, xprt_id_alloc}
use rpc_mt.Registry.Ids.Scan.{Found, scan_ids-Found}

-- What `xprt_id_alloc` leaves behind.
abbrev pub allotted : Registry → ℕ → Bitvec → Registry
allotted r maxid idset = record r {
  xports_maxid = maxid;
  xports_idset = idset;
  xports_count = incr_counter r.xports_count;
}

-- The parts of a successful call: the new `xports_maxid`, the new set, and how they come about.
abbrev pub Allocated : Registry → ℕ → Registry → Type 0
Allocated r id r' =
    (maxid : ℕ) × (idset : Bitvec) × (candidate r ≡ ok (id, maxid))
    × (id < r.xports_size)
    × (bitvec_set_bit r.xports_idset id ≡ ok idset)
    × (r' ≡ allotted r maxid idset)

pub xprt_id_alloc-Allocated :
    (r : Registry) (id : ℕ) (r' : Registry) → xprt_id_alloc r ≡ ok (id, r') → Allocated r id r'
unfolding xprt_id_alloc
xprt_id_alloc-Allocated r id r' e =
    let ((c, maxid), chosen, rest) = >>=-eq-ok (candidate r) _ e in
    elim (Bool-cases (leb r.xports_size c)) [
      | inl full ↦ absurd (ground (arith, rest, full))
      | inr room ↦
          let (idset, marked, last) =
            >>=-eq-ok (bitvec_set_bit r.xports_idset c) _ (rw room at rest) in
          let same : c ≡ id = ground arith in
          (
            maxid,
            idset,
            ground arith,
            ground arith,
            ap (bitvec_set_bit r.xports_idset) (sym same) ∙ marked,
            ground arith,
          )
    ]

-- The lowest id whose bit is clear, or the one after all that were given out before.
pub candidate-Found :
    (r : Registry) {id maxid : ℕ}
    → r.xports_maxid ≢ no_maxid
    → candidate r ≡ ok (id, maxid)
    → Found (r.xports_maxid + 1) r.xports_idset 0 id
      × (id ≤ maxid)
      × (r.xports_maxid ≤ maxid)
      × ((maxid ≡ id) ⊎ (maxid ≡ r.xports_maxid))
unfolding candidate
candidate-Found r {id} {maxid} some_id e =
    let (id', scanned, shape) =
      >>=-eq-ok (scan_ids (r.xports_maxid + 1) r.xports_idset 0) _ (rw (ne→== _ _ some_id) at e) in
    let same : id' ≡ id = ground arith in
    (
      rw same at (scan_ids-Found (r.xports_maxid + 1) r.xports_idset 0 scanned),
      ground arith,
      ground arith,
      ground arith,
    )

pub candidate_first : (r : Registry) → r.xports_maxid ≡ no_maxid → candidate r ≡ ok (0, 0)
unfolding candidate
candidate_first r e = ground arith

-- Where ids were given out before, a successful call gives out an id below `xports_size`, at most
-- one past the highest so far, now marked in the set and not above the new `xports_maxid`. The bit
-- of each lower id was set, and if the id is not past the highest so far its own bit was clear.
pub xprt_id_alloc-lowest :
    (r : Registry) (id : ℕ) (r' : Registry)
    → r.xports_maxid ≢ no_maxid
    → xprt_id_alloc r ≡ ok (id, r')
    → (id < r.xports_size)
      × (id ≤ r'.xports_maxid)
      × (bitvec_get_bit r'.xports_idset id ≡ ok true)
      × ((j : ℕ) → j < id → bitvec_get_bit r.xports_idset j ≡ ok true)
      × (id ≤ r.xports_maxid → bitvec_get_bit r.xports_idset id ≡ ok false)
      × (id ≤ r.xports_maxid + 1)
xprt_id_alloc-lowest r id r' some_id e =
    let (maxid, idset, chosen, inside, marked, result) = xprt_id_alloc-Allocated r id r' e in
    let (found, fits, _, _) = candidate-Found r some_id chosen in
    rw result (
      inside,
      fits,
      set_bit_self r.xports_idset id marked,
      λ j lt. found.used j (omega arith) lt,
      λ le. found.clear (omega arith),
      omega (arith, found.below),
    )
