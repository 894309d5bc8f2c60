-- ===== src/Registry/Ids.antt =====
-- src/librpc/svc.c, `xprt_id_alloc` and `unregister_id`: the identifiers of transports.
pub mod Scan
pub mod Reuse
pub mod Alloc
use rpc_mt.Common.{ℕ, zero, suc, ◌+◌, ◌-◌, ◌^◌, Bool, true, false, if◌then◌else◌, ltb, leb, ◌==◌}
use rpc_mt.Common.Outcome.{Outcome, ok, died, fault, ◌>>=◌, ◌>>◌}
use rpc_mt.Bitvec.{Bitvec, bitvec_set_bit, bitvec_clr_bit, bitvec_get_bit}
use rpc_mt.Registry.{Registry, bad, no_maxid, incr_counter, decr_counter, store}

unfoldable pub id_is_valid : ℕ → Registry → Bool
id_is_valid id r = leb id r.xports_maxid

-- `for (id = 0; id <= xports_maxid; ++id)`, left at the first id whose bit is clear. The first
-- argument is the number of rounds to go.
unfoldable pub scan_ids : ℕ → Bitvec → ℕ → Outcome ℕ
scan_ids zero idset id = ok id
scan_ids (suc k) idset id = bitvec_get_bit idset id >>= λ used. elim used [
  | true ↦ scan_ids k idset (id + 1)
  | false ↦ ok id
]

-- The candidate, and the new `xports_maxid`.
unfoldable pub candidate : Registry → Outcome (ℕ × ℕ)
candidate r = if r.xports_maxid == no_maxid then ok (0, 0) else (do
  id ← scan_ids (r.xports_maxid + 1) r.xports_idset 0
  ok (id, if ltb r.xports_maxid id then id else r.xports_maxid))

unfoldable pub xprt_id_alloc : Registry → Outcome (ℕ × Registry)
xprt_id_alloc r = do
  (id, maxid) ← candidate r
  if leb r.xports_size id then died else (do
    idset ← bitvec_set_bit r.xports_idset id
    ok (
      id,
      record r {
        xports_maxid = maxid;
        xports_idset = idset;
        xports_count = incr_counter r.xports_count;
      },
    ))

unfoldable pub unregister_id : ℕ → Registry → Outcome Registry
unfolding id_is_valid
unregister_id id r =
    if id_is_valid id r
    then (do
      xports ← store r.xports id bad
      idset ← bitvec_clr_bit r.xports_idset id
      ok (record r {
        xports = xports;
        xports_version = incr_counter r.xports_version;
        xports_idset = idset;
        xports_count = decr_counter r.xports_count;
      }))
    else died
