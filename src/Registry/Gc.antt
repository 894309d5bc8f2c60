-- ===== src/Registry/Gc.antt =====
-- src/librpc/svc.c, garbage collection: transports that are done with are marked, and destroyed later;
-- svc_udp.c's and svc_tcp.c's `xp_destroy`.
pub mod Destroy
pub mod Reap
pub mod Return
use Prim.Native.Nat.{bit_and, bit_or}
use rpc_mt.Common.{
  ℕ, zero, suc, ◌+◌, ◌-◌, ◌^◌, ◌%◌, Bool, true, false, not, ◌&&◌, ◌||◌, Option, none, some, List,
  if◌then◌else◌, ltb, leb, ◌==◌, get_elem?,
}
use rpc_mt.Common.Outcome.{Outcome, ok, died, fault, ◌>>=◌, ◌>>◌, deref, require}
use rpc_mt.Bitvec.{Bitvec, bitvec_set_bit, bitvec_clr_bit, bitvec_get_bit}
use rpc_mt.Registry.{
  Registry, Xprt, XprtPtr, null, bad, at, Transport, udp, tcp, no_parent, progress_return,
  incr_counter, decr_counter, xprt_to_mtxprt, write_xprt, update, store,
}
use rpc_mt.Registry.Enrol.{xprt_unregister_with_lock}

unfoldable pub xprt_set_busy : XprtPtr → ℕ → Registry → Outcome Registry
xprt_set_busy p value r = do x ← xprt_to_mtxprt p r; ok (write_xprt p (record x { busy = value }) r)

-- The socket of a transport that is no clone is closed if it is open.
abbrev pub close_socket : Xprt → Registry → Registry
close_socket x r =
    if x.parent == no_parent then record r { open_fd = update r.open_fd x.sock false } else r

-- `free (xprt)`.
abbrev pub free_xprt : XprtPtr → Registry → Registry
free_xprt null r = r
free_xprt bad r = r
free_xprt (at a) r = record r { heap = update r.heap a none }

-- The buffers of the transport are freed with it.
unfoldable pub svcudp_destroy : XprtPtr → Registry → Outcome Registry
svcudp_destroy p r = do
  x ← xprt_to_mtxprt p r
  r' ← xprt_unregister_with_lock p (close_socket x r)
  ok (free_xprt p r')

unfoldable pub svctcp_destroy : XprtPtr → Registry → Outcome Registry
svctcp_destroy p r0 = do
  r ← xprt_set_busy p 1 r0
  x ← xprt_to_mtxprt p r
  r' ← xprt_unregister_with_lock p (write_xprt p (record x { port = 0 }) (close_socket x r))
  ok (free_xprt p r')

-- `SVC_DESTROY`.
unfoldable pub svc_destroy : XprtPtr → Registry → Outcome Registry
svc_destroy p r = do
  x ← xprt_to_mtxprt p r
  elim x.ops [ udp ↦ svcudp_destroy p r | tcp ↦ svctcp_destroy p r ]

unfoldable pub xprt_gc_mark : XprtPtr → Registry → Outcome Registry
xprt_gc_mark p r = do
  x ← xprt_to_mtxprt p r
  marked ← bitvec_get_bit r.xprtgc_idset x.id
  if marked then ok r else (do
    idset ← bitvec_set_bit r.xprtgc_idset x.id
    ok (record r { xprtgc_idset = idset; mark_count = incr_counter r.mark_count }))

-- The text for the trace is left out; making it asks the set of marks for the id, which can abort.
unfoldable pub decode_xprt_progress : XprtPtr → (id : ℕ) → Registry → Outcome (Unit {0})
decode_xprt_progress bad id r = ok tt
decode_xprt_progress null id r = ok tt
decode_xprt_progress (at a) id r = do
  xprt_to_mtxprt (at a) r
  bitvec_get_bit r.xprtgc_idset id
  ok tt

-- The progress is written, and traced; the old value is returned.
abbrev set_progress : XprtPtr → Xprt → ℕ → Registry → Outcome (ℕ × Registry)
set_progress p x progress r0 =
    (let r = write_xprt p (record x { progress = progress }) r0 in
      decode_xprt_progress p x.id r >>= λ _. ok (x.progress, r))

unfoldable pub xprt_progress_setbits : XprtPtr → ℕ → Registry → Outcome (ℕ × Registry)
xprt_progress_setbits p value r = do
  x ← xprt_to_mtxprt p r
  set_progress p x (bit_or x.progress value) r

unfoldable pub xprt_progress_clrbits : XprtPtr → ℕ → Registry → Outcome (ℕ × Registry)
xprt_progress_clrbits p value r = do
  x ← xprt_to_mtxprt p r
  set_progress p x (bit_and x.progress (2 ^ 32 - 1 - value)) r

-- A clone is marked, and of the transports that can be cloned only a clone may return.
unfoldable pub mark_clone : XprtPtr → Xprt → Registry → Outcome Registry
mark_clone p x r =
    if x.cloneable then (if x.parent == no_parent then died else xprt_gc_mark p r) else ok r

-- A worker of a multi-threaded server is done.
unfoldable pub return_worker : XprtPtr → Registry → Outcome Registry
return_worker p r0 = do
  (old, r) ← xprt_progress_setbits p progress_return r0
  x ← xprt_to_mtxprt p r
  mark_clone p x r

-- `mtmode` and `worker_return` are variables of the server; the new value of the second is returned.
unfoldable pub svc_return : (mtmode worker_return : ℕ) → XprtPtr → Registry → Outcome (ℕ × Registry)
svc_return mtmode worker_return p r0 = do
  r ← xprt_set_busy p 1 r0
  (w, r') ←
      if mtmode == 0
      then ok (1, r)
      else if mtmode == 1 || mtmode == 2
      then (return_worker p r >>= λ s. ok (worker_return, s))
      else died
  r'' ← xprt_set_busy p 0 r'
  ok (w, r'')

-- A transport that no clone refers to is destroyed: the number of those destroyed, and the new state.
unfoldable pub reap : XprtPtr → (id : ℕ) → Xprt → Registry → Outcome (ℕ × Registry)
reap p id x r =
    if not (x.parent == no_parent) || x.refcnt == 0
    then (do
      r' ← svc_destroy p r
      xports ← store r'.xports id bad
      ok (1, record r' { xports = xports }))
    else ok (0, r)

unfoldable pub unmark : (id : ℕ) → Registry → Outcome Registry
unmark id r = do
  idset ← bitvec_clr_bit r.xprtgc_idset id
  ok (record r { xprtgc_idset = idset; mark_count = decr_counter r.mark_count })

abbrev pub is_bad : XprtPtr → Bool
is_bad bad = true
is_bad _ = false

unfoldable pub reap_marked : (id : ℕ) → Registry → Outcome (ℕ × Registry)
reap_marked id r = do
  q ← deref (get_elem? r.xports id)
  if is_bad q then ok (0, r) else (do
    x ← xprt_to_mtxprt q r
    (count, r') ← reap q id x r
    r'' ← unmark id r'
    ok (count, r''))

unfoldable pub xprt_gc_reap_one : (id : ℕ) → Registry → Outcome (ℕ × Registry)
xprt_gc_reap_one id r = bitvec_get_bit r.xprtgc_idset id >>= λ marked. elim marked [
  | true ↦ reap_marked id r
  | false ↦ ok (0, r)
]

-- A transport that is busy has an open socket; the first argument counts the rounds to go.
unfoldable pub fsck_loop : ℕ → (id : ℕ) → Registry → Outcome (Unit {0})
fsck_loop zero id r = ok tt
fsck_loop (suc k) id r = deref (get_elem? r.xports id) >>= λ q. elim (is_bad q) [
  | true ↦ fsck_loop k (id + 1) r
  | false ↦ xprt_to_mtxprt q r >>= λ x. elim (not (x.busy == 0) && not (r.open_fd x.sock)) [
    | true ↦ died
    | false ↦ fsck_loop k (id + 1) r
  ]
]

-- The ids from 0 to `xports_maxid`; without any, the bound is the largest `size_t`.
abbrev pub rounds : Registry → ℕ
rounds r = r.xports_maxid + 1

unfoldable pub fsck_busy : Registry → Outcome (Unit {0})
fsck_busy r = fsck_loop (rounds r) 0 r

unfoldable pub reap_loop : ℕ → (id count : ℕ) → Registry → Outcome (ℕ × Registry)
reap_loop zero id count r = ok (count, r)
reap_loop (suc k) id count r =
    if r.mark_count == 0
    then ok (count, r)
    else (bitvec_get_bit r.xprtgc_idset id >>= λ marked. elim marked [
      | true ↦ xprt_gc_reap_one id r >>= λ done. reap_loop k (id + 1) (count + done.0) done.1
      | false ↦ reap_loop k (id + 1) count r
    ])

unfoldable pub xprt_gc_reap_all : Registry → Outcome (ℕ × Registry)
xprt_gc_reap_all r = do fsck_busy r; reap_loop (rounds r) 0 0 r
