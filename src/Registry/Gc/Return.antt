-- ===== src/Registry/Gc/Return.antt =====
-- src/librpc/svc.c, `svc_return`: a worker thread is done with a transport.
use Prim.Native.Nat.{bit_and, bit_or}
use rpc_mt.Common.{
  ◌-◌, ◌^◌, ℕ, ◌≡◌, ◌≢◌, refl, ◌∙◌, ◌⊎◌, inl, inr, Bool, true, false, some, if◌then◌else◌, ne→==,
  ==-self,
}
use rpc_mt.Common.Outcome.{ok}
use rpc_mt.Bitvec.{Bitvec, bitvec_get_bit}
use rpc_mt.Bitvec.Cells.{set_bit_total, set_bit_self}
use rpc_mt.Registry.{
  Registry, Xprt, XprtPtr, at, no_parent, progress_return, incr_counter, write_xprt,
}
use rpc_mt.Registry.Gc.{
  decode_xprt_progress, xprt_progress_clrbits, xprt_set_busy, xprt_progress_setbits, xprt_gc_mark,
  mark_clone, return_worker, svc_return,
}

-- A transport in use is written, and read.
module _ (r : Registry) (a : ℕ) (x : Xprt) where
  busy_run :
      (value : ℕ)
      → r.heap a ≡ some x
      → xprt_set_busy (at a) value r ≡ ok (write_xprt (at a) (record x { busy = value }) r)
  unfolding xprt_set_busy
  busy_run value here = rw here refl

  written : (z : Xprt) → (write_xprt (at a) z r).heap a ≡ some z
  written z = rw (==-self a) refl

  pub decode_run :
      (b : Bool)
      → r.heap a ≡ some x
      → bitvec_get_bit r.xprtgc_idset x.id ≡ ok b
      → decode_xprt_progress (at a) x.id r ≡ ok tt
  unfolding decode_xprt_progress
  decode_run b here was = rw here (rw was refl)

module _ (r : Registry) (a : ℕ) (x : Xprt) (b : Bool) (here : r.heap a ≡ some x)
    (was : bitvec_get_bit r.xprtgc_idset x.id ≡ ok b) where
  -- The transport with another progress.
  progress_run :
      (progress : ℕ)
      → decode_xprt_progress (at a) x.id (write_xprt (at a) (record x { progress = progress }) r)
        ≡ ok tt
  progress_run progress =
      let x' : Xprt = record x { progress = progress } in
      decode_run (write_xprt (at a) x' r) a x' b (written r a x x') was

  pub clrbits_run :
      (value : ℕ)
      → xprt_progress_clrbits (at a) value r
        ≡ ok (
          x.progress,
          write_xprt (at a) (record x { progress = bit_and x.progress (2 ^ 32 - 1 - value) }) r,
        )
  unfolding xprt_progress_clrbits
  clrbits_run value = rw here (rw (progress_run (bit_and x.progress (2 ^ 32 - 1 - value))) refl)

  pub setbits_run :
      (value : ℕ)
      → xprt_progress_setbits (at a) value r
        ≡ ok (x.progress, write_xprt (at a) (record x { progress = bit_or x.progress value }) r)
  unfolding xprt_progress_setbits
  setbits_run value = rw here (rw (progress_run (bit_or x.progress value)) refl)

-- Marking reads as marked after, and counts if it did not before.
pub xprt_gc_mark_total :
    (r : Registry) (a : ℕ) (x : Xprt) (b : Bool)
    → r.heap a ≡ some x
    → bitvec_get_bit r.xprtgc_idset x.id ≡ ok b
    → (idset : Bitvec) × (xprt_gc_mark (at a) r
        ≡ ok (record r {
          xprtgc_idset = idset;
          mark_count = if b then r.mark_count else incr_counter r.mark_count;
        }))
      × (bitvec_get_bit idset x.id ≡ ok true)
unfolding xprt_gc_mark
xprt_gc_mark_total r a x true here was = (r.xprtgc_idset, rw here (rw was refl), was)
xprt_gc_mark_total r a x false here was =
    let (idset, done) = set_bit_total r.xprtgc_idset x.id was in
    (idset, rw here (rw was (rw done refl)), set_bit_self r.xprtgc_idset x.id done)

mark_clone_run :
    (p : XprtPtr) (x : Xprt) (r : Registry)
    → x.cloneable ≡ true
    → x.parent ≢ no_parent
    → mark_clone p x r ≡ xprt_gc_mark p r
unfolding mark_clone
mark_clone_run p x r can clone = rw can (rw (ne→== x.parent no_parent clone) refl)

-- A worker that returns a clone.
worker_run :
    (r r3 : Registry) (a : ℕ) (x : Xprt) (b : Bool)
    → r.heap a ≡ some x
    → bitvec_get_bit r.xprtgc_idset x.id ≡ ok b
    → x.cloneable ≡ true
    → x.parent ≢ no_parent
    → xprt_gc_mark
        (at a)
        (write_xprt (at a) (record x { progress = bit_or x.progress progress_return }) r)
      ≡ ok r3
    → return_worker (at a) r ≡ ok r3
unfolding return_worker
worker_run r r3 a x b here was can clone done =
    let x' : Xprt = record x { progress = bit_or x.progress progress_return } in
    rw (setbits_run r a x b here was progress_return)
      (rw (==-self a) (mark_clone_run (at a) x' (write_xprt (at a) x' r) can clone ∙ done))

svc_return_run :
    (mtmode w : ℕ) (r r1 r2 r3 : Registry) (a : ℕ)
    → (mtmode ≡ 1) ⊎ (mtmode ≡ 2)
    → xprt_set_busy (at a) 1 r ≡ ok r1
    → return_worker (at a) r1 ≡ ok r2
    → xprt_set_busy (at a) 0 r2 ≡ ok r3
    → svc_return mtmode w (at a) r ≡ ok (w, r3)
unfolding svc_return
svc_return_run mtmode w r r1 r2 r3 a (inl m) e1 e2 e3 = rw (m, e1) (rw e2 (rw e3 refl))
svc_return_run mtmode w r r1 r2 r3 a (inr m) e1 e2 e3 = rw (m, e1) (rw e2 (rw e3 refl))

-- In a multi-threaded mode, a worker that returns a clone whose id lies in the set of marks leaves it
-- marked for collection, not busy, and with XPRT_RETURN among its progress bits, and counts a new mark;
-- no other transport and no table changes.
pub svc_return_total :
    (mtmode w : ℕ) (r : Registry) (a : ℕ) (x : Xprt) (b : Bool)
    → (mtmode ≡ 1) ⊎ (mtmode ≡ 2)
    → r.heap a ≡ some x
    → x.cloneable ≡ true
    → x.parent ≢ no_parent
    → bitvec_get_bit r.xprtgc_idset x.id ≡ ok b
    → (r' : Registry) × (svc_return mtmode w (at a) r ≡ ok (w, r'))
      × (r'.heap a ≡ some (record x { busy = 0; progress = bit_or x.progress progress_return }))
      × ((c : ℕ) → c ≢ a → r'.heap c ≡ r.heap c)
      × (bitvec_get_bit r'.xprtgc_idset x.id ≡ ok true)
      × (r'.mark_count ≡ (if b then r.mark_count else incr_counter r.mark_count))
      × (r'.xports ≡ r.xports)
      × (r'.sock_xports ≡ r.sock_xports)
svc_return_total mtmode w r a x b mode here can clone was =
    let x1 : Xprt = record x { busy = 1 } in
    let x2 : Xprt = record x1 { progress = bit_or x.progress progress_return } in
    let r1 = write_xprt (at a) x1 r in
    let r2 = write_xprt (at a) x2 r1 in
    let (idset, done, marked) = xprt_gc_mark_total r2 a x2 b (written r1 a x1 x2) was in
    let r3 : Registry = record r2 {
      xprtgc_idset = idset;
      mark_count = if b then r.mark_count else incr_counter r.mark_count;
    } in
    let r4 = write_xprt (at a) (record x2 { busy = 0 }) r3 in
    (
      r4,
      svc_return_run mtmode w r r1 r3 r4 a mode (busy_run r a x 1 here)
          (worker_run r1 r3 a x1 b (written r a x x1) was can clone done)
          (busy_run r3 a x2 0 (written r1 a x1 x2)),
      written r3 a x2 (record x2 { busy = 0 }),
      λ c apart. rw (ne→== c a apart) refl,
      marked,
      refl,
      refl,
      refl,
    )
