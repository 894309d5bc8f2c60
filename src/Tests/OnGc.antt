-- ===== src/Tests/OnGc.antt =====
-- Runs of the garbage collection of src/librpc/svc.c on one marked transport.
use Prim.Native.Nat.{bit_or}
use rpc_mt.Common.{
  ℕ, ◌≡◌, ◌≢◌, refl, inr, arith, true, false, [], ◌∷◌, none, some, get_elem?, ◌==◌, if◌then◌else◌,
}
use rpc_mt.Common.Outcome.{ok}
use rpc_mt.Bitvec.{Bitvec, bitvec_get_bit, wpos, bpos}
use rpc_mt.Registry.{Registry, Xprt, at, bad, decr_counter, incr_counter, progress_return}
use rpc_mt.Registry.Enrol.Valid.{IsValid}
use rpc_mt.Registry.Enrol.Leave.{Enrolled}
use rpc_mt.Registry.Gc.{svc_destroy, xprt_gc_reap_one, svc_return}
use rpc_mt.Registry.Gc.Return.{svc_return_total}
use rpc_mt.Registry.Gc.Destroy.{Destroyed, svc_destroy_total}
use rpc_mt.Registry.Gc.Reap.{xprt_gc_reap_one_total}
use rpc_mt.Tests.OnRegistry.{live, unlisted, cold}
use rpc_mt.Tests.OnEnrol.{listed, live-IsValid, live-Enrolled}

svc_destroy_total_example :
    (r' : Registry) × (svc_destroy (at 1) live ≡ ok r') × Destroyed live 1 listed r'
svc_destroy_total_example = svc_destroy_total live 1 listed live-IsValid live-Enrolled

abbrev done_with : Registry
done_with = record live { xprtgc_idset = record { vec = 1 ∷ 0 ∷ []; sz = 66 }; mark_count = 1 }

done_with-IsValid : IsValid done_with
done_with-IsValid = record {
  sized = record {
    created = live-IsValid.sized.created;
    size = live-IsValid.sized.size;
    xports = live-IsValid.sized.xports;
    sock_xports = live-IsValid.sized.sock_xports;
    idset = live-IsValid.sized.idset;
    pollfd = live-IsValid.sized.pollfd;
    polled = live-IsValid.sized.polled;
  };
  owned = live-IsValid.owned;
}

done_with-Enrolled : Enrolled done_with 1 listed
done_with-Enrolled = record {
  here = live-Enrolled.here;
  whole = live-Enrolled.whole;
  slot = live-Enrolled.slot;
  id = live-Enrolled.id;
  marked = live-Enrolled.marked;
  sock = live-Enrolled.sock;
}

zero_marked : bitvec_get_bit done_with.xprtgc_idset 0 ≡ ok true
unfolding bitvec_get_bit wpos bpos
zero_marked = refl

xprt_gc_reap_one_total_example :
    (◌≡◌ {A = ℕ} 0 0
      → (r' : Registry) × (xprt_gc_reap_one 0 done_with ≡ ok (1, r'))
        × IsValid r'
        × (r'.heap 1 ≡ none)
        × (get_elem? r'.xports 0 ≡ some bad)
        × (r'.open_fd 5 ≡ false)
        × (bitvec_get_bit r'.xprtgc_idset 0 ≡ ok false)
        × (r'.mark_count ≡ decr_counter 1))
    × (◌≢◌ {A = ℕ} 0 0
        → (idset : Bitvec) × (xprt_gc_reap_one 0 done_with
            ≡ ok (0, record done_with { xprtgc_idset = idset; mark_count = decr_counter 1 }))
          × (bitvec_get_bit idset 0 ≡ ok false))
xprt_gc_reap_one_total_example =
    xprt_gc_reap_one_total done_with 1 listed done_with-IsValid done_with-Enrolled zero_marked

-- A clone of transport 0, with the id 3.
abbrev clone : Xprt
clone = record unlisted { id = 3; parent = 0; busy = 1 }

abbrev working : Registry
working = record cold {
  heap = λ a. if a == 1 then some clone else none;
  xprtgc_idset = record { vec = 0 ∷ 0 ∷ []; sz = 66 };
}

three_clear : bitvec_get_bit working.xprtgc_idset 3 ≡ ok false
unfolding bitvec_get_bit wpos bpos
three_clear = refl

svc_return_total_example :
    (r' : Registry) × (svc_return 2 0 (at 1) working ≡ ok (0, r'))
    × (r'.heap 1 ≡ some (record clone { busy = 0; progress = bit_or 0 progress_return }))
    × ((c : ℕ) → c ≢ 1 → r'.heap c ≡ working.heap c)
    × (bitvec_get_bit r'.xprtgc_idset 3 ≡ ok true)
    × (r'.mark_count ≡ (if false then 0 else incr_counter 0))
    × (r'.xports ≡ working.xports)
    × (r'.sock_xports ≡ working.sock_xports)
svc_return_total_example =
    svc_return_total 2 0 working 1 clone false (inr refl) refl refl (omega arith) three_clear
