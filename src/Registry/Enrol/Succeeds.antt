-- ===== src/Registry/Enrol/Succeeds.antt =====
-- src/librpc/svc.c, `xprt_register`: where it succeeds.
use rpc_mt.Common.{
  ℕ, ◌<◌, ◌≡◌, refl, ap, sym, ◌∙◌, inl, inr, ◌⊎◌, true, false, some, List, arith, length, get_elem?,
  set, leb, ◌==◌, ==-self, lt_of_get_elem?, get_elem?-set_self,
}
use rpc_mt.Common.Outcome.{ok}
use rpc_mt.Registry.{
  Registry, Xprt, XprtPtr, null, bad, at, no_parent, xprt_id_invalid, store, write_xprt,
  xports_init,
}
use rpc_mt.Registry.Ids.{xprt_id_alloc}
use rpc_mt.Registry.Ids.Alloc.{xprt_id_alloc-Allocated}
use rpc_mt.Registry.Poll.{init_pollfd}
use rpc_mt.Registry.Poll.Slots.{init_pollfd_total}
use rpc_mt.Registry.Enrol.{
  place, attach, take_socket, socket_xprt_is_available, ensure_id, xprt_register_with_lock,
}
use rpc_mt.Registry.Enrol.Valid.{IsValid, xprt_id_alloc-Sized}
use rpc_mt.Registry.Enrol.Register.{entered, xprt_register_with_lock-IsValid}

store_total {ℓ} :
    {A : Type ℓ} (v : List A) (i : ℕ) (a : A) → i < length v → store v i a ≡ ok (set v i a)
store_total v i a lt = ground (arith, lt)

-- An unused socket is taken where the polled array has room.
take_socket_total :
    (p : XprtPtr) (sock : ℕ) (r : Registry)
    → length r.pollfd ≡ r.pollfd_size
    → r.max_pollfd < r.pollfd_size
    → (get_elem? r.sock_xports sock ≡ some null) ⊎ (get_elem? r.sock_xports sock ≡ some bad)
    → (r' : Registry) × (take_socket p sock r ≡ ok (0, r')) × (r'.xports ≡ r.xports)
unfolding take_socket socket_xprt_is_available
take_socket_total p sock r size fits unused =
    let room : sock < length r.sock_xports = elim unused [
      | inl e ↦ lt_of_get_elem? r.sock_xports sock e
      | inr e ↦ lt_of_get_elem? r.sock_xports sock e
    ] in
    elim (init_pollfd_total sock with_socket size (omega (arith, fits))) [
      | inl (s, m, _, _, _, done) ↦ (_, run room _ done, refl)
      | inr (_, full, _) ↦ absurd (omega (arith, fits, full))
    ]
  where
    with_socket : Registry
    with_socket = record r { sock_xports = set r.sock_xports sock p }

    run :
        sock < length r.sock_xports
        → (r' : Registry) → init_pollfd sock with_socket ≡ ok (0, r')
        → take_socket p sock r ≡ ok (0, r')
    run room r' done = elim unused [
      | inl e ↦ rw (e, store_total r.sock_xports sock p room) done
      | inr e ↦ rw (e, store_total r.sock_xports sock p room) done
    ]

module _ (n a : ℕ) (x : Xprt) (r : Registry) (v : IsValid r) (here : r.heap a ≡ some x)
    (fresh : x.id ≡ xprt_id_invalid) where
  init : xports_init n r ≡ r
  unfolding xports_init
  init = ground (arith, v.sized.created)

  ensure_id_run :
      (id : ℕ) (r1 : Registry)
      → xprt_id_alloc r ≡ ok (id, r1)
      → ensure_id (at a) r ≡ ok (id, write_xprt (at a) (record x { id = id }) r1)
  unfolding ensure_id
  ensure_id_run id r1 given =
      let test : (x.id == xprt_id_invalid) ≡ true = rw fresh (==-self xprt_id_invalid) in
      rw (here, test, given) refl

  place_run :
      (id : ℕ) (r1 : Registry)
      → id < r1.xports_size
      → id < length r1.xports
      → place (at a) id (write_xprt (at a) (record x { id = id }) r1) ≡ ok (entered r1 a x id)
  unfolding place
  place_run id r1 lt room =
      let test : leb r1.xports_size id ≡ false = ground (arith, lt) in
      rw (test, store_total r1.xports id (at a) room) refl

  -- In a well-formed registry, let a transport have no id and be no clone, let an id be left to give
  -- out, let the slot of its socket be unused and let the polled array have room. Then the registration
  -- succeeds with status 0, leaves a well-formed registry, and the transport stands in the slot of the
  -- id that `xprt_id_alloc` gives.
  pub xprt_register_with_lock_total :
      (id : ℕ) (r1 : Registry)
      → xprt_id_alloc r ≡ ok (id, r1)
      → x.parent ≡ no_parent
      → r.max_pollfd < r.pollfd_size
      → (get_elem? r.sock_xports x.sock ≡ some null) ⊎ (get_elem? r.sock_xports x.sock ≡ some bad)
      → (r' : Registry) × (xprt_register_with_lock n (at a) r ≡ ok (0, r'))
        × IsValid r'
        × (get_elem? r'.xports id ≡ some (at a))
  unfolding xprt_register_with_lock attach
  xprt_register_with_lock_total id r1 given whole fits unused =
      let s = xprt_id_alloc-Sized r id r1 v.sized given in
      let (maxid, idset, _, lt, _, is) = xprt_id_alloc-Allocated r id r1 given in
      let test : (x.parent == no_parent) ≡ true = rw whole (==-self no_parent) in
      let max : r1.max_pollfd ≡ r.max_pollfd = ap (λ (t : Registry). t.max_pollfd) is in
      let size : r1.pollfd_size ≡ r.pollfd_size = ap (λ (t : Registry). t.pollfd_size) is in
      let socks : r1.sock_xports ≡ r.sock_xports = ap (λ (t : Registry). t.sock_xports) is in
      let xsize : r1.xports_size ≡ r.xports_size = ap (λ (t : Registry). t.xports_size) is in
      let room : id < length r1.xports = omega (arith, s.xports, lt, xsize) in
      let below : id < r1.xports_size = omega (arith, lt, xsize) in
      let (r', taken, same) =
        take_socket_total (at a) x.sock (entered r1 a x id) s.pollfd
          (omega (arith, fits, max, size)) (rw (sym socks) at unused) in
      let done : xprt_register_with_lock n (at a) r ≡ ok (0, r') =
        rw (here, init, ensure_id_run id r1 given, place_run id r1 below room, test) taken in
      (
        r',
        done,
        xprt_register_with_lock-IsValid n a x r v here fresh 0 r' done,
        ap (λ (t : List XprtPtr). get_elem? t id) same
            ∙ get_elem?-set_self r1.xports id (at a) room,
      )
