-- ===== src/Registry/Enrol/Register.antt =====
-- src/librpc/svc.c, `xprt_register`: what a new transport finds and what it gets.
use rpc_mt.Common.{
  ℕ, ◌<◌, ◌≡◌, refl, ap, sym, ◌∙◌, inl, inr, true, some, List, arith, length, get_elem?, set, leb,
  Bool-cases, ◌==◌, get_elem?-set_self, length-set, ==-self,
}
use rpc_mt.Common.Outcome.{ok, >>=-eq-ok, ok-injective}
use rpc_mt.Registry.{
  Registry, Xprt, XprtPtr, at, no_parent, xprt_id_invalid, store, update, write_xprt, incr_counter,
  incr_int, xports_init,
}
use rpc_mt.Registry.Ids.{xprt_id_alloc}
use rpc_mt.Registry.Ids.Alloc.{xprt_id_alloc-Allocated}
use rpc_mt.Registry.Enrol.{place, attach, ensure_id, count_parent, xprt_register_with_lock}
use rpc_mt.Registry.Enrol.Steps.{Taken, store_ok, take_socket_ok, polls}
use rpc_mt.Registry.Enrol.Valid.{
  IsValid, xprt_id_alloc-Sized, not_enrolled, enter_slot, count_parent-IsValid, take_socket-IsValid,
}

-- The transport has its id and its slot.
abbrev pub entered : Registry → ℕ → Xprt → ℕ → Registry
entered r a x id = record r {
  heap = update r.heap a (some (record x { id = id }));
  xports = set r.xports id (at a);
  xports_version = incr_counter r.xports_version;
}

place_ok :
    (p : XprtPtr) (id : ℕ) (r r' : Registry)
    → place p id r ≡ ok r'
    → (id < length r.xports)
      × (r'
          ≡ record r { xports = set r.xports id p; xports_version = incr_counter r.xports_version })
unfolding place
place_ok p id r r' e = elim (Bool-cases (leb r.xports_size id)) [
  | inl full ↦ absurd (ground (arith, e, full))
  | inr room ↦
      let (v, wrote, last) = >>=-eq-ok (store r.xports id p) _ (rw room at e) in
      let (lt, put) = store_ok r.xports id p wrote in (lt, sym (ok-injective last) ∙ rw put refl)
]

-- A successful `ensure_id` of a transport that has no id.
ensure_id_ok :
    (a : ℕ) (x : Xprt) (r : Registry) (id : ℕ) (r2 : Registry)
    → r.heap a ≡ some x
    → x.id ≡ xprt_id_invalid
    → ensure_id (at a) r ≡ ok (id, r2)
    → (r1 : Registry) × (xprt_id_alloc r ≡ ok (id, r1))
      × (r2 ≡ write_xprt (at a) (record x { id = id }) r1)
unfolding ensure_id
ensure_id_ok a x r id r2 here fresh e =
    let test : (x.id == xprt_id_invalid) ≡ true = rw fresh (==-self xprt_id_invalid) in
    let ((id', r1), given, last) = >>=-eq-ok (xprt_id_alloc r) _ (rw (here, test) at e) in
    let same = ok-injective last in
    let same_id : id' ≡ id = ap (λ (t : ℕ × Registry). t.0) same in
    (
      r1,
      given ∙ ap (λ (t : ℕ). ok (t, r1)) same_id,
      sym (ap (λ (t : ℕ × Registry). t.1) same)
          ∙ ap (λ (t : ℕ). write_xprt (at a) (record x { id = t }) r1) same_id,
    )

module _ (n a : ℕ) (x : Xprt) (r : Registry) (up : r.created ≡ true) (here : r.heap a ≡ some x)
    (fresh : x.id ≡ xprt_id_invalid) where
  init : xports_init n r ≡ r
  unfolding xports_init
  init = ground (arith, up)

  register_parts :
      (err : ℕ) (r' : Registry)
      → xprt_register_with_lock n (at a) r ≡ ok (err, r')
      → (id : ℕ) × (r1 : Registry) × (xprt_id_alloc r ≡ ok (id, r1))
        × (id < length r1.xports)
        × (attach (at a) x (entered r1 a x id) ≡ ok (err, r'))
  unfolding xprt_register_with_lock
  register_parts err r' e =
      let ((id, r2), given, rest) = >>=-eq-ok (ensure_id (at a) r) _ (rw (here, init) at e) in
      let (r3, placed, last) = >>=-eq-ok (place (at a) id r2) _ rest in
      join id r2 r3 (ensure_id_ok a x r id r2 here fresh given) (place_ok (at a) id r2 r3 placed)
        last
    where
      join :
          (id : ℕ) (r2 r3 : Registry)
          → (r1 : Registry) × (xprt_id_alloc r ≡ ok (id, r1))
            × (r2 ≡ write_xprt (at a) (record x { id = id }) r1)
          → (id < length r2.xports)
            × (r3 ≡ record r2 {
              xports = set r2.xports id (at a);
              xports_version = incr_counter r2.xports_version;
            })
          → attach (at a) x r3 ≡ ok (err, r')
          → (id : ℕ) × (r1 : Registry) × (xprt_id_alloc r ≡ ok (id, r1))
            × (id < length r1.xports)
            × (attach (at a) x (entered r1 a x id) ≡ ok (err, r'))
      join id r2 r3 (r1, given, is) (lt, put) last = (
        id,
        r1,
        given,
        rw (ap (λ (t : Registry). t.xports) is) at lt,
        ap (attach (at a) x) (sym (put ∙ rw is refl)) ∙ last,
      )

attach-IsValid :
    (p : XprtPtr) (x : Xprt) (err : ℕ) (r r' : Registry)
    → IsValid r
    → attach p x r ≡ ok (err, r')
    → IsValid r'
unfolding attach
attach-IsValid p x err r r' v e = elim (Bool-cases (x.parent == no_parent)) [
  | inl whole ↦ take_socket-IsValid p x.sock err r r' v (rw whole at e)
  | inr clone ↦
      let (r4, counted, last) = >>=-eq-ok (count_parent incr_int x.parent r) _ (rw clone at e) in
      count_parent-IsValid incr_int x.parent r r' v
        (counted ∙ ap ok (ap (λ (t : ℕ × Registry). t.1) (ok-injective last)))
]

module _ (n a : ℕ) (x : Xprt) (r : Registry) (v : IsValid r) (here : r.heap a ≡ some x)
    (fresh : x.id ≡ xprt_id_invalid) where
  entered-IsValid :
      (id : ℕ) (r1 : Registry)
      → xprt_id_alloc r ≡ ok (id, r1)
      → id < length r1.xports
      → IsValid (entered r1 a x id)
  entered-IsValid id r1 given room =
      let (maxid, idset, _, _, _, is) = xprt_id_alloc-Allocated r id r1 given in
      let s = xprt_id_alloc-Sized r id r1 v.sized given in
      let same_xports : r1.xports ≡ r.xports = ap (λ (t : Registry). t.xports) is in
      let same_heap : r1.heap ≡ r.heap = ap (λ (t : Registry). t.heap) is in
      record {
        sized = record {
          created = s.created;
          size = s.size;
          xports = length-set r1.xports id (at a) ∙ s.xports;
          sock_xports = s.sock_xports;
          idset = s.idset;
          pollfd = s.pollfd;
          polled = s.polled;
        };
        owned =
            enter_slot r1 a id x (λ j. rw same_xports (not_enrolled r a x v here fresh j)) room
              (λ j b e.
                rw same_heap
                  (v.owned j b (sym (ap (λ (t : List XprtPtr). get_elem? t j) same_xports) ∙ e)));
      }

  -- In a well-formed registry, a registration of a transport that has no id, clone or not, leaves a
  -- well-formed registry if it returns.
  pub xprt_register_with_lock-IsValid :
      (err : ℕ) (r' : Registry) → xprt_register_with_lock n (at a) r ≡ ok (err, r') → IsValid r'
  xprt_register_with_lock-IsValid err r' e =
      let (id, r1, given, room, last) =
        register_parts n a x r v.sized.created here fresh err r' e in
      attach-IsValid (at a) x err (entered r1 a x id) r' (entered-IsValid id r1 given room) last

  -- In a well-formed registry, if the registration of a transport that has no id and is no clone
  -- returns, then with status 0, and the transport has an id below `xports_size`, stands in the slot of
  -- that id and in the slot of its socket, and its socket is polled for input.
  pub xprt_register_with_lock_serves :
      (err : ℕ) (r' : Registry)
      → x.parent ≡ no_parent
      → xprt_register_with_lock n (at a) r ≡ ok (err, r')
      → (id s : ℕ) × (err ≡ 0)
        × (id < r'.xports_size)
        × (r'.heap a ≡ some (record x { id = id }))
        × (get_elem? r'.xports id ≡ some (at a))
        × (get_elem? r'.sock_xports x.sock ≡ some (at a))
        × (s < r'.max_pollfd)
        × (get_elem? r'.pollfd s ≡ some (polls x.sock))
  unfolding attach
  xprt_register_with_lock_serves err r' whole e =
      let (id, r1, given, room, last) =
        register_parts n a x r v.sized.created here fresh err r' e in
      let v1 = entered-IsValid id r1 given room in
      let test : (x.parent == no_parent) ≡ true = rw whole (==-self no_parent) in
      serve id r1 room v1 (
        take_socket_ok (at a) x.sock err (entered r1 a x id) r' v1.sized.pollfd v1.sized.polled
          (rw test at last))
    where
      serve :
          (id : ℕ) (r1 : Registry)
          → id < length r1.xports
          → IsValid (entered r1 a x id)
          → Taken (at a) x.sock err (entered r1 a x id) r'
          → (id s : ℕ) × (err ≡ 0)
            × (id < r'.xports_size)
            × (r'.heap a ≡ some (record x { id = id }))
            × (get_elem? r'.xports id ≡ some (at a))
            × (get_elem? r'.sock_xports x.sock ≡ some (at a))
            × (s < r'.max_pollfd)
            × (get_elem? r'.pollfd s ≡ some (polls x.sock))
      serve id r1 room v1 (s, m, lt, fine, below, le, is) = rw is (
        id,
        s,
        fine,
        omega (arith, room, v1.sized.xports, length-set {0} r1.xports id (at a)),
        ground (arith),
        get_elem?-set_self r1.xports id (at a) room,
        get_elem?-set_self r1.sock_xports x.sock (at a) lt,
        below,
        get_elem?-set_self r1.pollfd s (polls x.sock) (omega (arith, v1.sized.pollfd)),
      )
