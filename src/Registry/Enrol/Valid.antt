-- ===== src/Registry/Enrol/Valid.antt =====
-- The well-formed states of the registry, and the parts of registration that keep them.
use native.Mathlib.Decide.{ℕ_discrete}
use rpc_mt.Common.{
  ℕ, ◌≤◌, ◌<◌, ◌≡◌, ◌≢◌, refl, ap, sym, ◌∙◌, inl, inr, true, some, arith, length, get_elem?, set,
  Bool-cases, ◌==◌, get_elem?-set_self, get_elem?-set_ne, length-set, lt_of_get_elem?,
}
use rpc_mt.Common.Outcome.{ok}
use rpc_mt.Bitvec.Cells.{set_bit_ok}
use rpc_mt.Registry.{
  Registry, Xprt, XprtPtr, at, bad, null, xprt_id_invalid, update, write_xprt, xprt_to_mtxprt,
}
use rpc_mt.Registry.Ids.{xprt_id_alloc}
use rpc_mt.Registry.Ids.Alloc.{xprt_id_alloc-Allocated}
use rpc_mt.Registry.Enrol.Steps.{count_parent_ok, take_socket_ok, polls}
use rpc_mt.Registry.Enrol.{take_socket, count_parent}

-- A slot of `xports` that holds a transport holds a live one, and its `mtxp_id` is the slot's index.
abbrev pub Owned : Registry → Type 0
Owned r =
    (id a : ℕ)
    → get_elem? r.xports id ≡ some (at a)
    → (x : Xprt) × (r.heap a ≡ some x) × (x.id ≡ id)

-- The arrays are as long as the counters say, and `xports_size` fits `FD_SETSIZE`.
pub record Sized (r : Registry) : Type 0 where
  pub created : r.created ≡ true
  pub size : r.xports_size ≤ 1024
  pub xports : length r.xports ≡ r.xports_size
  pub sock_xports : length r.sock_xports ≡ r.xports_size
  pub idset : r.xports_idset.sz ≡ r.xports_size
  pub pollfd : length r.pollfd ≡ r.pollfd_size
  pub polled : r.max_pollfd ≤ r.pollfd_size

pub record IsValid (r : Registry) : Type 0 where
  pub sized : Sized r
  pub owned : Owned r

pub xprt_id_alloc-Sized :
    (r : Registry) (id : ℕ) (r' : Registry) → Sized r → xprt_id_alloc r ≡ ok (id, r') → Sized r'
xprt_id_alloc-Sized r id r' s e =
    let (maxid, idset, chosen, inside, marked, result) = xprt_id_alloc-Allocated r id r' e in
    let (w, _, _, size, _) = set_bit_ok r.xports_idset id marked in
    rw result (record {
      created = s.created;
      size = s.size;
      xports = s.xports;
      sock_xports = s.sock_xports;
      idset = size ∙ s.idset;
      pollfd = s.pollfd;
      polled = s.polled;
    })

-- A transport that has no id yet is in no slot.
pub not_enrolled :
    (r : Registry) (a : ℕ) (x : Xprt)
    → IsValid r
    → r.heap a ≡ some x
    → x.id ≡ xprt_id_invalid
    → (j : ℕ) → get_elem? r.xports j ≢ some (at a)
not_enrolled r a x v here fresh j e =
    let (y, there, id) = v.owned j a e in
    let same : x ≡ y = cc in
    let lt : j < length r.xports = lt_of_get_elem? r.xports j e in
    absurd (omega (arith, ap (λ (t : Xprt). t.id) same, v.sized.size, v.sized.xports))

-- The new transport takes its slot.
pub enter_slot :
    (r : Registry) (a id : ℕ) (x : Xprt)
    → ((j : ℕ) → get_elem? r.xports j ≢ some (at a))
    → id < length r.xports
    → Owned r
    → Owned (record r {
      heap = update r.heap a (some (record x { id = id }));
      xports = set r.xports id (at a);
    })
enter_slot r a id x absent room owned j b e = elim (ℕ_discrete id j) [
  | yes same ↦
      let here : get_elem? (set r.xports id (at a)) j ≡ some (at a) =
        rw (sym same) (get_elem?-set_self r.xports id (at a) room) in
      let target : b ≡ a = ground (arith, here, e) in
      (record x { id = id }, ground (arith, target), same)
  | no other ↦
      let old : get_elem? r.xports j ≡ some (at b) =
        sym (get_elem?-set_ne r.xports (at a) other) ∙ e in
      let (y, there, idy) = owned j b old in (y, ground (arith, absent j, old, there), idy)
]

-- A change of a live transport that keeps its id.
pub change_xprt :
    (r : Registry) (q : XprtPtr) (y z : Xprt)
    → xprt_to_mtxprt q r ≡ ok y
    → z.id ≡ y.id
    → Owned r
    → Owned (write_xprt q z r)
change_xprt r null y z live keeps owned = cc
change_xprt r bad y z live keeps owned = cc
change_xprt r (at c) y z live keeps owned = λ j b e.
    let (y', there, idy) = owned j b e in
    elim (Bool-cases (b == c)) [
      | inl same ↦ (z, ground (arith, same), ground (arith, same, live, there, keeps))
      | inr other ↦ (y', ground (arith, other, there), idy)
    ]

pub write_xprt-Sized : (q : XprtPtr) (z : Xprt) (r : Registry) → Sized r → Sized (write_xprt q z r)
write_xprt-Sized null z r s = s
write_xprt-Sized bad z r s = s
write_xprt-Sized (at c) z r s = record {
  created = s.created;
  size = s.size;
  xports = s.xports;
  sock_xports = s.sock_xports;
  idset = s.idset;
  pollfd = s.pollfd;
  polled = s.polled;
}

-- The branch of a clone changes one reference count.
pub count_parent-IsValid :
    (f : ℕ → ℕ) (parent : ℕ) (r r' : Registry)
    → IsValid r
    → count_parent f parent r ≡ ok r'
    → IsValid r'
count_parent-IsValid f parent r r' v e =
    let (q, y, there, live, is) = count_parent_ok f parent r r' e in
    let z : Xprt = record y { refcnt = f y.refcnt } in
    rw is (record {
      sized = write_xprt-Sized q z r v.sized;
      owned = change_xprt r q y z live refl v.owned;
    })

-- The branch of a transport that is no clone changes `sock_xports` and the polled array.
pub take_socket-IsValid :
    (p : XprtPtr) (sock err : ℕ) (r r' : Registry)
    → IsValid r
    → take_socket p sock r ≡ ok (err, r')
    → IsValid r'
take_socket-IsValid p sock err r r' v e =
    let (s, m, room, fine, lt, le, is) =
      take_socket_ok p sock err r r' v.sized.pollfd v.sized.polled e in
    rw is (record {
      sized = record {
        created = v.sized.created;
        size = v.sized.size;
        xports = v.sized.xports;
        sock_xports = length-set r.sock_xports sock p ∙ v.sized.sock_xports;
        idset = v.sized.idset;
        pollfd = length-set r.pollfd s (polls sock) ∙ v.sized.pollfd;
        polled = le;
      };
      owned = v.owned;
    })
