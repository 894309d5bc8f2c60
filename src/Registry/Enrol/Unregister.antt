-- ===== src/Registry/Enrol/Unregister.antt =====
-- src/librpc/svc.c, `xprt_unregister`: what a transport leaves behind.
use native.Mathlib.Decide.{ℕ_discrete}
use rpc_mt.Common.{
  ℕ, ◌<◌, ◌≡◌, refl, ap, sym, ◌∙◌, inl, inr, true, some, List, arith, length, get_elem?, set,
  Bool-cases, ◌==◌, get_elem?-set_self, get_elem?-set_ne, length-set, ==→eq,
}
use rpc_mt.Common.Outcome.{ok, >>=-eq-ok, ok-injective, require, deref}
use rpc_mt.Bitvec.Cells.{clr_bit_ok}
use rpc_mt.Registry.{
  Registry, Xprt, XprtPtr, at, bad, null, PollFd, no_parent, store, xprt_to_mtxprt, decr_int,
  same_ptr, check_svcxprt_exists,
}
use rpc_mt.Registry.Ids.{unregister_id, id_is_valid}
use rpc_mt.Registry.Ids.Reuse.{unregister_id_ok}
use rpc_mt.Registry.Poll.{pollfd_remove}
use rpc_mt.Registry.Poll.Slots.{pollfd_remove_total}
use rpc_mt.Registry.Enrol.{leave_socket, detach, xprt_unregister_with_lock}
use rpc_mt.Registry.Enrol.Steps.{store_ok}
use rpc_mt.Registry.Enrol.Valid.{IsValid, count_parent-IsValid}

-- The socket's own slots are empty.
abbrev pub left : ℕ → List PollFd → Registry → Registry
left sock polled r = record r { pollfd = polled; sock_xports = set r.sock_xports sock bad }

leave_socket_ok :
    (sock : ℕ) (r r' : Registry)
    → leave_socket sock r ≡ ok r'
    → (polled : List PollFd) × (pollfd_remove r.pollfd r.max_pollfd sock ≡ ok polled)
      × (sock < length r.sock_xports)
      × (r' ≡ left sock polled r)
unfolding leave_socket
leave_socket_ok sock r r' e =
    let (polled, removed, rest) = >>=-eq-ok (pollfd_remove r.pollfd r.max_pollfd sock) _ e in
    let (v, wrote, last) = >>=-eq-ok (store r.sock_xports sock bad) _ rest in
    let (lt, put) = store_ok r.sock_xports sock bad wrote in
    (polled, removed, lt, sym (ok-injective last) ∙ rw put refl)

detach-IsValid : (x : Xprt) (r r' : Registry) → IsValid r → detach x r ≡ ok r' → IsValid r'
unfolding detach
detach-IsValid x r r' v e = elim (Bool-cases (x.parent == no_parent)) [
  | inr clone ↦ count_parent-IsValid decr_int x.parent r r' v (rw clone at e)
  | inl whole ↦
      let (polled, removed, lt, is) = leave_socket_ok x.sock r r' (rw whole at e) in
      let (polled', removed', len, _) =
        pollfd_remove_total r.pollfd r.max_pollfd x.sock
          (omega (arith, v.sized.pollfd, v.sized.polled)) in
      rw is (record {
        sized = record {
          created = v.sized.created;
          size = v.sized.size;
          xports = v.sized.xports;
          sock_xports = length-set r.sock_xports x.sock bad ∙ v.sized.sock_xports;
          idset = v.sized.idset;
          pollfd = ap length (ok-injective (sym removed ∙ removed')) ∙ len ∙ v.sized.pollfd;
          polled = v.sized.polled;
        };
        owned = v.owned;
      })
]

pub unregister_id-IsValid :
    (id : ℕ) (r r' : Registry) → IsValid r → unregister_id id r ≡ ok r' → IsValid r'
unregister_id-IsValid id r r' v e =
    let (idset, _, room, cleared, is) = unregister_id_ok id r r' e in
    let (_, _, _, size, _) = clr_bit_ok r.xports_idset id cleared in
    rw is (record {
      sized = record {
        created = v.sized.created;
        size = v.sized.size;
        xports = length-set r.xports id bad ∙ v.sized.xports;
        sock_xports = v.sized.sock_xports;
        idset = size ∙ v.sized.idset;
        pollfd = v.sized.pollfd;
        polled = v.sized.polled;
      };
      owned = λ j b e'. elim (ℕ_discrete id j) [
        | yes same ↦
            let gone : get_elem? (set r.xports id bad) j ≡ some bad =
              rw (sym same) (get_elem?-set_self r.xports id bad room) in
            absurd (ground (arith, gone, e'))
        | no other ↦ v.owned j b (sym (get_elem?-set_ne r.xports bad other) ∙ e')
      ];
    })

same_ptr_eq : (p q : XprtPtr) → same_ptr p q ≡ true → p ≡ q
same_ptr_eq null null e = refl
same_ptr_eq bad bad e = refl
same_ptr_eq (at a) (at b) e = ap at (==→eq a b e)
same_ptr_eq null bad e = cc
same_ptr_eq null (at b) e = cc
same_ptr_eq bad null e = cc
same_ptr_eq bad (at b) e = cc
same_ptr_eq (at a) null e = cc
same_ptr_eq (at a) bad e = cc

-- In a well-formed registry, unregistering a transport leaves a well-formed registry if it returns.
pub xprt_unregister_with_lock-IsValid :
    (p : XprtPtr) (r r' : Registry) → IsValid r → xprt_unregister_with_lock p r ≡ ok r' → IsValid r'
unfolding xprt_unregister_with_lock
xprt_unregister_with_lock-IsValid p r r' v e =
    let (_, _, e1) = >>=-eq-ok (check_svcxprt_exists p r) _ e in
    let (x, _, e2) = >>=-eq-ok (xprt_to_mtxprt p r) _ e1 in
    let (_, _, e3) = >>=-eq-ok (require (id_is_valid x.id r)) _ e2 in
    let (q, _, e4) = >>=-eq-ok (deref (get_elem? r.xports x.id)) _ e3 in
    let (_, _, e5) = >>=-eq-ok (require (same_ptr q p)) _ e4 in
    let (r1, detached, e6) = >>=-eq-ok (detach x r) _ e5 in
    unregister_id-IsValid x.id r1 r' (detach-IsValid x r r1 v detached) e6
