-- ===== src/Registry/Enrol/Steps.antt =====
-- What each step of registration leaves, where it succeeds.
use rpc_mt.Common.{
  ℕ, ◌≤◌, ◌<◌, ◌≡◌, refl, ap, sym, ◌∙◌, inl, inr, Bool, true, false, Option, none, some, List,
  arith, length, get_elem?, set, ltb, if◌then◌else◌, Bool-cases, ltb→lt,
}
use rpc_mt.Common.Outcome.{ok, died, >>=-eq-ok, ok-injective, ◌>>=◌, deref}
use rpc_mt.Registry.{Registry, Xprt, XprtPtr, store, write_xprt, xprt_to_mtxprt, PollFd}
use rpc_mt.Registry.Poll.{init_pollfd, read_events}
use rpc_mt.Registry.Poll.Slots.{init_pollfd_total}
use rpc_mt.Registry.Enrol.{take_socket, count_parent, socket_xprt_is_available}

pub deref_ok {ℓ} : {A : Type ℓ} (o : Option A) {a : A} → deref o ≡ ok a → o ≡ some a
deref_ok none e = cc
deref_ok (some b) e = ap some (ok-injective e)

-- A successful write into an array.
pub store_ok {ℓ} :
    {A : Type ℓ} (v : List A) (i : ℕ) (a : A) {v' : List A}
    → store v i a ≡ ok v'
    → (i < length v) × (v' ≡ set v i a)
store_ok v i a e = elim (Bool-cases (ltb i (length v))) [
  | inl room ↦ (ltb→lt _ _ room, ground (arith, room, e))
  | inr out ↦ absurd (ground (arith, out, e))
]

pub count_parent_ok :
    (f : ℕ → ℕ) (parent : ℕ) (r r' : Registry)
    → count_parent f parent r ≡ ok r'
    → (q : XprtPtr) × (y : Xprt) × (get_elem? r.xports parent ≡ some q)
      × (xprt_to_mtxprt q r ≡ ok y)
      × (r' ≡ write_xprt q (record y { refcnt = f y.refcnt }) r)
unfolding count_parent
count_parent_ok f parent r r' e =
    let (q, there, rest) = >>=-eq-ok (deref (get_elem? r.xports parent)) _ e in
    let (y, live, last) = >>=-eq-ok (xprt_to_mtxprt q r) _ rest in
    (q, y, deref_ok _ there, live, sym (ok-injective last))

abbrev pub polls : ℕ → PollFd
polls sock = record { fd = some sock; events = read_events; revents = 0 }

-- The socket is the transport's, and some slot of the polled array is the socket's.
abbrev pub Taken : XprtPtr → ℕ → ℕ → Registry → Registry → Type 0
Taken p sock err r r' =
    (s m : ℕ) × (sock < length r.sock_xports)
    × (err ≡ 0)
    × (s < m)
    × (m ≤ r.pollfd_size)
    × (r' ≡ record r {
      sock_xports = set r.sock_xports sock p;
      pollfd = set r.pollfd s (polls sock);
      max_pollfd = m;
    })

pub take_socket_ok :
    (p : XprtPtr) (sock err : ℕ) (r r' : Registry)
    → length r.pollfd ≡ r.pollfd_size
    → r.max_pollfd ≤ r.pollfd_size
    → take_socket p sock r ≡ ok (err, r')
    → Taken p sock err r r'
unfolding take_socket
take_socket_ok p sock err r r' size fits e =
    let (q, there, rest) = >>=-eq-ok (deref (get_elem? r.sock_xports sock)) _ e in
    let (free, known, rest') = >>=-eq-ok (socket_xprt_is_available q r) _ rest in taken free rest'
  where
    stored :
        (v : List XprtPtr)
        → store r.sock_xports sock p ≡ ok v
        → init_pollfd sock (record r { sock_xports = v }) ≡ ok (err, r')
        → Taken p sock err r r'
    stored v wrote last =
        let (room, is) = store_ok r.sock_xports sock p wrote in
        elim (init_pollfd_total sock (record r { sock_xports = v }) size fits) [
          | inl (s, m, lt, le, grows, done) ↦
              let same = ok-injective (sym last ∙ done) in
              (
                s,
                m,
                room,
                ap (λ (t : ℕ × Registry). t.0) same,
                lt,
                le,
                ap (λ (t : ℕ × Registry). t.1) same ∙ rw is refl,
              )
          | inr (broke, _, _) ↦ absurd (ground (arith, last, broke))
        ]

    taken :
        (b : Bool)
        → (if b
            then (store r.sock_xports sock p >>= λ v.
                init_pollfd sock (record r { sock_xports = v }))
            else died)
          ≡ ok (err, r')
        → Taken p sock err r r'
    taken true e =
        let (v, wrote, last) = >>=-eq-ok (store r.sock_xports sock p) _ e in stored v wrote last
    taken false e = cc
