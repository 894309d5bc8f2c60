-- ===== src/Server/Poll/Serve.antt =====
-- src/librpc/svc.c, `svc_getreq_poll_mt`: which descriptors are served.
use native.Mathlib.Decide.{dec_lt}
use rpc_mt.Common.{
  ◌≢◌, ℕ, zero, suc, ◌+◌, ◌-◌, ◌≤◌, ◌<◌, ◌≡◌, refl, ap, ◌∙◌, inl, inr, true, false, List, [], ◌∷◌,
  arith, length, eq_nil_of_length, take, if◌then◌else◌, ◌==◌, ltb, leb, Bool-cases, leb→le, leb→lt,
  ==→ne, ltb→lt, ltb→le,
}
use rpc_mt.Registry.{PollFd}
use rpc_mt.Server.{Server, Env, Run, ok, died, fault, waits, ◌>>=◌}
use rpc_mt.Server.Poll.{
  has_input, count_found, serve_fd, serve_found, reap_last, svc_getreq_poll_mt,
}

-- The entries with input, in their order.
pub pending : List PollFd → List PollFd
pending [] = []
pending (p ∷ l) = if has_input p then p ∷ pending l else pending l

count_found_lem : (l : List PollFd) → count_found l ≡ length (pending l)
unfolding count_found pending
count_found_lem [] = refl
count_found_lem (p ∷ l) = elim (Bool-cases (has_input p)) [
  | inl hit ↦ rw hit (omega (arith, count_found_lem l))
  | inr miss ↦ rw miss (count_found_lem l)
]

take_nil {ℓ} : {A : Type ℓ} (n : ℕ) → take n (let l : List A = [] in l) ≡ []
take_nil zero = refl
take_nil (suc n) = refl

take_all {ℓ} : {A : Type ℓ} (n : ℕ) (xs : List A) → length xs ≤ n → take n xs ≡ xs
take_all n [] h = take_nil n
take_all zero (x ∷ xs) h = absurd (omega arith)
take_all (suc n) (x ∷ xs) h = ap (λ l. x ∷ l) (take_all n xs (omega arith))

module _ (env : Env) (k n : ℕ) where
  -- One entry after another.
  pub serve_all : List PollFd → Server → Run Server
  serve_all [] s = ok s
  serve_all (p ∷ l) s = serve_fd env k n p s >>= λ s'. serve_all l s'

  after_one :
      (m : Run Server) (limit found : ℕ) (l : List PollFd)
      → ((s : Server)
          → found + 1 < limit
          → serve_found env k n l (found + 1) limit s
            ≡ serve_all (take (limit - (found + 1)) (pending l)) s)
      → (m >>= λ s'. elim (leb limit (found + 1)) [
        | true ↦ ok s'
        | false ↦ serve_found env k n l (found + 1) limit s'
      ])
        ≡ (m >>= λ s'. serve_all (take (limit - (found + 1)) (pending l)) s')
  unfolding serve_all
  after_one died limit found l rest = refl
  after_one fault limit found l rest = refl
  after_one waits limit found l rest = refl
  after_one (ok s) limit found l rest = elim (Bool-cases (leb limit (found + 1))) [
    | inl end ↦
        let last : limit - (found + 1) ≡ 0 = (let le = leb→le _ _ end in omega arith) in
        rw (end, last) refl
    | inr more ↦ rw more (rest s (leb→lt _ _ more))
  ]

  serve_found_lem :
      (l : List PollFd) (found limit : ℕ) (s : Server)
      → found < limit
      → serve_found env k n l found limit s ≡ serve_all (take (limit - found) (pending l)) s
  unfolding serve_found pending serve_all
  serve_found_lem [] found limit s h = rw (take_nil {A = PollFd} (limit - found)) refl
  serve_found_lem (p ∷ l) found limit s h = elim (Bool-cases (has_input p)) [
    | inl hit ↦
        let e : limit - found ≡ suc (limit - (found + 1)) = omega arith in
        rw (hit, e, serve_found)
          (after_one (serve_fd env k n p s) limit found l
            (λ t h'. serve_found_lem l (found + 1) limit t h'))
    | inr miss ↦ rw (miss, serve_found) (serve_found_lem l found limit s h)
  ]

  none_found :
      (l : List PollFd) (found limit : ℕ) (s : Server)
      → length (pending l) ≡ 0
      → serve_found env k n l found limit s ≡ ok s
  unfolding serve_found pending
  none_found [] found limit s h = refl
  none_found (p ∷ l) found limit s h = elim (Bool-cases (has_input p)) [
    | inl hit ↦ absurd (omega (arith, (rw hit at h)))
    | inr miss ↦ rw (miss, serve_found) (none_found l found limit s (rw miss at h))
  ]

  all_found :
      (l : List PollFd) (s : Server)
      → serve_found env k n l 0 (count_found l) s ≡ serve_all (pending l) s
  unfolding serve_all
  all_found l s = elim (dec_lt 0 (count_found l)) [
    | yes some_found ↦
        serve_found_lem l 0 (count_found l) s some_found
        ∙ ap (λ (m : List PollFd). serve_all m s)
            (take_all (count_found l - 0) (pending l) (omega (arith, count_found_lem l)))
    | no none_there ↦
        let nothing : length (pending l) ≡ 0 = omega (arith, count_found_lem l) in
        none_found l 0 (count_found l) s nothing ∙ rw (eq_nil_of_length (pending l) nothing) refl
  ]

  -- For any result of `poll` but 0, `svc_getreq_poll_mt` serves the entries with input in their order, as
  -- many as `poll` says and no more, and then collects garbage in a multi-threaded mode. For 0 it does
  -- nothing.
  pub svc_getreq_poll_mt_lem :
      (pfds : List PollFd) (pollretval : ℕ) (s : Server)
      → svc_getreq_poll_mt env k n pfds pollretval s ≡ (
          if pollretval == 0
          then ok s
          else (serve_all (take pollretval (pending pfds)) s >>= reap_last env))
  unfolding svc_getreq_poll_mt
  svc_getreq_poll_mt_lem pfds pollretval s = elim (Bool-cases (pollretval == 0)) [
    | inl none_said ↦ rw none_said refl
    | inr some_said ↦
        rw some_said (ap (λ (m : Run Server). m >>= reap_last env) (cut (==→ne _ _ some_said)))
  ]
    where
      limit : ℕ
      limit = if ltb (count_found pfds) pollretval then count_found pfds else pollretval

      cut :
          pollretval ≢ 0
          → serve_found env k n pfds 0 limit s ≡ serve_all (take pollretval (pending pfds)) s
      cut said = elim (Bool-cases (ltb (count_found pfds) pollretval)) [
        | inl few ↦
            let lt = ltb→lt _ _ few in
            let all : take pollretval (pending pfds) ≡ pending pfds =
              take_all pollretval (pending pfds) (omega (arith, count_found_lem pfds)) in
            rw (few, all) (all_found pfds s)
        | inr many ↦
            let le = ltb→le _ _ many in
            let whole : pollretval - 0 ≡ pollretval = omega arith in
            rw many (
              serve_found_lem pfds 0 pollretval s (omega arith)
              ∙ ap (λ (m : ℕ). serve_all (take m (pending pfds)) s) whole)
      ]
