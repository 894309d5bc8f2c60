-- ===== src/Server.antt =====
-- src/librpc/svc.c, the request loop: its state, what it asks of the transports and of the services, and
-- the result of a step of it.
pub mod Replies
pub mod Wait
pub mod Dispatch
pub mod Poll
use rpc_mt.Common.{ℕ, ◌≡◌, refl, ap, Bool, true, false, Option, List, if◌then◌else◌}
use rpc_mt.Common.Outcome
use rpc_mt.Registry.{Registry, XprtPtr, XprtStat}
use rpc_mt.Callout.{Callout}

-- As `Outcome`, and `waits`: the thread still waits, or still serves, when the time that is looked at is
-- over.
pub data Run {ℓ} (A : Type ℓ) : Type ℓ where
  ok : A → Run A
  died fault waits : Run A

infixl 5 ◌>>=◌ ◌>>◌
abbrev pub ◌>>=◌ {ℓ κ} : {A : Type ℓ} {B : Type κ} → Run A → (A → Run B) → Run B
ok a >>= f = f a
died >>= f = died
fault >>= f = fault
waits >>= f = waits

abbrev pub ◌>>◌ {ℓ κ} : {A : Type ℓ} {B : Type κ} → Run A → Run B → Run B
m >> k = m >>= λ _. k

-- A step of the registry as a step of the loop.
abbrev pub lift {ℓ} : {A : Type ℓ} → Outcome.Outcome A → Run A
lift (Outcome.ok a) = ok a
lift Outcome.died = died
lift Outcome.fault = fault

-- `struct opaque_auth`: the flavor and the length.
pub record OpaqueAuth : Type 0 where
  pub flavor : ℕ
  pub len : ℕ

-- A call message, as `SVC_RECV` leaves it: `rm_call` of `struct rpc_msg`.
pub record CallMsg : Type 0 where
  pub prog : ℕ
  pub vers : ℕ
  pub proc : ℕ
  pub cred : OpaqueAuth

-- `struct svc_req`.
pub record SvcReq : Type 0 where
  pub prog : ℕ
  pub vers : ℕ
  pub proc : ℕ
  pub cred : OpaqueAuth
  pub xprt : XprtPtr

-- `ar_stat` with what goes with it; results are their address and that of their filter.
pub data AcceptStat : Type 0 where
  success : (proc where_at : ℕ) → AcceptStat
  prog_unavail : AcceptStat
  prog_mismatch : (low high : ℕ) → AcceptStat
  proc_unavail : AcceptStat
  garbage_args : AcceptStat
  system_err : AcceptStat

-- The `rm_reply` of `struct rpc_msg`: accepted with a verifier, or denied for `AUTH_ERROR`.
pub data Reply : Type 0 where
  accepted : (verf : OpaqueAuth) → AcceptStat → Reply
  auth_error : (why : ℕ) → Reply

-- What the receiving thread hands out: a request to a dispatch function, with the transport that the
-- worker gets, or a reply to a transport.
pub data Call : Type 0 where
  dispatched : (dispatch : ℕ) → SvcReq → XprtPtr → Call
  replied : XprtPtr → Reply → Call

-- The variables of the server, `mtxp_rqst`, `xp_verf` and `mtxp_mtready` of each transport by address
-- (true is locked), and the calls made so far by the receiving thread, the latest first.
pub record Server : Type 0 where
  pub reg : Registry
  pub head : List Callout
  pub rqst : ℕ → SvcReq
  pub verf : ℕ → OpaqueAuth
  pub mtready : ℕ → Bool
  pub worker_return : ℕ
  pub cnt_request_recv : ℕ
  pub cnt_request_disp : ℕ
  pub log : List Call

-- What the loop calls through pointers or of other libraries: `xp_recv`, `xp_stat` (`none` is no value of
-- the enumeration), `xp_reply`, `mtxp_clone`, `_authenticate`, the dispatch functions; and what the other
-- threads do while it sleeps. `mtmode` and the methods of waiting are variables of svc_config.c.
pub record Env : Type 0 where
  pub mtmode : ℕ
  pub wait_method_tcp : ℕ
  pub wait_method_udp : ℕ
  pub recv : XprtPtr → Server → Run (Option CallMsg × Server)
  pub stat : XprtPtr → Server → Run (Option XprtStat × Server)
  pub reply : XprtPtr → Reply → Server → Run (Bool × Server)
  pub clone : XprtPtr → Server → Run (XprtPtr × Server)
  pub authenticate : SvcReq → CallMsg → ℕ × OpaqueAuth
  pub dispatch : ℕ → SvcReq → XprtPtr → Server → Run Server
  pub jiffy : Server → Server

-- A step of the registry, in the server.
abbrev pub in_registry {ℓ} :
    {A : Type ℓ} → (Registry → Outcome.Outcome (A × Registry)) → Server → Run (A × Server)
in_registry step s = lift (step s.reg) >>= λ r. ok (r.0, record s { reg = r.1 })

abbrev pub on_registry : (Registry → Outcome.Outcome Registry) → Server → Run Server
on_registry step s = lift (step s.reg) >>= λ r. ok (record s { reg = r })

-- A chain that succeeds: its first step did, and the rest from there.
pub >>=-eq-ok {ℓ κ} :
    {A : Type ℓ} {B : Type κ} (step : Run A) (rest : A → Run B) {result : B}
    → (step >>= rest) ≡ ok result
    → (found : A) × (step ≡ ok found) × (rest found ≡ ok result)
>>=-eq-ok fault rest done = cc
>>=-eq-ok died rest done = cc
>>=-eq-ok waits rest done = cc
>>=-eq-ok (ok found) rest done = (found, refl, done)

pub ok-injective {ℓ} : {A : Type ℓ} {a b : A} → ok a ≡ ok b → a ≡ b
ok-injective {a} e = ap (value a) e
  where
    value : {A : Type ℓ} → A → Run A → A
    value d (ok a) = a
    value d died = d
    value d fault = d
    value d waits = d

-- Where a step succeeds, its result has a property.
abbrev pub Ensures {ℓ κ} : {A : Type ℓ} → (A → Type κ) → Run A → Type (ℓ ⊔ κ)
Ensures {A} P m = (a : A) → m ≡ ok a → P a

pub ok-Ensures {ℓ κ} : {A : Type ℓ} (P : A → Type κ) (a : A) → P a → Ensures P (ok a)
ok-Ensures P a h b e = rw (ok-injective e) at h

pub >>=-Ensures {ℓ κ ι} :
    {A : Type ℓ} {B : Type κ} (P : A → Type ι) (Q : B → Type ι) (step : Run A) (rest : A → Run B)
    → Ensures P step
    → ((a : A) → P a → Ensures Q (rest a))
    → Ensures Q (step >>= rest)
>>=-Ensures P Q step rest first next b e =
    let (a, done, last) = >>=-eq-ok step rest e in next a (first a done) b last

pub if-Ensures {ℓ κ} :
    {A : Type ℓ} (P : A → Type κ) (b : Bool) (m k : Run A)
    → Ensures P m
    → Ensures P k
    → Ensures P (if b then m else k)
if-Ensures P true m k taken other = taken
if-Ensures P false m k taken other = other

pub died-Ensures {ℓ κ} : {A : Type ℓ} (P : A → Type κ) → Ensures P died
died-Ensures P b e = cc
