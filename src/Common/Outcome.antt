-- ===== src/Common/Outcome.antt =====
-- The result of a step of the server: a value, the process aborted by `svc_die`, or an access
-- outside an array or to freed memory, for which C promises nothing.
use mathlib.Core.Path.{◌≡◌, refl, ap}
use mathlib.Core.Bool.{Bool, true, false}
use mathlib.Core.Option.{Option, none, some}

pub data Outcome {ℓ} (A : Type ℓ) : Type ℓ where
  ok : A → Outcome A
  died : Outcome A
  fault : Outcome A

infixl 5 ◌>>=◌ ◌>>◌
abbrev pub ◌>>=◌ {ℓ κ} : {A : Type ℓ} {B : Type κ} → Outcome A → (A → Outcome B) → Outcome B
fault >>= rest = fault
died >>= rest = died
ok found >>= rest = rest found

abbrev pub ◌>>◌ {ℓ κ} : {A : Type ℓ} {B : Type κ} → Outcome A → Outcome B → Outcome B
m >> k = m >>= λ _. k

-- A check of the source that calls `svc_die` where it fails.
abbrev pub require : Bool → Outcome (Unit {0})
require true = ok tt
require false = died

-- An array read: `none` is out of bounds.
abbrev pub deref {ℓ} : {A : Type ℓ} → Option A → Outcome A
deref none = fault
deref (some a) = ok a

-- A chain that succeeds: its first step did, and the rest from there.
pub >>=-eq-ok {ℓ κ} :
    {A : Type ℓ} {B : Type κ} (step : Outcome A) (rest : A → Outcome B) {result : B}
    → (step >>= rest) ≡ ok result
    → (found : A) × (step ≡ ok found) × (rest found ≡ ok result)
>>=-eq-ok fault rest done = cc
>>=-eq-ok died rest done = cc
>>=-eq-ok (ok found) rest done = (found, refl, done)

pub ok-injective {ℓ} : {A : Type ℓ} {a b : A} → ok a ≡ ok b → a ≡ b
ok-injective {a} e = ap (value a) e
  where
    value : {A : Type ℓ} → A → Outcome A → A
    value d (ok a) = a
    value d died = d
    value d fault = d

pub require_ok : (b : Bool) → require b ≡ ok tt → b ≡ true
require_ok true e = refl
require_ok false e = cc
