-- ===== src/Mddb/Outcome.antt =====
-- The results of pkg/mddb. Messages and the wrapping of system errors are left out.
use agent_task.Prelude.{◌≡◌, refl, Bool, true, false}

-- `invalid` stands for the errors of a value, `system` for those of a call of the system.
pub data Failure : Type 0 where
  system invalid corrupt already_exists not_found closed : Failure
  replay incomplete : Failure → Failure

pub data Outcome {ℓ} (A : Type ℓ) : Type ℓ where
  failed : Failure → Outcome A
  returned : A → Outcome A

infixl 5 ◌>>=◌ ◌>>◌
abbrev pub ◌>>=◌ {ℓ κ} : {A : Type ℓ} {B : Type κ} → Outcome A → (A → Outcome B) → Outcome B
failed e >>= next = failed e
returned a >>= next = next a

abbrev pub ◌>>◌ {ℓ} : {B : Type ℓ} → Outcome (Unit {0}) → Outcome B → Outcome B
m >> k = m >>= λ _. k

abbrev pub fail_if : Bool → Failure → Outcome (Unit {0})
fail_if true e = failed e
fail_if false e = returned tt

pub >>=-eq-returned {ℓ κ} :
    {A : Type ℓ} {B : Type κ} {b : B} (m : Outcome A) (next : A → Outcome B)
    → (m >>= next) ≡ returned b
    → (a : A) × (m ≡ returned a) × (next a ≡ returned b)
>>=-eq-returned (failed e) next h = cc
>>=-eq-returned (returned a) next h = (a, refl, h)

pub passed {ℓ} :
    {B : Type ℓ} (b : Bool) (e : Failure) (rest : Outcome B) (r : B)
    → (fail_if b e >> rest) ≡ returned r
    → (b ≡ false) × (rest ≡ returned r)
passed true e rest r h = cc h
passed false e rest r h = (refl, h)

pub checked {ℓ} :
    {B : Type ℓ} (m : Outcome (Unit {0})) (rest : Outcome B) (r : B)
    → (m >> rest) ≡ returned r
    → (m ≡ returned tt) × (rest ≡ returned r)
checked (failed e) rest r h = cc h
checked (returned u) rest r h = (refl, h)
