-- ===== src/Model/Inversion.antt =====
-- What a call of the model that returned tells of its parts.
use agent_task.Prelude.{◌≡◌, refl, Bool, true, false, Option, none, some}
use agent_task.Model.{
  Outcome, done, refused, panicked, out_of_fuel, ◌>>=◌, refuse_if, deref, lookup_or, Ticket,
  ErrCode,
}

pub >>=-eq-done {ℓ κ} :
    {A : Type ℓ} {B : Type κ} (m : Outcome A) (k : A → Outcome B) {b : B}
    → (m >>= k) ≡ done b
    → (a : A) × (m ≡ done a) × (k a ≡ done b)
>>=-eq-done (done a) k h = (a, refl, h)
>>=-eq-done (refused code) k h = cc
>>=-eq-done panicked k h = cc
>>=-eq-done out_of_fuel k h = cc

-- Behind a guard that let the call go on, its condition does not hold.
pub passed {κ} :
    {B : Type κ} (b : Bool) (code : ErrCode) (k : Unit {0} → Outcome B) {v : B}
    → (refuse_if b code >>= k) ≡ done v
    → (b ≡ false) × (k tt ≡ done v)
passed true code k h = cc
passed false code k h = (refl, h)

pub refuse_if-done :
    (b : Bool) (code : ErrCode) {u : Unit {0}} → refuse_if b code ≡ done u → b ≡ false
refuse_if-done true code h = cc
refuse_if-done false code h = refl

pub lookup_or-done :
    (code : ErrCode) (o : Option Ticket) {t : Ticket} → lookup_or code o ≡ done t → o ≡ some t
lookup_or-done code none h = cc
lookup_or-done code (some u) h = cc h

pub deref-done : (o : Option Ticket) {t : Ticket} → deref o ≡ done t → o ≡ some t
deref-done none h = cc
deref-done (some u) h = cc h
