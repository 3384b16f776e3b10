-- ===== src/Result/Ensures.antt =====
-- What a computation that may fail guarantees of its result, with one rule for each way to build it.
use agent_task.Prelude.{◌≡◌, refl, subst, Bool, true, false, if◌then◌else◌}
use agent_task.Result.{Error, Result, ok, err, ◌>>=◌}

pub record Ensures {ℓ κ} {A : Type ℓ} (P : A → Type κ) (r : Result A) : Type (ℓ ⊔ κ) where
  pub at : (a : A) → r ≡ ok a → P a

module _ {ℓ κ} {A : Type ℓ} {P : A → Type κ} where
  pub Ensures-ok : {a : A} → P a → Ensures P (ok a)
  Ensures-ok {a} h = record { at = λ b e. subst P (cc e) h }

  pub Ensures-err : {e : Error} → Ensures P (err e)
  Ensures-err = record { at = λ b e. cc }

  pub Ensures-if :
      (b : Bool) (m n : Result A) → Ensures P m → Ensures P n → Ensures P (if b then m else n)
  Ensures-if true m n hm hn = hm
  Ensures-if false m n hm hn = hn

module _ {ℓ κ μ ν} {A : Type ℓ} {P : A → Type κ} {B : Type μ} {Q : B → Type ν} where
  pub Ensures-bind :
      (m : Result B) (f : B → Result A)
      → Ensures Q m
      → ((b : B) → Q b → Ensures P (f b))
      → Ensures P (m >>= f)
  Ensures-bind (ok b) f hm hf = hf b (hm.at b refl)
  Ensures-bind (err e) f hm hf = Ensures-err
