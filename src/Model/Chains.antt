-- ===== src/Model/Chains.antt =====
-- Chains of blockers.
use agent_task.Prelude.{◌≡◌, ◌⊎◌, sym, true, some, List, inl, inr, subst}
use agent_task.Text.{Bytes, contains}
use agent_task.Model.{Ticket, find}

-- The ticket `x` is blocked by `y`.
pub record IsBlocked (m : List Ticket) (x y : Bytes) : Type 0 where
  pub ticket : Ticket
  pub found : find m x ≡ some ticket
  pub listed : contains ticket.blocked_by y ≡ true

pub data Chain (m : List Ticket) : Bytes → Bytes → Type 0 where
  one : {x y : Bytes} → IsBlocked m x y → Chain m x y
  more : {x y z : Bytes} → IsBlocked m x y → Chain m y z → Chain m x z

-- No ticket waits for itself.
abbrev pub IsAcyclic : List Ticket → Type 0
IsAcyclic m = (x : Bytes) → ¬ Chain m x x

-- A chain, or no step at all.
abbrev pub Leads : List Ticket → Bytes → Bytes → Type 0
Leads m x y = (x ≡ y) ⊎ Chain m x y

pub Leads-cons : {m : List Ticket} {x y z : Bytes} → IsBlocked m x y → Leads m y z → Chain m x z
Leads-cons {m} {x} {y} {z} e (inl same) = one (subst (IsBlocked m x) same e)
Leads-cons e (inr c) = more e c

Chain-append : {m : List Ticket} {x y z : Bytes} → Chain m x y → Leads m y z → Chain m x z
Chain-append (one e) l = Leads-cons e l
Chain-append (more e c) l = more e (Chain-append c l)

pub Leads-append : {m : List Ticket} {x y z : Bytes} → Leads m x y → Leads m y z → Leads m x z
Leads-append {m} {x} {y} {z} (inl same) l = subst (λ w. Leads m w z) (sym same) l
Leads-append (inr c) l = inr (Chain-append c l)

module _ (m changed : List Ticket) where
  Chain-map :
      ((x y : Bytes) → IsBlocked changed x y → IsBlocked m x y)
      → {x y : Bytes} → Chain changed x y
      → Chain m x y
  Chain-map f (one {x} {y} e) = one (f x y e)
  Chain-map f (more {x} {y} {z} e c) = more (f x y e) (Chain-map f c)

  pub fewer-IsAcyclic :
      ((x y : Bytes) → IsBlocked changed x y → IsBlocked m x y) → IsAcyclic m → IsAcyclic changed
  fewer-IsAcyclic f a x c = a x (Chain-map f c)

  module _ (id blocker : Bytes)
      (step : (x y : Bytes)
        → IsBlocked changed x y
        → IsBlocked m x y ⊎ ((x ≡ id) × (y ≡ blocker))) where
    -- A chain that uses the new pair comes to `id` and goes on from `blocker` by the old ones.
    Chain-cases :
        {x z : Bytes} → Chain changed x z → Chain m x z ⊎ (Leads m x id × Leads m blocker z)
    Chain-cases (one {x} {y} e) = elim (step x y e) [
      | inl old ↦ inl (one old)
      | inr (here, there) ↦ inr (inl here, inl (sym there))
    ]
    Chain-cases (more {x} {y} {z} e c) =
        let rest = Chain-cases c in
        elim (step x y e) [
          | inl old ↦ elim rest [
            | inl d ↦ inl (more old d)
            | inr (to, from) ↦ inr (inr (Leads-cons old to), from)
          ]
          | inr (here, there) ↦ elim rest [
            | inl d ↦ inr (inl here, subst (λ w. Leads m w z) there (inr d))
            | inr (to, from) ↦ inr (inl here, from)
          ]
        ]

    pub one_more-IsAcyclic : ¬ Leads m blocker id → IsAcyclic m → IsAcyclic changed
    one_more-IsAcyclic none_back a x c = elim (Chain-cases c) [
      | inl d ↦ a x d
      | inr (to, from) ↦ none_back (Leads-append from to)
    ]
