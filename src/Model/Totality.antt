-- ===== src/Model/Totality.antt =====
-- The commands of the model answer: none of them panics or runs out of fuel.
use agent_task.Prelude.{
  ℕ, ◌≡◌, refl, sym, ap, ◌∙◌, Bool, true, false, not, Option, none, some, List, [], ◌∷◌, inl, inr,
  arith, Option-cases, subst, if◌then◌else◌, ltb,
}
use agent_task.Text.{Bytes, equal, contains}
use agent_task.Lifecycle.{index_of}
use agent_task.Model.{
  Outcome, done, refused, blocker_cycle, panicked, out_of_fuel, ErrCode, ◌>>=◌, refuse_if, Ticket,
  find, is_some, is_closed, is_open, is_in_progress, deref, lookup_or, to_time,
}
use agent_task.Model.Graph.{
  find_blocker_cycle_path, find_ancestor, find_open_blocker, find_open_child, can_start,
  search_fuel, has_ancestor,
}
use agent_task.Model.Commands.{start, close, reopen, block, unblock, delete_at, open_parent}
use agent_task.Model.Invariant.{IsConsistent}
use agent_task.Model.Lookup.{find-id}
use agent_task.Model.Fuel.{find_open_blocker-done, find_path_to-done, find_ancestor-done}

-- The call returns, or it returns an error.
abbrev pub answers {ℓ} : {A : Type ℓ} → Outcome A → Bool
answers (done a) = true
answers (refused code) = true
answers panicked = false
answers out_of_fuel = false

pub record Answers {ℓ} {A : Type ℓ} (o : Outcome A) : Type 0 where
  pub holds : answers o ≡ true

pub Answers-done {ℓ} : {A : Type ℓ} {a : A} → Answers (done a)
Answers-done = record { holds = refl }

pub Answers-bind {ℓ κ} :
    {A : Type ℓ} {B : Type κ} (o : Outcome A) (k : A → Outcome B)
    → Answers o
    → ((a : A) → o ≡ done a → Answers (k a))
    → Answers (o >>= k)
Answers-bind (done a) k h f = f a refl
Answers-bind (refused code) k h f = record { holds = refl }
Answers-bind panicked k h f = cc h.holds
Answers-bind out_of_fuel k h f = cc h.holds

pub Answers-guard {κ} :
    {B : Type κ} (b : Bool) (code : ErrCode) (k : Unit {0} → Outcome B)
    → (b ≡ false → Answers (k tt))
    → Answers (refuse_if b code >>= k)
Answers-guard true code k f = record { holds = refl }
Answers-guard false code k f = f refl

pub Answers-refuse_if : (b : Bool) (code : ErrCode) → Answers (refuse_if b code)
Answers-refuse_if true code = record { holds = refl }
Answers-refuse_if false code = record { holds = refl }

pub Answers-lookup {κ} :
    {B : Type κ} (code : ErrCode) (o : Option Ticket) (k : Ticket → Outcome B)
    → ((t : Ticket) → o ≡ some t → Answers (k t))
    → Answers (lookup_or code o >>= k)
Answers-lookup code none k f = record { holds = refl }
Answers-lookup code (some t) k f = f t refl

pub Answers-deref {κ} :
    {B : Type κ} (o : Option Ticket) (k : Ticket → Outcome B)
    → is_some o ≡ true
    → ((t : Ticket) → o ≡ some t → Answers (k t))
    → Answers (deref o >>= k)
Answers-deref none k h f = cc h
Answers-deref (some t) k h f = f t refl

pub Answers-time {κ} :
    {B : Type κ} (o : Option ℕ) (k : ℕ → Outcome B)
    → ((t : ℕ) → o ≡ some t → Answers (k t))
    → Answers (to_time o >>= k)
Answers-time none k f = record { holds = refl }
Answers-time (some t) k f = f t refl

pub Answers-if {ℓ} :
    {A : Type ℓ} (b : Bool) (m n : Outcome A)
    → (b ≡ true → Answers m)
    → (b ≡ false → Answers n)
    → Answers (if b then m else n)
Answers-if true m n hm hn = hm refl
Answers-if false m n hm hn = hn refl

pub Answers-returned {ℓ κ} :
    {A : Type ℓ} {B : Type κ} (o : Outcome A) (k : A → Outcome B) (a : A)
    → o ≡ done a
    → Answers (k a)
    → Answers (o >>= k)
Answers-returned o k a e h = subst (λ v. Answers (v >>= k)) (sym e) h

module _ (m : List Ticket) (c : IsConsistent m) where
  pub can_start-Answers :
      (id : Bytes) (tk : Ticket) → find m id ≡ some tk → Answers (can_start m tk)
  unfolding can_start
  can_start-Answers id tk f =
      let (b, e) = find_open_blocker-done m tk.blocked_by (c.linked id tk f).blockers in
      Answers-guard (not (is_open tk.status)) _ _ (λ _.
        Answers-returned (find_open_blocker m tk.blocked_by) _ b e (
          Answers-guard (not (equal b [])) _ _ (λ _.
            Answers-if (equal tk.parent_id []) _ _ (λ _. Answers-done)
              (λ child.
                Answers-deref (find m tk.parent_id) _ ((c.linked id tk f).parent child) (λ p found.
                  Answers-guard (is_open p.status) _ _ (λ _.
                    let (r, e') =
                      find_ancestor-done m c p
                        (ap (find m) (find-id m tk.parent_id p found) ∙ found) in
                    Answers-returned (find_ancestor m (search_fuel m) [] p) _ r e'
                      (Answers-refuse_if (has_ancestor r) _)))))))

  pub find_blocker_cycle_path-done :
      (id b : Bytes)
      → is_some (find m b) ≡ true
      → (o : Option (List Bytes)) × (find_blocker_cycle_path m id b ≡ done o)
  unfolding find_blocker_cycle_path
  find_blocker_cycle_path-done id b h =
      let ((seen, path), e) = find_path_to-done m c id b h in
      elim (Option-cases path) [
        | inl nothing ↦ (none, rw (e ∙ ap (λ p. done (seen, p)) nothing) refl)
        | inr (p, is_it) ↦ (some (id ∷ p), rw (e ∙ ap (λ p. done (seen, p)) is_it) refl)
      ]

  pub block-Answers : (id b : Bytes) → Answers (block m id b)
  unfolding block
  block-Answers id b = Answers-lookup _ (find m id) _ (λ tk f.
      Answers-guard (is_closed tk.status) _ _ (λ _. Answers-guard (equal b []) _ _ (λ _.
        Answers-guard (not (is_some (find m b))) _ _ (λ known. Answers-guard (equal id b) _ _ (λ _.
          Answers-guard (contains tk.blocked_by b) _ _ (λ _.
            let (o, e) = find_blocker_cycle_path-done id b (ground arith) in
            Answers-returned (find_blocker_cycle_path m id b) _ o e (answered _ o)))))))
    where
      answered :
          (n : List Ticket) (o : Option (List Bytes))
          → Answers (elim o [ none ↦ done n | some path ↦ refused blocker_cycle ])
      answered n none = Answers-done
      answered n (some path) = record { holds = refl }

  pub unblock-Answers : (id b : Bytes) → Answers (unblock m id b)
  unfolding unblock
  unblock-Answers id b = Answers-lookup _ (find m id) _ (λ tk f.
      Answers-guard (is_closed tk.status) _ _ (λ _.
        Answers-bind (delete_at tk.blocked_by (index_of tk.blocked_by b)) _
          (deleted tk.blocked_by (index_of tk.blocked_by b)) (λ ids _. Answers-done)))
    where
      deleted : (ids : List Bytes) (o : Option ℕ) → Answers (delete_at ids o)
      deleted ids none = record { holds = refl }
      deleted ids (some i) = Answers-done

  pub reopen-Answers : (id : Bytes) → Answers (reopen m id)
  unfolding reopen
  reopen-Answers id = Answers-lookup _ (find m id) _ (λ tk f.
      Answers-guard (is_open tk.status) _ _ (λ _. Answers-guard (is_in_progress tk.status) _ _ (λ _.
        Answers-bind (open_parent m tk.parent_id) _
          (Answers-if (equal tk.parent_id []) _ _ (λ _. Answers-done)
            (λ child.
              Answers-deref (find m tk.parent_id) _ ((c.linked id tk f).parent child)
                (λ p found. Answers-refuse_if (is_closed p.status) _)))
          (λ _ _. Answers-done))))

  module _ (parse_time : Bytes → Option ℕ) where
    pub start-Answers :
        (id claimed_by text : Bytes) → Answers (start parse_time m id claimed_by text)
    unfolding start
    start-Answers id claimed_by text = Answers-guard (equal claimed_by []) _ _ (λ _.
        Answers-time (parse_time text) _ (λ at _. Answers-lookup _ (find m id) _ (λ tk f.
          Answers-guard (ltb at tk.created_at) _ _ (λ _.
            Answers-bind (can_start m tk) _ (can_start-Answers id tk f) (λ _ _. Answers-done)))))

    pub close-Answers : (id text : Bytes) → Answers (close parse_time m id text)
    unfolding close
    close-Answers id text = Answers-lookup _ (find m id) _ (λ tk f.
        Answers-guard (is_open tk.status) _ _ (λ _. Answers-guard (is_closed tk.status) _ _ (λ _.
          Answers-guard (not (equal (find_open_child id m) [])) _ _ (λ _.
            Answers-time (parse_time text) _
              (λ at _. Answers-guard (ltb at tk.created_at) _ _ (λ _. Answers-done))))))
