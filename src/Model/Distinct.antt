-- ===== src/Model/Distinct.antt =====
-- No two tickets of the model have the same id, so `Ready` answers.
use agent_task.Prelude.{
  ◌≡◌, refl, sym, ap, ◌∙◌, false, none, List, [], ◌∷◌, ◌++◌, arith, inl, inr, Bool-cases,
}
use agent_task.Text.{Bytes, equal, equal_iff, equal_refl}
use agent_task.Model.{Ticket, find, modify}

-- Each id is found at its own ticket only.
abbrev pub IsDistinct : List Ticket → Type 0
IsDistinct [] = Unit
IsDistinct (t ∷ m) = (find m t.id ≡ none) × IsDistinct m

find-cons_other :
    (t : Ticket) (m : List Ticket) (x : Bytes)
    → find (t ∷ m) x ≡ none
    → (equal t.id x ≡ false) × (find m x ≡ none)
unfolding find
find-cons_other t m x h = ground arith

find-modify-none :
    (f : Ticket → Ticket)
    → ((t : Ticket) → (f t).id ≡ t.id)
    → (m : List Ticket) (id x : Bytes) → find m x ≡ none
    → find (modify m id f) x ≡ none
unfolding find modify
find-modify-none f same_id [] id x h = refl
find-modify-none f same_id (u ∷ m) id x h =
    let (other, rest) = find-cons_other u m x h in
    elim (Bool-cases (equal u.id id)) [
      | inl same ↦
          let e : equal (f u).id x ≡ false = ap (λ i. equal i x) (same_id u) ∙ other in
          rw same (rw e rest)
      | inr differs ↦ rw differs (rw other (find-modify-none f same_id m id x rest))
    ]

pub modify-IsDistinct :
    (f : Ticket → Ticket)
    → ((t : Ticket) → (f t).id ≡ t.id)
    → (m : List Ticket) (id : Bytes) → IsDistinct m
    → IsDistinct (modify m id f)
unfolding modify
modify-IsDistinct f same_id [] id d = tt
modify-IsDistinct f same_id (u ∷ m) id (no_other, d) = elim (Bool-cases (equal u.id id)) [
  | inl same ↦ rw same (ap (find m) (same_id u) ∙ no_other, d)
  | inr differs ↦
      rw differs (find-modify-none f same_id m id u.id no_other, modify-IsDistinct f same_id m id d)
]

find-snoc_none :
    (m : List Ticket) (n : Ticket) (x : Bytes)
    → find m x ≡ none
    → equal n.id x ≡ false
    → find (m ++ n ∷ []) x ≡ none
unfolding find
find-snoc_none [] n x e differs = rw differs refl
find-snoc_none (u ∷ m) n x e differs =
    let (other, rest) = find-cons_other u m x e in rw other (find-snoc_none m n x rest differs)

equal_sym : (x y : Bytes) → equal x y ≡ false → equal y x ≡ false
equal_sym x y h = elim (Bool-cases (equal y x)) [
  | inl same ↦
      let e : y ≡ x = (equal_iff y x).0 same in cc (sym (equal_refl x) ∙ ap (equal x) (sym e) ∙ h)
  | inr differs ↦ differs
]

pub snoc-IsDistinct :
    (m : List Ticket) (n : Ticket) → find m n.id ≡ none → IsDistinct m → IsDistinct (m ++ n ∷ [])
snoc-IsDistinct [] n h d = (unfold find in refl, tt)
snoc-IsDistinct (u ∷ m) n h (no_other, d) =
    let (other, rest) = find-cons_other u m n.id h in
    (find-snoc_none m n u.id no_other (equal_sym u.id n.id other), snoc-IsDistinct m n rest d)
