-- ===== src/Text/Split.antt =====
-- `strings.Split` at one byte, and `strings.Join`.
use agent_task.Prelude.{
  ℕ, ◌≡◌, ◌≢◌, refl, ap, ◌∙◌, false, List, [], ◌∷◌, ◌++◌, arith, ◌==◌, ==_iff, if◌then◌else◌, All,
  inl, inr, Bool-cases,
}
use agent_task.Text.Compare.{Bytes}

-- A byte in front of the first part.
abbrev pub push_first : ℕ → List Bytes → List Bytes
push_first c [] = (c ∷ []) ∷ []
push_first c (p ∷ ps) = (c ∷ p) ∷ ps

-- `strings.Split(s, sep)` for a separator of one byte.
unfoldable pub split : Bytes → ℕ → List Bytes
split [] sep = [] ∷ []
split (c ∷ s) sep = let rest = split s sep in if c == sep then [] ∷ rest else push_first c rest

-- `strings.Join(parts, sep)`.
unfoldable pub join : List Bytes → Bytes → Bytes
join [] sep = []
join (p ∷ []) sep = p
join (p ∷ q ∷ ps) sep = p ++ (sep ++ join (q ∷ ps) sep)

-- The byte does not stand in the text.
abbrev pub Lacks : ℕ → Bytes → Type 0
Lacks c = All (λ x. (x == c) ≡ false)

pub split-ne-nil : (s : Bytes) (sep : ℕ) → split s sep ≢ []
unfolding split
split-ne-nil [] sep h = cc
split-ne-nil (c ∷ s) sep h = ground (arith, split-ne-nil s sep)

push_first-Lacks :
    (c sep : ℕ) (ps : List Bytes)
    → (c == sep) ≡ false
    → All (Lacks sep) ps
    → All (Lacks sep) (push_first c ps)
push_first-Lacks c sep [] h hs = ((h, tt), tt)
push_first-Lacks c sep (p ∷ ps) h (hp, hs) = ((h, hp), hs)

pub split-Lacks : (s : Bytes) (sep : ℕ) → All (Lacks sep) (split s sep)
unfolding split
split-Lacks [] sep = (tt, tt)
split-Lacks (c ∷ s) sep = elim (Bool-cases (c == sep)) [
  | inl same ↦ rw same (tt, split-Lacks s sep)
  | inr other ↦ rw other (push_first-Lacks c sep (split s sep) other (split-Lacks s sep))
]

join-nil-cons : (ps : List Bytes) (sep : Bytes) → ps ≢ [] → join ([] ∷ ps) sep ≡ sep ++ join ps sep
unfolding join
join-nil-cons [] sep h = absurd (h refl)
join-nil-cons (p ∷ ps) sep h = refl

join-push_first :
    (c : ℕ) (ps : List Bytes) (sep : Bytes) → join (push_first c ps) sep ≡ c ∷ join ps sep
unfolding join
join-push_first c [] sep = refl
join-push_first c (p ∷ []) sep = refl
join-push_first c (p ∷ q ∷ ps) sep = refl

-- Joining the parts of a split gives the text back.
pub join-split : (s : Bytes) (sep : ℕ) → join (split s sep) (sep ∷ []) ≡ s
unfolding split
join-split [] sep = unfold join in refl
join-split (c ∷ s) sep = elim (Bool-cases (c == sep)) [
  | inl same ↦ rw same (
      join-nil-cons (split s sep) (sep ∷ []) (split-ne-nil s sep)
      ∙ rw (join-split s sep) (ground arith))
  | inr other ↦
      rw other (join-push_first c (split s sep) (sep ∷ []) ∙ ap (◌∷◌ c) (join-split s sep))
]

pub split_part : (p : Bytes) (sep : ℕ) → Lacks sep p → split p sep ≡ p ∷ []
unfolding split
split_part [] sep h = refl
split_part (c ∷ p) sep (hc, hp) = rw (hc, split_part p sep hp)

pub split_front :
    (p rest : Bytes) (sep : ℕ) → Lacks sep p → split (p ++ sep ∷ rest) sep ≡ p ∷ split rest sep
unfolding split
split_front [] rest sep h = rw ((==_iff sep sep).1 refl)
split_front (c ∷ p) rest sep (hc, hp) = rw (hc, split_front p rest sep hp)

-- Splitting a join gives the parts back, if there is a part and none holds the separator.
pub split-join :
    (ps : List Bytes) (sep : ℕ) → ps ≢ [] → All (Lacks sep) ps → split (join ps (sep ∷ [])) sep ≡ ps
unfolding join
split-join [] sep h hs = absurd (h refl)
split-join (p ∷ []) sep h (hp, hs) = split_part p sep hp
split-join (p ∷ q ∷ ps) sep h (hp, hs) =
    split_front p (join (q ∷ ps) (sep ∷ [])) sep hp ∙ ap (◌∷◌ p) (split-join (q ∷ ps) sep (cc) hs)
