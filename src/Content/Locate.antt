-- ===== src/Content/Locate.antt =====
-- The two loops find the same line, and that line splits the list of lines.
use agent_task.Prelude.{
  ℕ, ◌+◌, ◌≡◌, ◌⊎◌, refl, ap, ◌∙◌, Bool, true, false, ◌&&◌, Option, none, some, List, [], ◌∷◌, ◌++◌,
  inl, inr, arith, if◌then◌else◌, Bool-cases, length,
}
use agent_task.Text.{Bytes, equal, has_prefix, trim_prefix}
use agent_task.Content.{delimiter, field_value, line_index}

-- The state behind lines that the loop passes over, and `none` if it stops among them.
unfoldable pub passes : Bytes → Bool → List Bytes → Option Bool
passes prefix b [] = some b
passes prefix b (line ∷ lines) =
    let opened = passes prefix true lines in
    let rest = passes prefix b lines in
    if equal line delimiter
    then (if b then none else opened)
    else if b && has_prefix line prefix
    then none
    else rest

-- A line in the frontmatter that the loop returns.
pub record IsHit (prefix line : Bytes) : Type 0 where
  pub inside : equal line delimiter ≡ false
  pub starts : has_prefix line prefix ≡ true

-- The lines around the one that the loop finds.
pub record Found (prefix : Bytes) (b : Bool) (lines : List Bytes) : Type 0 where
  pub before : List Bytes
  pub line : Bytes
  pub after : List Bytes
  pub splits : lines ≡ before ++ line ∷ after
  pub passed : passes prefix b before ≡ some true
  pub hit : IsHit prefix line

module _ (prefix : Bytes) where
  pub field_value-append :
      (before rest : List Bytes) (b c : Bool)
      → passes prefix b before ≡ some c
      → field_value prefix b (before ++ rest) ≡ field_value prefix c rest
  unfolding passes field_value
  field_value-append [] rest b c h = ground arith
  field_value-append (l ∷ ls) rest b c h =
      ground (arith, field_value-append ls rest true c, field_value-append ls rest b c)

  pub line_index-append :
      (before rest : List Bytes) (b c : Bool) (i : ℕ)
      → passes prefix b before ≡ some c
      → line_index prefix b i (before ++ rest) ≡ line_index prefix c (i + length before) rest
  unfolding passes line_index
  line_index-append [] rest b c i h = ground arith
  line_index-append (l ∷ ls) rest b c i h =
      ground
        (arith, line_index-append ls rest true c (i + 1), line_index-append ls rest b c (i + 1))

  pub field_value-hit :
      (line : Bytes) (after : List Bytes)
      → IsHit prefix line
      → field_value prefix true (line ∷ after) ≡ some (trim_prefix line prefix)
  unfolding field_value
  field_value-hit line after h = ground arith

  pub line_index-hit :
      (line : Bytes) (after : List Bytes) (i : ℕ)
      → IsHit prefix line
      → line_index prefix true i (line ∷ after) ≡ some i
  unfolding line_index
  line_index-hit line after i h = ground arith

  Found-cons :
      (line : Bytes) (lines : List Bytes) (b c : Bool)
      → passes prefix b (line ∷ []) ≡ some c
      → Found prefix c lines
      → Found prefix b (line ∷ lines)
  unfolding passes
  Found-cons line lines b c h f = record {
    before = line ∷ f.before;
    line = f.line;
    after = f.after;
    splits = ap (◌∷◌ line) f.splits;
    passed = ground (arith, f.passed);
    hit = f.hit;
  }

abbrev Outcome : Bytes → List Bytes → Bool → ℕ → Type 0
Outcome prefix lines b i =
    ((field_value prefix b lines ≡ none) × (line_index prefix b i lines ≡ none))
    ⊎ Found prefix b lines

Outcome-cons :
    (prefix line : Bytes) (lines : List Bytes) (b c : Bool) (i : ℕ)
    → passes prefix b (line ∷ []) ≡ some c
    → Outcome prefix lines c (i + 1)
    → Outcome prefix (line ∷ lines) b i
Outcome-cons prefix line lines b c i h (inl (v, k)) = inl (
  field_value-append prefix (line ∷ []) lines b c h ∙ v,
  line_index-append prefix (line ∷ []) lines b c i h ∙ k,
)
Outcome-cons prefix line lines b c i h (inr f) = inr (Found-cons prefix line lines b c h f)

-- Either both loops find nothing, or there is the line that both find.
pub search_cases :
    (prefix : Bytes) (lines : List Bytes) (b : Bool) (i : ℕ)
    → ((field_value prefix b lines ≡ none) × (line_index prefix b i lines ≡ none))
      ⊎ Found prefix b lines
search_cases prefix [] b i = unfold field_value line_index in inl (refl, refl)
search_cases prefix (l ∷ ls) true i = elim (Bool-cases (equal l delimiter)) [
  | inl closes ↦ unfold field_value line_index in inl (rw closes, rw closes)
  | inr inside ↦ elim (Bool-cases (has_prefix l prefix)) [
    | inl starts ↦ inr (record {
      before = [];
      line = l;
      after = ls;
      splits = refl;
      passed = unfold passes in refl;
      hit = record { inside = inside; starts = starts };
    })
    | inr other ↦
        Outcome-cons prefix l ls true true i (unfold passes in rw (inside, other))
          (search_cases prefix ls true (i + 1))
  ]
]
search_cases prefix (l ∷ ls) false i = elim (Bool-cases (equal l delimiter)) [
  | inl opens ↦
      Outcome-cons prefix l ls false true i (unfold passes in rw opens)
        (search_cases prefix ls true (i + 1))
  | inr outside ↦
      Outcome-cons prefix l ls false false i (unfold passes in rw outside)
        (search_cases prefix ls false (i + 1))
]
