-- ===== src/Ident/Unique.antt =====
-- The search for an unused id ends, and finds one if a candidate is free.
use agent_task.Prelude.{
  ℕ, zero, suc, ◌≡◌, ◌⊎◌, refl, ◌∙◌, ap, Bool, true, false, not, ◌&&◌, Option, none, some, List, [],
  ◌∷◌, ◌++◌, append-nil, inl, inr, arith, Option-cases, ltb, if◌then◌else◌, Bool-cases, length, All,
}
use agent_task.Result.{Result, ok, err, id_generation_failed}
use agent_task.Text.{less, Bytes, equal}
use agent_task.Ident.{next_suffix, max_suffix_length, suffix_fuel, suffix_loop, generate_unique}

-- The suffixes that the loop tries: up to the first one of more than four letters.
pub tried : ℕ → Bytes → Option (List Bytes)
tried zero suffix = none
tried (suc fuel) suffix =
    let next = next_suffix suffix in
    let rest = tried fuel next in
    if ltb max_suffix_length (length next)
    then some (next ∷ [])
    else elim rest [ none ↦ none | some ss ↦ some (next ∷ ss) ]

abbrev value_of : Option (List Bytes) → List Bytes
value_of none = []
value_of (some ss) = ss

-- a to z, za to zz, and so on to zzzz, and zzzza.
pub suffixes : List Bytes
unfolding tried next_suffix
suffixes = value_of (tried 105 [])

tried-suffixes : tried 105 [] ≡ some suffixes
unfolding suffixes
tried-suffixes = refl

suffixes_count : length suffixes ≡ 105
unfolding suffixes
suffixes_count = refl

-- Each suffix sorts behind the one before it.
abbrev ascending : Bytes → List Bytes → Bool
ascending s [] = true
ascending s (t ∷ ts) = less s t && ascending t ts

suffixes-ascending : ascending [] suffixes ≡ true
unfolding suffixes less
suffixes-ascending = refl

module _ (exists : Bytes → Bool) (base : Bytes) where
  -- The search as a plain recursion over the suffixes.
  first_free : List Bytes → Result Bytes
  first_free [] = err id_generation_failed
  first_free (s ∷ ss) = if not (exists (base ++ s)) then ok (base ++ s) else first_free ss

  suffix_loop-first_free :
      (fuel : ℕ) (suffix : Bytes) (ss : List Bytes)
      → tried fuel suffix ≡ some ss
      → suffix_loop exists base fuel suffix ≡ some (first_free ss)
  unfolding tried suffix_loop first_free
  suffix_loop-first_free zero suffix ss h = cc
  suffix_loop-first_free (suc fuel) suffix ss h =
      elim (Option-cases (tried fuel (next_suffix suffix))) [
        | inl e ↦ ground arith
        | inr (rest, e) ↦ ground (arith, suffix_loop-first_free fuel (next_suffix suffix) rest e)
      ]

  -- The first suffix whose id is free, or all ids are taken.
  first_free_cases :
      (ss : List Bytes)
      → ((s : Bytes) × (first_free ss ≡ ok (base ++ s)) × (exists (base ++ s) ≡ false))
        ⊎ ((first_free ss ≡ err id_generation_failed) × All (λ s. exists (base ++ s) ≡ true) ss)
  unfolding first_free
  first_free_cases [] = inr (refl, tt)
  first_free_cases (s ∷ ss) = elim (Bool-cases (exists (base ++ s))) [
    | inl used ↦ rw used (elim (first_free_cases ss) [
      | inl found ↦ inl found
      | inr (e, all_used) ↦ inr (e, (refl, all_used))
    ])
    | inr free ↦ inl (s, rw free, free)
  ]

  -- The search ends within its fuel. It returns an id that no ticket has, the base or the base and
  -- a suffix, or it fails, and then the base and every suffix are taken.
  pub generate_unique_lem :
      equal base [] ≡ false
      → ((s : Bytes) × (generate_unique exists base ≡ some (ok (base ++ s)))
          × (exists (base ++ s) ≡ false))
        ⊎ ((generate_unique exists base ≡ some (err id_generation_failed))
            × (exists base ≡ true)
            × All (λ s. exists (base ++ s) ≡ true) suffixes)
  unfolding generate_unique
  generate_unique_lem h =
      let looped = suffix_loop-first_free suffix_fuel [] suffixes tried-suffixes in
      elim (Bool-cases (exists base)) [
        | inr free ↦ inl ([], rw (h, append-nil base, free), rw (append-nil base) free)
        | inl used ↦ elim (first_free_cases suffixes) [
          | inl (s, e, free) ↦ inl (s, rw (h, used) (looped ∙ ap some e), free)
          | inr (e, all_used) ↦ inr (rw (h, used) (looped ∙ ap some e), used, all_used)
        ]
      ]
