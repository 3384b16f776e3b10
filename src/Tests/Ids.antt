-- ===== src/Tests/Ids.antt =====
-- The ids of new tickets at concrete clocks and directories.
use agent_task.Prelude.{◌≡◌, ◌⊎◌, refl, Bool, true, false, some, [], ◌∷◌, ◌++◌, All, arith}
use agent_task.Result.{ok, err, id_generation_failed}
use agent_task.Text.{less, Bytes, codes, equal, contains}
use agent_task.Ident.{next_suffix, generate_id, generate_unique}
use agent_task.Ident.Order.{less-generate_id}
use agent_task.Ident.Unique.{suffixes, generate_unique_lem}

generated : generate_id 1700000000 ≡ codes "cn9z200"
unfolding generate_id
generated = refl

less-generate_id_example : less (generate_id 1700000000) (generate_id 1700000001) ≡ true
less-generate_id_example = less-generate_id 1700000000 1700000001 (ground arith) (ground arith)

abbrev taken : Bytes → Bool
taken id = contains (codes "x" ∷ codes "xa" ∷ []) id

unique : generate_unique taken (codes "x") ≡ some (ok (codes "xb"))
unfolding generate_unique contains equal next_suffix
unique = refl

not_empty : equal (codes "x") [] ≡ false
unfolding equal
not_empty = refl

generate_unique_lem_example :
    ((s : Bytes) × (generate_unique taken (codes "x") ≡ some (ok (codes "x" ++ s)))
      × (taken (codes "x" ++ s) ≡ false))
    ⊎ ((generate_unique taken (codes "x") ≡ some (err id_generation_failed))
        × (taken (codes "x") ≡ true)
        × All (λ s. taken (codes "x" ++ s) ≡ true) suffixes)
generate_unique_lem_example = generate_unique_lem taken (codes "x") not_empty
