-- ===== src/Ident.antt =====
-- internal/ticket/ticket.go: the ids of new tickets. `generate_id` prints the seconds of the clock,
-- and `generate_unique` looks for an id that no ticket has.
pub mod Order
pub mod Unique
use agent_task.Prelude.{
  ℕ, zero, suc, ◌+◌, ◌*◌, ◌/◌, ◌%◌, Bool, true, false, not, Option, none, some, List, [], ◌∷◌, ◌++◌,
  reverse, map, ltb, ◌==◌, if◌then◌else◌, length, get_or,
}
use agent_task.Result.{Result, ok, err, id_generation_failed}
use agent_task.Text.{Bytes, codes, equal}

-- The loop that fills the buffer from its last byte.
unfoldable pub timestamp_bytes : ℕ → ℕ → Bytes → Bytes
timestamp_bytes zero sec out = out
timestamp_bytes (suc i) sec out = timestamp_bytes i (sec / 256) ((sec % 256) ∷ out)

abbrev pub crockford_base32 : Bytes
crockford_base32 = codes "0123456789abcdefghjkmnpqrstvwxyz"

unfoldable pub crockford : ℕ → ℕ
crockford digit = get_or crockford_base32 digit 0

-- `EncodeToString` without padding, of four bytes: groups of five bits, the last one filled up.
unfoldable pub encode_base32 : Bytes → Bytes
unfolding crockford
encode_base32 (a ∷ b ∷ c ∷ d ∷ []) = map crockford (
    a / 8
    ∷ (a % 8 * 4 + b / 64)
    ∷ b / 2 % 32
    ∷ (b % 2 * 16 + c / 16)
    ∷ (c % 16 * 2 + d / 128)
    ∷ d / 4 % 32
    ∷ (d % 4 * 8)
    ∷ [])
encode_base32 _ = []

-- `generateTimestampComponent`, at the clock's Unix seconds.
unfoldable pub generate_id : ℕ → Bytes
unfolding timestamp_bytes encode_base32
generate_id sec = encode_base32 (timestamp_bytes 4 sec [])

-- The loop of `nextSuffix` over the letters, the last one first: `none` where all are `z`.
unfoldable pub increment : Bytes → Option Bytes
increment [] = none
increment (c ∷ rest) =
    let carried = increment rest in
    if ltb c b'z'
    then some ((c + 1) ∷ rest)
    else elim carried [ none ↦ none | some r ↦ some (b'a' ∷ r) ]

unfoldable pub next_suffix : Bytes → Bytes
unfolding increment
next_suffix [] = codes "a"
next_suffix (c ∷ s) = elim (increment (reverse (c ∷ s))) [
  | none ↦ (c ∷ s) ++ codes "a"
  | some r ↦ reverse r
]

abbrev pub max_suffix_length : ℕ
max_suffix_length = 4

-- The suffix in round 105 is the first of more than four letters, and the loop ends there.
abbrev pub suffix_fuel : ℕ
suffix_fuel = 105

module _ (exists : Bytes → Bool) (base : Bytes) where
  -- The loop that appends suffixes; `none` means that the fuel ran out.
  unfoldable pub suffix_loop : ℕ → Bytes → Option (Result Bytes)
  suffix_loop zero suffix = none
  suffix_loop (suc fuel) suffix =
      let next = next_suffix suffix in
      let rest = suffix_loop fuel next in
      if not (exists (base ++ next))
      then some (ok (base ++ next))
      else if ltb max_suffix_length (length next)
      then some (err id_generation_failed)
      else rest

  -- `generateUniqueIDFromBase`.
  unfoldable pub generate_unique : Option (Result Bytes)
  unfolding suffix_loop
  generate_unique =
      let tried = suffix_loop suffix_fuel [] in
      if equal base []
      then some (err id_generation_failed)
      else if not (exists base)
      then some (ok base)
      else tried
