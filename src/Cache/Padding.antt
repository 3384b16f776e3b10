-- ===== src/Cache/Padding.antt =====
-- Texts in fields of fixed width, filled up with zeros.
use agent_task.Prelude.{
  ℕ, zero, suc, ◌-◌, ◌≤◌, ◌≡◌, refl, ap, ◌∙◌, [], ◌∷◌, ◌++◌, take, length, replicate, length-append,
  length-take, arith, if◌then◌else◌, ◌==◌,
}
use agent_task.Text.{Bytes, Lacks}
use agent_task.Cache.Slices.{until_zero}
use agent_task.Cache.File.{max_parent_len}
use agent_task.Cache.Writer.{padded}

-- What `readParentAt` reads of a parent: it is written to twelve bytes that hold zeros.
unfoldable pub stored_parent : Bytes → Bytes
stored_parent parent = until_zero (take max_parent_len parent)

-- A text of at most twelve bytes, none of them zero, is read as it was written.
pub take_short : (n : ℕ) (s : Bytes) → length s ≤ n → take n s ≡ s
take_short zero [] h = refl
take_short zero (c ∷ s) h = absurd (omega arith)
take_short (suc n) [] h = refl
take_short (suc n) (c ∷ s) h = ap (◌∷◌ c) (take_short n s (omega (arith, h)))

pub until_zero-Lacks : (s : Bytes) → Lacks 0 s → until_zero s ≡ s
until_zero-Lacks [] h = refl
until_zero-Lacks (c ∷ s) (h, hs) = rw h (ap (◌∷◌ c) (until_zero-Lacks s hs))

pub stored_parent_lem :
    (parent : Bytes) → length parent ≤ 12 → Lacks 0 parent → stored_parent parent ≡ parent
unfolding stored_parent
stored_parent_lem parent h k = ap until_zero (take_short 12 parent h) ∙ until_zero-Lacks parent k

until_zero-zeros : (n : ℕ) (s : Bytes) → until_zero (s ++ replicate n 0) ≡ until_zero s
until_zero-zeros zero [] = refl
until_zero-zeros (suc n) [] = refl
until_zero-zeros n (c ∷ s) = ap (λ rest. if c == 0 then [] else c ∷ rest) (until_zero-zeros n s)

pub until_zero-padded : (n : ℕ) (s : Bytes) → until_zero (padded n s) ≡ until_zero (take n s)
unfolding padded
until_zero-padded n s = until_zero-zeros (n - length s) (take n s)

length-replicate : (n c : ℕ) → length (replicate n c) ≡ n
length-replicate zero c = refl
length-replicate (suc n) c = ap suc (length-replicate n c)

pub length-padded : (n : ℕ) (s : Bytes) → length (padded n s) ≡ n
unfolding padded
length-padded n s = omega (
  arith,
  length-append (take n s) (replicate (n - length s) 0),
  length-take n s,
  length-replicate (n - length s) 0,
)
