-- ===== src/Mddb/Paths.antt =====
-- pkg/mddb/validate.go: the test of a path below the data directory, with `filepath.Clean`.
use agent_task.Prelude.{◌≡◌, refl, Bool, not, ◌||◌, List, [], ◌∷◌, ◌++◌, reverse, if◌then◌else◌}
use agent_task.Text.{Bytes, codes, equal, has_prefix, has_suffix, split, join}
use agent_task.Mddb.Outcome.{Outcome, returned, fail_if, invalid, ◌>>◌}

abbrev is_abs : Bytes → Bool
is_abs path = has_prefix path (codes "/")

-- `filepath.Clean` on the parts of a path; the parts that are kept come last first.
abbrev clean_up : Bool → List Bytes → List Bytes
clean_up rooted [] = if rooted then [] else codes ".." ∷ []
clean_up rooted (part ∷ kept) =
    if not (equal part (codes ".."))
    then kept
    else if rooted
    then part ∷ kept
    else codes ".." ∷ part ∷ kept

unfoldable clean_parts : Bool → List Bytes → List Bytes → List Bytes
clean_parts rooted kept [] = kept
clean_parts rooted kept (part ∷ parts) =
    clean_parts rooted
      (if equal part [] || equal part (codes ".")
        then kept
        else if equal part (codes "..")
        then clean_up rooted kept
        else part ∷ kept)
      parts

abbrev or_dot : Bytes → Bytes
or_dot [] = codes "."
or_dot (c ∷ path) = c ∷ path

unfoldable pub clean_path : Bytes → Bytes
unfolding clean_parts
clean_path path =
    let parts = join (reverse (clean_parts (is_abs path) [] (split path b'/'))) (codes "/") in
    if is_abs path then codes "/" ++ parts else or_dot parts

-- `validateRelPath`. On a clean path that does not escape, `filepath.Rel` gives the path itself, so its
-- tests of that repeat those of the path.
unfoldable pub validate_rel_path : Bytes → Outcome (Unit {0})
unfolding clean_path
validate_rel_path path = do
  fail_if (equal path []) invalid
  fail_if (is_abs path) invalid
  fail_if (not (equal (clean_path path) path)) invalid
  fail_if (equal path (codes ".") || equal path (codes "..")) invalid
  fail_if (has_prefix path (codes "../")) invalid
  fail_if (not (has_suffix path (codes ".md"))) invalid

valid_path : validate_rel_path (codes "a/b.md") ≡ returned tt
unfolding validate_rel_path equal has_prefix has_suffix clean_parts split join
valid_path = refl

path_with_dots : clean_path (codes "a//./b/../../../c.md") ≡ codes "../c.md"
unfolding clean_path equal has_prefix split join
path_with_dots = refl
