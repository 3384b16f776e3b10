-- ===== src/Model/Graph.antt =====
-- The searches of spec.go: open blockers, open children, blocked ancestors and blocker cycles.
use agent_task.Prelude.{
  ℕ, zero, suc, Bool, true, false, not, ◌&&◌, Option, none, some, List, [], ◌∷◌, length,
  if◌then◌else◌,
}
use agent_task.Text.{Bytes, equal, contains}
use agent_task.Model.{
  Outcome, done, out_of_fuel, ◌>>=◌, refuse_if, Ticket, is_open, is_closed, find, deref,
  cant_start_not_open, has_open_blockers, parent_not_started, ancestor_not_ready,
}

-- `findOpenBlocker`: the first blocker that is not closed, and the empty id if there is none.
unfoldable pub find_open_blocker : List Ticket → List Bytes → Outcome Bytes
find_open_blocker m [] = done []
find_open_blocker m (b ∷ blockers) = deref (find m b) >>= λ blocker.
    if is_closed blocker.status then find_open_blocker m blockers else done b

-- `findOpenChild`.
unfoldable pub find_open_child : Bytes → List Ticket → Bytes
find_open_child parent_id [] = []
find_open_child parent_id (t ∷ m) =
    let rest = find_open_child parent_id m in
    if equal t.parent_id parent_id && not (is_closed t.status) then t.id else rest

-- The loop of `findPathTo` over the blockers of one ticket. The map of visited ids is shared by all
-- calls, so it is passed on.
abbrev pub Search : Type 0
Search = List Bytes × Option (List Bytes)

unfoldable pub first_path :
    (List Bytes → Bytes → Outcome Search) → List Bytes → List Bytes → Outcome Search
first_path go visited [] = done (visited, none)
first_path go visited (b ∷ blockers) = go visited b >>= λ (seen, path). elim path [
  | none ↦ first_path go seen blockers
  | some p ↦ done (seen, some p)
]

abbrev pub in_front : Bytes → Search → Search
in_front from (seen, none) = (seen, none)
in_front from (seen, some p) = (seen, some (from ∷ p))

-- `findPathTo`; a nil path is `none`.
unfoldable pub find_path_to : List Ticket → Bytes → ℕ → List Bytes → Bytes → Outcome Search
find_path_to m target zero visited from = out_of_fuel
find_path_to m target (suc fuel) visited from =
    let below =
      λ (tk : Ticket). first_path (find_path_to m target fuel) (from ∷ visited) tk.blocked_by in
    if contains visited from
    then done (visited, none)
    else if equal from target
    then done (from ∷ visited, some (target ∷ []))
    else deref (find m from) >>= λ tk. below tk >>= λ found. done (in_front from found)

-- Every call but the last one on a way down marks another ticket as visited.
abbrev pub search_fuel : List Ticket → ℕ
search_fuel m = suc (length m)

abbrev pub path_of : Search → Option (List Bytes)
path_of (seen, path) = path

-- `findBlockerCyclePath`.
unfoldable pub find_blocker_cycle_path : List Ticket → Bytes → Bytes → Outcome (Option (List Bytes))
find_blocker_cycle_path m id blocker_id =
    find_path_to m id (search_fuel m) [] blocker_id >>= λ found. elim (path_of found) [
      | none ↦ done none
      | some p ↦ done (some (id ∷ p))
    ]

-- `findAncestorWithOpenBlocker`: the id of the ancestor, `none` for nil.
unfoldable pub find_ancestor : List Ticket → ℕ → List Bytes → Ticket → Outcome (Option Bytes)
find_ancestor m zero visited tk = out_of_fuel
find_ancestor m (suc fuel) visited tk =
    if contains visited tk.id
    then done (some tk.id)
    else find_open_blocker m tk.blocked_by >>= λ blocker.
        if not (equal blocker [])
        then done (some tk.id)
        else if equal tk.parent_id []
        then done none
        else deref (find m tk.parent_id) >>= λ parent. find_ancestor m fuel (tk.id ∷ visited) parent

abbrev pub has_ancestor : Option Bytes → Bool
has_ancestor none = false
has_ancestor (some id) = true

-- `canStart`.
unfoldable pub can_start : List Ticket → Ticket → Outcome (Unit {0})
can_start m tk = do
  _ ← refuse_if (not (is_open tk.status)) cant_start_not_open
  blocker ← find_open_blocker m tk.blocked_by
  _ ← refuse_if (not (equal blocker [])) has_open_blockers
  if equal tk.parent_id [] then done tt else (do
    parent ← deref (find m tk.parent_id)
    _ ← refuse_if (is_open parent.status) parent_not_started
    ancestor ← find_ancestor m (search_fuel m) [] parent
    refuse_if (has_ancestor ancestor) ancestor_not_ready)
