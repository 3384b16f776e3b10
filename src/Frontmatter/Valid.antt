-- ===== src/Frontmatter/Valid.antt =====
-- Whatever `ParseTicketFrontmatter` returns is a valid summary, by an invariant of its loop.
use agent_task.Prelude.{
  ℕ, ◌+◌, ◌≡◌, refl, Bool, true, false, not, ◌&&◌, ◌||◌, Option, none, some, List, [], ◌∷◌, arith,
  ◌==◌, leb, ltb, if◌then◌else◌, length,
}
use agent_task.Result.{Result, ok, err, scan_failed, frontmatter_too_long, ◌>>=◌}
use agent_task.Result.Ensures.{Ensures, Ensures-ok, Ensures-err, Ensures-if, Ensures-bind}
use agent_task.Text.{Bytes, equal, ℤ, pos, negsuc}
use agent_task.Content.{delimiter}
use agent_task.Ticket.{Summary, status_closed, is_valid_status, is_valid_type, is_valid_priority}
use agent_task.Frontmatter.{
  State, Next, more, continue_with, scan_lines, done, split_key, set_schema_version, set_id,
  set_status, set_type, set_priority, set_blocked_by, set_parent, set_assignee, set_created,
  set_closed, set_field, field_line, title_line, finish, initial, step, scan, parse_frontmatter,
  max_frontmatter_lines, drop_return, max_token_size,
}

abbrev implies : Bool → Bool → Bool
implies a b = not a || b

abbrev is_one : ℤ → Bool
is_one (pos n) = n == 1
is_one (negsuc n) = false

module _ (valid_time : Bytes → Bool) where
  -- A field that is marked as seen is good.
  record IsSound (s : State) : Type 0 where
    schema : implies s.has_schema_version (is_one s.summary.schema_version) ≡ true
    id : implies s.has_id (not (equal s.summary.id [])) ≡ true
    status : implies s.has_status (is_valid_status s.summary.status) ≡ true
    ticket_type : implies s.has_type (is_valid_type s.summary.ticket_type) ≡ true
    priority : implies s.has_priority (is_valid_priority s.summary.priority) ≡ true
    created : implies s.has_created (valid_time s.summary.created) ≡ true
    closed : implies (not (equal s.summary.closed [])) (valid_time s.summary.closed) ≡ true

  module _ (value : Bytes) (s : State) (h : IsSound s) where
    set_schema_version-IsSound : Ensures IsSound (set_schema_version value s)
    unfolding set_schema_version
    set_schema_version-IsSound = record { at = λ t e. ground arith }

    set_id-IsSound : Ensures IsSound (set_id value s)
    unfolding set_id
    set_id-IsSound = record { at = λ t e. ground arith }

    set_status-IsSound : Ensures IsSound (set_status value s)
    unfolding set_status
    set_status-IsSound = record { at = λ t e. ground arith }

    set_type-IsSound : Ensures IsSound (set_type value s)
    unfolding set_type
    set_type-IsSound = record { at = λ t e. ground arith }

    set_priority-IsSound : Ensures IsSound (set_priority value s)
    unfolding set_priority
    set_priority-IsSound = record { at = λ t e. ground arith }

    set_created-IsSound : Ensures IsSound (set_created valid_time value s)
    unfolding set_created
    set_created-IsSound = record { at = λ t e. ground arith }

    set_blocked_by-IsSound : Ensures IsSound (set_blocked_by value s)
    unfolding set_blocked_by
    set_blocked_by-IsSound = record { at = λ t e. ground arith }

    set_parent-IsSound : Ensures IsSound (set_parent value s)
    unfolding set_parent
    set_parent-IsSound = record { at = λ t e. ground arith }

    set_assignee-IsSound : Ensures IsSound (set_assignee value s)
    unfolding set_assignee
    set_assignee-IsSound = record { at = λ t e. ground arith }

    set_closed-IsSound : Ensures IsSound (set_closed valid_time value s)
    unfolding set_closed
    set_closed-IsSound = record { at = λ t e. ground arith }

    ruleset field_rules = (
      set_schema_version-IsSound, set_id-IsSound, set_status-IsSound, set_type-IsSound,
      set_priority-IsSound, set_created-IsSound, set_blocked_by-IsSound, set_parent-IsSound,
      set_assignee-IsSound, set_closed-IsSound,
    )

    set_field-IsSound : (key : Bytes) → Ensures IsSound (set_field valid_time key value s)
    unfolding set_field
    set_field-IsSound key = search (field_rules, Ensures-ok, Ensures-if) depth 14

  field_line-IsSound :
      (line : Bytes) (s : State) → IsSound s → Ensures IsSound (field_line valid_time line s)
  unfolding field_line
  field_line-IsSound line s h = go (split_key line) refl
    where
      go :
          (o : Option (Bytes × Bytes))
          → split_key line ≡ o
          → Ensures IsSound (field_line valid_time line s)
      go none e = rw (e, field_line) (Ensures-ok h)
      go (some (key, value)) e =
          rw (e, field_line)
            (Ensures-if (equal key []) (ok s) (set_field valid_time key value s) (Ensures-ok h)
              (set_field-IsSound value s h key))

  -- What a round of the loop keeps, whether it goes on or breaks.
  abbrev SoundNext : Next → Type 0
  SoundNext (more t) = IsSound t
  SoundNext (done t) = IsSound t

  titled :
      (title : Bytes) (s : State)
      → IsSound s
      → SoundNext (done (record s { summary = record s.summary { title = title } }))
  titled title s h = ground arith

  title_line-IsSound :
      (line : Bytes) (s : State) → IsSound s → Ensures SoundNext (title_line line s)
  unfolding title_line
  title_line-IsSound line s h = search (Ensures-if, Ensures-ok, Ensures-err, titled)

  moved :
      (a b c : Bool) (n : ℕ) (s : State)
      → IsSound s
      → IsSound (record s { in_frontmatter = a; started = b; ended = c; line_count = n })
  moved a b c n s h = ground arith

  fielded :
      (line : Bytes) (s : State)
      → IsSound s
      → Ensures SoundNext (field_line valid_time line s >>= λ t. ok (more t))
  fielded line s h =
      Ensures-bind (field_line valid_time line s) (λ t. ok (more t)) (field_line-IsSound line s h)
        (λ t k. Ensures-ok k)

  step-IsSound : (line : Bytes) (s : State) → IsSound s → Ensures SoundNext (step valid_time line s)
  unfolding step
  step-IsSound line s h =
      let n = s.line_count + 1 in
      let t = record s { line_count = n } in
      let u = moved s.in_frontmatter s.started s.ended n s h in
      let opened = ok (more (record t { started = true; in_frontmatter = true })) in
      let closed = ok (more (record t { in_frontmatter = false; ended = true })) in
      let delimited = if not s.started then opened else closed in
      let field = field_line valid_time line t >>= λ a. ok (more a) in
      let inside = if s.in_frontmatter then field else title_line line t in
      Ensures-if (s.in_frontmatter && ltb max_frontmatter_lines n) (err frontmatter_too_long)
        (if equal line delimiter then delimited else inside) Ensures-err
        (Ensures-if (equal line delimiter) delimited inside
          (Ensures-if (not s.started) opened closed (Ensures-ok (moved true true s.ended n s h))
            (Ensures-ok (moved false s.started true n s h)))
          (Ensures-if s.in_frontmatter field (title_line line t) (fielded line t u)
            (title_line-IsSound line t u)))

  continued :
      (rest : State → Result State)
      → ((s : State) → IsSound s → Ensures IsSound (rest s))
      → (next : Next) → SoundNext next
      → Ensures IsSound (continue_with rest next)
  continued rest h (more t) k = h t k
  continued rest h (done t) k = Ensures-ok k

  scan-IsSound :
      (lines : List Bytes) (s : State) → IsSound s → Ensures IsSound (scan valid_time s lines)
  unfolding scan
  scan-IsSound [] s h = Ensures-ok h
  scan-IsSound (line ∷ lines) s h =
      let rest = λ (t : State). scan valid_time t lines in
      let round = step valid_time (drop_return line) s in
      Ensures-if (leb max_token_size (length line)) (err scan_failed) (round >>= continue_with rest)
        Ensures-err
        (Ensures-bind round (continue_with rest) (step-IsSound (drop_return line) s h)
          (continued rest (scan-IsSound lines)))

-- The summaries that the rest of the program relies on.
pub record IsValid (valid_time : Bytes → Bool) (s : Summary) : Type 0 where
  pub schema_version : s.schema_version ≡ pos 1
  pub id : equal s.id [] ≡ false
  pub status : is_valid_status s.status ≡ true
  pub ticket_type : is_valid_type s.ticket_type ≡ true
  pub priority : is_valid_priority s.priority ≡ true
  pub created : valid_time s.created ≡ true
  pub title : equal s.title [] ≡ false
  pub closed_iff : equal s.closed [] ≡ not (equal s.status status_closed)
  pub closed : equal s.status status_closed ≡ true → valid_time s.closed ≡ true

one_eq : (v : ℤ) → is_one v ≡ true → v ≡ pos 1
one_eq (pos n) h = ground arith
one_eq (negsuc n) h = cc

finish-IsValid :
    (valid_time : Bytes → Bool) (s : State)
    → IsSound valid_time s
    → Ensures (IsValid valid_time) (finish s)
unfolding finish
finish-IsValid valid_time s h = record {
  at = λ v e. ground (arith, one_eq s.summary.schema_version);
}

initial-IsSound : (valid_time : Bytes → Bool) (path : Bytes) → IsSound valid_time (initial path)
unfolding equal
initial-IsSound valid_time path = record {
  schema = refl;
  id = refl;
  status = refl;
  ticket_type = refl;
  priority = refl;
  created = refl;
  closed = refl;
}

-- `ParseTicketFrontmatter` returns valid summaries only: version 1, an id, a known status and type,
-- a priority from 1 to 4, a readable creation time, a title, and a readable closing time exactly if
-- the status is closed.
pub parse_frontmatter-IsValid :
    (valid_time : Bytes → Bool) (path content : Bytes) (s : Summary)
    → parse_frontmatter valid_time path content ≡ ok s
    → IsValid valid_time s
unfolding parse_frontmatter
parse_frontmatter-IsValid valid_time path content s e =
    (Ensures-bind (scan valid_time (initial path) (scan_lines content)) finish
        (scan-IsSound valid_time (scan_lines content) (initial path)
          (initial-IsSound valid_time path))
        (finish-IsValid valid_time)).at
      s e
