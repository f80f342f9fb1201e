-- ===== src/Maintenance/Requests.antt =====
-- The validation of maintenance requests and the status of a window (app/maintenance_windows/policy.py).
-- A field of a JSON body is what Python's `int` makes of it; a number is a natural number here.
pub mod Accepted
use open_asicmanager.Prelude.{
  ℕ, ◌+◌, ◌-◌, String, Bool, true, false, not, ◌&&◌, Option, none, some, List, [], ◌∷◌, leb, ltb,
  if◌then◌else◌, Result, ok, raised, ◌>>=◌, ◌>>◌, raise_if, strip, count, is_empty,
}
use open_asicmanager.Maintenance.{Scope, farm, miner_scope, group_scope, Window, Normalized}

-- A member of the body that is read as a number.
pub data Field : Type 0 where
  absent null unreadable : Field
  integer : ℕ → Field

pub data NoteField : Type 0 where
  absent null not_text : NoteField
  text : String → NoteField

pub data RequestError : Type 0 where
  not_object unknown_fields bad_scope no_ends_at bad_starts_at bad_ends_at : RequestError
  ends_before_start ends_in_past too_long miner_not_null group_not_null : RequestError
  miner_required miner_not_positive group_required group_not_positive : RequestError
  bad_note note_too_long : RequestError
  already_ended already_expired does_not_extend : RequestError

-- `scope` is the text after `str(…).strip().upper()`, none where it is not one of the three.
pub record CreateBody : Type 0 where
  pub unknown : List String
  pub scope : Option Scope
  pub miner_id : Field
  pub group_id : Field
  pub starts_at : Field
  pub ends_at : Field
  pub note : NoteField

pub record ExtendBody : Type 0 where
  pub unknown : List String
  pub ends_at : Field
  pub note : NoteField

abbrev pub max_maintenance_duration_seconds : ℕ
max_maintenance_duration_seconds = 604800

abbrev pub max_maintenance_note_length : ℕ
max_maintenance_note_length = 500

-- `note or None`
abbrev some_note : String → Option String
some_note note = if is_empty note then none else some note

normalize_text : String → Result RequestError (Option String)
normalize_text value =
    let note = strip value in
    if ltb max_maintenance_note_length (count note)
    then raised note_too_long
    else ok (some_note note)

pub normalize_maintenance_note : NoteField → Result RequestError (Option String)
unfolding normalize_text
normalize_maintenance_note absent = ok none
normalize_maintenance_note null = ok none
normalize_maintenance_note not_text = raised bad_note
normalize_maintenance_note (text value) = normalize_text value

-- The field, or a default where it is absent.
abbrev integer_or : RequestError → ℕ → Field → Result RequestError ℕ
integer_or e default absent = ok default
integer_or e default null = raised e
integer_or e default unreadable = raised e
integer_or e default (integer n) = ok n

-- "ends_at" not in payload
required_end : Field → Result RequestError ℕ
required_end absent = raised no_ends_at
required_end null = raised bad_ends_at
required_end unreadable = raised bad_ends_at
required_end (integer n) = ok n

is_null : Field → Bool
is_null absent = true
is_null null = true
is_null _ = false

positive_id : RequestError → RequestError → Field → Result RequestError ℕ
positive_id missing low (integer n) = if ltb 0 n then ok n else raised low
positive_id missing low _ = raised missing

-- The two ids that a scope wants.
scope_ids : Scope → Field → Field → Result RequestError (Option ℕ × Option ℕ)
unfolding is_null positive_id
scope_ids farm m g =
    raise_if (not (is_null m)) miner_not_null
    >> raise_if (not (is_null g)) group_not_null
    >> ok (none, none)
scope_ids miner_scope m g =
    raise_if (not (is_null g)) group_not_null
    >> positive_id miner_required miner_not_positive m
    >>= λ n. ok (some n, none)
scope_ids group_scope m g =
    raise_if (not (is_null m)) miner_not_null
    >> positive_id group_required group_not_positive g
    >>= λ n. ok (none, some n)

-- ends_at - starts_at > MAX_MAINTENANCE_DURATION_SECONDS
abbrev too_long? : ℕ → ℕ → Bool
too_long? starts_at ends_at = ltb (starts_at + max_maintenance_duration_seconds) ends_at

check_times : ℕ → ℕ → ℕ → Result RequestError Unit
check_times now starts_at ends_at =
    raise_if (leb ends_at starts_at) ends_before_start
    >> raise_if (leb ends_at now) ends_in_past
    >> raise_if (too_long? starts_at ends_at) too_long

known_scope : Option Scope → Result RequestError Scope
known_scope none = raised bad_scope
known_scope (some scope) = ok scope

no_unknown : List String → Result RequestError Unit
no_unknown [] = ok tt
no_unknown (x ∷ xs) = raised unknown_fields

-- The order of the checks is the source's: the end must be there before the start is read.
has_end : Field → Result RequestError Unit
has_end absent = raised no_ends_at
has_end _ = ok tt

normalize_body : CreateBody → ℕ → Result RequestError Normalized
unfolding normalize_maintenance_note required_end scope_ids check_times known_scope no_unknown
    has_end
normalize_body b now = do
  no_unknown b.unknown
  scope ← known_scope b.scope
  has_end b.ends_at
  starts_at ← integer_or bad_starts_at now b.starts_at
  ends_at ← required_end b.ends_at
  check_times now starts_at ends_at
  (miner_id, group_id) ← scope_ids scope b.miner_id b.group_id
  note ← normalize_maintenance_note b.note
  ok record {
    scope = scope;
    miner_id = miner_id;
    group_id = group_id;
    starts_at = starts_at;
    ends_at = ends_at;
    note = note;
  }

-- `none` is a body that is no JSON object.
unfoldable pub normalize_maintenance_create : Option CreateBody → ℕ → Result RequestError Normalized
unfolding normalize_body
normalize_maintenance_create none now = raised not_object
normalize_maintenance_create (some b) now = normalize_body b now

-- `if "note" in payload else current["note"]`
extend_note : NoteField → Option String → Result RequestError (Option String)
unfolding normalize_maintenance_note
extend_note absent current = ok current
extend_note field current = normalize_maintenance_note field

abbrev pub is_ended : Option ℕ → Bool
is_ended none = false
is_ended (some t) = true

extend_body : ExtendBody → Window → ℕ → Result RequestError (ℕ × Option String)
unfolding required_end extend_note no_unknown
extend_body b current now = do
  no_unknown b.unknown
  raise_if (is_ended current.ended_at) already_ended
  raise_if (leb current.ends_at now) already_expired
  ends_at ← required_end b.ends_at
  raise_if (leb ends_at current.ends_at) does_not_extend
  raise_if (too_long? current.starts_at ends_at) too_long
  note ← extend_note b.note current.note
  ok (ends_at, note)

unfoldable pub normalize_maintenance_extend :
    Option ExtendBody → Window → ℕ → Result RequestError (ℕ × Option String)
unfolding extend_body
normalize_maintenance_extend none current now = raised not_object
normalize_maintenance_extend (some b) current now = extend_body b current now

pub data WindowStatus : Type 0 where
  ended scheduled active expired : WindowStatus

unfoldable pub maintenance_status : Window → ℕ → WindowStatus
maintenance_status row now =
    if is_ended row.ended_at
    then ended
    else if ltb now row.starts_at
    then scheduled
    else if ltb now row.ends_at
    then active
    else expired
