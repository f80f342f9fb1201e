-- ===== src/Maintenance/Requests/Accepted.antt =====
-- What the validation of app/maintenance_windows/policy.py guarantees of a request that it accepts.
use open_asicmanager.Prelude.{
  ℕ, ◌+◌, ◌≤◌, ◌<◌, ◌≡◌, refl, String, Bool, true, false, Option, none, some, arith, Bool-cases,
  inl, inr, leb, ltb, ok, raise_if, Ensures, bind-Ensures, then-Ensures, ensured, strip, count,
  is_empty,
}
use open_asicmanager.Maintenance.{Scope, farm, miner_scope, group_scope, Window, Normalized}
use open_asicmanager.Maintenance.Invariant.{shape, Bounded}
use open_asicmanager.Maintenance.Requests.{
  CreateBody, ExtendBody, NoteField, absent, null, not_text, text, normalize_text,
  max_maintenance_note_length, Field, RequestError, scope_ids, check_times, too_long?, positive_id,
  is_null, normalize_body, extend_body, normalize_maintenance_create, normalize_maintenance_extend,
  no_unknown, known_scope, has_end, required_end, integer_or, normalize_maintenance_note,
  extend_note, is_ended, too_long, already_ended, already_expired, does_not_extend, bad_starts_at,
}

check_times_bounds :
    (now starts_at ends_at : ℕ)
    → check_times now starts_at ends_at ≡ ok tt
    → Bounded starts_at ends_at × (now < ends_at)
unfolding check_times
check_times_bounds now starts_at ends_at h = ground arith

scope_ids-shape :
    (scope : Scope) (m g : Field) (ids : Option ℕ × Option ℕ)
    → scope_ids scope m g ≡ ok ids
    → shape scope ids.0 ids.1 ≡ true
unfolding scope_ids shape is_null positive_id
scope_ids-shape farm m g ids h = ground arith
scope_ids-shape miner_scope m g ids h = ground arith
scope_ids-shape group_scope m g ids h = ground arith

-- A note that is kept: some text, of at most 500 characters.
abbrev pub IsNote : Option String → Type 0
IsNote none = Unit
IsNote (some words) = (is_empty words ≡ false) × (count words ≤ max_maintenance_note_length)

text-IsNote : (value : String) → Ensures IsNote (normalize_text value)
unfolding normalize_text
text-IsNote value = elim (Bool-cases (ltb 500 (count (strip value)))) [
  | inl e ↦ rw e tt
  | inr e ↦ rw e (elim (Bool-cases (is_empty (strip value))) [
    | inl f ↦ rw f tt
    | inr f ↦ rw f (f, ground arith)
  ])
]

normalize_maintenance_note-IsNote :
    (field : NoteField) → Ensures IsNote (normalize_maintenance_note field)
unfolding normalize_maintenance_note
normalize_maintenance_note-IsNote (text value) = text-IsNote value
normalize_maintenance_note-IsNote absent = tt
normalize_maintenance_note-IsNote null = tt
normalize_maintenance_note-IsNote not_text = tt

-- A request that is accepted.
abbrev pub Acceptable : ℕ → Normalized → Type 0
Acceptable now n =
    (shape n.scope n.miner_id n.group_id ≡ true)
    × (Bounded n.starts_at n.ends_at × ((now < n.ends_at) × IsNote n.note))

normalize_body-Acceptable :
    (b : CreateBody) (now : ℕ) → Ensures (Acceptable now) (normalize_body b now)
unfolding normalize_body
normalize_body-Acceptable b now = then-Ensures _ (no_unknown b.unknown) _ (λ h0.
    bind-Ensures _ (known_scope b.scope) _ (λ scope h1. then-Ensures _ (has_end b.ends_at) _ (λ h2.
      bind-Ensures _ (integer_or bad_starts_at now b.starts_at) _ (λ starts_at h3.
        bind-Ensures _ (required_end b.ends_at) _ (λ ends_at h4.
          then-Ensures _ (check_times now starts_at ends_at) _ (λ h5.
            bind-Ensures _ (scope_ids scope b.miner_id b.group_id) _ (λ ids h6.
              bind-Ensures _ (normalize_maintenance_note b.note) _ (λ words h7.
                let (bounds, later) = check_times_bounds now starts_at ends_at h5 in
                (
                  scope_ids-shape scope b.miner_id b.group_id ids h6,
                  (bounds, (later, ensured IsNote _ (normalize_maintenance_note-IsNote b.note) h7)),
                )))))))))

-- A request to create a window that is accepted has the ids of its scope and no others, ends after it
-- starts and after the present, lasts at most seven days, and its note, if any, is a text that is not
-- empty and has at most 500 characters.
pub normalize_maintenance_create-Acceptable :
    (body : Option CreateBody) (now : ℕ)
    → Ensures (Acceptable now) (normalize_maintenance_create body now)
unfolding normalize_maintenance_create
normalize_maintenance_create-Acceptable none now = tt
normalize_maintenance_create-Acceptable (some b) now = normalize_body-Acceptable b now

-- An extension that is accepted: of a window that is not over, to a later end.
abbrev pub Extends : Window → ℕ → ℕ × Option String → Type 0
Extends current now (ends_at, words) =
    (is_ended current.ended_at ≡ false)
    × ((now < current.ends_at)
        × ((current.ends_at < ends_at) × (ends_at ≤ current.starts_at + 604800)))

unraised : (b : Bool) (e : RequestError) → raise_if b e ≡ ok tt → b ≡ false
unraised true e h = cc
unraised false e h = refl

pub normalize_maintenance_extend-Extends :
    (body : Option ExtendBody) (current : Window) (now : ℕ)
    → Ensures (Extends current now) (normalize_maintenance_extend body current now)
unfolding normalize_maintenance_extend extend_body
normalize_maintenance_extend-Extends none current now = tt
normalize_maintenance_extend-Extends (some b) current now =
    then-Ensures _ (no_unknown b.unknown) _ (λ h0.
      then-Ensures _ (raise_if (is_ended current.ended_at) already_ended) _ (λ h1.
        then-Ensures _ (raise_if (leb current.ends_at now) already_expired) _ (λ h2.
          bind-Ensures _ (required_end b.ends_at) _ (λ ends_at h3.
            then-Ensures _ (raise_if (leb ends_at current.ends_at) does_not_extend) _ (λ h4.
              then-Ensures _ (raise_if (too_long? current.starts_at ends_at) too_long) _ (λ h5.
                bind-Ensures _ (extend_note b.note current.note) _ (λ words h6. (
                  unraised _ _ h1,
                  (
                    ground (arith, unraised _ _ h2),
                    (ground (arith, unraised _ _ h4), ground (arith, unraised _ _ h5)),
                  ),
                ))))))))
