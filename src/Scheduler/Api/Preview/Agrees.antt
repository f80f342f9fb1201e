-- ===== src/Scheduler/Api/Preview/Agrees.antt =====
-- What the preview tells of a request that names no rule, against what the create handler answers to
-- it (app/api/scheduler.py).
use open_asicmanager.Prelude.{
  ℕ, ap, ◌<◌, ◌==◌, ==_refl, first-append_none, first_none_of_All, All-map, ◌≡◌, refl, ◌∙◌, true,
  false, Option, none, some, Result, ok, raised, ◌>>=◌, ◌>>◌, arith, String, [], ◌∷◌, first_row,
}
use open_asicmanager.Groups.{Group}
use open_asicmanager.Values.{object, Fields, get}
use open_asicmanager.Scheduler.{Rule, Local}
use open_asicmanager.Scheduler.Input.{ScheduleInput}
use open_asicmanager.Scheduler.Table.{
  RuleTable, is_rule, new_rule, schedule_conflicting_rule, get_schedule_rule, create_schedule_rule,
}
use open_asicmanager.Scheduler.Api.{
  ApiError, conflict_with, ApiState, no_conflict, validated_schedule_group, create_checks,
  after_create, api_schedule_rule_create,
}
use open_asicmanager.Scheduler.Table.Apart.{IsSound}
use open_asicmanager.Scheduler.Input.Times.{as_input}
use open_asicmanager.Scheduler.Api.Preview.{Preview, given, preview_of, api_schedule_preview}

-- What the preview says of the reply of a handler: the error it raises, the conflict it answers with,
-- or a rule that reads as the request.
abbrev pub Foretells : Result ApiError Preview → Result ApiError Rule → Type 0
Foretells (raised e) reply = reply ≡ raised e
Foretells (ok p) reply = elim p.conflict [
  | none ↦ (p.allowed ≡ true) × (x : Rule) × (reply ≡ ok x) × (as_input x ≡ p.input)
  | some c ↦ (p.allowed ≡ false) × (reply ≡ raised (conflict_with c))
]

found_rule :
    (n : ScheduleInput) (now : ℕ) (t : RuleTable)
    → IsSound t
    → create_schedule_rule n now t
      ≡ (some (new_rule t.next_rule n now), (create_schedule_rule n now t).1)
unfolding create_schedule_rule get_schedule_rule
found_rule n now t w =
    ap (λ o. (o, (create_schedule_rule n now t).1))
      (first-append_none (is_rule t.next_rule) t.rules (new_rule t.next_rule n now ∷ []) missing
        ∙ first_alone (==_refl t.next_rule))
  where
    missing : first_row (is_rule t.next_rule) t.rules ≡ none
    missing = first_none_of_All (is_rule t.next_rule) t.rules (
        All-map (λ r. r.id < t.next_rule) (λ r. is_rule t.next_rule r ≡ false) t.rules
          (λ r lt. ground arith) w.fresh_id)

    first_alone :
        (t.next_rule == t.next_rule) ≡ true
        → first_row (is_rule t.next_rule) (new_rule t.next_rule n now ∷ [])
          ≡ some (new_rule t.next_rule n now)
    first_alone e = unfold first_row in rw e refl

-- From the conflict on.
ends_alike :
    (n : ScheduleInput) (g : Option Group) (o : Option Rule) (now : Local) (epoch : ℕ)
    (s : ApiState)
    → IsSound s.table
    → Foretells (ok (preview_of n g o now s)) (after_create epoch (no_conflict o >> ok (n, g)) s).0
unfolding preview_of after_create
ends_alike n g none now epoch s w =
    rw (found_rule n epoch s.table w) (refl, new_rule s.table.next_rule n epoch, refl, refl)
ends_alike n g (some c) now epoch s w = (refl, refl)

module _ (now : Local) (epoch : ℕ) (s : ApiState) (w : IsSound s.table) where
  group_alike :
      (n : ScheduleInput) (r : Result ApiError (Option Group))
      → Foretells
          (r >>= λ g. ok (preview_of n g (schedule_conflicting_rule n none s.table.rules) now s))
          (after_create epoch
            (r >>= λ g. no_conflict (schedule_conflicting_rule n none s.table.rules) >> ok (n, g))
            s).0
  unfolding after_create
  group_alike n (raised e) = refl
  group_alike n (ok g) = ends_alike n g _ now epoch s w

  input_alike :
      (r : Result ApiError ScheduleInput)
      → Foretells
          (r >>= λ n. validated_schedule_group n s.groups >>= λ g.
            ok (preview_of n g (schedule_conflicting_rule n none s.table.rules) now s))
          (after_create epoch
            (r >>= λ n. validated_schedule_group n s.groups >>= λ g.
              no_conflict (schedule_conflicting_rule n none s.table.rules) >> ok (n, g))
            s).0
  unfolding after_create
  input_alike (raised e) = refl
  input_alike (ok n) = group_alike n _

-- On a sound table, the preview of a body that names no rule tells what creating a rule from that body
-- does: it raises the same error, or it is allowed and a rule is made that reads as the preview says,
-- or it shows the rule with which creating is refused.
pub api_schedule_preview-Foretells :
    (printed : String) (body : Fields) (now : Local) (epoch : ℕ) (s : ApiState)
    → IsSound s.table
    → given (get "rule_id" body) ≡ none
    → Foretells
        (api_schedule_preview (some (object printed body)) now s)
        (api_schedule_rule_create (some (object printed body)) epoch s).0
unfolding api_schedule_preview api_schedule_rule_create create_checks
api_schedule_preview-Foretells printed body now epoch s w h = rw h (input_alike now epoch s w _)
