-- ===== src/Scheduler/Input/Bounds.antt =====
-- What a request that is accepted says (app/scheduler/validation.py).
use open_asicmanager.Prelude.{
  ℕ, ◌≤◌, ◌<◌, ◌≡◌, ◌≢◌, refl, String, Option, none, some, arith, count, ok, raised, Ensures,
  bind-Ensures, ensured, inl, inr, Bool-cases,
}
use open_asicmanager.Fleet.{Action, reboot}
use open_asicmanager.Values.{
  Json, Fields, get, object, positive_int, null, boolean, integer, float, text, array,
}
use open_asicmanager.Values.Integers.{ℤ, pos, negsuc, in_range}
use open_asicmanager.Scheduler.{Rule, RuleScope, farm, group}
use open_asicmanager.Scheduler.Input.{
  InputError, ScheduleInput, invalid_time, group_required, is_blank, time_of, read_action,
  read_time, read_days, read_comment, bounded, read_scope, read_group, normalize_members,
  schedule_normalize_input,
}

-- A FARM rule names no group, and a GROUP rule a positive id.
abbrev pub Targets : RuleScope → Option ℕ → Type 0
Targets farm none = Unit
Targets farm (some g) = ⊥
Targets group none = ⊥
Targets group (some g) = 0 < g

pub record IsAccepted (n : ScheduleInput) : Type 0 where
  pub time : n.time_minutes ≤ 1439
  pub some_day : 1 ≤ n.days_mask
  pub days : n.days_mask ≤ 127
  pub command : n.action ≢ reboot
  pub short : count n.comment ≤ 120
  pub target : Targets n.scope n.group_id

action-read : (w : String) {a : Action} → read_action w ≡ ok a → a ≢ reboot
unfolding read_action
action-read w h e = ground arith

bounded-Ensures : (e : InputError) (lo hi : ℕ) (n : ℤ) → Ensures (λ m. m ≤ hi) (bounded e lo hi n)
unfolding bounded in_range
bounded-Ensures e lo hi (pos n) = ground arith
bounded-Ensures e lo hi (negsuc n) = tt

comment_short : (v : Json) {c : String} → read_comment v ≡ ok c → count c ≤ 120
unfolding read_comment
comment_short v h = ground arith

days_bounds : (v : Json) {d : ℕ} → read_days v ≡ ok d → (1 ≤ d) × (d ≤ 127)
unfolding read_days in_range
days_bounds v h = ground arith

positive_int-pos : (v : Json) {g : ℕ} → positive_int v ≡ some g → 0 < g
unfolding positive_int
positive_int-pos v h = ground arith

found_group-Targets :
    (o : Option ℕ)
    → ((g : ℕ) → o ≡ some g → 0 < g)
    → Ensures (Targets group) (elim o [ none ↦ raised group_required | some g ↦ ok (some g) ])
found_group-Targets none h = tt
found_group-Targets (some g) h = h g refl

group-Targets : (scope : RuleScope) (v : Json) → Ensures (Targets scope) (read_group scope v)
unfolding read_group
group-Targets farm v = elim (Bool-cases (is_blank v)) [ inl e ↦ rw e tt | inr e ↦ rw e tt ]
group-Targets group v = found_group-Targets (positive_int v) (λ g e. positive_int-pos v e)

accepted :
    {n : ScheduleInput}
    → n.time_minutes ≤ 1439
    → (1 ≤ n.days_mask) × (n.days_mask ≤ 127)
    → n.action ≢ reboot
    → count n.comment ≤ 120
    → Targets n.scope n.group_id
    → IsAccepted n
accepted time days command short target = record {
  time = time;
  some_day = days.0;
  days = days.1;
  command = command;
  short = short;
  target = target;
}

time_bound :
    (body : Fields) (current : Option Rule) {n : ℕ} → read_time body current ≡ ok n → n ≤ 1439
unfolding read_time
time_bound body current h =
    ensured (λ n. n ≤ 1439) (read_time body current)
      (bind-Ensures (λ n. n ≤ 1439) (time_of (get "time_minutes" body) (get "time" body) current)
        (bounded invalid_time 0 1439) (λ m _. bounded-Ensures invalid_time 0 1439 m))
      h

normalize_members-IsAccepted :
    (body : Fields) (current : Option Rule) → Ensures IsAccepted (normalize_members body current)
unfolding normalize_members
normalize_members-IsAccepted body current = bind-Ensures IsAccepted (read_action _) _ (λ action h1.
    bind-Ensures IsAccepted (read_time body current) _ (λ time h2.
      bind-Ensures IsAccepted (read_days _) _ (λ days h3.
        bind-Ensures IsAccepted (read_comment _) _ (λ words h4.
          bind-Ensures IsAccepted (read_scope _) _ (λ scope h5.
            bind-Ensures IsAccepted (read_group scope _) _ (λ group_id h6.
              accepted (time_bound body current h2) (days_bounds _ h3) (action-read _ h1)
                (comment_short _ h4) (ensured (Targets scope) _ (group-Targets scope _) h6)))))))

-- A body that is accepted, for a new rule or for a change of one, gives a time of the day in minutes,
-- at least one of the seven days and no other bit, PAUSE or RESUME, a comment of at most 120
-- characters, and for the scope FARM no group, for GROUP a positive group id.
pub schedule_normalize_input-IsAccepted :
    (body : Json) (current : Option Rule)
    → Ensures IsAccepted (schedule_normalize_input body current)
unfolding schedule_normalize_input
schedule_normalize_input-IsAccepted (object _ fs) current = normalize_members-IsAccepted fs current
schedule_normalize_input-IsAccepted null current = tt
schedule_normalize_input-IsAccepted (boolean b) current = tt
schedule_normalize_input-IsAccepted (integer n) current = tt
schedule_normalize_input-IsAccepted (float x) current = tt
schedule_normalize_input-IsAccepted (text s) current = tt
schedule_normalize_input-IsAccepted (array _ xs) current = tt
