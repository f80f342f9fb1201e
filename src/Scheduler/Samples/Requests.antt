-- ===== src/Scheduler/Samples/Requests.antt =====
-- Requests that create, change and preview schedule rules (app/api/scheduler.py): the theorems applied,
-- and runs.
use open_asicmanager.Prelude.{
  ◌≡◌, ◌≢◌, refl, sym, ap, ◌∙◌, inl, inr, arith, true, none, some, [], ◌∷◌, count_rows, In, Ensures,
  strip, is_space, ok,
}
use open_asicmanager.Values.{Json, integer, text, object, Fields, field, empty, get}
use open_asicmanager.Values.Integers.{pos, scale, ◌+ℤ◌}
use open_asicmanager.Values.Numerals.{two_digits, split_once, int_of_text}
use open_asicmanager.Scheduler.{Rule}
use open_asicmanager.Scheduler.Samples.{morning, noon}
use open_asicmanager.Scheduler.Input.{read_clock, schedule_time_string, schedule_normalize_input}
use open_asicmanager.Scheduler.Input.Bounds.{IsAccepted, schedule_normalize_input-IsAccepted}
use open_asicmanager.Scheduler.Input.Times.{as_input, normalize-time_string}
use open_asicmanager.Scheduler.Table.Apart.{IsSound, Clash}
use open_asicmanager.Scheduler.Api.{ApiState, api_schedule_rule_create}
use open_asicmanager.Scheduler.Api.Keeps.{create, toggle, delete, calls, calls-IsSound}
use open_asicmanager.Scheduler.Api.Preview.{given, api_schedule_preview}
use open_asicmanager.Scheduler.Api.Preview.Agrees.{Foretells, api_schedule_preview-Foretells}

-- A pause at 18:00 on every working day.
abbrev evening_members : Fields
evening_members =
    field "action" (text "pause")
      (field "time" (text "18:00") (field "days_mask" (integer (pos 31)) empty))

abbrev evening_body : Json
evening_body = object "{'action': 'pause', …}" evening_members

abbrev state : ApiState
state = record {
  table = record { rules = morning ∷ []; next_rule = 2 };
  groups = [];
  miners = [];
  enabled = true;
  events = [];
}

morning-IsAccepted : IsAccepted (as_input morning)
morning-IsAccepted = record {
  time = omega arith;
  some_day = omega arith;
  days = omega arith;
  command = λ e. ground arith;
  short = omega arith;
  target = tt;
}

state-IsSound : IsSound state.table
unfolding count_rows
state-IsSound = record {
  distinct_ids = λ i. ground arith;
  fresh_id = (omega arith, tt);
  accepted = (morning-IsAccepted, tt);
  apart = alone;
}
  where
    alone :
        (r q : Rule)
        → In r (morning ∷ [])
        → In q (morning ∷ [])
        → r.id ≢ q.id
        → Clash (as_input r) (as_input q)
        → ⊥
    alone r q (inl e) (inl f) ne c = ne (ap (λ z. z.id) (sym e ∙ f))
    alone r q (inr i) j ne c = absurd i
    alone r q i (inr j) ne c = absurd j

schedule_normalize_input-IsAccepted_example :
    Ensures IsAccepted (schedule_normalize_input evening_body none)
schedule_normalize_input-IsAccepted_example = schedule_normalize_input-IsAccepted evening_body none

normalize-time_string_example :
    schedule_normalize_input
      (object "{'time': '07:30'}" (field "time" (text (schedule_time_string 450)) empty))
      (some morning)
    ≡ ok (record (as_input morning) { time_minutes = 450 })
unfolding strip
normalize-time_string_example =
    normalize-time_string morning 450 "{'time': '07:30'}" morning-IsAccepted refl (omega arith)

calls-IsSound_example :
    IsSound (calls (create (some evening_body) 500 ∷ toggle 1 600 ∷ delete 2 ∷ []) state).table
calls-IsSound_example =
    calls-IsSound (create (some evening_body) 500 ∷ toggle 1 600 ∷ delete 2 ∷ []) state
      state-IsSound

api_schedule_preview-Foretells_example :
    Foretells
      (api_schedule_preview (some evening_body) noon state)
      (api_schedule_rule_create (some evening_body) 500 state).0
api_schedule_preview-Foretells_example =
    api_schedule_preview-Foretells "{'action': 'pause', …}" evening_members noon 500 state
      state-IsSound no_rule_id
  where
    no_rule_id : given (get "rule_id" evening_members) ≡ none
    no_rule_id = unfold get in refl

-- A time is printed with two digits on both sides,
half_past_seven : schedule_time_string 450 ≡ "07:30"
unfolding schedule_time_string two_digits
half_past_seven = refl

-- and more minutes than an hour has are read as well.
ninety_minutes : read_clock "6:90" ≡ ok (pos 450)
unfolding read_clock split_once strip is_space int_of_text ◌+ℤ◌ scale
ninety_minutes = refl
