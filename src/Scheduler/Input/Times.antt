-- ===== src/Scheduler/Input/Times.antt =====
-- A rule's time is read back as it is printed (app/scheduler/policy.py and validation.py).
use open_asicmanager.Prelude.{
  ℕ, zero, suc, ◌≤◌, ◌<◌, ◌≡◌, ◌≢◌, refl, arith, String, Bool, true, false, ◌&&◌, ◌==◌, Option,
  none, some, strip, is_space, count, if◌then◌else◌, Result, ok, raised,
}
use open_asicmanager.Fleet.{Action, pause, resume, reboot}
use open_asicmanager.Values.{
  str_or, integer, text, object, field, empty, get, str, int, truth, positive_int,
}
use open_asicmanager.Values.Integers.{ℤ, pos, negsuc, in_range, scale, ◌+ℤ◌}
use open_asicmanager.Values.Numerals.{two_digits, int_of_text, split_once, reads, to_upper}
use open_asicmanager.Scheduler.{Rule, RuleScope, farm, group}
use open_asicmanager.Scheduler.Input.{
  InputError, ScheduleInput, schedule_time_string, read_action, read_clock, read_time, read_days,
  read_comment, invalid_time, no_day, read_scope, read_group, bounded, action_text, scope_text,
  nullable, schedule_normalize_input, schedule_parse_bool,
}
use open_asicmanager.Scheduler.Input.Bounds.{Targets, IsAccepted}

abbrev reads_back : ℕ → Result InputError ℤ → Bool
reads_back t (ok (pos n)) = n == t
reads_back t _ = false

abbrev printed_time_reads : ℕ → Bool
printed_time_reads t = reads_back t (read_clock (schedule_time_string t))

-- The minutes before one, tried from the last.
earlier_read : ℕ → Bool
earlier_read zero = true
earlier_read (suc t) = earlier_read t && printed_time_reads t

earlier_read-reads : (now t : ℕ) → t < now → earlier_read now ≡ true → printed_time_reads t ≡ true
unfolding earlier_read
earlier_read-reads zero t early tried = elim early [ ]
earlier_read-reads (suc now) t early tried = ground (arith, earlier_read-reads now t)

-- A day has few minutes.
day_read : earlier_read 1440 ≡ true
unfolding earlier_read read_clock schedule_time_string split_once strip two_digits is_space
    int_of_text ◌+ℤ◌ scale
day_read = refl

reads_back_ok : (t : ℕ) (r : Result InputError ℤ) → reads_back t r ≡ true → r ≡ ok (pos t)
reads_back_ok t (ok (pos n)) h = ground arith
reads_back_ok t (ok (negsuc n)) h = cc
reads_back_ok t (raised e) h = cc

read_clock-time_string : (t : ℕ) → t ≤ 1439 → read_clock (schedule_time_string t) ≡ ok (pos t)
read_clock-time_string t h = reads_back_ok t _ (earlier_read-reads 1440 t (omega arith) day_read)

-- The columns of a rule that a body can set.
abbrev pub as_input : Rule → ScheduleInput
as_input r = record {
  enabled = r.enabled;
  action = r.action;
  time_minutes = r.time_minutes;
  days_mask = r.days_mask;
  scope = r.scope;
  group_id = r.group_id;
  comment = r.comment;
}

read_action-text : (a : Action) → a ≢ reboot → read_action (strip (action_text a)) ≡ ok a
unfolding read_action strip is_space reads to_upper
read_action-text pause h = refl
read_action-text resume h = refl
read_action-text reboot h = absurd (h refl)

read_scope-text : (s : RuleScope) → read_scope (strip (str_or (text (scope_text s)) "FARM")) ≡ ok s
unfolding read_scope strip is_space reads to_upper truth str
read_scope-text farm = refl
read_scope-text group = refl

read_group-nullable :
    (s : RuleScope) (g : Option ℕ) → Targets s g → read_group s (nullable g) ≡ ok g
unfolding read_group positive_int
read_group-nullable farm none h = refl
read_group-nullable group (some zero) h = absurd (omega arith)
read_group-nullable group (some (suc g)) h = refl
read_group-nullable farm (some g) h = absurd h
read_group-nullable group none h = absurd h

bounded-pos : (e : InputError) (lo hi n : ℕ) → lo ≤ n → n ≤ hi → bounded e lo hi (pos n) ≡ ok n
unfolding bounded in_range
bounded-pos e lo hi n h k = ground arith

flag-read : (b : Bool) → schedule_parse_bool (integer (pos (if b then 1 else 0))) ≡ b
unfolding schedule_parse_bool
flag-read true = refl
flag-read false = refl

text-or_empty : (c : String) → str_or (text c) "" ≡ c
unfolding truth str
text-or_empty String.[] = refl
text-or_empty (String.◌∷◌ x c) = refl

comment-read : (c : String) → strip c ≡ c → count c ≤ 120 → read_comment (text c) ≡ ok c
unfolding read_comment
comment-read c h k = rw (text-or_empty c, h) (ground arith)

days-read : (d : ℕ) → 1 ≤ d → d ≤ 127 → read_days (integer (pos d)) ≡ ok d
unfolding read_days int
days-read d h k = bounded-pos no_day 1 127 d h k

printed-time_read :
    (t : ℕ) (current : Option Rule)
    → t ≤ 1439
    → read_time (field "time" (text (schedule_time_string t)) empty) current ≡ ok t
unfolding read_time get str
printed-time_read t current h =
    rw (read_clock-time_string t h) (bounded-pos invalid_time 0 1439 t (omega arith) h)

-- A change that gives only the time, as the program prints it, is read as the rule with that time:
-- for every time of the day, and a rule with columns that are in range and a comment without space
-- at its ends.
pub normalize-time_string :
    (r : Rule) (t : ℕ) (printed : String)
    → IsAccepted (as_input r)
    → strip r.comment ≡ r.comment
    → t ≤ 1439
    → schedule_normalize_input
        (object printed (field "time" (text (schedule_time_string t)) empty))
        (some r)
      ≡ ok (record (as_input r) { time_minutes = t })
unfolding schedule_normalize_input get str
normalize-time_string r t printed a s h =
    rw
      (
        read_action-text r.action a.command,
        printed-time_read t (some r) h,
        days-read r.days_mask a.some_day a.days,
        comment-read r.comment s a.short,
        read_scope-text r.scope,
        read_group-nullable r.scope r.group_id a.target,
        flag-read r.enabled,
      )
      refl
