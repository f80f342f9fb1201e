-- ===== src/Anomalies/Policies/Data.antt =====
-- The values of the anomaly policies (app/anomalies/policy.py).
use open_asicmanager.Prelude.{ℕ, ◌≤◌, ◌≡◌, String, Bool, true, Option, some, List}
use open_asicmanager.Values.Integers.{ℤ, pos}

-- What the program uses of Python's float, and what it relies on: `float(str(x)) == x` for a finite x, and
-- small integers are exact.
pub record Floats : Type 1 where
  pub Number : Type 0
  pub lt : Number → Number → Bool
  pub is_finite : Number → Bool
  pub of_int : ℤ → Option Number
  pub of_text : String → Option Number
  pub print : Number → String
  pub is_exact : ℤ → Bool
  pub truncate : Number → Option ℤ
  pub is_whole : Number → Bool
  pub n30 : Number
  pub n40 : Number
  pub n82 : Number
  pub n85 : Number
  pub n119_9 : Number
  pub n120 : Number
  pub reads_back : (x : Number) → is_finite x ≡ true → of_text (print x) ≡ some x
  pub exact : (n : ℕ) → n ≤ 86400 → is_exact (pos n) ≡ true

pub data Field : Type 0 where
  interval_seconds offline_grace_seconds hot_temp_c hot_clear_c hot_grace_seconds : Field
  schedule_grace_seconds : Field

-- ValueError, by its text.
pub data PolicyError : Type 0 where
  not_numeric not_finite out_of_range : Field → PolicyError
  unknown_fields : List String → PolicyError
  missing_fields : List Field → PolicyError
  clear_not_lower nothing_given : PolicyError
  group_conflict miner_conflict : ℕ → PolicyError → PolicyError
  membership_invalid : Option ℕ → PolicyError → PolicyError

-- What is asked of a value: a bool, an int, a float, a text, None, or anything else.
pub data Raw (Number : Type 0) : Type 0 where
  truth : Bool → Raw Number
  whole : ℤ → Raw Number
  real : Number → Raw Number
  words : String → Raw Number
  null other : Raw Number

-- A dict from outside: its members, and the names that are no field of a policy.
pub record Members (Number : Type 0) : Type 0 where
  pub interval : Option (Raw Number)
  pub offline_grace : Option (Raw Number)
  pub hot_temp : Option (Raw Number)
  pub hot_clear : Option (Raw Number)
  pub hot_grace : Option (Raw Number)
  pub schedule_grace : Option (Raw Number)
  pub others : List String

pub record AnomalyPolicy (Number : Type 0) : Type 0 where
  pub interval : ℕ
  pub offline_grace : ℕ
  pub hot_temp : Number
  pub hot_clear : Number
  pub hot_grace : ℕ
  pub schedule_grace : ℕ

pub record Overrides (Number : Type 0) : Type 0 where
  pub offline_grace : Option ℕ
  pub hot_temp : Option Number
  pub hot_clear : Option Number
  pub hot_grace : Option ℕ
  pub schedule_grace : Option ℕ
