-- ===== src/Fleet.antt =====
-- The miners table (app/db.py), the control jobs' view of it, and what a poll writes to it
-- (app/monitoring/service.py and app/monitoring/repository.py). A row keeps the columns that the
-- modelled components read or write; the telemetry columns are left out.
use text.Mathlib.Text.{◌==◌ as str_eq}
use text.Mathlib.TextEquality.{eq_iff}
use open_asicmanager.Prelude.{
  ℕ, String, ◌≡◌, refl, ap, arith, Bool, true, false, ◌||◌, not, Option, none, some, List, ◌==◌,
  if◌then◌else◌, first_row, update_rows,
}

-- miners.driver: the two families that the dispatch serves, `unset`, and any other text.
pub data Driver : Type 0 where
  awesome bitmain_stock unset : Driver
  other_driver : String → Driver

-- miners.last_state: the texts that the program names, and any other non-empty text, which the
-- Awesome driver passes on in capitals. NULL and the empty text are `none` in a row.
pub data MinerState : Type 0 where
  mining paused starting restarting idle offline unknown rebooted : MinerState
  other_state : String → MinerState

-- Python's `==` on two such texts.
unfoldable pub state_eq : MinerState → MinerState → Bool
state_eq mining mining = true
state_eq paused paused = true
state_eq starting starting = true
state_eq restarting restarting = true
state_eq idle idle = true
state_eq offline offline = true
state_eq unknown unknown = true
state_eq rebooted rebooted = true
state_eq (other_state s) (other_state t) = str_eq s t
state_eq _ _ = false

-- It decides equality.
pub state_eq→≡ : (a b : MinerState) → state_eq a b ≡ true → a ≡ b
unfolding state_eq
state_eq→≡ mining b h = ground arith
state_eq→≡ paused b h = ground arith
state_eq→≡ starting b h = ground arith
state_eq→≡ restarting b h = ground arith
state_eq→≡ idle b h = ground arith
state_eq→≡ offline b h = ground arith
state_eq→≡ unknown b h = ground arith
state_eq→≡ rebooted b h = ground arith
state_eq→≡ (other_state s) (other_state t) h = ap other_state ((eq_iff s t).0 h)
state_eq→≡ (other_state s) mining h = cc
state_eq→≡ (other_state s) _ h = cc

pub state_eq_refl : (a : MinerState) → state_eq a a ≡ true
unfolding state_eq
state_eq_refl (other_state s) = (eq_iff s s).1 refl
state_eq_refl _ = refl

pub data Action : Type 0 where
  pause resume reboot : Action

pub record Miner : Type 0 where
  pub id : ℕ
  pub name : String
  pub ip : String
  pub driver : Driver
  pub enabled : Bool
  pub schedule_enabled : Bool
  pub group_id : Option ℕ
  pub manual_override_until : Option ℕ
  pub last_state : Option MinerState
  pub last_seen : Option ℕ
  pub last_error : Option String
  pub last_action : Option Action
  pub last_action_at : Option ℕ

-- driver in ('awesome', 'bitmain_stock')
unfoldable pub supported : Driver → Bool
supported awesome = true
supported bitmain_stock = true
supported _ = false

abbrev pub has_id : ℕ → Miner → Bool
has_id miner_id m = m.id == miner_id

unfoldable pub get_miner : ℕ → List Miner → Option Miner
get_miner miner_id miners = first_row (has_id miner_id) miners

-- UPDATE miners SET … WHERE id=?
unfoldable pub update_miner : ℕ → (Miner → Miner) → List Miner → List Miner
update_miner miner_id f miners = update_rows (has_id miner_id) f miners

-- What `read_status` reports: the state that it read, or the text of the exception.
pub data Reading : Type 0 where
  read : Option MinerState → Reading
  unreachable : String → Reading

unfoldable pub save_miner_status : ℕ → Option MinerState → ℕ → List Miner → List Miner
unfolding update_miner
save_miner_status miner_id state seen_at miners =
    update_miner miner_id
      (λ m. record m { last_state = state; last_seen = some seen_at; last_error = none }) miners

unfoldable pub mark_miner_offline : ℕ → String → List Miner → List Miner
unfolding update_miner
mark_miner_offline miner_id error miners =
    update_miner miner_id (λ m. record m { last_state = some offline; last_error = some error })
      miners

is_unset : Driver → Bool
is_unset unset = true
is_unset _ = false

save_reading : ℕ → ℕ → Reading → List Miner → List Miner
unfolding save_miner_status mark_miner_offline
save_reading miner_id now (read state) miners = save_miner_status miner_id state now miners
save_reading miner_id now (unreachable error) miners = mark_miner_offline miner_id error miners

poll_found : ℕ → ℕ → Reading → Option Miner → List Miner → List Miner
unfolding save_reading is_unset
poll_found miner_id now reading none miners = miners
poll_found miner_id now reading (some m) miners =
    if not m.enabled || is_unset m.driver then miners else save_reading miner_id now reading miners

-- `reading` is what the device answers, `now` the wall clock.
unfoldable pub poll_miner : ℕ → ℕ → Reading → List Miner → List Miner
unfolding get_miner poll_found
poll_miner miner_id now reading miners =
    poll_found miner_id now reading (get_miner miner_id miners) miners
