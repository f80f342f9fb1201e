-- ===== src/Maintenance/Handlers/Ending.antt =====
-- What the handlers that change one window (app/api/maintenance.py) do to the tables, and that an open
-- window can be ended.
use open_asicmanager.Prelude.{
  ℕ, ◌<◌, ◌≡◌, refl, ap, ◌∙◌, String, true, false, some, List, arith, Bool-cases, inl, inr, ltb,
  if◌then◌else◌, map, select, not, ◌==◌, [], ◌∷◌, ◌++◌, first_row, first_row-In, first-update,
  first_of_stronger, map_row, update_rows, ok,
}
use open_asicmanager.Maintenance.{
  maintenance_end, EventAction, Window, MaintenanceState, is_window, get_maintenance_window,
  open_window, ended, update_open, end_maintenance_window,
}
use open_asicmanager.Maintenance.Requests.{
  WindowStatus, scheduled, active, is_ended, maintenance_status,
}
use open_asicmanager.Maintenance.Handlers.{
  Answer, Failure, row_miner, not_ended, log_event, changed, end_status, end_found,
  api_maintenance_end,
}

-- A window that is not over.
abbrev pub IsOpen : Window → ℕ → Type 0
IsOpen w now = (is_ended w.ended_at ≡ false) × (now < w.ends_at)

open_status :
    (w : Window) (now : ℕ)
    → IsOpen w now
    → maintenance_status w now ≡ (if ltb now w.starts_at then scheduled else active)
unfolding maintenance_status
open_status w now h = ground arith

found_open :
    (window_id : ℕ) (w : Window) (windows : List Window)
    → get_maintenance_window window_id windows ≡ some w
    → is_ended w.ended_at ≡ false
    → first_row (open_window window_id) windows ≡ some w
unfolding get_maintenance_window
found_open window_id w windows e h =
    let (i, t) = first_row-In (is_window window_id) windows e in
    first_of_stronger (is_window window_id) (open_window window_id) w windows (λ x. ground arith) e
      (ground arith)

-- The row with an id, after an UPDATE of the open window with that id.
get-changed :
    (window_id : ℕ) (f : Window → Window) (w : Window) (windows : List Window)
    → ((x : Window) → (f x).id ≡ x.id)
    → get_maintenance_window window_id windows ≡ some w
    → is_ended w.ended_at ≡ false
    → get_maintenance_window window_id (update_rows (open_window window_id) f windows) ≡ some (f w)
unfolding get_maintenance_window
get-changed window_id f w windows keeps e h =
    let open_now : open_window window_id w ≡ true =
      ground (arith, (first_row-In (is_window window_id) windows e).1) in
    first-update (is_window window_id) (open_window window_id) f windows
      (λ x t. ap (λ n. n == window_id) (keeps x))
    ∙ ap (map_row (open_window window_id) f) e
    ∙ rw open_now refl

-- The rows of all other windows, in their order.
abbrev pub others : ℕ → List Window → List Window
others window_id windows = select (λ w. not (w.id == window_id)) windows

others-changed :
    (window_id : ℕ) (f : Window → Window) (windows : List Window)
    → ((x : Window) → (f x).id ≡ x.id)
    → others window_id (update_rows (open_window window_id) f windows) ≡ others window_id windows
unfolding select update_rows
others-changed window_id f [] keeps = refl
others-changed window_id f (w ∷ windows) keeps =
    ground (arith, keeps w, others-changed window_id f windows keeps)

ids-changed :
    (window_id : ℕ) (f : Window → Window) (windows : List Window)
    → ((x : Window) → (f x).id ≡ x.id)
    → map Window.id (update_rows (open_window window_id) f windows) ≡ map Window.id windows
unfolding update_rows
ids-changed window_id f [] keeps = refl
ids-changed window_id f (w ∷ windows) keeps =
    ground (arith, keeps w, ids-changed window_id f windows keeps)

-- The handler answers with the row `w`, which is stored under the id. The table has the ids that it had,
-- in their order, with the rows of the other windows as they were, and beside it only the log
-- changes, by one event.
abbrev pub ChangesOnly : ℕ → EventAction → Window → MaintenanceState → Answer → Type 0
ChangesOnly window_id action w s (r, t) =
    (r ≡ ok w)
    × (get_maintenance_window window_id t.windows ≡ some w)
    × (others window_id t.windows ≡ others window_id s.windows)
    × (map Window.id t.windows ≡ map Window.id s.windows)
    × (t ≡ record s {
      windows = t.windows;
      log = s.log ++ record { action = action; miner = row_miner w s.miners; window = w } ∷ [];
    })

pub changed-ChangesOnly :
    (window_id : ℕ) (action : EventAction) (e : Failure) (f : Window → Window) (w : Window)
    (s : MaintenanceState)
    → ((x : Window) → (f x).id ≡ x.id)
    → get_maintenance_window window_id s.windows ≡ some w
    → is_ended w.ended_at ≡ false
    → ChangesOnly window_id action (f w) s (
        changed action e
          (update_open window_id f (first_row (open_window window_id) s.windows) s.windows)
          s)
unfolding changed log_event update_open
changed-ChangesOnly window_id action e f w s keeps found h =
    let there = get-changed window_id f w s.windows keeps found h in
    rw (found_open window_id w s.windows found h) (
      rw there (
        refl,
        there,
        others-changed window_id f s.windows keeps,
        ids-changed window_id f s.windows keeps,
        refl,
      ))

-- And the window has status ENDED at every time.
abbrev pub Ended : ℕ → Window → MaintenanceState → Answer → Type 0
Ended window_id w s a =
    ChangesOnly window_id maintenance_end w s a
    × ((later : ℕ) → maintenance_status w later ≡ WindowStatus.ended)

end_now :
    (window_id : ℕ) (actor : String) (now : ℕ) (w : Window) (s : MaintenanceState)
    → get_maintenance_window window_id s.windows ≡ some w
    → is_ended w.ended_at ≡ false
    → Ended window_id
        (ended actor now w)
        s
        (changed maintenance_end not_ended (end_maintenance_window window_id actor now s.windows) s)
unfolding end_maintenance_window maintenance_status
end_now window_id actor now w s e h = (
  changed-ChangesOnly window_id maintenance_end not_ended (ended actor now) w s (λ x. refl) e h,
  λ later. refl,
)

-- A window that is neither ended nor over can be ended: the handler answers with the row, which is
-- stored with the time and the actor and has status ENDED at every time from then on. Nothing else
-- changes: the other windows, the members, the miners and the groups are as they were, and one event
-- is logged.
pub api_maintenance_end-Ended :
    (window_id : ℕ) (actor : String) (now : ℕ) (w : Window) (s : MaintenanceState)
    → get_maintenance_window window_id s.windows ≡ some w
    → IsOpen w now
    → Ended window_id (ended actor now w) s (api_maintenance_end window_id actor now s)
unfolding api_maintenance_end end_found
api_maintenance_end-Ended window_id actor now w s e h = rw e (
    rw (open_status w now h) (elim (Bool-cases (ltb now w.starts_at)) [
      | inl c ↦ rw c (unfold end_status in end_now window_id actor now w s e h.0)
      | inr c ↦ rw c (unfold end_status in end_now window_id actor now w s e h.0)
    ]))
