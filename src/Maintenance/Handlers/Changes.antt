-- ===== src/Maintenance/Handlers/Changes.antt =====
-- The extend and end handlers of app/api/maintenance.py keep the invariant of the windows table.
use open_asicmanager.Prelude.{
  ℕ, ◌≡◌, ◌≢◌, refl, subst, String, false, Option, none, some, List, arith, ==_iff, first_none→In,
  first_row-In, In, All→In, Result, ok, raised, Ensures,
}
use open_asicmanager.Maintenance.{
  Window, MaintenanceState, TypeError, EventAction, maintenance_extend, maintenance_end, is_window,
  get_maintenance_window, conflicts, find_maintenance_conflict, extended, ended, update_open,
  extend_maintenance_window, end_maintenance_window,
}
use open_asicmanager.Maintenance.Requests.{
  ExtendBody, RequestError, WindowStatus, maintenance_status,
}
use open_asicmanager.Maintenance.Requests.Accepted.{Extends, normalize_maintenance_extend-Extends}
use open_asicmanager.Maintenance.Handlers.{
  Failure, log_event, changed, extend_checked, extend_normalized, extend_found,
  api_maintenance_extend, end_status, end_found, api_maintenance_end,
}
use open_asicmanager.Maintenance.Invariant.{
  collide, Bounded, IsSound, WellFormed, update-WellFormed,
}
use open_asicmanager.Maintenance.Handlers.Creates.{IsKept, no_conflict}

-- The UPDATE of an open window, as a step on the table.
update_open-WellFormed :
    (w : Window) (f : Window → Window) (found : Option Window) (windows : List Window) (next : ℕ)
    → In w windows
    → ((x : Window) → (f x).id ≡ x.id)
    → IsSound (f w)
    → ((y : Window) → In y windows → y.id ≢ w.id → collide (f w) y ≡ false)
    → WellFormed windows next
    → WellFormed (update_open w.id f found windows).1 next
unfolding update_open
update_open-WellFormed w f none windows next i k ok_w free wf = wf
update_open-WellFormed w f (some x) windows next i k ok_w free wf =
    update-WellFormed w f windows next i k ok_w free wf

changed-IsKept :
    (action : EventAction) (e : Failure) (r : Option Window) (windows : List Window)
    (s : MaintenanceState)
    → WellFormed windows s.next_window
    → IsKept s
    → IsKept (changed action e (r, windows) s).1
unfolding changed log_event
changed-IsKept action e none windows s h wf = wf
changed-IsKept action e (some w) windows s h wf = h

extension_free :
    (current : Window) (ends_at : ℕ) (words : Option String) (actor : String) (now : ℕ)
    (windows : List Window) (y : Window)
    → find_maintenance_conflict current.scope current.miner_id current.group_id current.starts_at
        ends_at
        (some current.id)
        windows
      ≡ ok none
    → In y windows
    → y.id ≢ current.id
    → collide (extended ends_at words actor now current) y ≡ false
extension_free current ends_at words actor now windows y h i ne =
    let none_found =
      no_conflict current.scope current.miner_id current.group_id current.starts_at ends_at
        (some current.id) windows h in
    let misses =
      first_none→In
        (conflicts current.scope current.miner_id current.group_id current.starts_at ends_at
          (some current.id))
        windows none_found i in
    ground arith

extend_checked-IsKept :
    (current : Window) (ends_at : ℕ) (words : Option String) (actor : String) (now : ℕ)
    (r : Result TypeError (Option Window)) (s : MaintenanceState)
    → In current s.windows
    → Extends current now (ends_at, words)
    → find_maintenance_conflict current.scope current.miner_id current.group_id current.starts_at
        ends_at
        (some current.id)
        s.windows
      ≡ r
    → IsKept s
    → IsKept (extend_checked current ends_at words actor now r s).1
unfolding extend_checked extend_maintenance_window
extend_checked-IsKept current ends_at words actor now (raised e) s i x h wf = wf
extend_checked-IsKept current ends_at words actor now (ok (some w)) s i x h wf = wf
extend_checked-IsKept current ends_at words actor now (ok none) s i x h wf =
    let sound = All→In IsSound s.windows wf.sound i in
    let longer : Bounded current.starts_at ends_at = (omega (arith, sound.1, x.1), x.1.1.1) in
    changed-IsKept maintenance_extend _ _ _ s
      (update_open-WellFormed current (extended ends_at words actor now) _ s.windows s.next_window i
        (λ y. refl) (sound.0, longer)
        (λ y j ne. extension_free current ends_at words actor now s.windows y h j ne) wf)
      wf

extend_normalized-IsKept :
    (current : Window) (actor : String) (now : ℕ) (r : Result RequestError (ℕ × Option String))
    (s : MaintenanceState)
    → In current s.windows
    → Ensures (Extends current now) r
    → IsKept s
    → IsKept (extend_normalized current actor now r s).1
unfolding extend_normalized
extend_normalized-IsKept current actor now (raised e) s i x wf = wf
extend_normalized-IsKept current actor now (ok (ends_at, words)) s i x wf =
    extend_checked-IsKept current ends_at words actor now _ s i x refl wf

extend_found-IsKept :
    (body : Option ExtendBody) (actor : String) (now : ℕ) (found : Option Window)
    (s : MaintenanceState) (window_id : ℕ)
    → get_maintenance_window window_id s.windows ≡ found
    → IsKept s
    → IsKept (extend_found body actor now found s).1
unfolding extend_found get_maintenance_window
extend_found-IsKept body actor now none s n e wf = wf
extend_found-IsKept body actor now (some w) s n e wf =
    extend_normalized-IsKept w actor now _ s (first_row-In (is_window n) s.windows e).0
      (normalize_maintenance_extend-Extends body w now) wf

end_WellFormed :
    (w : Window) (actor : String) (now : ℕ) (s : MaintenanceState)
    → In w s.windows
    → IsKept s
    → WellFormed (end_maintenance_window w.id actor now s.windows).1 s.next_window
unfolding end_maintenance_window
end_WellFormed w actor now s i wf =
    update_open-WellFormed w (ended actor now) _ s.windows s.next_window i (λ y. refl)
      (All→In IsSound s.windows wf.sound i) (λ y j ne. refl) wf

end_status-IsKept :
    (w : Window) (actor : String) (now : ℕ) (status : WindowStatus) (s : MaintenanceState)
    → In w s.windows
    → IsKept s
    → IsKept (end_status w.id actor now status s).1
unfolding end_status end_maintenance_window
end_status-IsKept w actor now WindowStatus.ended s i wf = wf
end_status-IsKept w actor now WindowStatus.expired s i wf = wf
end_status-IsKept w actor now WindowStatus.scheduled s i wf =
    changed-IsKept maintenance_end _ _ _ s (end_WellFormed w actor now s i wf) wf
end_status-IsKept w actor now WindowStatus.active s i wf =
    changed-IsKept maintenance_end _ _ _ s (end_WellFormed w actor now s i wf) wf

end_found-IsKept :
    (window_id : ℕ) (actor : String) (now : ℕ) (found : Option Window) (s : MaintenanceState)
    → get_maintenance_window window_id s.windows ≡ found
    → IsKept s
    → IsKept (end_found window_id actor now found s).1
unfolding end_found get_maintenance_window
end_found-IsKept n actor now none s e wf = wf
end_found-IsKept n actor now (some w) s e wf =
    let (i, h) = first_row-In (is_window n) s.windows e in
    subst (λ k. IsKept (end_status k actor now (maintenance_status w now) s).1)
      ((==_iff w.id n).0 h) (end_status-IsKept w actor now (maintenance_status w now) s i wf)

-- Extending and ending a window keep a well formed table well formed too, whatever is asked for:
-- an extension never runs into another window of the same target that has not been ended, and ids,
-- shapes and the limit of seven days stay.
pub api_maintenance_changes-IsKept :
    (window_id : ℕ) (body : Option ExtendBody) (actor : String) (now : ℕ) (s : MaintenanceState)
    → IsKept s
    → IsKept (api_maintenance_extend window_id body actor now s).1
      × IsKept (api_maintenance_end window_id actor now s).1
unfolding api_maintenance_extend api_maintenance_end
api_maintenance_changes-IsKept window_id body actor now s wf = (
  extend_found-IsKept body actor now _ s window_id refl wf,
  end_found-IsKept window_id actor now _ s refl wf,
)
