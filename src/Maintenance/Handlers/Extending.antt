-- ===== src/Maintenance/Handlers/Extending.antt =====
-- The handler that extends a window (app/api/maintenance.py): which extensions are stored.
use open_asicmanager.Prelude.{
  ℕ, ◌≡◌, ◌⊎◌, refl, sym, subst, String, Bool, true, false, not, ◌&&◌, ◌==◌, ==_iff, Option, none,
  some, List, arith, inl, inr, Option-cases, first_row, first_row-In, first_none→In, In, Some, All,
  All→In, In→All, ok, ensured,
}
use open_asicmanager.Maintenance.{
  Scope, farm, miner_scope, group_scope, Window, MaintenanceState, maintenance_extend, is_window,
  get_maintenance_window, conflicts, find_maintenance_conflict, extended, extend_maintenance_window,
}
use open_asicmanager.Maintenance.Requests.{ExtendBody, is_ended, normalize_maintenance_extend}
use open_asicmanager.Maintenance.Requests.Accepted.{Extends, normalize_maintenance_extend-Extends}
use open_asicmanager.Maintenance.Invariant.{collide, shape, IsSound}
use open_asicmanager.Maintenance.Handlers.{
  Answer, refuse, overlaps_window, not_extended, extend_checked, extend_normalized, extend_found,
  api_maintenance_extend,
}
use open_asicmanager.Maintenance.Handlers.Creates.{IsKept}
use open_asicmanager.Maintenance.Handlers.Ending.{ChangesOnly, changed-ChangesOnly}

-- Another window that has not been ended, has the same target and overlaps.
abbrev pub runs_into : Window → Window → Bool
runs_into w y = not (y.id == w.id) && collide w y

-- For a window with the ids of its scope the search does not raise.
search_returns :
    (scope : Scope) (m g : Option ℕ) (starts_at ends_at : ℕ) (x : Option ℕ) (windows : List Window)
    → shape scope m g ≡ true
    → find_maintenance_conflict scope m g starts_at ends_at x windows
      ≡ ok (first_row (conflicts scope m g starts_at ends_at x) windows)
unfolding find_maintenance_conflict shape
search_returns farm m g starts_at ends_at x windows h = refl
search_returns miner_scope none g starts_at ends_at x windows h = cc
search_returns miner_scope (some m) g starts_at ends_at x windows h = refl
search_returns group_scope m none starts_at ends_at x windows h = ground arith
search_returns group_scope m (some g) starts_at ends_at x windows h = refl

-- The extension is stored and runs into no window, or it is refused for one that it runs into.
abbrev pub Decides : ℕ → Window → MaintenanceState → Answer → Type 0
Decides window_id w s a =
    (All (λ y. runs_into w y ≡ false) s.windows × ChangesOnly window_id maintenance_extend w s a)
    ⊎ Some (λ y. (runs_into w y ≡ true) × (a ≡ refuse (overlaps_window y.id) s)) s.windows

searched-Decides :
    (ends_at : ℕ) (words : Option String) (actor : String) (now : ℕ) (w : Window)
    (s : MaintenanceState)
    → get_maintenance_window w.id s.windows ≡ some w
    → is_ended w.ended_at ≡ false
    → Decides w.id (extended ends_at words actor now w) s (
        extend_checked w ends_at words actor now
          (ok (
            first_row
              (conflicts w.scope w.miner_id w.group_id w.starts_at ends_at (some w.id))
              s.windows))
          s)
unfolding extend_checked extend_maintenance_window
searched-Decides ends_at words actor now w s found h =
    let test = conflicts w.scope w.miner_id w.group_id w.starts_at ends_at (some w.id) in
    elim (Option-cases (first_row test s.windows)) [
      | inl e ↦ rw e (
          inl (
            In→All (λ y. runs_into (extended ends_at words actor now w) y ≡ false) s.windows
                (λ y i. ground (arith, first_none→In test s.windows e i)),
            changed-ChangesOnly w.id maintenance_extend not_extended
                (extended ends_at words actor now) w s (λ x. refl) found h,
          ))
      | inr (y, e) ↦
          rw e (inr (let (i, t) = first_row-In test s.windows e in (y, (i, (ground arith, refl)))))
    ]

found_row :
    (window_id : ℕ) (w : Window) (s : MaintenanceState)
    → get_maintenance_window window_id s.windows ≡ some w
    → In w s.windows × (w.id ≡ window_id)
unfolding get_maintenance_window
found_row window_id w s found =
    let (i, h) = first_row-In (is_window window_id) s.windows found in
    (i, (==_iff w.id window_id).0 h)

-- In well formed tables, a request to extend a window that the validation accepts is decided by the other
-- windows alone, for a window of the farm, of a miner or of a group: if the extended window runs
-- into none of them, it is the answer and is stored, and nothing else changes but one event that is
-- logged; otherwise the request is refused for a window that it runs into, and nothing changes.
pub api_maintenance_extend-Decides :
    (window_id : ℕ) (body : Option ExtendBody) (actor : String) (now : ℕ) (w : Window)
    (s : MaintenanceState) {ends_at : ℕ} {words : Option String}
    → IsKept s
    → get_maintenance_window window_id s.windows ≡ some w
    → normalize_maintenance_extend body w now ≡ ok (ends_at, words)
    → Decides window_id
        (extended ends_at words actor now w)
        s
        (api_maintenance_extend window_id body actor now s)
unfolding api_maintenance_extend extend_found extend_normalized
api_maintenance_extend-Decides window_id body actor now w s {ends_at} {words} wf found h =
    let (i, same) = found_row window_id w s found in
    let (not_ended, rest) =
      ensured (Extends w now) _ (normalize_maintenance_extend-Extends body w now) h in
    rw found (
      rw h (
        rw
          (search_returns w.scope w.miner_id w.group_id w.starts_at ends_at (some w.id) s.windows
            (All→In IsSound s.windows wf.sound i).0)
          (subst
            (λ k. Decides k (extended ends_at words actor now w) s (
              extend_checked w ends_at words actor now
                (ok (
                  first_row
                    (conflicts w.scope w.miner_id w.group_id w.starts_at ends_at (some w.id))
                    s.windows))
                s))
            same
            (searched-Decides ends_at words actor now w s
              (subst (λ k. get_maintenance_window k s.windows ≡ some w) (sym same) found)
              not_ended))))
