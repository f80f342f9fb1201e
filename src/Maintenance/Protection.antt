-- ===== src/Maintenance/Protection.antt =====
-- The snapshot that the anomaly scan reads (app/maintenance_windows/repository.py) against the status
-- of the windows (app/maintenance_windows/policy.py).
use open_asicmanager.Prelude.{
  ℕ, ◌≡◌, refl, sym, ap, ◌∙◌, subst, ◌↔◌, ◌⊎◌, Bool, true, ◌&&◌, Option, none, some, List, [], ◌∷◌,
  map, arith, ==_iff, Bool-cases, inl, inr, select, In, Some, In-select, select-In, In-append,
  append-In, In-map, map-In, found-Some, Some-found,
}
use open_asicmanager.Maintenance.{
  Scope, farm, miner_scope, group_scope, scope_eq, Window, is_window, Member, active_at, any_farm,
  add_id, scope_ids, group_active, member_id, active_maintenance_snapshot,
}
use open_asicmanager.Maintenance.Requests.{active, maintenance_status}

scope_eq→≡ : (a b : Scope) → scope_eq a b ≡ true → a ≡ b
unfolding scope_eq
scope_eq→≡ a b h = ground arith

scope_eq_refl : (a : Scope) → scope_eq a a ≡ true
unfolding scope_eq
scope_eq_refl a = ground arith

active_at_iff :
    (now : ℕ) (w : Window) → (active_at now w ≡ true) ↔ (maintenance_status w now ≡ active)
unfolding maintenance_status
active_at_iff now w = ground arith

-- A window that is active now, and has a property.
abbrev pub ActiveWith : ℕ → (Window → Type 0) → List Window → Type 0
ActiveWith now P windows = Some (λ w. (maintenance_status w now ≡ active) × P w) windows

abbrev pub IsFarm : Window → Type 0
IsFarm w = w.scope ≡ farm

-- Of the miner.
abbrev pub IsMiner : ℕ → Window → Type 0
IsMiner m w = (w.scope ≡ miner_scope) × (w.miner_id ≡ some m)

-- Of a group, with a row of its members.
abbrev pub IsGroup : Member → Window → Type 0
IsGroup r w = (w.scope ≡ group_scope) × (w.id ≡ r.window_id)

any_farm-Some : (rows : List Window) → any_farm rows ≡ true → Some IsFarm rows
unfolding any_farm
any_farm-Some [] h = cc
any_farm-Some (w ∷ ws) h = elim (Bool-cases (scope_eq w.scope farm)) [
  | inl e ↦ (w, (inl refl, scope_eq→≡ w.scope farm e))
  | inr e ↦ let (x, (i, f)) = any_farm-Some ws (ground arith) in (x, (inr i, f))
]

Some-any_farm : (w : Window) (rows : List Window) → In w rows → IsFarm w → any_farm rows ≡ true
unfolding any_farm
Some-any_farm w [] i h = absurd i
Some-any_farm w (x ∷ xs) (inl e) h =
    rw (ap (λ z. scope_eq z.scope farm) e) (rw h (rw (scope_eq_refl farm) refl))
Some-any_farm w (x ∷ xs) (inr i) h = ground (arith, Some-any_farm w xs i h)

In-add_id :
    (m : ℕ) (scope : Scope) (id : Option ℕ) (rest : List ℕ)
    → In m (add_id scope id rest)
    → ((scope ≡ miner_scope) × (id ≡ some m)) ⊎ In m rest
unfolding add_id
In-add_id m miner_scope (some n) rest (inl e) = inl (refl, ap some e)
In-add_id m miner_scope (some n) rest (inr i) = inr i
In-add_id m miner_scope none rest i = inr i
In-add_id m farm id rest i = inr i
In-add_id m group_scope id rest i = inr i

add_id-In :
    (m : ℕ) (scope : Scope) (id : Option ℕ) (rest : List ℕ)
    → ((scope ≡ miner_scope) × (id ≡ some m)) ⊎ In m rest
    → In m (add_id scope id rest)
unfolding add_id
add_id-In m scope id rest (inl (e, f)) =
    subst (λ z. In m (add_id z id rest)) (sym e)
      (subst (λ z. In m (add_id miner_scope z rest)) (sym f) (inl refl))
add_id-In m miner_scope (some n) rest (inr i) = inr i
add_id-In m miner_scope none rest (inr i) = i
add_id-In m farm id rest (inr i) = i
add_id-In m group_scope id rest (inr i) = i

In-scope_ids : (m : ℕ) (rows : List Window) → In m (scope_ids rows) → Some (IsMiner m) rows
unfolding scope_ids
In-scope_ids m [] i = absurd i
In-scope_ids m (w ∷ ws) i = elim (In-add_id m w.scope w.miner_id (scope_ids ws) i) [
  | inl h ↦ (w, (inl refl, h))
  | inr j ↦ let (x, (k, h)) = In-scope_ids m ws j in (x, (inr k, h))
]

scope_ids-In :
    (m : ℕ) (w : Window) (rows : List Window) → In w rows → IsMiner m w → In m (scope_ids rows)
unfolding scope_ids
scope_ids-In m w [] i h = absurd i
scope_ids-In m w (x ∷ xs) (inl e) h =
    add_id-In m x.scope x.miner_id (scope_ids xs) (inl (subst (IsMiner m) (sym e) h))
scope_ids-In m w (x ∷ xs) (inr i) h =
    add_id-In m x.scope x.miner_id (scope_ids xs) (inr (scope_ids-In m w xs i h))

-- A selected active row, as an active window with the property, and back.
selected-ActiveWith :
    (now : ℕ) (P : Window → Type 0) (windows : List Window)
    → Some P (select (active_at now) windows)
    → ActiveWith now P windows
selected-ActiveWith now P windows (w, (i, h)) =
    let (j, t) = In-select (active_at now) windows i in (w, (j, ((active_at_iff now w).0 t, h)))

group_test : ℕ → Member → Window → Bool
group_test now r w = is_window r.window_id w && scope_eq w.scope group_scope && active_at now w

group_test_iff :
    (now : ℕ) (r : Member) (w : Window)
    → (group_test now r w ≡ true) ↔ ((maintenance_status w now ≡ active) × IsGroup r w)
unfolding group_test
group_test_iff now r w = (
  λ h. (
    (active_at_iff now w).0 (ground arith),
    (scope_eq→≡ w.scope group_scope (ground arith), (==_iff w.id r.window_id).0 (ground arith)),
  ),
  λ h.
      let t = (active_at_iff now w).1 h.0 in
      let e = (==_iff w.id r.window_id).1 h.1.1 in
      let s : scope_eq w.scope group_scope ≡ true =
        ap (λ z. scope_eq z group_scope) h.1.0 ∙ scope_eq_refl group_scope in
      ground arith,
)

group_active_iff :
    (now : ℕ) (windows : List Window) (r : Member)
    → (group_active now windows r ≡ true) ↔ ActiveWith now (IsGroup r) windows
unfolding group_test
group_active_iff now windows r = (
  λ h.
      let (w, (i, t)) = found-Some (group_test now r) windows h in
      (w, (i, (group_test_iff now r w).0 t)),
  λ (w, (i, h)). Some-found (group_test now r) w windows i ((group_test_iff now r w).1 h),
)

-- A miner is under maintenance of its own: a window of the miner is active, or one of a group that
-- had the miner as a member when it was created.
abbrev pub IsProtected : ℕ → ℕ → List Window → List Member → Type 0
IsProtected now m windows members =
    ActiveWith now (IsMiner m) windows
    ⊎ Some (λ r. (r.miner_id ≡ m) × ActiveWith now (IsGroup r) windows) members

ids-IsProtected :
    (now : ℕ) (windows : List Window) (members : List Member) (m : ℕ)
    → In m (active_maintenance_snapshot now windows members).miner_ids
    → IsProtected now m windows members
unfolding active_maintenance_snapshot
ids-IsProtected now windows members m i =
    elim (In-append m (scope_ids (select (active_at now) windows)) _ i) [
      | inl j ↦ inl (selected-ActiveWith now (IsMiner m) windows (In-scope_ids m _ j))
      | inr j ↦
          let (r, (k, e)) = In-map member_id m (select (group_active now windows) members) j in
          let (l, t) = In-select (group_active now windows) members k in
          inr (r, (l, (e, (group_active_iff now windows r).0 t)))
    ]

IsProtected-ids :
    (now : ℕ) (windows : List Window) (members : List Member) (m : ℕ)
    → IsProtected now m windows members
    → In m (active_maintenance_snapshot now windows members).miner_ids
unfolding active_maintenance_snapshot
IsProtected-ids now windows members m (inl (w, (i, (a, h)))) =
    append-In m (scope_ids (select (active_at now) windows)) _
      (inl (scope_ids-In m w _ (select-In (active_at now) windows i ((active_at_iff now w).1 a)) h))
IsProtected-ids now windows members m (inr (r, (i, (e, a)))) =
    append-In m (scope_ids (select (active_at now) windows)) _ (
      inr (
        subst (λ z. In z (map member_id (select (group_active now windows) members))) e
          (map-In member_id r _ (
            select-In (group_active now windows) members i
              ((group_active_iff now windows r).1 a)))))

-- The snapshot says what the windows' status says: the farm is under maintenance exactly when a FARM
-- window has status ACTIVE now, and the miner's id is in the set exactly when a MINER window of it is
-- ACTIVE, or a GROUP window that has it among its stored members.
pub active_maintenance_snapshot_iff :
    (now : ℕ) (windows : List Window) (members : List Member) (m : ℕ)
    → (((active_maintenance_snapshot now windows members).farm_active ≡ true)
        ↔ ActiveWith now IsFarm windows)
      × (In m (active_maintenance_snapshot now windows members).miner_ids
          ↔ IsProtected now m windows members)
unfolding active_maintenance_snapshot
active_maintenance_snapshot_iff now windows members m = (
  (
    λ h. selected-ActiveWith now IsFarm windows (any_farm-Some _ h),
    λ (w, (i, (a, h))).
        Some-any_farm w _ (select-In (active_at now) windows i ((active_at_iff now w).1 a)) h,
  ),
  (ids-IsProtected now windows members m, IsProtected-ids now windows members m),
)
