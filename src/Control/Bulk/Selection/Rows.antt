-- ===== src/Control/Bulk/Selection/Rows.antt =====
-- The rows that bulk control reads are the miners of the table with their unfinished jobs
-- (app/control/bulk.py and app/control/repository.py).
use open_asicmanager.Prelude.{
  ℕ, subst, first_matches, ◌<◌, ◌≡◌, ◌≢◌, refl, sym, ap, Bool, true, Bool-cases, inl, inr, ==_iff,
  ==_refl, Option, none, some, List, [], ◌∷◌, map, arith, All, All-map, In→All, first_row, select,
}
use open_asicmanager.Fleet.{Miner, has_id, get_miner}
use open_asicmanager.Groups.{Group, is_member}
use open_asicmanager.Control.{ControlState}
use open_asicmanager.Control.Jobs.{get_active_control_job}
use open_asicmanager.Control.Bulk.Requests.{member}
use open_asicmanager.Control.Bulk.Requests.Sorted.{IsAscending, In→member}
use open_asicmanager.Control.Bulk.Selection.{
  BulkRow, bulk_row, row_id, Internal, targets_of_ids, targets_of_rows,
  list_bulk_control_miners_by_ids, list_bulk_control_miners_by_group,
}

-- No number twice.
abbrev pub NoRepeat : List ℕ → Type 0
NoRepeat [] = Unit
NoRepeat (n ∷ ns) = All (λ m. n ≢ m) ns × NoRepeat ns

pub IsAscending-NoRepeat : (ns : List ℕ) → IsAscending ns → NoRepeat ns
IsAscending-NoRepeat [] a = tt
IsAscending-NoRepeat (n ∷ ns) a = (
  All-map (λ m. n < m) (λ m. n ≢ m) ns (λ m lt e. absurd (omega arith)) a.0,
  IsAscending-NoRepeat ns a.1,
)

abbrev pub ids_of : List Miner → List ℕ
ids_of miners = map (λ m. m.id) miners

-- What was read for a target is still so.
abbrev pub IsCurrent : ControlState → Internal → Type 0
IsCurrent s (i, none) = get_miner i s.miners ≡ none
IsCurrent s (i, some row) =
    (row.miner.id ≡ i)
    × (get_miner i s.miners ≡ some row.miner)
    × (get_active_control_job i s ≡ row.active)

module _ (groups : List Group) (s : ControlState) where
  row_of : Option Miner → Option BulkRow
  row_of none = none
  row_of (some m) = some (bulk_row groups s m)

  first-rows :
      (i : ℕ) (p : Miner → Bool) (miners : List Miner)
      → ((m : Miner) → has_id i m ≡ true → p m ≡ true)
      → first_row (row_id i) (map (bulk_row groups s) (select p miners))
        ≡ row_of (first_row (has_id i) miners)
  unfolding first_row select bulk_row row_of
  first-rows i p [] h = refl
  first-rows i p (m ∷ miners) h = ground (arith, h m, first-rows i p miners h)

  read-IsCurrent :
      (i : ℕ) (o : Option Miner)
      → get_miner i s.miners ≡ o
      → ((m : Miner) → o ≡ some m → m.id ≡ i)
      → IsCurrent s (i, row_of o)
  unfolding row_of bulk_row
  read-IsCurrent i none e h = e
  read-IsCurrent i (some m) e h =
      (h m refl, e, ap (λ k. get_active_control_job k s) (sym (h m refl)))

  id_found : (i : ℕ) {m : Miner} → get_miner i s.miners ≡ some m → m.id ≡ i
  unfolding get_miner
  id_found i {m} h = (==_iff m.id i).0 (first_matches (has_id i) s.miners h)

  read_by_id :
      (i : ℕ) (all : List ℕ)
      → member i all ≡ true
      → first_row (row_id i) (map (bulk_row groups s) (select (λ m. member m.id all) s.miners))
        ≡ row_of (get_miner i s.miners)
  unfolding get_miner
  read_by_id i all h =
      first-rows i (λ m. member m.id all) s.miners
        (λ m e. subst (λ k. member k all ≡ true) (sym ((==_iff m.id i).0 e)) h)

  read_ids-IsCurrent :
      (all : List ℕ) (ids : List ℕ)
      → All (λ i. member i all ≡ true) ids
      → All (IsCurrent s) (targets_of_ids (list_bulk_control_miners_by_ids all groups s) ids)
  unfolding targets_of_ids list_bulk_control_miners_by_ids
  read_ids-IsCurrent all [] h = tt
  read_ids-IsCurrent all (i ∷ ids) h = (
    subst (λ o. IsCurrent s (i, o)) (sym (read_by_id i all h.0))
        (read-IsCurrent i (get_miner i s.miners) refl (λ m e. id_found i e)),
    read_ids-IsCurrent all ids h.1,
  )

  read_rows-IsCurrent :
      (miners : List Miner)
      → All (λ m. get_miner m.id s.miners ≡ some m) miners
      → All (IsCurrent s) (targets_of_rows (map (bulk_row groups s) miners))
  unfolding targets_of_rows bulk_row
  read_rows-IsCurrent [] h = tt
  read_rows-IsCurrent (m ∷ miners) h = ((refl, h.0, refl), read_rows-IsCurrent miners h.1)

-- Where ids are used once, a row is the one that its id finds.
found_self :
    (miners : List Miner)
    → NoRepeat (ids_of miners)
    → All (λ m. get_miner m.id miners ≡ some m) miners
unfolding get_miner first_row
found_self [] u = tt
found_self (m ∷ miners) u = (rw (==_refl m.id) refl, later miners u.0 (found_self miners u.1))
  where
    later :
        (xs : List Miner)
        → All (λ k. m.id ≢ k) (ids_of xs)
        → All (λ x. first_row (has_id x.id) miners ≡ some x) xs
        → All (λ x. first_row (has_id x.id) (m ∷ miners) ≡ some x) xs
    later [] a b = tt
    later (x ∷ xs) a b = (ground (arith, a.0, b.0), later xs a.1 b.1)

select-All :
    (P : ℕ → Type 0) (p : Miner → Bool) (miners : List Miner)
    → All P (ids_of miners)
    → All P (ids_of (select p miners))
unfolding select
select-All P p [] a = tt
select-All P p (m ∷ miners) a = elim (Bool-cases (p m)) [
  | inl e ↦ rw e (a.0, select-All P p miners a.1)
  | inr e ↦ rw e (select-All P p miners a.1)
]

select-NoRepeat :
    (p : Miner → Bool) (miners : List Miner)
    → NoRepeat (ids_of miners)
    → NoRepeat (ids_of (select p miners))
unfolding select
select-NoRepeat p [] u = tt
select-NoRepeat p (m ∷ miners) u = elim (Bool-cases (p m)) [
  | inl e ↦ rw e (select-All (λ k. m.id ≢ k) p miners u.0, select-NoRepeat p miners u.1)
  | inr e ↦ rw e (select-NoRepeat p miners u.1)
]

select-found :
    (P : Miner → Type 0) (p : Miner → Bool) (miners : List Miner)
    → All P miners
    → All P (select p miners)
unfolding select
select-found P p [] a = tt
select-found P p (m ∷ miners) a = elim (Bool-cases (p m)) [
  | inl e ↦ rw e (a.0, select-found P p miners a.1)
  | inr e ↦ rw e (select-found P p miners a.1)
]

abbrev pub target_ids : List Internal → List ℕ
target_ids targets = map (λ t. t.0) targets

ids_of_targets : (rows : List BulkRow) (ids : List ℕ) → target_ids (targets_of_ids rows ids) ≡ ids
unfolding targets_of_ids
ids_of_targets rows [] = refl
ids_of_targets rows (i ∷ ids) = ap (λ is. i ∷ is) (ids_of_targets rows ids)

ids_of_rows :
    (groups : List Group) (s : ControlState) (miners : List Miner)
    → target_ids (targets_of_rows (map (bulk_row groups s) miners)) ≡ ids_of miners
unfolding targets_of_rows bulk_row
ids_of_rows groups s [] = refl
ids_of_rows groups s (m ∷ miners) = ap (λ is. m.id ∷ is) (ids_of_rows groups s miners)

self_members : (ns : List ℕ) → All (λ i. member i ns ≡ true) ns
unfolding member
self_members ns = In→All (λ i. member i ns ≡ true) ns (λ i j. In→member i ns j)

-- The targets of a list of ids, and of a group of a table that uses ids once: no id twice, and what
-- is read for each is what the table and the jobs hold.
pub by_ids-IsCurrent :
    (ids : List ℕ) (groups : List Group) (s : ControlState)
    → NoRepeat ids
    → let targets = targets_of_ids (list_bulk_control_miners_by_ids ids groups s) ids in
      NoRepeat (target_ids targets) × All (IsCurrent s) targets
by_ids-IsCurrent ids groups s u = (
  subst NoRepeat (sym (ids_of_targets (list_bulk_control_miners_by_ids ids groups s) ids)) u,
  read_ids-IsCurrent groups s ids ids (self_members ids),
)

pub by_group-IsCurrent :
    (group_id : ℕ) (groups : List Group) (s : ControlState)
    → NoRepeat (ids_of s.miners)
    → let targets = targets_of_rows (list_bulk_control_miners_by_group group_id groups s) in
      NoRepeat (target_ids targets) × All (IsCurrent s) targets
unfolding list_bulk_control_miners_by_group
by_group-IsCurrent group_id groups s u = (
  subst NoRepeat (sym (ids_of_rows groups s (select (is_member group_id) s.miners)))
      (select-NoRepeat (is_member group_id) s.miners u),
  read_rows-IsCurrent groups s (select (is_member group_id) s.miners) (
      select-found (λ m. get_miner m.id s.miners ≡ some m) (is_member group_id) s.miners
        (found_self s.miners u)),
)
