-- ===== src/Control/Bulk/Requests/Accepted.antt =====
-- What an accepted list of miners is (app/control/bulk.py, normalize_bulk_control_request).
use open_asicmanager.Prelude.{
  ℕ, String, ◌≤◌, ◌<◌, ◌≡◌, refl, ap, sym, ◌∙◌, subst, ◌↔◌, inl, inr, Bool, true, false, ltb,
  Option, none, some, List, [], ◌∷◌, arith, length, All, In, In→All, All→In, Result, ok, raise_if,
  Ensures, bind-Ensures, then-Ensures, ensured,
}
use open_asicmanager.Values.{
  Json, null, integer, array, object, Fields, get, keys, elements, positive_int,
}
use open_asicmanager.Values.Integers.{pos}
use open_asicmanager.Control.Bulk.{
  BulkError, Chosen, chosen_miners, chosen_group, BulkRequest, ids_empty, ids_duplicate, too_many,
}
use open_asicmanager.Control.Bulk.Requests.{
  has_duplicate, sorted, read_ids, bulk_positive_int, is_none, values_of, choose_miners,
  choose_group, choose, given, no_unknown_fields, unknown_names, normalize_bulk_control_request,
}
use open_asicmanager.Control.Bulk.Requests.Sorted.{
  sorted-Same, length-sorted, sorted-IsAscending, IsAscending,
}

positive-read :
    (name : String) (v : Json) {n : ℕ}
    → bulk_positive_int name v ≡ ok n
    → (v ≡ integer (pos n)) × (0 < n)
unfolding bulk_positive_int positive_int
positive-read name v h = ground arith

-- The numbers that are read, each positive, from these values.
abbrev Reads : List Json → List ℕ → Type 0
Reads vs ns = All (λ n. 0 < n) ns × ((i : ℕ) → In i ns ↔ In (integer (pos i)) vs)

cons-Reads :
    (v : Json) (vs : List Json) (n : ℕ) (ns : List ℕ)
    → (v ≡ integer (pos n)) × (0 < n)
    → Reads vs ns
    → Reads (v ∷ vs) (n ∷ ns)
cons-Reads v vs n ns h r = ((h.1, r.0), λ i. (to i, from i))
  where
    to : (i : ℕ) → In i (n ∷ ns) → In (integer (pos i)) (v ∷ vs)
    to i (inl e) = inl (h.0 ∙ ap (λ k. integer (pos k)) e)
    to i (inr j) = inr ((r.1 i).0 j)

    from : (i : ℕ) → In (integer (pos i)) (v ∷ vs) → In i (n ∷ ns)
    from i (inl e) =
        let same : integer (pos n) ≡ integer (pos i) = sym h.0 ∙ e in inl (ground arith)
    from i (inr j) = inr ((r.1 i).1 j)

read_ids-Reads : (vs : List Json) → Ensures (Reads vs) (read_ids vs)
unfolding read_ids
read_ids-Reads [] = (tt, λ i. (λ h. h, λ h. h))
read_ids-Reads (v ∷ vs) =
    bind-Ensures (Reads (v ∷ vs)) (bulk_positive_int "miner_ids item" v) _ (λ n h.
      bind-Ensures (Reads (v ∷ vs)) (read_ids vs) _ (λ ns g.
        cons-Reads v vs n ns (positive-read "miner_ids item" v h)
          (ensured (Reads vs) (read_ids vs) (read_ids-Reads vs) g)))

abbrev pub array_values : Json → List Json
array_values (array _ xs) = elements xs
array_values _ = []

-- An accepted choice: positive ids in ascending order, at most fifty and at least one, exactly those of the
-- array; or the positive id of a group.
abbrev pub Honours : Json → Json → Chosen → Type 0
Honours ids_value group_value (chosen_miners ids) =
    IsAscending ids
    × (1 ≤ length ids)
    × (length ids ≤ 50)
    × All (λ n. 0 < n) ids
    × ((i : ℕ) → In i ids ↔ In (integer (pos i)) (array_values ids_value))
Honours ids_value group_value (chosen_group g) = (group_value ≡ integer (pos g)) × (0 < g)

values_of_lem : (v : Json) {vs : List Json} → values_of v ≡ ok vs → array_values v ≡ vs
unfolding values_of
values_of_lem v h = ground arith

some_id : (vs : List Json) (ns : List ℕ) → is_none vs ≡ false → read_ids vs ≡ ok ns → 1 ≤ length ns
unfolding is_none read_ids
some_id [] ns h g = cc
some_id (v ∷ vs) ns h g = ground arith

sorted-Honours :
    (v w : Json) (ns : List ℕ)
    → Reads (array_values v) ns
    → 1 ≤ length ns
    → has_duplicate ns ≡ false
    → length ns ≤ 50
    → Honours v w (chosen_miners (sorted ns))
sorted-Honours v w ns r one distinct few = (
  sorted-IsAscending ns distinct,
  omega (arith, length-sorted ns),
  omega (arith, length-sorted ns),
  In→All (λ n. 0 < n) (sorted ns) (λ n i. All→In (λ n. 0 < n) ns r.0 ((sorted-Same ns n).0 i)),
  λ i. (λ h. (r.1 i).0 ((sorted-Same ns i).0 h), λ h. (sorted-Same ns i).1 ((r.1 i).1 h)),
)

choose_miners-Honours : (v w : Json) → Ensures (Honours v w) (choose_miners v)
unfolding choose_miners
choose_miners-Honours v w = bind-Ensures (Honours v w) (values_of v) _ (λ vs h1.
    then-Ensures (Honours v w) (raise_if (is_none vs) ids_empty) _ (λ h2.
      bind-Ensures (Honours v w) (read_ids vs) _ (λ ns h3.
        then-Ensures (Honours v w) (raise_if (has_duplicate ns) ids_duplicate) _ (λ h4.
          then-Ensures (Honours v w) (raise_if (ltb 50 (length ns)) too_many) _ (λ h5.
            sorted-Honours v w ns
              (subst (λ z. Reads z ns) (sym (values_of_lem v h1))
                (ensured (Reads vs) (read_ids vs) (read_ids-Reads vs) h3))
              (some_id vs ns (passed (is_none vs) ids_empty h2) h3)
              (passed (has_duplicate ns) ids_duplicate h4) (small (length ns) h5))))))
  where
    passed : (b : Bool) (e : BulkError) → raise_if b e ≡ ok tt → b ≡ false
    passed true e h = cc
    passed false e h = refl

    small : (n : ℕ) → raise_if (ltb 50 n) too_many ≡ ok tt → n ≤ 50
    small n h = ground arith

choose_group-Honours : (v w : Json) → Ensures (Honours v w) (choose_group w)
unfolding choose_group
choose_group-Honours v w =
    bind-Ensures (Honours v w) (bulk_positive_int "group_id" w) _
      (λ g h. positive-read "group_id" w h)

-- The value of a member that is given, null otherwise.
abbrev pub value_of : Option Json → Json
value_of none = null
value_of (some v) = v

-- One selection is given and the other is not, and the choice honours it.
abbrev pub Chooses : Option Json → Option Json → BulkRequest → Type 0
Chooses ids group_id r = Honours (value_of ids) (value_of group_id) r.chosen

choose-Honours :
    (ids group_id : Option Json) (c : Result BulkError Bool)
    → Ensures (Chooses ids group_id) (choose ids group_id c)
unfolding choose
choose-Honours none none c = tt
choose-Honours (some v) (some w) c = tt
choose-Honours (some v) none c = bind-Ensures _ c _ (λ b h.
    bind-Ensures _ (choose_miners v) _
      (λ chosen g. ensured (Honours v null) (choose_miners v) (choose_miners-Honours v null) g))
choose-Honours none (some w) c = bind-Ensures _ c _ (λ b h.
    bind-Ensures _ (choose_group w) _
      (λ chosen g. ensured (Honours null w) (choose_group w) (choose_group-Honours null w) g))

value_given : (o : Option Json) → value_of (given o) ≡ value_of o
unfolding given
value_given none = refl
value_given (some null) = refl
value_given (some v) = refl

replaced :
    (v v' w w' : Json) (r : Result BulkError BulkRequest)
    → v ≡ v'
    → w ≡ w'
    → Ensures (λ q. Honours v w q.chosen) r
    → Ensures (λ q. Honours v' w' q.chosen) r
replaced v v' w w' r e f h =
    subst (λ z. Ensures (λ q. Honours v' z q.chosen) r) f
      (subst (λ z. Ensures (λ q. Honours z w q.chosen) r) e h)

-- A body that is accepted selects either miners or a group. Miners: the ids are exactly the numbers of its array
-- miner_ids, in ascending order with no id twice, each positive, at least one and at most fifty. A group:
-- group_id is that positive number.
pub normalize_bulk_control_request-Honours :
    (printed : String) (payload : Fields)
    → Ensures
        (Chooses (get "miner_ids" payload) (get "group_id" payload))
        (normalize_bulk_control_request (object printed payload))
unfolding normalize_bulk_control_request
normalize_bulk_control_request-Honours printed payload =
    let ids = get "miner_ids" payload in
    let group_id = get "group_id" payload in
    then-Ensures _ (no_unknown_fields (unknown_names (keys payload))) _ (λ _.
      replaced (value_of (given ids)) (value_of ids) (value_of (given group_id)) (value_of group_id)
        (choose (given ids) (given group_id) _) (value_given ids) (value_given group_id)
        (choose-Honours (given ids) (given group_id) _))
