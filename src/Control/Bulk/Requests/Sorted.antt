-- ===== src/Control/Bulk/Requests/Sorted.antt =====
-- What `sorted` does to ids that are given once each (app/control/bulk.py).
use open_asicmanager.Prelude.{
  ℕ, suc, ◌<◌, ◌≡◌, refl, ◌↔◌, ◌⊎◌, inl, inr, Bool, true, false, ◌==◌, ==_iff, leb, Bool-cases,
  List, [], ◌∷◌, if◌then◌else◌, arith, length, All, In,
}
use open_asicmanager.Control.Bulk.Requests.{member, has_duplicate, insert_sorted, sorted}

-- Each number is below the next.
abbrev pub IsAscending : List ℕ → Type 0
IsAscending [] = Unit
IsAscending (n ∷ ns) = All (λ m. n < m) ns × IsAscending ns

insert-In : (n i : ℕ) (ms : List ℕ) → In i (insert_sorted n ms) ↔ ((n ≡ i) ⊎ In i ms)
unfolding insert_sorted
insert-In n i [] = (λ h. h, λ h. h)
insert-In n i (m ∷ ms) = by (leb n m) (insert-In n i ms)
  where
    by :
        (b : Bool)
        → (In i (insert_sorted n ms) ↔ ((n ≡ i) ⊎ In i ms))
        → In i (if b then n ∷ m ∷ ms else m ∷ insert_sorted n ms) ↔ ((n ≡ i) ⊎ In i (m ∷ ms))
    by true ih = (λ h. h, λ h. h)
    by false ih = (to, from)
      where
        to : In i (m ∷ insert_sorted n ms) → (n ≡ i) ⊎ In i (m ∷ ms)
        to (inl e) = inr (inl e)
        to (inr j) = elim (ih.0 j) [ inl e ↦ inl e | inr k ↦ inr (inr k) ]

        from : (n ≡ i) ⊎ In i (m ∷ ms) → In i (m ∷ insert_sorted n ms)
        from (inl e) = inr (ih.1 (inl e))
        from (inr (inl e)) = inl e
        from (inr (inr k)) = inr (ih.1 (inr k))

abbrev Same : List ℕ → List ℕ → Type 0
Same xs ys = (i : ℕ) → In i xs ↔ In i ys

insert-Same : (n : ℕ) (ms ns : List ℕ) → Same ms ns → Same (insert_sorted n ms) (n ∷ ns)
insert-Same n ms ns same i = (to, from)
  where
    to : In i (insert_sorted n ms) → In i (n ∷ ns)
    to j = elim ((insert-In n i ms).0 j) [ inl e ↦ inl e | inr k ↦ inr ((same i).0 k) ]

    from : In i (n ∷ ns) → In i (insert_sorted n ms)
    from (inl e) = (insert-In n i ms).1 (inl e)
    from (inr k) = (insert-In n i ms).1 (inr ((same i).1 k))

pub sorted-Same : (ns : List ℕ) → Same (sorted ns) ns
unfolding sorted
sorted-Same [] = λ i. (λ h. h, λ h. h)
sorted-Same (n ∷ ns) = insert-Same n (sorted ns) ns (sorted-Same ns)

length-insert : (n : ℕ) (ms : List ℕ) → length (insert_sorted n ms) ≡ suc (length ms)
unfolding insert_sorted
length-insert n [] = refl
length-insert n (m ∷ ms) = ground (arith, length-insert n ms)

pub length-sorted : (ns : List ℕ) → length (sorted ns) ≡ length ns
unfolding sorted
length-sorted [] = refl
length-sorted (n ∷ ns) = omega (arith, length-insert n (sorted ns), length-sorted ns)

All-insert : (P : ℕ → Type 0) (n : ℕ) (ms : List ℕ) → P n → All P ms → All P (insert_sorted n ms)
unfolding insert_sorted
All-insert P n [] h a = (h, tt)
All-insert P n (m ∷ ms) h a = by (leb n m) (All-insert P n ms h a.1)
  where
    by :
        (b : Bool)
        → All P (insert_sorted n ms)
        → All P (if b then n ∷ m ∷ ms else m ∷ insert_sorted n ms)
    by true ih = (h, a)
    by false ih = (a.0, ih)

above : (n m : ℕ) (ms : List ℕ) → n < m → All (λ k. m < k) ms → All (λ k. n < k) ms
above n m [] lt a = tt
above n m (k ∷ ms) lt a = (omega arith, above n m ms lt a.1)

insert-IsAscending :
    (n : ℕ) (ms : List ℕ) → member n ms ≡ false → IsAscending ms → IsAscending (insert_sorted n ms)
unfolding insert_sorted member
insert-IsAscending n [] new a = (tt, tt)
insert-IsAscending n (m ∷ ms) new a = elim (Bool-cases (leb n m)) [
  | inl e ↦ let lt : n < m = ground arith in rw e ((lt, above n m ms lt a.0), a)
  | inr e ↦
      let lt : m < n = ground arith in
      let later : member n ms ≡ false = ground arith in
      rw e (All-insert (λ k. m < k) n ms lt a.0, insert-IsAscending n ms later a.1)
]

member→In : (n : ℕ) (ms : List ℕ) → member n ms ≡ true → In n ms
unfolding member
member→In n [] h = cc
member→In n (m ∷ ms) h = elim (Bool-cases (m == n)) [
  | inl e ↦ inl ((==_iff m n).0 e)
  | inr e ↦ inr (member→In n ms (ground arith))
]

pub In→member : (n : ℕ) (ms : List ℕ) → In n ms → member n ms ≡ true
unfolding member
In→member n [] i = absurd i
In→member n (m ∷ ms) (inl e) = ground arith
In→member n (m ∷ ms) (inr i) = ground (arith, In→member n ms i)

pub sorted-IsAscending : (ns : List ℕ) → has_duplicate ns ≡ false → IsAscending (sorted ns)
unfolding sorted has_duplicate
sorted-IsAscending [] h = tt
sorted-IsAscending (n ∷ ns) h =
    insert-IsAscending n (sorted ns) (new (Bool-cases (member n (sorted ns))))
      (sorted-IsAscending ns (ground arith))
  where
    absent : member n ns ≡ false
    absent = ground arith

    new :
        (member n (sorted ns) ≡ true) ⊎ (member n (sorted ns) ≡ false)
        → member n (sorted ns) ≡ false
    new (inl e) =
        let found : member n ns ≡ true =
          In→member n ns ((sorted-Same ns n).0 (member→In n (sorted ns) e)) in
        cc
    new (inr e) = e
