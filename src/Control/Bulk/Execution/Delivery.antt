-- ===== src/Control/Bulk/Execution/Delivery.antt =====
-- A bulk command queues exactly the targets that its preview calls eligible (app/control/bulk.py).
use open_asicmanager.Prelude.{
  ℕ, ◌⊎◌, inl, inr, ◌+◌, ◌≡◌, ◌≢◌, refl, sym, ap, subst, ◌∙◌, String, Bool, true, false, not, ◌&&◌,
  none, some, List, [], ◌∷◌, map, All, length, count_rows, arith, if◌then◌else◌, is_some, Result,
  ok, raised, raise_if, ◌>>=◌, ◌>>◌, Ensures,
}
use open_asicmanager.Fleet.{Action, get_miner}
use open_asicmanager.Groups.{Group}
use open_asicmanager.Values.{Json}
use open_asicmanager.Control.{ControlState}
use open_asicmanager.Control.Jobs.{get_active_control_job}
use open_asicmanager.Control.Queue.{QueueRuntime}
use open_asicmanager.Control.Queue.Outcomes.{ready?, idle?}
use open_asicmanager.Control.Queue.Others.{Spares, one_if}
use open_asicmanager.Control.Bulk.Requests.{normalize_bulk_control_action}
use open_asicmanager.Control.Bulk.{confirm_required, BulkError}
use open_asicmanager.Control.Bulk.Selection.{
  BulkRow, Internal, Target, public_of, public_target, eligibility, is_eligible, Resolved,
  resolve_bulk_control_selection, bulk_control_preview,
}
use open_asicmanager.Control.Bulk.Selection.Rows.{NoRepeat, IsCurrent, ids_of, target_ids}
use open_asicmanager.Control.Bulk.Selection.Prepared.{Prepared, resolved-Prepared}
use open_asicmanager.Control.Bulk.Execution.{
  is_reboot, BulkResult, BulkReport, was_accepted, serve, serve_all, report, execute_checks,
  run_checked, execute_bulk_control,
}
use open_asicmanager.Control.Bulk.Execution.Frame.{
  serve_public-Spares, serve_public-jobs, serve_public-accepted,
}

-- A row that is current is eligible exactly when the queue would take it.
eligible_row :
    (row : BulkRow) (i : ℕ) (s : ControlState)
    → IsCurrent s (i, some row)
    → not (is_some (eligibility (some row)))
      ≡ (ready? (get_miner i s.miners) && idle? (get_active_control_job i s))
unfolding eligibility
eligible_row row i s c = rw (c.1, c.2) (ground arith)

both : (x y : Bool) → x ≡ y → (x && y) ≡ x
both x y h = ground arith

serve-eligible :
    (rt : QueueRuntime) (now : ℕ → ℕ) (a : Action) (t : Internal) (s : ControlState)
    → IsCurrent s t
    → (serve rt now a t s).0.accepted ≡ (public_of t).eligible
unfolding serve public_target eligibility
serve-eligible rt now a (i, none) s c =
    serve_public-accepted rt now a (public_of (i, none)) (public_of (i, none)).rejection s
serve-eligible rt now a (i, some row) s c =
    serve_public-accepted rt now a (public_of (i, some row)) _ s
    ∙ both _ _ (
        subst
          (λ k.
            not (is_some (eligibility (some row)))
            ≡ (ready? (get_miner k s.miners) && idle? (get_active_control_job k s)))
          (sym c.0) (eligible_row row i s c))

spared-IsCurrent :
    (s u : ControlState) (t : Internal) → Spares t.0 s u → IsCurrent s t → IsCurrent u t
spared-IsCurrent s u (i, none) p c = p.0 ∙ c
spared-IsCurrent s u (i, some row) p c = (c.0, p.0 ∙ c.1, p.1 ∙ c.2)

one_if_lem : (b : Bool) → one_if b ≡ (if b then 1 else 0)
one_if_lem true = refl
one_if_lem false = refl

module _ (rt : QueueRuntime) (now : ℕ → ℕ) (a : Action) where
  serve-Spares :
      (t : Internal) (k : ℕ) (s : ControlState)
      → IsCurrent s t
      → t.0 ≢ k
      → Spares k s (serve rt now a t s).1
  unfolding serve public_target
  serve-Spares (i, none) k s c ne =
      serve_public-Spares rt now a (public_of (i, none)) (public_of (i, none)).rejection k s ne
  serve-Spares (i, some row) k s c ne =
      serve_public-Spares rt now a (public_of (i, some row)) (public_of (i, some row)).rejection k s
        (λ e. ne (sym c.0 ∙ e))

  still-IsCurrent :
      (t : Internal) (targets : List Internal) (s : ControlState)
      → IsCurrent s t
      → All (λ k. t.0 ≢ k) (target_ids targets)
      → All (IsCurrent s) targets
      → All (IsCurrent (serve rt now a t s).1) targets
  still-IsCurrent t [] s c ne h = tt
  still-IsCurrent t (u ∷ targets) s c ne h = (
    spared-IsCurrent s (serve rt now a t s).1 u (serve-Spares t u.0 s c ne.0) h.0,
    still-IsCurrent t targets s c ne.1 h.1,
  )

  serve_all-eligible :
      (targets : List Internal) (s : ControlState)
      → NoRepeat (target_ids targets)
      → All (IsCurrent s) targets
      → map was_accepted (serve_all rt now a targets s).0 ≡ map is_eligible (map public_of targets)
  unfolding serve_all
  serve_all-eligible [] s u h = refl
  serve_all-eligible (t ∷ targets) s u h =
      ap (λ b. b ∷ map was_accepted (serve_all rt now a targets (serve rt now a t s).1).0)
        (serve-eligible rt now a t s h.0)
      ∙ ap (λ bs. (public_of t).eligible ∷ bs)
          (serve_all-eligible targets (serve rt now a t s).1 u.1
            (still-IsCurrent t targets s h.0 u.0 h.1))

  serve-jobs :
      (t : Internal) (s : ControlState)
      → let out = serve rt now a t s in
        length out.1.jobs ≡ length s.jobs + (if was_accepted out.0 then 1 else 0)
  unfolding serve
  serve-jobs t s =
      serve_public-jobs rt now a (public_of t) (public_of t).rejection s
      ∙ ap (λ n. length s.jobs + n) (one_if_lem (serve rt now a t s).0.accepted)

  serve_all-jobs :
      (targets : List Internal) (s : ControlState)
      → let out = serve_all rt now a targets s in
        length out.1.jobs ≡ length s.jobs + count_rows was_accepted out.0
  unfolding serve_all count_rows
  serve_all-jobs [] s = omega arith
  serve_all-jobs (t ∷ targets) s =
      omega (arith, serve-jobs t s, serve_all-jobs targets (serve rt now a t s).1)

-- The flags say how many.
count_of_flags :
    (rs : List BulkResult) (ts : List Target)
    → map was_accepted rs ≡ map is_eligible ts
    → count_rows was_accepted rs ≡ count_rows is_eligible ts
unfolding count_rows
count_of_flags [] [] h = refl
count_of_flags (r ∷ rs) (t ∷ ts) h = ground (arith, count_of_flags rs ts)
count_of_flags [] (t ∷ ts) h = cc
count_of_flags (r ∷ rs) [] h = cc

-- What a report of a command says, beside the preview on the state where it began.
abbrev pub Delivers : ControlState → ControlState → Action × Resolved → BulkReport → Type 0
Delivers s t preview r =
    (r.action ≡ preview.0)
    × (map was_accepted r.results ≡ map is_eligible preview.1.public_targets)
    × (r.accepted_count ≡ preview.1.eligible_count)
    × (length t.jobs ≡ length s.jobs + r.accepted_count)

report-Delivers :
    (rt : QueueRuntime) (now : ℕ → ℕ) (a : Action) (resolved : Resolved) (s : ControlState)
    → Prepared s resolved
    → let out = serve_all rt now a resolved.targets s in
      Delivers s out.1 (a, resolved) (report a resolved out.0)
unfolding report
report-Delivers rt now a resolved s p =
    let out = serve_all rt now a resolved.targets s in
    let flags =
      serve_all-eligible rt now a resolved.targets s p.0.0 p.0.1
      ∙ ap (λ ts. map is_eligible ts) (sym p.1) in
    (
      refl,
      flags,
      count_of_flags out.0 resolved.public_targets flags ∙ sym p.2,
      serve_all-jobs rt now a resolved.targets s,
    )

-- The run of a command that passed the checks, against its preview.
abbrev pub Agrees :
    ControlState
    → Result BulkError (Action × Resolved)
    → Result BulkError BulkReport × ControlState
    → Type 0
Agrees s preview (raised e, t) = (t ≡ s) × ((preview ≡ raised e) ⊎ (e ≡ confirm_required))
Agrees s (raised e) (ok r, t) = ⊥
Agrees s (ok preview) (ok r, t) = Delivers s t preview r

-- The checks are those of the preview, and one more.
abbrev Checks :
    ControlState
    → Result BulkError (Action × Resolved)
    → Result BulkError (Action × Resolved)
    → Type 0
Checks s preview (raised e) = (preview ≡ raised e) ⊎ (e ≡ confirm_required)
Checks s preview (ok p) = (preview ≡ ok p) × Prepared s p.1

run_checked-Agrees :
    (rt : QueueRuntime) (now : ℕ → ℕ) (preview checked : Result BulkError (Action × Resolved))
    (s : ControlState)
    → Checks s preview checked
    → Agrees s preview (run_checked rt now checked s)
unfolding run_checked
run_checked-Agrees rt now preview (raised e) s h = (refl, h)
run_checked-Agrees rt now preview (ok (a, resolved)) s h =
    rw h.0 (report-Delivers rt now a resolved s h.1)

confirmed :
    (s : ControlState) (a : Action) (r : Resolved) (missing : Bool)
    → Prepared s r
    → Checks s (ok (a, r)) (raise_if missing confirm_required >> ok (a, r))
confirmed s a r true h = inr refl
confirmed s a r false h = (refl, h)

checked-Checks :
    (s : ControlState) (x : Result BulkError Action) (y : Result BulkError Resolved)
    (missing : Action → Resolved → Bool)
    → Ensures (Prepared s) y
    → Checks s
        (x >>= λ a. y >>= λ r. ok (a, r))
        (x >>= λ a. y >>= λ r. raise_if (missing a r) confirm_required >> ok (a, r))
checked-Checks s (raised e) y missing h = inl refl
checked-Checks s (ok a) (raised e) missing h = inl refl
checked-Checks s (ok a) (ok r) missing h = confirmed s a r (missing a r) h

-- On a miners table that uses ids once, a bulk command keeps what its preview, taken at the same
-- moment, promises. If it raises, nothing is changed, and the error is the preview's or the missing
-- confirmation of a reboot. Otherwise its results, in the order of the preview's targets, are accepted
-- exactly where the target is eligible, the count of the accepted is the preview's count of the
-- eligible, and so many job rows are added.
pub execute_bulk_control-Agrees :
    (rt : QueueRuntime) (now : ℕ → ℕ) (word : String) (payload : Json) (groups : List Group)
    (s : ControlState)
    → NoRepeat (ids_of s.miners)
    → Agrees s
        (bulk_control_preview word payload groups s)
        (execute_bulk_control rt now word payload groups s)
unfolding execute_bulk_control execute_checks bulk_control_preview
execute_bulk_control-Agrees rt now word payload groups s u =
    run_checked-Agrees rt now (bulk_control_preview word payload groups s)
      (execute_checks word payload groups s) s
      (checked-Checks s (normalize_bulk_control_action word)
        (resolve_bulk_control_selection payload groups s)
        (λ a r. is_reboot a && not r.normalized.confirm_reboot)
        (resolved-Prepared payload groups s u))
