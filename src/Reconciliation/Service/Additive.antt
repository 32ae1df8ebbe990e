-- ===== src/Reconciliation/Service/Additive.antt =====
-- The reconciliation of a day only appends: what it does to the records, and what it returns.
use mathlib.Core.List.{append-nil, append_assoc}
use mathlib.Core.Path.{subst}
use valuemaxx.Base.{
  ◌≡◌, ◌⊎◌, inl, inr, refl, ap, sym, ◌∙◌, Option, none, some, Option-cases, List, [], ◌∷◌, ◌++◌,
  map, All, String,
}
use valuemaxx.Base.Result.{Error, Result, ok, err}
use valuemaxx.Decimal.{Decimal}
use valuemaxx.Core.Provenance.{check_reconciliation_link}
use valuemaxx.Reconciliation.Drift.{MatchKey}
use valuemaxx.Reconciliation.Service.{
  ReconciliationRecord, EstimateRow, ReconciliationOutcome, Ports, Figures, figures, record_of,
  append_record, label_of, causes_of, append_outcome, reconcile_match_key, Grouped, group_rows,
  billed_for, add_outcome, reconcile_groups, reconcile_day,
}

-- The outcome's label names the appended record, and the record ranks the causes of its alert.
pub record IsLinked (o : ReconciliationOutcome) : Type 0 where
  pub label : o.provenance ≡ label_of o.appended
  pub valid : check_reconciliation_link o.provenance ≡ ok o.provenance
  pub causes : o.appended.drift_cause_ranked ≡ causes_of o.drift_alert

append_outcome-cases :
    (tenant : String) (key : MatchKey) (rows : List EstimateRow) (billed : Decimal)
    (f : Result Figures) (ports : Ports)
    → ((e : Error) × (append_outcome tenant key rows billed f ports ≡ (ports, err e)))
      ⊎ ((o : ReconciliationOutcome) × (append_outcome tenant key rows billed f ports
            ≡ (append_record o.appended ports, ok o))
          × IsLinked o)
unfolding append_outcome check_reconciliation_link
append_outcome-cases tenant key rows billed (err e) ports = inl (e, refl)
append_outcome-cases tenant key rows billed (ok f) ports =
    let r = record_of tenant key rows billed f ports in
    inr (
      record {
        appended = r;
        reconciled_by_request = f.shares_by_request;
        provenance = label_of r;
        drift_alert = f.alert;
      },
      refl,
      record { label = refl; valid = refl; causes = refl },
    )

abbrev pub records_of : List ReconciliationOutcome → List ReconciliationRecord
records_of = map (λ o. o.appended)

-- What a run may leave, from the records and outcomes that it starts with.
record Additive (before : List ReconciliationRecord) (outcomes : List ReconciliationOutcome)
    (left : Ports × Result (List ReconciliationOutcome)) : Type 0 where
  new : List ReconciliationRecord
  appended : left.0.records ≡ before ++ new
  returned :
      (all : List ReconciliationOutcome)
      → left.1 ≡ ok all
      → (more : List ReconciliationOutcome) × (all ≡ outcomes ++ more)
        × (records_of more ≡ new)
        × All IsLinked more

add_outcome-Additive :
    (outcomes : List ReconciliationOutcome) (ports : Ports) (o : ReconciliationOutcome)
    (rest : List ReconciliationOutcome → Ports → Ports × Result (List ReconciliationOutcome))
    → IsLinked o
    → Additive
        (append_record o.appended ports).records
        (outcomes ++ o ∷ [])
        (rest (outcomes ++ o ∷ []) (append_record o.appended ports))
    → Additive ports.records outcomes (rest (outcomes ++ o ∷ []) (append_record o.appended ports))
unfolding append_record
add_outcome-Additive outcomes ports o rest linked h = record {
  new = o.appended ∷ h.new;
  appended = h.appended ∙ append_assoc ports.records (o.appended ∷ []) h.new;
  returned = λ all e.
      let (more, whole, same, all_linked) = h.returned all e in
      (
        o ∷ more,
        whole ∙ append_assoc outcomes (o ∷ []) more,
        ap (λ rs. o.appended ∷ rs) same,
        (linked, all_linked),
      );
}

failed_Additive :
    (ports : Ports) (outcomes : List ReconciliationOutcome) (e : Error)
    → Additive ports.records outcomes (ports, err e)
failed_Additive ports outcomes e = record {
  new = [];
  appended = sym (append-nil ports.records);
  returned = λ all h. cc h;
}

reconcile_match_key-cases :
    (tenant : String) (key : MatchKey) (rows : List EstimateRow) (billed : Decimal) (ports : Ports)
    → ((e : Error) × (reconcile_match_key tenant key rows billed ports ≡ (ports, err e)))
      ⊎ ((o : ReconciliationOutcome) × (reconcile_match_key tenant key rows billed ports
            ≡ (append_record o.appended ports, ok o))
          × IsLinked o)
unfolding reconcile_match_key
reconcile_match_key-cases tenant key rows billed ports =
    append_outcome-cases tenant key rows billed (figures key rows billed) ports

-- One group of the loop, by its billed total.
reconcile_groups_step :
    (tenant : String) (totals : List (MatchKey × Decimal)) (key : MatchKey)
    (rows : List EstimateRow) (grouped : Grouped) (outcomes : List ReconciliationOutcome)
    (ports : Ports) (b : Option Decimal)
    → billed_for key totals ≡ b
    → reconcile_groups tenant totals ((key, rows) ∷ grouped) outcomes ports ≡ elim b [
      | none ↦ reconcile_groups tenant totals grouped outcomes ports
      | some billed ↦
          add_outcome outcomes
            (reconcile_match_key tenant key rows billed ports)
            (reconcile_groups tenant totals grouped)
    ]
unfolding reconcile_groups
reconcile_groups_step tenant totals key rows grouped outcomes ports none h =
    rw (h, reconcile_groups) refl
reconcile_groups_step tenant totals key rows grouped outcomes ports (some billed) h =
    rw (h, reconcile_groups) refl

reconcile_groups-Additive :
    (tenant : String) (totals : List (MatchKey × Decimal)) (grouped : Grouped)
    (outcomes : List ReconciliationOutcome) (ports : Ports)
    → Additive ports.records outcomes (reconcile_groups tenant totals grouped outcomes ports)
reconcile_groups-Additive tenant totals [] outcomes ports =
    unfold reconcile_groups in
    record {
      new = [];
      appended = sym (append-nil ports.records);
      returned = λ all e. ([], cc e ∙ sym (append-nil outcomes), refl, tt);
    }
reconcile_groups-Additive tenant totals ((key, rows) ∷ grouped) outcomes ports =
    let step = reconcile_groups_step tenant totals key rows grouped outcomes ports in
    elim (Option-cases (billed_for key totals)) [
      | inl h ↦ rw (step none h) (reconcile_groups-Additive tenant totals grouped outcomes ports)
      | inr (billed, h) ↦
          rw (step (some billed) h) (elim (reconcile_match_key-cases tenant key rows billed ports) [
            | inl (e, failed) ↦ rw failed (failed_Additive ports outcomes e)
            | inr (o, done, linked) ↦ rw done (
                add_outcome-Additive outcomes ports o (reconcile_groups tenant totals grouped)
                  linked
                  (reconcile_groups-Additive tenant totals grouped (outcomes ++ o ∷ [])
                    (append_record o.appended ports)))
          ])
    ]

-- Reconciling a day only appends to the records, also when it ends in an exception. When it returns,
-- there is one outcome for each appended record, in the same order; the outcome's label is
-- provider-reconciled, names the record and passes its validator, and the record ranks the causes of
-- the outcome's alert, or none without an alert.
pub reconcile_day-append :
    (tenant : String) (rows : List EstimateRow) (totals : List (MatchKey × Decimal)) (ports : Ports)
    → (new : List ReconciliationRecord) × ((reconcile_day tenant rows totals ports).0.records
        ≡ ports.records ++ new)
      × ((outcomes : List ReconciliationOutcome)
          → (reconcile_day tenant rows totals ports).1 ≡ ok outcomes
          → (records_of outcomes ≡ new) × All IsLinked outcomes)
unfolding reconcile_day
reconcile_day-append tenant rows totals ports =
    let run = reconcile_groups-Additive tenant totals (group_rows [] rows) [] ports in
    (
      run.new,
      run.appended,
      λ outcomes h.
          let (more, whole, same, linked) = run.returned outcomes h in
          (ap records_of whole ∙ same, subst (All IsLinked) (sym whole) linked),
    )
