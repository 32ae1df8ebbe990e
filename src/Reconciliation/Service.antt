-- ===== src/Reconciliation/Service.antt =====
-- packages/reconciliation/src/valuemaxx/reconciliation/service.py, with the record of
-- packages/core/src/valuemaxx/core/reconciliation.py. The repository is the list of the records
-- appended so far; the injected clock and id generator are functions of how often they were called,
-- once for each record.
pub mod Additive
use text.Mathlib.Text.{◌==◌}
use valuemaxx.Base.{
  ℕ, ◌+◌, Bool, ◌&&◌, Option, none, some, List, [], ◌∷◌, ◌++◌, map, String, if◌then◌else◌,
}
use valuemaxx.Base.Int.{ℤ}
use valuemaxx.Base.Result.{Result, ok, err, value_error, ◌>>=◌}
use valuemaxx.Decimal.{Decimal, sum}
use valuemaxx.Core.Enums.{Provenance}
use valuemaxx.Core.Provenance.{ProvenanceLabel, check_reconciliation_link}
use valuemaxx.Reconciliation.Proration.{prorate, proration_factor}
use valuemaxx.Reconciliation.Drift.{MatchKey, DriftAlert, classify_drift, drift_pct}

pub record ReconciliationRecord : Type 0 where
  pub tenant_id : String
  pub id : String
  pub match_key : MatchKey
  pub estimated_total : Decimal
  pub billed_total : Decimal
  pub proration_factor : Decimal
  pub drift_pct : Decimal
  pub drift_cause_ranked : List String
  pub created_at : ℤ

pub record EstimateRow : Type 0 where
  pub request_id : String
  pub match_key : MatchKey
  pub estimated_usd : Decimal

pub record ReconciliationOutcome : Type 0 where
  pub appended : ReconciliationRecord
  pub reconciled_by_request : List (String × Decimal)
  pub provenance : ProvenanceLabel
  pub drift_alert : Option DriftAlert

-- The repository, the clock and the id generator.
pub record Ports : Type 0 where
  pub records : List ReconciliationRecord
  pub calls : ℕ
  pub now : ℕ → ℤ
  pub gen_id : ℕ → String

abbrev pub estimates_of : List EstimateRow → List Decimal
estimates_of = map (λ row. row.estimated_usd)

-- `d[key] = value`
unfoldable pub put : String → Decimal → List (String × Decimal) → List (String × Decimal)
put key value [] = (key, value) ∷ []
put key value ((k, v) ∷ rest) =
    let later = put key value rest in if key == k then (k, value) ∷ rest else (k, v) ∷ later

-- The comprehension over the strict `zip`.
unfoldable pub by_request :
    List (String × Decimal) → List EstimateRow → List Decimal → Result (List (String × Decimal))
by_request out [] [] = ok out
by_request out (row ∷ rows) (share ∷ shares) = by_request (put row.request_id share out) rows shares
by_request out (row ∷ rows) [] = err value_error
by_request out [] (share ∷ shares) = err value_error

-- What is computed before anything is appended.
pub record Figures : Type 0 where
  pub shares_by_request : List (String × Decimal)
  pub factor : Decimal
  pub alert : Option DriftAlert
  pub signed_drift : Decimal

unfoldable pub figures : MatchKey → List EstimateRow → Decimal → Result Figures
figures match_key rows billed = do
  shares ← prorate (estimates_of rows) billed
  shares_by_request ← by_request [] rows shares
  factor ← proration_factor (estimates_of rows) billed
  alert ← classify_drift match_key (sum (estimates_of rows)) billed
  signed_drift ← drift_pct (sum (estimates_of rows)) billed
  ok (record {
    shares_by_request = shares_by_request;
    factor = factor;
    alert = alert;
    signed_drift = signed_drift;
  })

abbrev pub causes_of : Option DriftAlert → List String
causes_of none = []
causes_of (some alert) = alert.ranked_causes

abbrev pub record_of :
    String → MatchKey → List EstimateRow → Decimal → Figures → Ports → ReconciliationRecord
record_of tenant_id match_key rows billed f ports = record {
  tenant_id = tenant_id;
  id = ports.gen_id ports.calls;
  match_key = match_key;
  estimated_total = sum (estimates_of rows);
  billed_total = billed;
  proration_factor = f.factor;
  drift_pct = f.signed_drift;
  drift_cause_ranked = causes_of f.alert;
  created_at = ports.now ports.calls;
}

-- `repo.append(tenant_id, record)`, after one call of each generator.
unfoldable pub append_record : ReconciliationRecord → Ports → Ports
append_record r ports = record ports { records = ports.records ++ r ∷ []; calls = ports.calls + 1 }

abbrev pub label_of : ReconciliationRecord → ProvenanceLabel
label_of r = record {
  provenance = Provenance.provider_reconciled;
  reconciliation_record_id = some r.id;
  note = none;
}

-- The steps from the appending on.
unfoldable pub append_outcome :
    String
    → MatchKey
    → List EstimateRow
    → Decimal
    → Result Figures
    → Ports
    → Ports × Result ReconciliationOutcome
append_outcome tenant_id match_key rows billed (err e) ports = (ports, err e)
append_outcome tenant_id match_key rows billed (ok f) ports =
    let r = record_of tenant_id match_key rows billed f ports in
    (
      append_record r ports,
      do
        label ← check_reconciliation_link (label_of r)
        ok (record {
          appended = r;
          reconciled_by_request = f.shares_by_request;
          provenance = label;
          drift_alert = f.alert;
        }),
    )

unfoldable pub reconcile_match_key :
    String → MatchKey → List EstimateRow → Decimal → Ports → Ports × Result ReconciliationOutcome
reconcile_match_key tenant_id match_key rows billed ports =
    append_outcome tenant_id match_key rows billed (figures match_key rows billed) ports

unfoldable pub same_match_key : MatchKey → MatchKey → Bool
same_match_key (a, b, c, d, e) (a', b', c', d', e') =
    (a == a') && (b == b') && (c == c') && (d == d') && (e == e')

abbrev pub Grouped : Type 0
Grouped = List (MatchKey × List EstimateRow)

-- `grouped.setdefault(row.match_key, []).append(row)`
unfoldable pub group_row : EstimateRow → Grouped → Grouped
group_row row [] = (row.match_key, row ∷ []) ∷ []
group_row row ((k, rows) ∷ grouped) =
    let later = group_row row grouped in
    if same_match_key row.match_key k then (k, rows ++ row ∷ []) ∷ grouped else (k, rows) ∷ later

unfoldable pub group_rows : Grouped → List EstimateRow → Grouped
group_rows grouped [] = grouped
group_rows grouped (row ∷ rows) = group_rows (group_row row grouped) rows

-- `billed_totals.get(match_key)`
unfoldable pub billed_for : MatchKey → List (MatchKey × Decimal) → Option Decimal
billed_for key [] = none
billed_for key ((k, total) ∷ rest) =
    let later = billed_for key rest in if same_match_key key k then some total else later

abbrev pub add_outcome :
    List ReconciliationOutcome
    → Ports × Result ReconciliationOutcome
    → (List ReconciliationOutcome → Ports → Ports × Result (List ReconciliationOutcome))
    → Ports × Result (List ReconciliationOutcome)
add_outcome outcomes (ports, err e) rest = (ports, err e)
add_outcome outcomes (ports, ok outcome) rest = rest (outcomes ++ outcome ∷ []) ports

-- The loop over the groups. A group without a billed total is skipped; what was appended before an
-- exception stays appended.
unfoldable pub reconcile_groups :
    String
    → List (MatchKey × Decimal)
    → Grouped
    → List ReconciliationOutcome
    → Ports
    → Ports × Result (List ReconciliationOutcome)
reconcile_groups tenant_id totals [] outcomes ports = (ports, ok outcomes)
reconcile_groups tenant_id totals ((key, rows) ∷ grouped) outcomes ports =
    elim (billed_for key totals) [
      | none ↦ reconcile_groups tenant_id totals grouped outcomes ports
      | some billed ↦
          add_outcome outcomes (reconcile_match_key tenant_id key rows billed ports)
            (reconcile_groups tenant_id totals grouped)
    ]

unfoldable pub reconcile_day :
    String
    → List EstimateRow
    → List (MatchKey × Decimal)
    → Ports
    → Ports × Result (List ReconciliationOutcome)
reconcile_day tenant_id rows totals ports =
    reconcile_groups tenant_id totals (group_rows [] rows) [] ports
