-- ===== src/Live/Evidence.antt =====
-- `live_evidence_status` of app/db/repository.py: the records that a decision to go live needs.
pub mod Table
pub mod Laws
use one_year_billion.Common.{
  ℕ, ◌+◌, ◌&&◌, Bool, true, false, not, Option, none, some, List, [], ◌∷◌, ◌++◌ as append, String,
  lower, is_empty, is_none, Result, ok, raised, ◌>>=◌, if◌then◌else◌,
}
use one_year_billion.Common.Float.{Float, ◌<?◌, nought}
use one_year_billion.Common.Int.{ℤ, pos, negsuc}
use one_year_billion.Common.Json.{Json, Fields, get_json, get_or, put_json, is_null, truthy_json}
use one_year_billion.Execution.Bybit.Error.{Failure}
use one_year_billion.Live.Preflight.{Evidence}

-- the types of evidence with the reason for a missing one, in their order
abbrev pub required_evidence : List (String × String)
required_evidence =
    ("RECONCILIATION", "reconciliation_pass_evidence_missing")
    ∷ ("SECURITY", "security_scan_evidence_missing")
    ∷ ("CI", "ci_pass_evidence_missing")
    ∷ ("GO_NO_GO", "signed_go_no_go_evidence_missing")
    ∷ []

-- `bool(row)`
abbrev pub truthy_row : Option Fields → Bool
truthy_row none = false
truthy_row (some row) = truthy_json (Json.object row)

-- `paper_row config_hash` is the row of the first query, and `evidence_row evidence_type config_hash`
-- that of the second, with the errors of the database. `float_of` is Python's `float` of a value,
-- none where it raises.
module _ {W : Type 0} ⦃f : Float W⦄ (float_of : Json → Option W)
    (paper_row : String → Result Failure (Option Fields))
    (evidence_row : String → String → Result Failure (Option Fields)) where
  -- `float(n)` of an integer
  abbrev pub float_of_int : ℤ → W
  float_of_int (pos n) = f.lit n 0
  float_of_int (negsuc n) = f.neg (f.lit (n + 1) 0)

  unfoldable pub paper_days_of : Option Fields → Result Failure W
  unfolding truthy_json get_or
  paper_days_of none = Result.ok nought
  paper_days_of (some row) =
      if truthy_json (Json.object row) && not (is_null (get_json "days" row))
      then elim (float_of (get_json "days" row)) [
        | none ↦ Result.raised (Failure.other "ValueError" "could not convert to float")
        | some days ↦ Result.ok days
      ]
      else Result.ok nought

  -- what one type of evidence adds to the reasons and the data
  abbrev pub add_row : String × String → Option Fields → List String × Fields → List String × Fields
  add_row (evidence_type, reason) row (reasons, found) = (
    append reasons (if is_none row then reason ∷ [] else []),
    put_json (lower evidence_type) (Json.bool (truthy_row row)) found,
  )

  unfoldable pub check_rows :
      String → List (String × String) → List String × Fields → Result Failure (List String × Fields)
  check_rows config_hash [] found = Result.ok found
  check_rows config_hash ((evidence_type, reason) ∷ required) found = do
    row ← evidence_row evidence_type config_hash
    check_rows config_hash required (add_row (evidence_type, reason) row found)

  -- the reason of a period on paper that is too short
  abbrev pub paper_reasons : W → ℤ → List String
  paper_reasons paper_days min_paper_days =
      if paper_days <? float_of_int min_paper_days
      then "phase0_paper_evidence_missing_or_too_short" ∷ []
      else []

  unfoldable pub live_evidence_status : ℤ → String → Result Failure Evidence
  unfolding paper_days_of check_rows
  live_evidence_status min_paper_days config_hash = do
    paper ← paper_row config_hash
    paper_days ← paper_days_of paper
    found ← check_rows config_hash required_evidence (
      paper_reasons paper_days min_paper_days,
      Fields.field "paper_days" (Json.float (f.to_text paper_days)) Fields.no_fields,
    )
    Result.ok record {
      evidence_ok = is_empty found.0;
      evidence_reasons = found.0;
      evidence_data = found.1;
    }
