-- ===== src/Live/Evidence/Table.antt =====
-- The table `go_no_go_evidence` with the two queries of `live_evidence_status` on it
-- (app/db/repository.py).
use one_year_billion.Common.{
  Bool, ◌&&◌, Option, none, some, List, [], ◌∷◌, String, ◌≟◌, Result, if◌then◌else◌,
}
use one_year_billion.Common.Json.{Json, Fields}
use one_year_billion.Execution.Bybit.Error.{Failure}

-- A record of evidence. `timed` tells whether `started_at` and `ended_at` are given, `days` is the
-- computed column of the first query, and `columns` the stored ones.
pub record EvidenceRecord : Type 0 where
  pub evidence_type : String
  pub status : String
  pub config_hash : String
  pub timed : Bool
  pub days : Json
  pub columns : Fields

-- `evidence_type=... AND status='PASS' AND config_hash=...`
abbrev pub is_passed : String → String → EvidenceRecord → Bool
is_passed evidence_type config_hash r =
    r.evidence_type ≟ evidence_type && r.status ≟ "PASS" && r.config_hash ≟ config_hash

abbrev pub is_paper : String → EvidenceRecord → Bool
is_paper config_hash r = is_passed "PHASE0_PAPER" config_hash r && r.timed

-- `LIMIT 1` of the records in the order of a query
unfoldable pub first_where : (EvidenceRecord → Bool) → List EvidenceRecord → Option EvidenceRecord
first_where p [] = none
first_where p (r ∷ rs) = let later = first_where p rs in if p r then some r else later

abbrev pub row_of : Option EvidenceRecord → Option Fields
row_of none = none
row_of (some r) = some r.columns

abbrev pub paper_of : Option EvidenceRecord → Option Fields
paper_of none = none
paper_of (some r) = some (Fields.field "days" r.days r.columns)

-- the second query; `by_created` is the table, the newest record first
unfoldable pub select_evidence :
    List EvidenceRecord → String → String → Result Failure (Option Fields)
unfolding first_where
select_evidence by_created evidence_type config_hash =
    Result.ok (row_of (first_where (is_passed evidence_type config_hash) by_created))

-- the first query; `by_ended` is the table, the record that ended last first
unfoldable pub select_paper : List EvidenceRecord → String → Result Failure (Option Fields)
unfolding first_where
select_paper by_ended config_hash =
    Result.ok (paper_of (first_where (is_paper config_hash) by_ended))
