-- ===== src/Live/Evidence/Laws.antt =====
-- What an answer in order on the evidence shows of the database.
use one_year_billion.Common.{
  ◌⊎◌, Option-cases, ◌&&◌, ◌≟◌, Bool, arith, Memᴰ, Bool-cases, inl, inr, ≟→≡, and-true, true, false,
  ◌≡◌, refl, sym, ap, Option, none, some, List, [], ◌∷◌, String, All, is_empty, is_empty-append,
  is_none, Result, >>=-eq-ok, ok_injective, not_noted, ◌∙◌,
}
use one_year_billion.Common.Float.{Float, ◌<?◌, nought}
use one_year_billion.Common.Int.{ℤ}
use one_year_billion.Common.Json.{Json, Fields, truthy_json, is_null, get_or}
use one_year_billion.Execution.Bybit.Error.{Failure}
use one_year_billion.Live.Preflight.{Evidence}
use one_year_billion.Live.Evidence.Table.{
  EvidenceRecord, is_passed, is_paper, first_where, row_of, paper_of, select_evidence, select_paper,
}
use one_year_billion.Live.Evidence.{
  required_evidence, check_rows, paper_days_of, float_of_int, live_evidence_status,
}

some_of : (row : Option Fields) → is_none row ≡ false → (r : Fields) × (row ≡ some r)
some_of none h = cc
some_of (some r) h = (r, refl)

module _ {W : Type 0} ⦃f : Float W⦄ (float_of : Json → Option W)
    (paper_row : String → Result Failure (Option Fields))
    (evidence_row : String → String → Result Failure (Option Fields)) where
  -- The database has a passed record of the type under the configuration.
  abbrev pub HasRow : String → String × String → Type 0
  HasRow config_hash required =
      (row : Fields) × (evidence_row required.0 config_hash ≡ Result.ok (some row))

  rows_found :
      (config_hash : String) (required : List (String × String))
      (start found : List String × Fields)
      → check_rows float_of paper_row evidence_row config_hash required start ≡ Result.ok found
      → is_empty found.0 ≡ true
      → (is_empty start.0 ≡ true) × All (HasRow config_hash) required
  unfolding check_rows
  rows_found config_hash [] start found h quiet =
      (ap (λ p. is_empty p.0) (ok_injective h) ∙ quiet, tt)
  rows_found config_hash ((evidence_type, reason) ∷ required) start found h quiet =
      let (row, e, rest) = >>=-eq-ok (evidence_row evidence_type config_hash) _ h in
      let (noted, rows) = rows_found config_hash required _ found rest quiet in
      let (before, none_added) = is_empty-append start.0 _ noted in
      let (r, present) = some_of row (not_noted (is_none row) reason none_added) in
      (before, ((r, e ∙ ap Result.ok present), rows))

  -- Where the repository answers that the evidence for going live is in order, the database has a
  -- passed record of each required type under this configuration (reconciliation, security scan,
  -- continuous integration and the signed decision), and a passed period on paper whose days are
  -- not fewer than required.
  pub live_evidence_needs_rows :
      (min_paper_days : ℤ) (config_hash : String) (e : Evidence)
      → live_evidence_status float_of paper_row evidence_row min_paper_days config_hash
        ≡ Result.ok e
      → e.evidence_ok ≡ true
      → All (HasRow config_hash) required_evidence
        × (paper : Option Fields) × (days : W) × (paper_row config_hash ≡ Result.ok paper)
        × (paper_days_of float_of paper_row evidence_row paper ≡ Result.ok days)
        × ((days <? float_of_int float_of paper_row evidence_row min_paper_days) ≡ false)
  unfolding live_evidence_status
  live_evidence_needs_rows min_paper_days config_hash e h good =
      let (paper, read, later) = >>=-eq-ok (paper_row config_hash) _ h in
      let (days, counted, last) =
        >>=-eq-ok (paper_days_of float_of paper_row evidence_row paper) _ later in
      let (found, checked, answer) =
        >>=-eq-ok (check_rows float_of paper_row evidence_row config_hash required_evidence _) _
          last in
      let quiet : is_empty found.0 ≡ true = ap (λ a. a.evidence_ok) (ok_injective answer) ∙ good in
      let (long_enough, rows) = rows_found config_hash required_evidence _ found checked quiet in
      (rows, paper, days, read, counted, not_noted _ _ long_enough)

  -- The answer has a reason just where it is not in order.
  pub live_evidence_coherent :
      (min_paper_days : ℤ) (config_hash : String) (e : Evidence)
      → live_evidence_status float_of paper_row evidence_row min_paper_days config_hash
        ≡ Result.ok e
      → e.evidence_ok ≡ is_empty e.evidence_reasons
  unfolding live_evidence_status
  live_evidence_coherent min_paper_days config_hash e h =
      let (paper, _, later) = >>=-eq-ok (paper_row config_hash) _ h in
      let (days, _, last) =
        >>=-eq-ok (paper_days_of float_of paper_row evidence_row paper) _ later in
      let (found, _, answer) =
        >>=-eq-ok (check_rows float_of paper_row evidence_row config_hash required_evidence _) _
          last in
      rw (sym (ok_injective answer)) refl

-- The first record that a query finds stands in the table and fulfils its condition.
first_where-holds :
    (p : EvidenceRecord → Bool) (table : List EvidenceRecord) {r : EvidenceRecord}
    → first_where p table ≡ some r
    → Memᴰ r table × (p r ≡ true)
unfolding first_where
first_where-holds p [] h = cc
first_where-holds p (first ∷ rs) {r = r} h = elim (Bool-cases (p first)) [
  | inl e ↦ let same : first ≡ r = ground (arith, e) in (Memᴰ.head (sym same), rw⁻¹ same e)
  | inr e ↦
      let (there, holds) = first_where-holds p rs (ground (arith, e)) in (Memᴰ.tail there, holds)
]

-- The table has a record of the type that is passed under the configuration.
pub record HasPassed (table : List EvidenceRecord) (evidence_type config_hash : String)
    : Type 0 where
  pub found : EvidenceRecord
  pub stored : Memᴰ found table
  pub of_type : found.evidence_type ≡ evidence_type
  pub passed : found.status ≡ "PASS"
  pub of_config : found.config_hash ≡ config_hash

abbrev passed_of :
    (table : List EvidenceRecord) (evidence_type config_hash : String) (r : EvidenceRecord)
    → Memᴰ r table
    → is_passed evidence_type config_hash r ≡ true
    → HasPassed table evidence_type config_hash
passed_of table evidence_type config_hash r m h =
    let (both, of_config) =
      and-true (r.evidence_type ≟ evidence_type && r.status ≟ "PASS") (r.config_hash ≟ config_hash)
        h in
    let (of_type, passed) = and-true (r.evidence_type ≟ evidence_type) (r.status ≟ "PASS") both in
    record {
      found = r;
      stored = m;
      of_type = ≟→≡ _ _ of_type;
      passed = ≟→≡ _ _ passed;
      of_config = ≟→≡ _ _ of_config;
    }

record_of :
    (o : Option EvidenceRecord) {row : Fields}
    → row_of o ≡ some row
    → (r : EvidenceRecord) × (o ≡ some r)
record_of none h = cc
record_of (some r) h = (r, refl)

pub selected-HasPassed :
    (table : List EvidenceRecord) (evidence_type config_hash : String) {row : Fields}
    → select_evidence table evidence_type config_hash ≡ Result.ok (some row)
    → HasPassed table evidence_type config_hash
unfolding select_evidence
selected-HasPassed table evidence_type config_hash h =
    let p = is_passed evidence_type config_hash in
    let (r, e) = record_of (first_where p table) (ok_injective h) in
    let (m, holds) = first_where-holds p table e in
    passed_of table evidence_type config_hash r m holds

-- A passed record of a period on paper with its times.
pub record HasPaper {W : Type 0} ⦃f : Float W⦄ (float_of : Json → Option W)
    (table : List EvidenceRecord) (config_hash : String) (least : W) : Type 0 where
  pub period : HasPassed table "PHASE0_PAPER" config_hash
  pub timed : period.found.timed ≡ true
  pub days : W
  pub counted : float_of period.found.days ≡ some days
  pub long_enough : (days <? least) ≡ false

module _ {W : Type 0} ⦃f : Float W⦄ (float_of : Json → Option W)
    (paper_row : String → Result Failure (Option Fields))
    (evidence_row : String → String → Result Failure (Option Fields)) where
  days_counted :
      (r : EvidenceRecord) {days : W}
      → paper_days_of float_of paper_row evidence_row (paper_of (some r)) ≡ Result.ok days
      → (days ≡ nought) ⊎ (float_of r.days ≡ some days)
  unfolding paper_days_of truthy_json get_or
  days_counted r {days} h = elim (Bool-cases (is_null r.days)) [
    | inl e ↦ inl (ground (arith, e, h))
    | inr e ↦ elim (Option-cases (float_of r.days)) [
      | inl none_there ↦ ground (arith, e, none_there, h)
      | inr (d, there) ↦
          let same : d ≡ days = ground (arith, e, there, h) in inr (there ∙ ap some same)
    ]
  ]

  -- Where the days on paper are not fewer than required, a passed period shows it, or no days are
  -- required.
  pub paper_shows :
      (table : List EvidenceRecord) (config_hash : String) (paper : Option Fields) (days least : W)
      → select_paper table config_hash ≡ Result.ok paper
      → paper_days_of float_of paper_row evidence_row paper ≡ Result.ok days
      → (days <? least) ≡ false
      → ((nought <? least) ≡ false) ⊎ HasPaper float_of table config_hash least
  unfolding select_paper paper_days_of
  paper_shows table config_hash paper days least e h enough =
      let read = ok_injective e in
      elim (Option-cases (first_where (is_paper config_hash) table)) [
        | inl absent ↦
            let none_read : none ≡ paper = ap paper_of (sym absent) ∙ read in
            let zero_days : nought ≡ days =
              ok_injective (ap (paper_days_of float_of paper_row evidence_row) none_read ∙ h) in
            inl (rw zero_days enough)
        | inr (r, there) ↦
            let found : paper_of (some r) ≡ paper = ap paper_of (sym there) ∙ read in
            let (m, holds) = first_where-holds (is_paper config_hash) table there in
            let (passed, timed) = and-true (is_passed "PHASE0_PAPER" config_hash r) r.timed holds in
            elim (days_counted r (ap (paper_days_of float_of paper_row evidence_row) found ∙ h)) [
              | inl zero_days ↦ inl (rw⁻¹ zero_days enough)
              | inr counted ↦ inr record {
                period = passed_of table "PHASE0_PAPER" config_hash r m passed;
                timed = timed;
                days = days;
                counted = counted;
                long_enough = enough;
              }
            ]
      ]
