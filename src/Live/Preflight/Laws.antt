-- ===== src/Live/Preflight/Laws.antt =====
-- A preflight that passes: an independent list of what it asks for, and that it asks for no less
-- and no more.
use one_year_billion.Common.{
  Bool, true, false, not, ◌&&◌, ◌||◌, ◌≡◌, refl, arith, inl, inr, Bool-cases, Option, none, some,
  List, String, put, is_empty, is_empty-snoc, is_empty-both, Result,
}
use one_year_billion.Common.Int.{ℤ}
use one_year_billion.Common.Json.{Json}
use one_year_billion.Config.Settings.{Settings}
use one_year_billion.Execution.Bybit.Error.{Failure}
use one_year_billion.Live.Report.{Report, check_of, all_hold, safe_repository_call}
use one_year_billion.Live.Report.Laws.{all_hold-put, is_set-put, is_set-put_same}
use one_year_billion.Live.ExchangeChecks.Laws.{quiet, quiet-add_reason_if}
use one_year_billion.Live.Preflight.{
  Evidence, Repository, answered, unresolved, check_open_incidents, check_unresolved_incidents,
  record_evidence, ask_evidence, check_evidence,
}

abbrev pub empty_answer : Result Failure (List Json) → Bool
empty_answer (Result.ok open_high) = is_empty open_high
empty_answer (Result.raised _) = false

-- No critical or high incident is open, as far as the settings ask for it.
abbrev pub no_incidents : Settings → Option Repository → Bool
no_incidents settings none = not settings.require_db_for_live
no_incidents settings (some repository) = empty_answer repository.unresolved_critical_high

abbrev pub good_answer : Result Failure Evidence → Bool
good_answer (Result.ok e) = e.evidence_ok
good_answer (Result.raised _) = false

-- The repository has the evidence for the decision to go live.
abbrev pub evidence_found : ℤ → String → Option (ℤ → String → Result Failure Evidence) → Bool
evidence_found days config_hash none = false
evidence_found days config_hash (some status) = good_answer (status days config_hash)

abbrev pub evidence_in : ℤ → String → Option Repository → Bool
evidence_in days config_hash none = false
evidence_in days config_hash (some repository) =
    evidence_found days config_hash repository.live_evidence_status

abbrev pub evidence_given : Settings → String → Option Repository → Bool
evidence_given settings config_hash repository =
    not settings.require_go_nogo_for_live
    || evidence_in settings.min_paper_days_required config_hash repository

-- An answer has reasons just where it is not in order.
abbrev pub IsCoherent : Option (ℤ → String → Result Failure Evidence) → Type 0
IsCoherent none = Unit {0}
IsCoherent (some status) =
    (days : ℤ) (config_hash : String) (e : Evidence)
    → status days config_hash ≡ Result.ok e
    → e.evidence_ok ≡ is_empty e.evidence_reasons

abbrev pub IsCoherentIn : Option Repository → Type 0
IsCoherentIn none = Unit {0}
IsCoherentIn (some repository) = IsCoherent repository.live_evidence_status

module _ (str_of : Json → String) where
  quiet-incidents_of :
      (m : Result Failure (List Json)) (r : Report)
      → (let p =
            safe_repository_call str_of "unresolved_critical_high"
              "incidents_table_missing_or_migrations_not_applied"
              (answered m)
              none
              r in
          quiet (check_open_incidents str_of p.0 p.1))
        ≡ (empty_answer m && quiet r)
  unfolding check_open_incidents safe_repository_call
  quiet-incidents_of (Result.ok open_high) r = grind (arith, quiet-add_reason_if)
  quiet-incidents_of (Result.raised e) r = is_empty-snoc r.reasons _

  pub quiet-check_unresolved_incidents :
      (settings : Settings) (repository : Option Repository) (r : Report)
      → quiet (check_unresolved_incidents str_of settings repository r)
        ≡ (no_incidents settings repository && quiet r)
  unfolding check_unresolved_incidents
  quiet-check_unresolved_incidents settings none r = grind (arith, quiet-add_reason_if)
  quiet-check_unresolved_incidents settings (some repository) r =
      quiet-incidents_of repository.unresolved_critical_high r

  checks-incidents_of :
      (m : Result Failure (List Json)) (r : Report)
      → empty_answer m ≡ true
      → (let p =
            safe_repository_call str_of "unresolved_critical_high"
              "incidents_table_missing_or_migrations_not_applied"
              (answered m)
              none
              r in
          (check_open_incidents str_of p.0 p.1).checks)
        ≡ put unresolved true r.checks
  unfolding check_open_incidents safe_repository_call
  checks-incidents_of (Result.ok open_high) r h = rw h refl
  checks-incidents_of (Result.raised e) r h = cc

  pub checks-check_unresolved_incidents :
      (settings : Settings) (repository : Option Repository) (r : Report)
      → no_incidents settings repository ≡ true
      → (check_unresolved_incidents str_of settings repository r).checks
        ≡ put unresolved true r.checks
  unfolding check_unresolved_incidents
  checks-check_unresolved_incidents settings none r h = ground arith
  checks-check_unresolved_incidents settings (some repository) r h =
      checks-incidents_of repository.unresolved_critical_high r h

  -- the repository's answer on the evidence, asked for and recorded
  abbrev pub evidence_of : Result Failure Evidence → Report → Report
  evidence_of m r =
      let p =
        safe_repository_call str_of "go_no_go_evidence"
          "go_no_go_tables_missing_or_migrations_not_applied" (answered m) none r in
      record_evidence str_of p.0 p.1

  quiet-evidence_of :
      (m : Result Failure Evidence) (r : Report)
      → ((e : Evidence) → m ≡ Result.ok e → e.evidence_ok ≡ is_empty e.evidence_reasons)
      → quiet (evidence_of m r) ≡ (good_answer m && quiet r)
  unfolding record_evidence safe_repository_call
  quiet-evidence_of (Result.ok e) r coherent =
      ground (arith, is_empty-both r.reasons e.evidence_reasons, coherent e refl)
  quiet-evidence_of (Result.raised e) r coherent =
      ground (arith, is_empty-snoc r.reasons "go_no_go_tables_missing_or_migrations_not_applied")

  checks-evidence_of :
      (m : Result Failure Evidence) (r : Report)
      → good_answer m ≡ true
      → (evidence_of m r).checks ≡ put "go_no_go_evidence_verified" true r.checks
  unfolding record_evidence safe_repository_call
  checks-evidence_of (Result.ok e) r h = rw h refl
  checks-evidence_of (Result.raised e) r h = cc

  quiet-ask_repository :
      (repository : Repository) (days : ℤ) (config_hash : String) (r : Report)
      (status : Option (ℤ → String → Result Failure Evidence))
      → repository.live_evidence_status ≡ status
      → IsCoherent status
      → quiet (ask_evidence str_of days config_hash (some repository) r)
        ≡ (evidence_found days config_hash status && quiet r)
  unfolding ask_evidence
  quiet-ask_repository repository days config_hash r none e _ = rw e (is_empty-snoc r.reasons _)
  quiet-ask_repository repository days config_hash r (some status) e coherent =
      rw e (quiet-evidence_of (status days config_hash) r (coherent days config_hash))

  checks-ask_repository :
      (repository : Repository) (days : ℤ) (config_hash : String) (r : Report)
      (status : Option (ℤ → String → Result Failure Evidence))
      → repository.live_evidence_status ≡ status
      → evidence_found days config_hash status ≡ true
      → (ask_evidence str_of days config_hash (some repository) r).checks
        ≡ put "go_no_go_evidence_verified" true r.checks
  unfolding ask_evidence
  checks-ask_repository repository days config_hash r none e h = cc
  checks-ask_repository repository days config_hash r (some status) e h =
      rw e (checks-evidence_of (status days config_hash) r h)

  quiet-ask_evidence :
      (days : ℤ) (config_hash : String) (repository : Option Repository) (r : Report)
      → IsCoherentIn repository
      → quiet (ask_evidence str_of days config_hash repository r)
        ≡ (evidence_in days config_hash repository && quiet r)
  unfolding ask_evidence
  quiet-ask_evidence days config_hash none r _ = is_empty-snoc r.reasons _
  quiet-ask_evidence days config_hash (some repository) r coherent =
      quiet-ask_repository repository days config_hash r repository.live_evidence_status refl
        coherent

  checks-ask_evidence :
      (days : ℤ) (config_hash : String) (repository : Option Repository) (r : Report)
      → evidence_in days config_hash repository ≡ true
      → (ask_evidence str_of days config_hash repository r).checks
        ≡ put "go_no_go_evidence_verified" true r.checks
  checks-ask_evidence days config_hash none r h = cc
  checks-ask_evidence days config_hash (some repository) r h =
      checks-ask_repository repository days config_hash r repository.live_evidence_status refl h

  pub quiet-check_evidence :
      (settings : Settings) (config_hash : String) (repository : Option Repository) (r : Report)
      → IsCoherentIn repository
      → quiet (check_evidence str_of settings config_hash repository r)
        ≡ (evidence_given settings config_hash repository && quiet r)
  unfolding check_evidence
  quiet-check_evidence settings config_hash repository r coherent =
      ground (
        arith,
        quiet-ask_evidence settings.min_paper_days_required config_hash repository r coherent,
      )

  -- Where the evidence is given and the environment approves, the checks go on to hold.
  pub all_hold-check_evidence :
      (settings : Settings) (config_hash : String) (repository : Option Repository) (r : Report)
      → evidence_given settings config_hash repository ≡ true
      → check_of "go_no_go_env_approved" r ≡ true
      → all_hold r.checks ≡ true
      → all_hold (check_evidence str_of settings config_hash repository r).checks ≡ true
  unfolding check_evidence
  all_hold-check_evidence settings config_hash repository r given approved h =
      let verified = all_hold-put "go_no_go_evidence_verified" r.checks h in
      elim (Bool-cases settings.require_go_nogo_for_live) [
        | inl e ↦
            let asked =
              checks-ask_evidence settings.min_paper_days_required config_hash repository r
                (ground arith) in
            let kept =
              is_set-put "go_no_go_evidence_verified" "go_no_go_env_approved" r.checks approved in
            let written = is_set-put_same "go_no_go_evidence_verified" r.checks in
            rw (e, asked, kept, written) (all_hold-put "go_no_go_approved" _ verified)
        | inr e ↦ rw e (all_hold-put "go_no_go_approved" _ verified)
      ]
