-- ===== src/Live/Gate/Laws.antt =====
-- When the gate lets a live submission through, and what it then rests on.
use one_year_billion.Common.{
  ◌⊎◌, Bool, true, false, not, ◌||◌, ◌≡◌, refl, sym, ◌∙◌, arith, inl, inr, Bool-cases, Option, some,
  List, String, Result, is_ok,
}
use one_year_billion.Common.Float.{Float, ◌<?◌, nought}
use one_year_billion.Common.Json.{Json}
use one_year_billion.Config.Settings.{Settings}
use one_year_billion.Config.Runtime.{RuntimeConfig}
use one_year_billion.Execution.Bybit.Error.{Failure}
use one_year_billion.Live.Report.{PreflightResult, result_ok}
use one_year_billion.Live.ExchangeChecks.{Adapter}
use one_year_billion.Live.Preflight.{Evidence, Repository, run_live_preflight}
use one_year_billion.Live.Preflight.Laws.{
  IsCoherentIn, evidence_given, evidence_in, no_incidents, good_answer,
}
use one_year_billion.Live.Preflight.Exact.{live_ready, live_preflight_exact}
use one_year_billion.Live.Preflight.Order.{parts}
use one_year_billion.Live.Preflight.Ready.{live_settings}
use one_year_billion.Live.ExchangeChecks.Required.{exchange_required}
use one_year_billion.Live.Evidence.{live_evidence_status, float_of_int}
use one_year_billion.Live.Evidence.Table.{EvidenceRecord, select_paper, select_evidence}
use one_year_billion.Live.Evidence.Laws.{
  HasPassed, HasPaper, selected-HasPassed, paper_shows, live_evidence_needs_rows,
  live_evidence_coherent,
}
use one_year_billion.Live.Gate.{gate, assert_live_submit_allowed}

is_ok-gate : (p : PreflightResult) → is_ok (gate p) ≡ result_ok p
unfolding gate
is_ok-gate p = elim (Bool-cases (result_ok p)) [ inl e ↦ rw e refl | inr e ↦ rw e refl ]

answered_well :
    (m : Result Failure Evidence)
    → good_answer m ≡ true
    → (e : Evidence) × (m ≡ Result.ok e) × (e.evidence_ok ≡ true)
answered_well (Result.ok e) h = (e, refl, h)
answered_well (Result.raised _) h = cc

needed : (required found : Bool) → (not required || found) ≡ true → required ≡ true → found ≡ true
needed required found h k = ground arith

module _ (str_of : Json → String) {W : Type 0} ⦃f : Float W⦄ (float_of : Json → Option W)
    (dumps : Json → String) (settings : Settings) (runtime : RuntimeConfig W) (db_available : Bool)
    (adapter : Adapter) where
  -- The gate lets a live submission through exactly where the list `live_ready` is fulfilled, for a
  -- repository whose answers on the evidence carry a reason just where they refuse: submission and
  -- trading are enabled and confirmed with a key and a secret, without the overrides of the
  -- demonstration; the database, the approval and the evidence are there as far as they are
  -- required; no incident is open; and, if the preflight is required, the exchange's server answers,
  -- every symbol is listed as a linear instrument in trading with positive steps, minima and
  -- leverage, the key may trade, and the wallet and the positions are known.
  pub live_gate_exact :
      (repository : Option Repository)
      → IsCoherentIn repository
      → is_ok (
          assert_live_submit_allowed str_of float_of dumps settings runtime db_available repository
            adapter)
        ≡ live_ready str_of float_of dumps settings runtime db_available repository adapter
  unfolding assert_live_submit_allowed
  live_gate_exact repository coherent =
      is_ok-gate (
        run_live_preflight str_of float_of dumps settings runtime db_available repository adapter
          "live")
      ∙ live_preflight_exact str_of float_of dumps settings runtime db_available repository adapter
          "live" refl coherent

  module _ (by_ended by_created : List EvidenceRecord)
      (incidents : Result Failure (List Json)) where
    -- the repository over the table of evidence, in the orders of the two queries
    abbrev pub database : Repository
    database = record {
      unresolved_critical_high = incidents;
      live_evidence_status =
          some (live_evidence_status float_of (select_paper by_ended) (select_evidence by_created));
    }

    -- `float(min_paper_days)`
    abbrev pub least_days : W
    least_days =
        float_of_int float_of (select_paper by_ended) (select_evidence by_created)
          settings.min_paper_days_required

    -- With the repository over the table of evidence, and settings that require the decision to go
    -- live, the gate lets a submission through only if the table has, under the configuration that
    -- the program runs with, passed records of the reconciliation, of the security scan, of the
    -- continuous integration and of the decision to go live, and of a period on paper whose days are
    -- not fewer than the settings require, unless they require none.
    pub live_gate_needs_evidence :
        settings.require_go_nogo_for_live ≡ true
        → is_ok (
            assert_live_submit_allowed str_of float_of dumps settings runtime db_available
              (some database)
              adapter)
          ≡ true
        → HasPassed by_created "RECONCILIATION" runtime.config_hash
          × HasPassed by_created "SECURITY" runtime.config_hash
          × HasPassed by_created "CI" runtime.config_hash
          × HasPassed by_created "GO_NO_GO" runtime.config_hash
          × (((nought <? least_days) ≡ false)
              ⊎ HasPaper float_of by_ended runtime.config_hash least_days)
    live_gate_needs_evidence required h =
        let ready =
          sym (
            live_gate_exact (some database) (
              live_evidence_coherent float_of (select_paper by_ended) (select_evidence by_created)))
          ∙ h in
        let (_, _, given, _) =
          parts (live_settings settings db_available) (no_incidents settings (some database))
            (evidence_given settings runtime.config_hash (some database))
            (not settings.require_live_preflight
              || exchange_required str_of float_of dumps adapter runtime.live_universe)
            ready in
        let found =
          needed settings.require_go_nogo_for_live
            (evidence_in settings.min_paper_days_required runtime.config_hash (some database)) given
            required in
        let (e, answer, good) =
          answered_well
            (live_evidence_status float_of (select_paper by_ended) (select_evidence by_created)
              settings.min_paper_days_required runtime.config_hash)
            found in
        let (
          ((_, reconciled), ((_, scanned), ((_, integrated), ((_, decided), _)))),
          paper,
          days,
          read,
          counted,
          enough,
        ) =
          live_evidence_needs_rows float_of (select_paper by_ended) (select_evidence by_created)
            settings.min_paper_days_required runtime.config_hash e answer good in
        (
          selected-HasPassed by_created "RECONCILIATION" runtime.config_hash reconciled,
          selected-HasPassed by_created "SECURITY" runtime.config_hash scanned,
          selected-HasPassed by_created "CI" runtime.config_hash integrated,
          selected-HasPassed by_created "GO_NO_GO" runtime.config_hash decided,
          paper_shows float_of (select_paper by_ended) (select_evidence by_created) by_ended
              runtime.config_hash paper days least_days read counted enough,
        )
