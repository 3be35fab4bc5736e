-- ===== src/Classify/Tests.antt =====
-- Runs of src/upgrade_guard/classify.py.
use tensorrt_upgrade_guard.Prelude.{
  String, string_eq, ◌≡◌, ◌↔◌, true, false, none, some, [], ◌∷◌, Occurs,
}
use tensorrt_upgrade_guard.Errors.{FailureCode, ok}
use tensorrt_upgrade_guard.Classify.{
  Signal, CaseSignals, signal_names, Fact, boolean, Facts, find_signal, precedence,
  classify_signals, classify_observed_facts,
}
use tensorrt_upgrade_guard.Classify.Precedence.{FirstBad, classify_signals_iff}
use tensorrt_upgrade_guard.Classify.Facts.{facts_pass_iff}
use tensorrt_upgrade_guard.Classify.Outcomes.{Agrees, status-exit_agree}

-- A case whose engine was not built, and that then could not be executed.
abbrev unbuilt : CaseSignals
unbuilt Signal.built = false
unbuilt Signal.executed = false
unbuilt _ = true

classify_signals_iff_example :
    ((classify_signals unbuilt ≡ some FailureCode.engine_build_failed)
      ↔ FirstBad unbuilt precedence FailureCode.engine_build_failed)
    × ((classify_signals unbuilt ≡ none) ↔ ((t : Signal) → unbuilt t ≡ true))
classify_signals_iff_example = classify_signals_iff unbuilt FailureCode.engine_build_failed

abbrev one_fact : Facts
one_fact = ("built", boolean true) ∷ []

facts_pass_iff_example : (classify_observed_facts one_fact ≡ ok none) ↔ (
    (name : String) (v : Fact)
    → Occurs (name, v) one_fact
    → (v ≡ boolean true) × (t : Signal) × (find_signal name signal_names ≡ some t))
facts_pass_iff_example = facts_pass_iff one_fact (λ h. h, tt)

status-exit_agree_example : Agrees (some FailureCode.corpus_invalid)
status-exit_agree_example = status-exit_agree (some FailureCode.corpus_invalid)
