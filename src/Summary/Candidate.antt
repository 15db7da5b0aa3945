-- ===== src/Summary/Candidate.antt =====
-- `conclusionCandidate`, and what the candidates of one layer have in common.
use Prim.Native.String.{◌++◌ as str_append}
use orynelo.Prelude.{ℕ, String, List}
use orynelo.Model.{Status, failed, CheckResult}

-- `conclusionSeverity`, in rising order
pub data Severity : Type 0 where
  informational degraded interrupted severe : Severity

unfoldable pub rank : Severity → ℕ
rank informational = 0
rank degraded = 1
rank interrupted = 2
rank severe = 3

pub record Candidate : Type 0 where
  pub severity : Severity
  pub priority : ℕ
  pub status : Status
  pub title : String
  pub description : String
  pub results : List CheckResult
  pub recommendation : String

-- The texts of a candidate.
pub record Texts : Type 0 where
  pub title : String
  pub description : String
  pub recommendation : String

unfoldable pub candidate : Severity → ℕ → Status → Texts → List CheckResult → Candidate
candidate severity priority status texts results = record {
  severity = severity;
  priority = priority;
  status = status;
  title = texts.title;
  description = texts.description;
  results = results;
  recommendation = texts.recommendation;
}

unfoldable pub blocker : ℕ → Texts → List CheckResult → Candidate
unfolding candidate
blocker priority texts results = candidate severe priority failed texts results

abbrev pub followed_by : Texts → String → Texts
followed_by texts more = record texts { description = str_append texts.description more }
