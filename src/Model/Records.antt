-- ===== src/Model/Records.antt =====
-- The records that a check produces, and `CheckResult.Complete` (model.go). A map with text keys is
-- an association list; a nil map and an empty one are the same list.
use orynelo.Prelude.{
  ℕ, ◌-◌, min, String, List, map, Option, ltb, ◌==◌, if◌then◌else◌, number_equality, name_equality,
}
use orynelo.Model.Outcomes.{Status}

pub record NetworkRef : Type 0 where
  pub path_id : String
  pub hop_id : String
  pub attempt_id : String

pub record Evidence : Type 0 where
  pub id : String
  pub check_id : String
  pub network_ref : Option NetworkRef
  pub code : String
  pub message : String
  pub details : List (String × String)

pub record Recommendation : Type 0 where
  pub id : String
  pub check_id : String
  pub priority : String
  pub message : String

pub record CheckResult : Type 0 where
  pub id : String
  pub name : String
  pub status : Status
  pub role : String
  pub network_refs : List NetworkRef
  pub started_at : ℕ
  pub finished_at : ℕ
  pub duration : ℕ
  pub summary : String
  pub evidence : List Evidence
  pub recommendations : List Recommendation
  pub error_code : String

-- `time.Time.Sub` for an instant that is not before the other; it saturates at the largest int64.
abbrev pub max_duration : ℕ
max_duration = 9223372036854775807

unfoldable pub since : ℕ → ℕ → ℕ
since later earlier = min (later - earlier) max_duration

unfoldable pub or_zero : ℕ → ℕ → ℕ
or_zero t default = if t == 0 then default else t

unfoldable pub or_empty : String → String → String
or_empty s default = if s == "" then default else s

unfoldable pub own_evidence : String → Evidence → Evidence
own_evidence id e = record e { check_id = or_empty e.check_id id }

unfoldable pub own_recommendation : String → Recommendation → Recommendation
own_recommendation id r = record r { check_id = or_empty r.check_id id }

-- `if r.FinishedAt.Before(r.StartedAt) { r.FinishedAt = r.StartedAt }`
unfoldable pub not_before : ℕ → ℕ → ℕ
not_before finished started = if ltb finished started then started else finished

unfoldable pub complete : CheckResult → ℕ → ℕ → CheckResult
complete r started finished =
    let s = or_zero r.started_at started in
    let f = not_before (or_zero r.finished_at finished) s in
    record r {
      started_at = s;
      finished_at = f;
      duration = since f s;
      evidence = map (own_evidence r.id) r.evidence;
      recommendations = map (own_recommendation r.id) r.recommendations;
    }

pub record Summary : Type 0 where
  pub status : Status
  pub title : String
  pub description : String
  pub evidence_refs : List String
  pub recommendations : List Recommendation
