-- ===== src/Summary/Examples.antt =====
-- Two diagnoses: one whose preflight failed while the request went through, and one that was
-- cancelled.
use orynelo.Prelude.{ℕ, String, ◌≡◌, refl, List, [], ◌∷◌, none, any, ◌==◌}
use orynelo.Model.{Status, passed, failed, cancelled, CheckResult, Evidence, status_equality}
use orynelo.Summary.{collect_facts, build, build_candidates}
use orynelo.Summary.Sound.{is_cancelled}
use orynelo.Summary.Blocked.{is_blocked}
use orynelo.Summary.Choice.{ConcludesFrom, build-ConcludesFrom}
use orynelo.Summary.Status.{build-failed, build-cancelled}
use orynelo.Summary.References.{AreReferences, build-references}

abbrev text : ℕ → String
text n = "5s"

abbrev evidence : String → String → Evidence
evidence id code = record {
  id = id;
  check_id = "";
  network_ref = none;
  code = code;
  message = "";
  details = [];
}

abbrev result : String → Status → List Evidence → CheckResult
result id status evidence = record {
  id = id;
  name = id;
  status = status;
  role = "";
  network_refs = [];
  started_at = 1;
  finished_at = 2;
  duration = 1;
  summary = "";
  evidence = evidence;
  recommendations = [];
  error_code = "";
}

abbrev reached : List CheckResult
reached =
    result "target" passed []
    ∷ result "tcp" failed (evidence "tcp.1" "TCP_ATTEMPT" ∷ evidence "tcp.1" "TCP_ATTEMPT" ∷ [])
    ∷ result "http" passed (evidence "http.response" "HTTP_RESPONSE" ∷ [])
    ∷ []

abbrev unreached : List CheckResult
unreached = result "target" passed [] ∷ result "tcp" failed [] ∷ result "http" failed [] ∷ []

abbrev broken_off : List CheckResult
broken_off = result "target" passed [] ∷ result "dns" cancelled [] ∷ []

-- The failed preflight is a warning about a discrepancy, and the summary names its evidence.
reached_title : (build text reached).title ≡ "HTTP request succeeded despite preflight failure"
unfolding build
reached_title = refl

reached_refs : (build text reached).evidence_refs ≡ "http.response" ∷ "tcp.1" ∷ []
unfolding build
reached_refs = refl

unreached_title : (build text unreached).title ≡ "TCP connection failed"
unfolding build
unreached_title = refl

build-ConcludesFrom_example :
    ConcludesFrom (build text reached) (build_candidates text (collect_facts reached))
build-ConcludesFrom_example = build-ConcludesFrom text reached

build-failed_example :
    ((build text unreached).status == failed) ≡ is_blocked (collect_facts unreached)
build-failed_example = build-failed text unreached

build-cancelled_example :
    ((build text broken_off).status == cancelled) ≡ any is_cancelled broken_off
unfolding collect_facts
build-cancelled_example = build-cancelled text broken_off refl

build-references_example : AreReferences reached (build text reached).evidence_refs
build-references_example = build-references text reached
