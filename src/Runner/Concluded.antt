-- ===== src/Runner/Concluded.antt =====
-- The end of `Diagnose`: the results of the engines are put into the graph, and then summarised.
use orynelo.Prelude.{ℕ, String, ◌≡◌, true, Text}
use orynelo.Model.{is_terminal, Summary}
use orynelo.Engine.{Plan}
use orynelo.Network.{Observed, correlated_network_result}
use orynelo.Network.Results.{correlate-IsFinal}
use orynelo.Runner.Diagnose.{Setup, Worlds, run_plan}
use orynelo.Runner.Finished.{run_plan-IsFinished}
use orynelo.Summary.{build}
use orynelo.Summary.Status.{build-is_terminal}

-- What the code formats on its way: `time.Duration.String` and `net.IP.String`.
module _ (duration_string : ℕ → String) (ip_string : Text → String) where
  unfoldable pub conclude_run : Setup → Worlds → Observed → Plan → Summary
  conclude_run setup worlds observed plan =
      build duration_string
        (correlated_network_result ip_string observed (run_plan setup worlds plan).0).1

  -- The summary of a diagnosis has a final status, whatever the checks do and observe and whatever
  -- happens to the contexts.
  pub conclude_run-is_terminal :
      (setup : Setup) (worlds : Worlds) (observed : Observed) (plan : Plan)
      → is_terminal (conclude_run setup worlds observed plan).status ≡ true
  unfolding conclude_run
  conclude_run-is_terminal setup worlds observed plan =
      build-is_terminal duration_string
        (correlated_network_result ip_string observed (run_plan setup worlds plan).0).1
        (correlate-IsFinal ip_string observed (run_plan setup worlds plan).0
          (run_plan-IsFinished setup worlds plan))
