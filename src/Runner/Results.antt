-- ===== src/Runner/Results.antt =====
-- What the caller's sink gets of the checks of a diagnosis.
use orynelo.Prelude.{ℕ, suc, ◌<◌, ◌≡◌, List, [], ◌∷◌, true, false, name_equality}
use orynelo.Model.{CheckResult, CheckEvent}
use orynelo.Engine.{Plan}
use orynelo.Network.Results.{outline}
use orynelo.Engine.Events.{completions, number}
use orynelo.Runner.Diagnose.{Setup, Worlds, correlated_events, correlated_alone}

module _ (setup : Setup) (worlds : Worlds) (plan : Plan) where
  -- The completions carry results in order, numbered on, each after its correlation with what was
  -- recorded at one of so many events.
  abbrev pub Carries : ℕ → ℕ → List (ℕ × CheckResult) → List CheckResult → Type 0
  Carries count i [] [] = Unit
  Carries count i ((number, carried) ∷ more) (r ∷ rs) =
      (number ≡ i)
      × ((moment : ℕ) × (moment < count)
          × (carried ≡ correlated_alone setup.ip_string (worlds.recorded moment) r)
          × (outline carried ≡ outline r))
      × Carries count (suc i) more rs
  Carries count i _ _ = false ≡ true

  -- What is left of the events, from the one at a position on, carries what is left of the results.
  abbrev CarriesRest : ℕ → ℕ → List CheckEvent → Type 0
  CarriesRest count n es =
      (i : ℕ) (rs : List CheckResult)
      → completions es ≡ number i rs
      → Carries count i (completions (correlated_events setup.ip_string worlds.recorded n es)) rs
