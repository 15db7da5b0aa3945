-- ===== src/Model/Complete.antt =====
-- What `CheckResult.Complete` promises.
use orynelo.Prelude.{
  ℕ, ◌-◌, ◌≤◌, ◌<◌, min, ◌≡◌, refl, ◌≢◌, String, List, [], ◌∷◌, map, arith, str_iff, name_equality,
}
use orynelo.Model.Records.{
  CheckResult, Evidence, Recommendation, complete, or_zero, or_empty, not_before, since,
  max_duration, own_evidence, own_recommendation,
}

-- Every piece of evidence names a check.
abbrev pub IsOwned : List Evidence → Type 0
IsOwned [] = Unit
IsOwned (e ∷ es) = (e.check_id ≢ "") × IsOwned es

map-own_evidence-IsOwned :
    (id : String) (es : List Evidence) → id ≢ "" → IsOwned (map (own_evidence id) es)
unfolding own_evidence or_empty
map-own_evidence-IsOwned id [] h = tt
map-own_evidence-IsOwned id (e ∷ es) h =
    (ground (arith, str_iff e.check_id ""), map-own_evidence-IsOwned id es h)

own_evidence_idem :
    (id : String) (e : Evidence) → own_evidence id (own_evidence id e) ≡ own_evidence id e
unfolding own_evidence or_empty
own_evidence_idem id e = ground (arith, str_iff e.check_id "", str_iff id "")

own_recommendation_idem :
    (id : String) (r : Recommendation)
    → own_recommendation id (own_recommendation id r) ≡ own_recommendation id r
unfolding own_recommendation or_empty
own_recommendation_idem id r = ground (arith, str_iff r.check_id "", str_iff id "")

map_idem {ℓ} :
    {A : Type ℓ} (f : A → A)
    → ((a : A) → f (f a) ≡ f a)
    → (xs : List A) → map f (map f xs) ≡ map f xs
map_idem f h [] = refl
map_idem f h (x ∷ xs) = cc (h x, map_idem f h xs)

-- The interval of a completed result is well formed: it does not end before it starts, and its
-- duration is the length of the interval, saturated. If the result is named, so is all its evidence.
pub complete-interval :
    (r : CheckResult) (started finished : ℕ)
    → r.id ≢ ""
    → let c = complete r started finished in
      (c.started_at ≤ c.finished_at)
      × (c.duration ≡ min (c.finished_at - c.started_at) max_duration)
      × IsOwned c.evidence
unfolding complete not_before since
complete-interval r started finished h =
    (ground arith, refl, map-own_evidence-IsOwned r.id r.evidence h)

-- Completing a result again, at any later readings of a clock past the zero time, changes nothing.
pub complete_idem :
    (r : CheckResult) (started finished started' finished' : ℕ)
    → 0 < started
    → complete (complete r started finished) started' finished' ≡ complete r started finished
unfolding complete not_before since or_zero
complete_idem r started finished started' finished' h = ground (
  arith,
  map_idem (own_evidence r.id) (own_evidence_idem r.id) r.evidence,
  map_idem (own_recommendation r.id) (own_recommendation_idem r.id) r.recommendations,
)
