-- ===== src/Summary/Choice.antt =====
-- Which candidate `Build` chooses.
use orynelo.Prelude.{
  ℕ, String, ◌≤◌, ◌<◌, ◌≡◌, ◌⊎◌, inl, inr, refl, sym, List, [], ◌∷◌, true, false, arith,
  number_equality, Memᴰ, head, tail, All, All-imp, All-of, if_cases,
}
use orynelo.Model.{CheckResult, Summary}
use orynelo.Summary.Facts.{collect_facts}
use orynelo.Summary.Candidate.{Candidate, rank}
use orynelo.Summary.Build.{
  outranks, best_of, build_candidates, build, conclude, no_facts, conclusion_from_results,
}

-- The first of the highest candidates of a list.
pub data IsChosen (best : Candidate) : List Candidate → Type 0 where
  first :
      {c : Candidate} {cs : List Candidate}
      → best ≡ c
      → All (λ d. outranks d best ≡ false) cs
      → IsChosen best (c ∷ cs)
  behind :
      {c : Candidate} {cs : List Candidate}
      → outranks best c ≡ true
      → IsChosen best cs
      → IsChosen best (c ∷ cs)

outranks-trans_left :
    (a b c : Candidate) → outranks b a ≡ false → outranks b c ≡ true → outranks a c ≡ true
unfolding outranks
outranks-trans_left a b c h k = ground (arith)

outranks-trans_right :
    (a b c : Candidate) → outranks a b ≡ true → outranks c b ≡ false → outranks a c ≡ true
unfolding outranks
outranks-trans_right a b c h k = ground (arith)

outranks_irrefl : (a : Candidate) → outranks a a ≡ false
unfolding outranks
outranks_irrefl a = ground (arith)

outranks-asym : (a b : Candidate) → outranks a b ≡ true → outranks b a ≡ false
unfolding outranks
outranks-asym a b h = ground (arith)

keep_best :
    {a b c : Candidate} (cs : List Candidate)
    → outranks c b ≡ false
    → IsChosen a (b ∷ cs)
    → IsChosen a (b ∷ c ∷ cs)
keep_best {a} {b} {c} cs h (first e below) = first e (rw (e) h, below)
keep_best {a} {b} {c} cs h (behind above rest) =
    behind above (behind (outranks-trans_right a b c above h) rest)

-- Nothing in the list outranks what is chosen.
chosen-outranks :
    {a : Candidate} (cs : List Candidate) → IsChosen a cs → All (λ d. outranks d a ≡ false) cs
chosen-outranks [] h = elim h [ ]
chosen-outranks {a} (c ∷ cs) (first e below) = (rw (sym e) (outranks_irrefl a), below)
chosen-outranks {a} (c ∷ cs) (behind above rest) =
    (outranks-asym a c above, chosen-outranks cs rest)

pub best_of-IsChosen : (b : Candidate) (cs : List Candidate) → IsChosen (best_of b cs) (b ∷ cs)
unfolding best_of
best_of-IsChosen b [] = first refl tt
best_of-IsChosen b (c ∷ cs) =
    if_cases (λ a. IsChosen (best_of a cs) (b ∷ c ∷ cs)) (outranks c b)
      (λ h.
        let rest = best_of-IsChosen c cs in
        behind (outranks-trans_left (best_of c cs) c b (chosen-outranks (c ∷ cs) rest).0 h) rest)
      (λ h. keep_best cs h (best_of-IsChosen b cs))

pub IsChosen-mem : {a : Candidate} (cs : List Candidate) → IsChosen a cs → Memᴰ a cs
IsChosen-mem [] h = elim h [ ]
IsChosen-mem (c ∷ cs) (first e below) = head e
IsChosen-mem (c ∷ cs) (behind above rest) = tail (IsChosen-mem cs rest)

-- What is chosen is of the highest severity.
pub IsChosen-rank :
    {a : Candidate} (cs : List Candidate) {c : Candidate}
    → IsChosen a cs
    → Memᴰ c cs
    → rank c.severity ≤ rank a.severity
unfolding outranks
IsChosen-rank {a} cs {c} h m =
    let low = All-of (λ d. outranks d a ≡ false) cs (chosen-outranks cs h) m in ground arith

-- Higher in severity, or of the same severity and higher in priority.
abbrev pub IsAbove : Candidate → Candidate → Type 0
IsAbove a b =
    (rank b.severity < rank a.severity)
    ⊎ ((rank b.severity ≡ rank a.severity) × (b.priority < a.priority))

-- The same severity and priority, or above it.
abbrev pub IsAtLeast : Candidate → Candidate → Type 0
IsAtLeast a b = ((rank b.severity ≡ rank a.severity) × (b.priority ≡ a.priority)) ⊎ IsAbove a b

-- The candidate stands in the list, above all before it and at least as high as all behind it.
pub data IsFirstHighest (best : Candidate) : List Candidate → Type 0 where
  here :
      {c : Candidate} {cs : List Candidate}
      → best ≡ c
      → All (IsAtLeast best) cs
      → IsFirstHighest best (c ∷ cs)
  later :
      {c : Candidate} {cs : List Candidate}
      → IsAbove best c
      → IsFirstHighest best cs
      → IsFirstHighest best (c ∷ cs)

outranks-IsAbove : (a b : Candidate) → outranks a b ≡ true → IsAbove a b
unfolding outranks
outranks-IsAbove a b h = ground arith

outranks-IsAtLeast : (a b : Candidate) → outranks b a ≡ false → IsAtLeast a b
unfolding outranks
outranks-IsAtLeast a b h = ground arith

IsChosen-IsFirstHighest :
    {a : Candidate} (cs : List Candidate) → IsChosen a cs → IsFirstHighest a cs
IsChosen-IsFirstHighest [] h = elim h [ ]
IsChosen-IsFirstHighest {a} (c ∷ cs) (first e below) =
    here e (All-imp (λ d. outranks-IsAtLeast a d) cs below)
IsChosen-IsFirstHighest {a} (c ∷ cs) (behind above rest) =
    later (outranks-IsAbove a c above) (IsChosen-IsFirstHighest cs rest)

-- A summary is the conclusion of the chosen candidate, and a fixed one if there are no candidates.
abbrev pub Concludes : Summary → List Candidate → Type 0
Concludes summary cs =
    ((cs ≡ []) × (summary ≡ no_facts))
    ⊎ ((best : Candidate) × IsChosen best cs × (summary ≡ conclusion_from_results best))

conclude-Concludes : (cs : List Candidate) → Concludes (conclude cs) cs
conclude-Concludes [] = inl (refl, refl)
conclude-Concludes (c ∷ cs) = inr (best_of c cs, best_of-IsChosen c cs, refl)

pub build-Concludes :
    (duration_string : ℕ → String) (results : List CheckResult)
    → Concludes
        (build duration_string results)
        (build_candidates duration_string (collect_facts results))
unfolding build
build-Concludes duration_string results =
    conclude-Concludes (build_candidates duration_string (collect_facts results))

-- The same of the first among the highest.
abbrev pub ConcludesFrom : Summary → List Candidate → Type 0
ConcludesFrom summary cs =
    ((cs ≡ []) × (summary ≡ no_facts))
    ⊎ ((best : Candidate) × IsFirstHighest best cs × (summary ≡ conclusion_from_results best))

Concludes-ConcludesFrom :
    (summary : Summary) (cs : List Candidate) → Concludes summary cs → ConcludesFrom summary cs
Concludes-ConcludesFrom summary cs (inl h) = inl h
Concludes-ConcludesFrom summary cs (inr (best, chosen, e)) =
    inr (best, IsChosen-IsFirstHighest cs chosen, e)

-- The summary of a diagnosis is the conclusion of one of its candidates: the first among those of
-- the highest severity and, within that, the highest priority. Only without any candidate it is the
-- fixed one.
pub build-ConcludesFrom :
    (duration_string : ℕ → String) (results : List CheckResult)
    → ConcludesFrom
        (build duration_string results)
        (build_candidates duration_string (collect_facts results))
build-ConcludesFrom duration_string results =
    Concludes-ConcludesFrom _ (build_candidates duration_string (collect_facts results))
      (build-Concludes duration_string results)
