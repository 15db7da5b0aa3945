-- ===== src/Summary/References.antt =====
-- What a summary refers to.
use orynelo.Prelude.{
  ℕ, String, ◌≡◌, refl, ◌⊎◌, inl, inr, List, [], ◌∷◌, ◌++◌, false, ◌==◌, arith, name_equality,
  str_iff, if_cases, contains, contains-append, IsDistinct, All, All-append, All-imp, All-of, Memᴰ,
  head, tail,
}
use orynelo.Model.{CheckResult, Evidence, Summary}
use orynelo.Summary.Facts.{collect_facts}
use orynelo.Summary.Candidate.{Candidate}
use orynelo.Summary.Build.{
  new_references, or_own_id, references_from, references_from_results, conclusion_from_results,
  build_candidates, build,
}
use orynelo.Summary.Sound.{IsSound}
use orynelo.Summary.Soundness.{build_candidates-IsSound}
use orynelo.Summary.Choice.{IsChosen-mem, Concludes, build-Concludes}

-- A reference that was not given before.
abbrev IsNew : List String → String → Type 0
IsNew seen ref = (contains seen ref ≡ false) × ((ref == "") ≡ false)

abbrev AreNew : List String → List String → Type 0
AreNew seen refs = All (IsNew seen) refs × IsDistinct refs

absent :
    (id : String) (seen ys : List String)
    → All (λ y. contains (id ∷ seen) y ≡ false) ys
    → contains ys id ≡ false
absent id seen [] h = refl
absent id seen (y ∷ ys) h =
    let rest = absent id seen ys h.1 in let here = h.0 in ground (arith, str_iff y id, str_iff id y)

drop_seen :
    (id : String) (seen refs : List String) → All (IsNew (id ∷ seen)) refs → All (IsNew seen) refs
drop_seen id seen = All-imp (λ x h. (ground (arith, h.0), h.1))

new_references-AreNew :
    (seen : List String) (es : List Evidence) → AreNew seen (new_references seen es)
unfolding new_references
new_references-AreNew seen [] = (tt, tt)
new_references-AreNew seen (e ∷ es) =
    if_cases (AreNew seen) (e.id == "") (λ _. new_references-AreNew seen es)
      (λ named.
        if_cases (AreNew seen) (contains seen e.id) (λ _. new_references-AreNew seen es)
          (λ unseen.
            let refs = new_references (e.id ∷ seen) es in
            let rest = new_references-AreNew (e.id ∷ seen) es in
            (
              ((unseen, named), drop_seen e.id seen refs rest.0),
              (absent e.id seen refs (All-imp (λ x n. n.0) refs rest.0), rest.1),
            )))

or_own_id-AreNew :
    (seen : List String) (id : String) (refs : List String)
    → AreNew seen refs
    → AreNew seen (or_own_id seen id refs)
or_own_id-AreNew seen id [] h =
    if_cases (AreNew seen) (id == "") (λ _. (tt, tt))
      (λ named.
        if_cases (AreNew seen) (contains seen id) (λ _. (tt, tt))
          (λ unseen. (((unseen, named), tt), (refl, tt))))
or_own_id-AreNew seen id (x ∷ xs) h = h

-- New references after those before them.
AreNew-append :
    (seen xs ys : List String) → AreNew seen xs → AreNew (xs ++ seen) ys → AreNew seen (xs ++ ys)
AreNew-append seen xs ys h k = (
  All-append (IsNew seen) xs ys h.0 (All-imp (λ y n. (unseen y n.0, n.1)) ys k.0),
  distinct xs h.1 (All-imp (λ y n. fresh_before y n.0) ys k.0),
)
  where
    unseen : (y : String) → contains (xs ++ seen) y ≡ false → contains seen y ≡ false
    unseen y n = ground (arith, contains-append xs seen y)

    fresh_before : (y : String) → contains (xs ++ seen) y ≡ false → contains xs y ≡ false
    fresh_before y n = ground (arith, contains-append xs seen y)

    distinct :
        (zs : List String)
        → IsDistinct zs
        → All (λ y. contains zs y ≡ false) ys
        → IsDistinct (zs ++ ys)
    distinct [] d a = k.1
    distinct (z ∷ zs) d a =
        let once = absent z zs ys a in
        (
          ground (arith, contains-append zs ys z),
          distinct zs d.1 (All-imp (λ y n. ground (arith, n)) ys a),
        )

references_from-AreNew :
    (seen : List String) (rs : List CheckResult) → AreNew seen (references_from seen rs)
unfolding references_from
references_from-AreNew seen [] = (tt, tt)
references_from-AreNew seen (r ∷ rs) =
    let refs = or_own_id seen r.id (new_references seen r.evidence) in
    AreNew-append seen refs (references_from (refs ++ seen) rs)
      (or_own_id-AreNew seen r.id (new_references seen r.evidence)
        (new_references-AreNew seen r.evidence))
      (references_from-AreNew (refs ++ seen) rs)

-- The result's own name, or that of a piece of its evidence.
abbrev pub Names : CheckResult → String → Type 0
Names r ref = (r.id ≡ ref) ⊎ ((e : Evidence) × Memᴰ e r.evidence × (e.id ≡ ref))

abbrev pub RefersInto : List CheckResult → String → Type 0
RefersInto rs ref = (r : CheckResult) × Memᴰ r rs × Names r ref

new_references-Names :
    (seen : List String) (es : List Evidence)
    → All (λ ref. (e : Evidence) × Memᴰ e es × (e.id ≡ ref)) (new_references seen es)
unfolding new_references
new_references-Names seen [] = tt
new_references-Names seen (e ∷ es) =
    let older = λ (s : List String).
      All-imp {Q = λ ref. (x : Evidence) × Memᴰ x (e ∷ es) × (x.id ≡ ref)}
        (λ ref n. (n.0, tail n.1, n.2)) (new_references s es) (new_references-Names s es) in
    if_cases (All (λ ref. (x : Evidence) × Memᴰ x (e ∷ es) × (x.id ≡ ref))) (e.id == "")
      (λ _. older seen)
      (λ _.
        if_cases (All (λ ref. (x : Evidence) × Memᴰ x (e ∷ es) × (x.id ≡ ref))) (contains seen e.id)
          (λ _. older seen) (λ _. ((e, head refl, refl), older (e.id ∷ seen))))

or_own_id-Names :
    (seen : List String) (r : CheckResult) (refs : List String)
    → All (Names r) refs
    → All (Names r) (or_own_id seen r.id refs)
or_own_id-Names seen r [] h =
    if_cases (All (Names r)) (r.id == "") (λ _. tt)
      (λ _. if_cases (All (Names r)) (contains seen r.id) (λ _. tt) (λ _. (inl refl, tt)))
or_own_id-Names seen r (x ∷ xs) h = h

references_from-RefersInto :
    (seen : List String) (rs : List CheckResult) → All (RefersInto rs) (references_from seen rs)
unfolding references_from
references_from-RefersInto seen [] = tt
references_from-RefersInto seen (r ∷ rs) =
    let own = new_references seen r.evidence in
    let refs = or_own_id seen r.id own in
    All-append (RefersInto (r ∷ rs)) refs (references_from (refs ++ seen) rs)
      (All-imp (λ ref n. (r, head refl, n)) refs
        (or_own_id-Names seen r own
          (All-imp (λ ref n. inr n) own (new_references-Names seen r.evidence))))
      (All-imp (λ ref n. (n.0, tail n.1, n.2)) (references_from (refs ++ seen) rs)
        (references_from-RefersInto (refs ++ seen) rs))

-- A reference to results of a list is one to a list that has these results.
RefersInto-mono :
    (rs : List CheckResult) (xs : List CheckResult)
    → All (λ r. Memᴰ r rs) xs
    → (ref : String) → RefersInto xs ref
    → RefersInto rs ref
RefersInto-mono rs xs h ref n = (n.0, All-of (λ r. Memᴰ r rs) xs h n.1, n.2)

abbrev pub AreReferences : List CheckResult → List String → Type 0
AreReferences rs refs =
    All (RefersInto rs) refs × All (λ ref. (ref == "") ≡ false) refs × IsDistinct refs

references-AreReferences :
    (rs xs : List CheckResult)
    → All (λ r. Memᴰ r rs) xs
    → AreReferences rs (references_from_results xs)
unfolding references_from_results
references-AreReferences rs xs h =
    let refs = references_from [] xs in
    let new = references_from-AreNew [] xs in
    (
      All-imp (RefersInto-mono rs xs h) refs (references_from-RefersInto [] xs),
      All-imp (λ ref n. n.1) refs new.0,
      new.1,
    )

concluded-references :
    (rs : List CheckResult) (cs : List Candidate)
    → All (IsSound rs) cs
    → (s : Summary) → Concludes s cs
    → AreReferences rs s.evidence_refs
unfolding conclusion_from_results
concluded-references rs cs sound s (inl (e, k)) = rw (k) (tt, tt, tt)
concluded-references rs cs sound s (inr (best, chosen, k)) = rw (k) (
    references-AreReferences rs best.results
      (All-of (IsSound rs) cs sound (IsChosen-mem cs chosen)).grounded)

-- The summary refers to results of the diagnosis or to their evidence, by names that are not empty,
-- and to none twice.
pub build-references :
    (duration_string : ℕ → String) (rs : List CheckResult)
    → AreReferences rs (build duration_string rs).evidence_refs
build-references duration_string rs =
    concluded-references rs (build_candidates duration_string (collect_facts rs))
      (build_candidates-IsSound duration_string rs) (build duration_string rs)
      (build-Concludes duration_string rs)
