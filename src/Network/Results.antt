-- ===== src/Network/Results.antt =====
-- The references of the results after `correlatedNetworkResult`.
use orynelo.Prelude.{
  ℕ, suc, ◌≡◌, ◌≢◌, refl, String, List, [], ◌∷◌, map, true, false, arith, name_equality, str_iff,
  if_cases, any, Option, none, some, Text, All, All-map, All-imp, All-tabulate,
}
use orynelo.Model.{NetworkRef, CheckResult, Evidence, Status, is_terminal}
use orynelo.Network.Graph.{Observed, NetworkPath}
use orynelo.Network.Attempts.{same_ref}
use orynelo.Network.Correlate.{
  correlate_result, correlated_paths, correlated_network_result, result_refs, given_refs,
  unique_refs, unique_from, or_one, fill_evidence, fill_with, is_empty_ref,
}

-- No reference stands twice.
abbrev pub AreDifferent : List NetworkRef → Type 0
AreDifferent [] = Unit
AreDifferent (r ∷ rs) = (any (λ s. same_ref s r) rs ≡ false) × AreDifferent rs

abbrev pub IsReferring : CheckResult → Type 0
IsReferring r =
    (r.network_refs ≢ [])
    × AreDifferent r.network_refs
    × All (λ (e : Evidence). (ref : NetworkRef) × (e.network_ref ≡ some ref)) r.evidence

abbrev Unseen : List NetworkRef → List NetworkRef → Type 0
Unseen seen rs = All (λ r. any (λ s. same_ref s r) seen ≡ false) rs

not_again :
    (r : NetworkRef) (seen rs : List NetworkRef)
    → Unseen (r ∷ seen) rs
    → any (λ s. same_ref s r) rs ≡ false
not_again r seen [] h = refl
not_again r seen (x ∷ xs) h =
    let rest = not_again r seen xs h.1 in
    let here = h.0 in
    ground (
      arith,
      str_iff r.path_id x.path_id,
      str_iff x.path_id r.path_id,
      str_iff r.hop_id x.hop_id,
      str_iff x.hop_id r.hop_id,
      str_iff r.attempt_id x.attempt_id,
      str_iff x.attempt_id r.attempt_id,
    )

unique_from-AreDifferent :
    (seen rs : List NetworkRef)
    → AreDifferent (unique_from seen rs) × Unseen seen (unique_from seen rs)
unique_from-AreDifferent seen [] = (tt, tt)
unique_from-AreDifferent seen (r ∷ rs) =
    let without = unique_from-AreDifferent seen rs in
    let with_it = unique_from-AreDifferent (r ∷ seen) rs in
    if_cases (λ xs. AreDifferent xs × Unseen seen xs) (is_empty_ref r) (λ _. without)
      (λ _.
        if_cases (λ xs. AreDifferent xs × Unseen seen xs) (any (λ s. same_ref s r) seen)
          (λ _. without)
          (λ new. (
            (not_again r seen (unique_from (r ∷ seen) rs) with_it.1, with_it.0),
            (new, All-imp (λ x h. ground (arith, h)) (unique_from (r ∷ seen) rs) with_it.1),
          )))

or_one-AreDifferent :
    (rs : List NetworkRef) (r : NetworkRef) → AreDifferent rs → AreDifferent (or_one rs r)
or_one-AreDifferent [] r h = (refl, tt)
or_one-AreDifferent (x ∷ xs) r h = h

or_one-some : (rs : List NetworkRef) (r : NetworkRef) → or_one rs r ≢ []
or_one-some [] r h = cc
or_one-some (x ∷ xs) r h = cc

fill_with-refers :
    (own : Option NetworkRef) (ref : NetworkRef) (e : Evidence)
    → e.network_ref ≡ own
    → (r : NetworkRef) × ((fill_with own ref e).network_ref ≡ some r)
fill_with-refers none ref e h = (ref, refl)
fill_with-refers (some own) ref e h = (own, h)

fill_evidence-refers :
    (refs : List NetworkRef) (default : NetworkRef) (index : ℕ) (es : List Evidence)
    → All
        (λ (e : Evidence). (ref : NetworkRef) × (e.network_ref ≡ some ref))
        (fill_evidence refs default index es)
fill_evidence-refers refs default index [] = tt
fill_evidence-refers refs default index (e ∷ es) =
    (fill_with-refers e.network_ref _ e refl, fill_evidence-refers refs default (suc index) es)

correlate_result-IsReferring :
    (observed : Observed) (paths : List NetworkPath) (r : CheckResult)
    → IsReferring (correlate_result observed paths r)
unfolding correlate_result unique_refs
correlate_result-IsReferring observed paths r = (
  or_one-some _ _,
  or_one-AreDifferent _ _ (unique_from-AreDifferent [] (given_refs observed paths r)).0,
  fill_evidence-refers (result_refs observed paths r) _ 0 r.evidence,
)

-- What a conclusion is drawn from stays: names, roles, statuses and error codes, in order.
abbrev pub Outline : Type 0
Outline = String × String × Status × String

abbrev pub outline : CheckResult → Outline
outline r = (r.id, r.role, r.status, r.error_code)

correlate_result-outline :
    (observed : Observed) (paths : List NetworkPath) (rs : List CheckResult)
    → map outline (map (correlate_result observed paths) rs) ≡ map outline rs
unfolding correlate_result
correlate_result-outline observed paths [] = refl
correlate_result-outline observed paths (r ∷ rs) = rw (correlate_result-outline observed paths rs)

-- Each result of a diagnosis, after the correlation, has references, and none of them twice, and each
-- piece of its evidence has one; names, roles, statuses and error codes are as the checks gave them.
pub correlated_network_result-IsReferring :
    (ip_string : Text → String) (observed : Observed) (checks : List CheckResult)
    → let results = (correlated_network_result ip_string observed checks).1 in
      All IsReferring results × (map outline results ≡ map outline checks)
unfolding correlated_network_result
correlated_network_result-IsReferring ip_string observed checks =
    let paths = correlated_paths ip_string observed in
    (
      All-map IsReferring (correlate_result observed paths) checks
          (All-tabulate _ checks (λ r m. correlate_result-IsReferring observed paths r)),
      correlate_result-outline observed paths checks,
    )

pub correlate-IsFinal :
    (ip_string : Text → String) (observed : Observed) (checks : List CheckResult)
    → All (λ r. is_terminal r.status ≡ true) checks
    → All (λ r. is_terminal r.status ≡ true) (correlated_network_result ip_string observed checks).1
unfolding correlated_network_result correlate_result
correlate-IsFinal ip_string observed checks h =
    All-map (λ r. is_terminal r.status ≡ true)
      (correlate_result observed (correlated_paths ip_string observed)) checks h
