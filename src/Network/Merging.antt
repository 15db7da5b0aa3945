-- ===== src/Network/Merging.antt =====
-- What one step of `mergeLegacyAttempts`, and a loop of them, does to a hop.
use orynelo.Prelude.{
  ℕ, suc, ◌≡◌, refl, ap, ◌∙◌, ◌⊎◌, inl, inr, String, List, [], ◌∷◌, ◌++◌, Bool, true, false, ◌||◌,
  ◌==◌, arith, name_equality, str_iff, if_cases, if◌then◌else◌, any, any-append, Memᴰ, head,
  contains,
}
use mathlib.Core.List.Memᴰ.{append_left, append_right}
use orynelo.Network.Described.{noted, Recorded}
use orynelo.Network.Graph.{NetworkAttempt, NetworkHop}
use orynelo.Network.Attempts.{has_attempt, append_attempt, each_from}

-- The attempts of a hop have different names, and the selected one is among them if there is one.
abbrev pub NoTwo : List NetworkAttempt → Type 0
NoTwo [] = Unit
NoTwo (a ∷ xs) = (any (λ b. b.id == a.id) xs ≡ false) × NoTwo xs

pub record IsTidy (hop : NetworkHop) : Type 0 where
  pub distinct : NoTwo hop.attempts
  pub selected : (hop.selected_attempt_id ≡ "") ⊎ (has_attempt hop.selected_attempt_id hop ≡ true)

abbrev pub Keeps : NetworkHop → NetworkHop → Type 0
Keeps hop new = (id : String) → has_attempt id hop ≡ true → has_attempt id new ≡ true

abbrev pub KeepsAll : NetworkHop → NetworkHop → Type 0
KeepsAll hop new = (a : NetworkAttempt) → Memᴰ a hop.attempts → Memᴰ a new.attempts

-- Only names among these are taken.
abbrev pub IsNoted : List String → NetworkHop → Type 0
IsNoted seen hop = (j : String) → contains seen j ≡ false → has_attempt j hop ≡ false

-- What one step does to a hop: of the observation that it is about there is an attempt that
-- describes it, unless its name was taken.
pub record IsStep (Describes : NetworkAttempt → Type 0) (hop : NetworkHop) (id : String)
    (new : NetworkHop) : Type 0 where
  pub tidy : IsTidy hop → IsTidy new
  pub keeps : Keeps hop new
  pub same_id : new.id ≡ hop.id
  pub adds : (id == "") ≡ false → has_attempt id new ≡ true
  pub keeps_all : KeepsAll hop new
  pub only :
      (j : String) → has_attempt j hop ≡ false → (id == j) ≡ false → has_attempt j new ≡ false
  pub describes :
      has_attempt id hop ≡ false
      → (id == "") ≡ false
      → (a : NetworkAttempt) × Memᴰ a new.attempts × Describes a

NoTwo-append :
    (xs : List NetworkAttempt) (a : NetworkAttempt)
    → NoTwo xs
    → any (λ b. b.id == a.id) xs ≡ false
    → NoTwo (xs ++ a ∷ [])
NoTwo-append [] a d h = (refl, tt)
NoTwo-append (b ∷ xs) a d h =
    let rest = any-append (λ c. c.id == b.id) xs (a ∷ []) in
    (ground (arith, str_iff a.id b.id, str_iff b.id a.id), NoTwo-append xs a d.1 (ground arith))

any-kept :
    (p : NetworkAttempt → Bool) (xs : List NetworkAttempt) (a : NetworkAttempt)
    → any p xs ≡ true
    → any p (xs ++ a ∷ []) ≡ true
any-kept p xs a h = any-append p xs (a ∷ []) ∙ ap (λ b. b || any p (a ∷ [])) h

any-added :
    (p : NetworkAttempt → Bool) (xs : List NetworkAttempt) (a : NetworkAttempt)
    → p a ≡ true
    → any p (xs ++ a ∷ []) ≡ true
any-added p xs a h = let both = any-append p xs (a ∷ []) in ground arith

pub same_name : (id : String) → (id == id) ≡ true
same_name id = ground (arith, str_iff id id)

pub append_attempt-IsStep :
    (Describes : NetworkAttempt → Type 0) (a : NetworkAttempt) (hop : NetworkHop)
    → Describes a
    → IsStep Describes hop a.id (append_attempt a hop)
unfolding append_attempt
append_attempt-IsStep Describes a hop d =
    if_cases (IsStep Describes hop a.id) (a.id == "" || has_attempt a.id hop)
      (λ h. record {
        tidy = λ t. t;
        keeps = λ id m. m;
        same_id = refl;
        adds = λ n. ground arith;
        keeps_all = λ b m. m;
        only = λ j fresh other. fresh;
        describes = λ fresh n. absurd (ground arith);
      })
      (λ h. record {
        tidy = λ t. record {
          distinct = NoTwo-append hop.attempts a t.distinct (ground arith);
          selected = chosen t.selected;
        };
        keeps = λ id m. any-kept (λ b. b.id == id) hop.attempts a m;
        same_id = refl;
        adds = λ n. any-added (λ b. b.id == a.id) hop.attempts a (same_name a.id);
        keeps_all = λ b m. append_left (a ∷ []) m;
        only = λ j fresh other.
            let both = any-append (λ b. b.id == j) hop.attempts (a ∷ []) in ground arith;
        describes = λ fresh n. (a, append_right hop.attempts (head refl), d);
      })
  where
    There : String → Type 0
    There id = (id ≡ "") ⊎ (any (λ b. b.id == id) (hop.attempts ++ a ∷ []) ≡ true)

    before :
        (hop.selected_attempt_id ≡ "") ⊎ (has_attempt hop.selected_attempt_id hop ≡ true)
        → There hop.selected_attempt_id
    before (inl e) = inl e
    before (inr m) = inr (any-kept (λ b. b.id == hop.selected_attempt_id) hop.attempts a m)

    chosen :
        (hop.selected_attempt_id ≡ "") ⊎ (has_attempt hop.selected_attempt_id hop ≡ true)
        → There (if a.selected then a.id else hop.selected_attempt_id)
    chosen t =
        if_cases There a.selected
          (λ _. inr (any-added (λ b. b.id == a.id) hop.attempts a (same_name a.id))) (λ _. before t)

-- Every observation from an index on is recorded under the name that it has there.
abbrev pub Covers : {A : Type 0} → (ℕ → A → String) → ℕ → List A → NetworkHop → Type 0
Covers name index [] hop = Unit
Covers name index (x ∷ xs) hop =
    (has_attempt (name index x) hop ≡ true) × Covers name (suc index) xs hop

pub Covers-keeps :
    {A : Type 0} (name : ℕ → A → String) (index : ℕ) (xs : List A) (hop new : NetworkHop)
    → Keeps hop new
    → Covers name index xs hop
    → Covers name index xs new
Covers-keeps name index [] hop new k c = tt
Covers-keeps name index (x ∷ xs) hop new k c =
    (k (name index x) c.0, Covers-keeps name (suc index) xs hop new k c.1)

-- What a loop over observations does to a hop.
pub record IsLoop {A : Type 0} (Describes : ℕ → A → NetworkAttempt → Type 0) (name : ℕ → A → String)
    (index : ℕ) (xs : List A) (hop new : NetworkHop) : Type 0 where
  pub tidy : IsTidy hop → IsTidy new
  pub keeps : Keeps hop new
  pub same_id : new.id ≡ hop.id
  pub covers : Covers name index xs new
  pub keeps_all : KeepsAll hop new
  pub notes : (seen : List String) → IsNoted seen hop → IsNoted (noted name index xs seen) new
  pub recorded : (seen : List String) → IsNoted seen hop → Recorded Describes name index xs seen new

module _ {A : Type 0} (Describes : ℕ → A → NetworkAttempt → Type 0) (name : ℕ → A → String)
    (step : ℕ → A → NetworkHop → NetworkHop)
    (named : (index : ℕ) (x : A) → (name index x == "") ≡ false)
    (steps : (index : ℕ) (x : A) (hop : NetworkHop)
      → IsStep (Describes index x) hop (name index x) (step index x hop)) where
  step-IsNoted :
      (index : ℕ) (x : A) (hop : NetworkHop) (seen : List String)
      → IsNoted seen hop
      → IsNoted (name index x ∷ seen) (step index x hop)
  step-IsNoted index x hop seen h j c =
      (steps index x hop).only j (h j (ground arith)) (ground arith)

  pub each_from-IsLoop :
      (index : ℕ) (xs : List A) (hop : NetworkHop)
      → IsLoop Describes name index xs hop (each_from step index xs hop)
  each_from-IsLoop index [] hop = record {
    tidy = λ t. t;
    keeps = λ id m. m;
    same_id = refl;
    covers = tt;
    keeps_all = λ a m. m;
    notes = λ seen h. h;
    recorded = λ seen h. tt;
  }
  each_from-IsLoop index (x ∷ xs) hop =
      let first = steps index x hop in
      let rest = each_from-IsLoop (suc index) xs (step index x hop) in
      record {
        tidy = λ t. rest.tidy (first.tidy t);
        keeps = λ id m. rest.keeps id (first.keeps id m);
        same_id = rest.same_id ∙ first.same_id;
        covers = (rest.keeps (name index x) (first.adds (named index x)), rest.covers);
        keeps_all = λ a m. rest.keeps_all a (first.keeps_all a m);
        notes = λ seen h. rest.notes (name index x ∷ seen) (step-IsNoted index x hop seen h);
        recorded = λ seen h. (
          λ fresh.
              let (a, m, d) = first.describes (h (name index x) fresh) (named index x) in
              (a, rest.keeps_all a m, d),
          rest.recorded (name index x ∷ seen) (step-IsNoted index x hop seen h),
        );
      }
