-- ===== src/Prelude/Search.antt =====
-- Searching a list by a Boolean test, and what a search finds.
use mathlib.Core.Path.{◌≡◌, refl, sym, ◌∙◌, ap}
use mathlib.Core.Bool.{Bool, true, false, ◌||◌, ◌&&◌}
use mathlib.Core.List.{List, [], ◌∷◌, ◌++◌, map, Memᴰ}
use mathlib.Core.List.Memᴰ.{head, tail, not-nil, append_left, append_right}
use mathlib.Core.Option.{Option, none, some}
use native.Mathlib.Omega.{arith}
use orynelo.Prelude.Tests.{if◌then◌else◌, if_cases}
use orynelo.Prelude.Lists.{All, All-append, keep, join}

module _ {ℓ} {A : Type ℓ} where
  abbrev pub find : (A → Bool) → List A → Option A
  find p [] = none
  find p (x ∷ xs) = if p x then some x else find p xs

  abbrev pub or_else : Option A → Option A → Option A
  or_else none o = o
  or_else (some a) o = some a

  abbrev pub find_last : (A → Bool) → List A → Option A
  find_last p [] = none
  find_last p (x ∷ xs) = or_else (find_last p xs) (if p x then some x else none)

  abbrev pub any : (A → Bool) → List A → Bool
  any p [] = false
  any p (x ∷ xs) = p x || any p xs

  abbrev pub every : (A → Bool) → List A → Bool
  every p [] = true
  every p (x ∷ xs) = p x && every p xs

  -- What an option holds, if it holds something, has the property.
  abbrev pub AllSome {κ} : (A → Type κ) → Option A → Type κ
  AllSome P none = Unit
  AllSome P (some a) = P a

  pub AllSome-imp {κ μ} :
      {P : A → Type κ} {Q : A → Type μ}
      → ((a : A) → P a → Q a)
      → (o : Option A) → AllSome P o
      → AllSome Q o
  AllSome-imp f none h = tt
  AllSome-imp f (some a) h = f a h

  pub All-of {κ} : (P : A → Type κ) (xs : List A) {a : A} → All P xs → Memᴰ a xs → P a
  All-of P [] h m = absurd (not-nil m)
  All-of P (x ∷ xs) h (head e) = rw (e) h.0
  All-of P (x ∷ xs) h (tail m) = All-of P xs h.1 m

  pub All-tabulate {κ} : (P : A → Type κ) (xs : List A) → ((a : A) → Memᴰ a xs → P a) → All P xs
  All-tabulate P [] f = tt
  All-tabulate P (x ∷ xs) f = (f x (head refl), All-tabulate P xs (λ a m. f a (tail m)))

  pub find-finds :
      (p : A → Bool) (xs : List A) → AllSome (λ a. Memᴰ a xs × (p a ≡ true)) (find p xs)
  find-finds p [] = tt
  find-finds p (x ∷ xs) =
      if_cases (AllSome (λ a. Memᴰ a (x ∷ xs) × (p a ≡ true))) (p x) (λ h. (head refl, h))
        (λ _. AllSome-imp (λ a h. (tail h.0, h.1)) (find p xs) (find-finds p xs))

  -- A search that the test lets stop does find something.
  pub find-mem :
      (p : A → Bool) (xs : List A) {a : A} → Memᴰ a xs → p a ≡ true → (b : A) × (find p xs ≡ some b)
  find-mem p [] m h = absurd (not-nil m)
  find-mem p (x ∷ xs) (head e) h = (x, rw (ap p (sym e) ∙ h))
  find-mem p (x ∷ xs) (tail m) h =
      if_cases (λ o. (b : A) × (o ≡ some b)) (p x) (λ _. (x, refl)) (λ _. find-mem p xs m h)

  pub find_last-finds :
      (p : A → Bool) (xs : List A) → AllSome (λ a. Memᴰ a xs × (p a ≡ true)) (find_last p xs)
  find_last-finds p [] = tt
  find_last-finds p (x ∷ xs) = later (find_last p xs) (find_last-finds p xs)
    where
      later :
          (o : Option A)
          → AllSome (λ a. Memᴰ a xs × (p a ≡ true)) o
          → AllSome (λ a. Memᴰ a (x ∷ xs) × (p a ≡ true)) (or_else o (if p x then some x else none))
      later (some a) h = (tail h.0, h.1)
      later none h =
          if_cases (AllSome (λ a. Memᴰ a (x ∷ xs) × (p a ≡ true))) (p x) (λ e. (head refl, e))
            (λ _. tt)

  pub any-mem : (p : A → Bool) (xs : List A) → any p xs ≡ true → (a : A) × Memᴰ a xs × (p a ≡ true)
  any-mem p [] h = cc
  any-mem p (x ∷ xs) h = split (any-mem p xs) (p x) refl h
    where
      split :
          (any p xs ≡ true → (a : A) × Memᴰ a xs × (p a ≡ true))
          → (b : Bool) → p x ≡ b
          → (b || any p xs) ≡ true
          → (a : A) × Memᴰ a (x ∷ xs) × (p a ≡ true)
      split rest true e h = (x, head refl, e)
      split rest false e h = let found = rest h in (found.0, tail found.1, found.2)

  pub mem-any : (p : A → Bool) (xs : List A) {a : A} → Memᴰ a xs → p a ≡ true → any p xs ≡ true
  mem-any p [] m h = absurd (not-nil m)
  mem-any p (x ∷ xs) (head e) h = rw (ap p (sym e) ∙ h)
  mem-any p (x ∷ xs) (tail m) h = ground (arith, mem-any p xs m h)

  pub keep-keeps : (p : A → Bool) (xs : List A) → All (λ a. Memᴰ a xs × (p a ≡ true)) (keep p xs)
  keep-keeps p [] = tt
  keep-keeps p (x ∷ xs) =
      let P = λ (a : A). Memᴰ a (x ∷ xs) × (p a ≡ true) in
      let rest = All-tabulate P (keep p xs) (λ a m.
        let k = All-of (λ a. Memᴰ a xs × (p a ≡ true)) (keep p xs) (keep-keeps p xs) m in
        (tail k.0, k.1)) in
      if_cases (All P) (p x) (λ h. ((head refl, h), rest)) (λ _. rest)

  pub mem-keep : (p : A → Bool) (xs : List A) {a : A} → Memᴰ a xs → p a ≡ true → Memᴰ a (keep p xs)
  mem-keep p [] m h = absurd (not-nil m)
  mem-keep p (x ∷ xs) (head e) h = rw (ap p (sym e) ∙ h) (head e)
  mem-keep p (x ∷ xs) {a} (tail m) h =
      if_cases (Memᴰ a) (p x) (λ _. tail (mem-keep p xs m h)) (λ _. mem-keep p xs m h)

  pub mem-join :
      (xss : List (List A)) {xs : List A} {a : A} → Memᴰ xs xss → Memᴰ a xs → Memᴰ a (join xss)
  mem-join [] k m = absurd (not-nil k)
  mem-join (ys ∷ yss) (head e) m = append_left (join yss) (rw (sym e) m)
  mem-join (ys ∷ yss) (tail k) m = append_right ys (mem-join yss k m)

pub All-join :
    {A : Type 0} (P : A → Type 0) (xss : List (List A)) → All (All P) xss → All P (join xss)
All-join P [] h = tt
All-join P (xs ∷ xss) h = All-append P xs (join xss) h.0 (All-join P xss h.1)

pub All-map :
    {A B : Type 0} (P : B → Type 0) (f : A → B) (xs : List A)
    → All (λ a. P (f a)) xs
    → All P (map f xs)
All-map P f [] h = tt
All-map P f (x ∷ xs) h = (h.0, All-map P f xs h.1)

pub All-imp :
    {A : Type 0} {P Q : A → Type 0} (f : (a : A) → P a → Q a) (xs : List A) → All P xs → All Q xs
All-imp f [] h = tt
All-imp f (x ∷ xs) h = (f x h.0, All-imp f xs h.1)

-- What an option holds passes a test.
abbrev pub holds {ℓ} : {A : Type ℓ} → (A → Bool) → Option A → Bool
holds p none = false
holds p (some a) = p a

pub any-append {ℓ} :
    {A : Type ℓ} (p : A → Bool) (xs ys : List A) → any p (xs ++ ys) ≡ (any p xs || any p ys)
any-append p [] ys = refl
any-append p (x ∷ xs) ys = ground (arith, any-append p xs ys)

pub any-join {ℓ} :
    {A : Type ℓ} (p : A → Bool) (xss : List (List A)) → any p (join xss) ≡ any (any p) xss
any-join p [] = refl
any-join p (xs ∷ xss) = any-append p xs (join xss) ∙ ap (λ b. any p xs || b) (any-join p xss)

pub any-map {ℓ κ} :
    {A : Type ℓ} {B : Type κ} (p : B → Bool) (f : A → B) (xs : List A)
    → any p (map f xs) ≡ any (λ x. p (f x)) xs
any-map p f [] = refl
any-map p f (x ∷ xs) = ap (λ b. p (f x) || b) (any-map p f xs)

pub any-keep {ℓ} :
    {A : Type ℓ} (p : A → Bool) (xs : List A) → any (λ x. true) (keep p xs) ≡ any p xs
any-keep p [] = refl
any-keep p (x ∷ xs) = ground (arith, any-keep p xs)

pub any-none {ℓ} : {A : Type ℓ} (xs : List A) → any (λ x. false) xs ≡ false
any-none [] = refl
any-none (x ∷ xs) = any-none xs

pub holds-find {ℓ} :
    {A : Type ℓ} (p : A → Bool) (xs : List A) → holds (λ x. true) (find p xs) ≡ any p xs
holds-find p [] = refl
holds-find p (x ∷ xs) = ground (arith, holds-find p xs)

-- What a search finds and passes the test makes one that passes it.
pub holds-any {ℓ} :
    {A : Type ℓ} (p q : A → Bool) (xs : List A) → holds p (find q xs) ≡ true → any p xs ≡ true
holds-any p q [] h = h
holds-any p q (x ∷ xs) h = ground (arith, holds-any p q xs)
