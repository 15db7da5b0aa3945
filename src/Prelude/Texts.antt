-- ===== src/Prelude/Texts.antt =====
-- Native texts as the standard library's `strings` treats them.
use Prim.Native.Nat.{ℕ, zero, suc, ◌+◌, ◌/◌, ◌%◌}
use Prim.Native.Char.{code}
use Prim.Native.String.{String, ◌++◌ as str_append}
use mathlib.Core.Bool.{Bool, true, false, ◌&&◌, ◌||◌}
use mathlib.Core.List.{[], ◌∷◌}
use orynelo.Prelude.Lists.{get_or}
use orynelo.Prelude.Tests.{ltb, leb, eqb, if◌then◌else◌}

-- `unicode.IsSpace`
abbrev pub is_white : ℕ → Bool
is_white c =
    leb 9 c && leb c 13
    || eqb c 32
    || eqb c 133
    || eqb c 160
    || eqb c 5760
    || leb 8192 c && leb c 8202
    || eqb c 8232
    || eqb c 8233
    || eqb c 8239
    || eqb c 8287
    || eqb c 12288

abbrev trim_front : String → String
trim_front String.[] = String.[]
trim_front (String.◌∷◌ c s) = if is_white (code c) then trim_front s else String.◌∷◌ c s

-- A space is dropped where only spaces follow.
abbrev trim_back : String → String
trim_back String.[] = String.[]
trim_back (String.◌∷◌ c s) = elim (trim_back s) [
  | String.[] ↦ if is_white (code c) then String.[] else String.◌∷◌ c String.[]
  | String.◌∷◌ d t ↦ String.◌∷◌ c (String.◌∷◌ d t)
]

-- `strings.TrimSpace`
unfoldable pub trim_text : String → String
trim_text s = trim_back (trim_front s)

-- The Kelvin sign folds to k, and the long s to s.
abbrev fold_code : ℕ → ℕ
fold_code c =
    if leb 65 c && leb c 90
    then c + 32
    else if eqb c 8490
    then 107
    else if eqb c 383
    then 115
    else c

-- `strings.EqualFold` where the second text is ASCII.
unfoldable pub equal_fold : String → String → Bool
equal_fold String.[] String.[] = true
equal_fold String.[] (String.◌∷◌ d t) = false
equal_fold (String.◌∷◌ c s) String.[] = false
equal_fold (String.◌∷◌ c s) (String.◌∷◌ d t) =
    eqb (fold_code (code c)) (fold_code (code d)) && equal_fold s t

abbrev digit : ℕ → String
digit d = get_or ("0" ∷ "1" ∷ "2" ∷ "3" ∷ "4" ∷ "5" ∷ "6" ∷ "7" ∷ "8" ∷ "9" ∷ []) d ""

-- The digits of a number, of which there are at most as many as the fuel.
abbrev digits : ℕ → ℕ → String
digits zero n = ""
digits (suc fuel) n =
    let front = digits fuel (n / 10) in
    if ltb n 10 then digit n else str_append front (digit (n % 10))

-- `%d`
unfoldable pub decimal : ℕ → String
decimal n = digits (suc n) n
