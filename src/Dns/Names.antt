-- ===== src/Dns/Names.antt =====
-- Names as lists of ASCII codes.
use orynelo.Prelude.{ℕ, ◌+◌, [], ◌∷◌, Text, Bool, ◌&&◌, ◌||◌, leb, eqb, if◌then◌else◌}

abbrev pub dot : ℕ
dot = 46

abbrev pub is_space : ℕ → Bool
is_space c = eqb c 32 || leb 9 c && leb c 13

abbrev pub to_lower : Text → Text
to_lower [] = []
to_lower (c ∷ s) = (if leb 65 c && leb c 90 then c + 32 else c) ∷ to_lower s

abbrev pub trim_left : Text → Text
trim_left [] = []
trim_left (c ∷ s) = if is_space c then trim_left s else c ∷ s

-- A space is dropped where only spaces follow.
abbrev pub trim_right : Text → Text
trim_right [] = []
trim_right (c ∷ s) = elim (trim_right s) [
  | [] ↦ if is_space c then [] else c ∷ []
  | d ∷ t ↦ c ∷ d ∷ t
]

abbrev pub trim_space : Text → Text
trim_space s = trim_right (trim_left s)

-- `strings.TrimSuffix(s, ".")`
abbrev pub trim_dot : Text → Text
trim_dot [] = []
trim_dot (c ∷ []) = if eqb c dot then [] else c ∷ []
trim_dot (c ∷ d ∷ s) = c ∷ trim_dot (d ∷ s)

-- `canonicalDNSName`
unfoldable pub canonical_dns_name : Text → Text
canonical_dns_name value = trim_dot (to_lower (trim_space value))
