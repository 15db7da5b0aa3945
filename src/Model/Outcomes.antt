-- ===== src/Model/Outcomes.antt =====
-- The outcome of a check (model.go, `Status`).
use orynelo.Prelude.{
  ℕ, String, ◌≡◌, refl, ◌↔◌, Bool, true, false, ◌&&◌, ◌==◌, Equality, number_equality,
  name_equality, str_iff, eqb_iff, arith, [], ◌∷◌, get_or,
}

pub data Status : Type 0 where
  pending running passed warning failed skipped not_applicable cancelled : Status
  unknown : String → Status

-- `Valid`
unfoldable pub is_valid : Status → Bool
is_valid (unknown _) = false
is_valid _ = true

abbrev pub is_pending : Status → Bool
is_pending pending = true
is_pending _ = false

abbrev pub is_running : Status → Bool
is_running running = true
is_running _ = false

-- What a finished check may report.
unfoldable pub is_terminal : Status → Bool
is_terminal pending = false
is_terminal running = false
is_terminal (unknown _) = false
is_terminal _ = true

-- A status is told from another by its place in the list, and an unknown one by its text.
abbrev status_tag : Status → ℕ
status_tag pending = 0
status_tag running = 1
status_tag passed = 2
status_tag warning = 3
status_tag failed = 4
status_tag skipped = 5
status_tag not_applicable = 6
status_tag cancelled = 7
status_tag (unknown _) = 8

abbrev status_text : Status → String
status_text (unknown s) = s
status_text _ = ""

abbrev status_of : ℕ → String → Status
status_of tag s =
    get_or
      (pending ∷ running ∷ passed ∷ warning ∷ failed ∷ skipped ∷ not_applicable ∷ cancelled ∷ [])
      tag (unknown s)

abbrev same_status : Status → Status → Bool
same_status a b = status_tag a == status_tag b && status_text a == status_text b

status_of-parts : (s : Status) → status_of (status_tag s) (status_text s) ≡ s
status_of-parts pending = refl
status_of-parts running = refl
status_of-parts passed = refl
status_of-parts warning = refl
status_of-parts failed = refl
status_of-parts skipped = refl
status_of-parts not_applicable = refl
status_of-parts cancelled = refl
status_of-parts (unknown _) = refl

pub same_status_iff : (a b : Status) → (same_status a b ≡ true) ↔ (a ≡ b)
same_status_iff a b = ground (
  arith,
  eqb_iff (status_tag a) (status_tag b),
  str_iff (status_text a) (status_text b),
  status_of-parts a,
  status_of-parts b,
)

instance abbrev pub status_equality : Equality Status
status_equality = record { same = same_status; same_iff = same_status_iff }
