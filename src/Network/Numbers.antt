-- ===== src/Network/Numbers.antt =====
-- Names of attempts (`fmt.Sprintf` with `%03d`) and the stable sort by name.
use Prim.Native.String.{◌++◌ as str_append, compare}
use text.Mathlib.Text.{is_lt}
use orynelo.Prelude.{ℕ, String, ltb, if◌then◌else◌, Bool, decimal}

-- `%03d`
unfoldable pub three_digits : ℕ → String
unfolding decimal
three_digits n =
    if ltb n 10
    then str_append "00" (decimal n)
    else if ltb n 100
    then str_append "0" (decimal n)
    else decimal n

abbrev pub precedes : String → String → Bool
precedes a b = is_lt (compare a b)
