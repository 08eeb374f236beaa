-- ===== src/Http/Patterns.antt =====
-- The regular expressions of src/http that test a whole text: a class of characters and a range of
-- lengths.
use Prim.Native.Char.{code}
use swooshz_platform.Base.{ℕ, suc, String, Bool, true, ◌&&◌, ◌||◌, leb}

abbrev pub is_letter_or_digit : ℕ → Bool
is_letter_or_digit c =
    (leb b'A' c && leb c b'Z') || ((leb b'a' c && leb c b'z') || (leb b'0' c && leb c b'9'))

abbrev pub is_code : ℕ → ℕ → Bool
is_code k c = leb k c && leb c k

-- `[A-Za-z0-9._~-]`
abbrev pub is_reference_char : ℕ → Bool
is_reference_char c =
    is_letter_or_digit c
    || (is_code b'.' c || (is_code b'_' c || (is_code b'~' c || is_code b'-' c)))

abbrev pub every_code : (ℕ → Bool) → String → Bool
every_code p String.[] = true
every_code p (String.◌∷◌ c s) = p (code c) && every_code p s

abbrev pub char_count : String → ℕ
char_count String.[] = 0
char_count (String.◌∷◌ c s) = suc (char_count s)

-- `/^[...]{low,high}$/`
abbrev pub matches : (ℕ → Bool) → ℕ → ℕ → String → Bool
matches p low high s = every_code p s && (leb low (char_count s) && leb (char_count s) high)
