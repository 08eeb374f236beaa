-- ===== src/Base/Text.antt =====
-- `String.prototype.trim` and the tests on identifiers. A text is its list of characters.
use Prim.Native.Char.{Char, code}
use Prim.Native.String.{String}
use Prim.Native.Nat.{ℕ, ◌+◌}
use mathlib.Core.Bool.{Bool, true, false, ◌&&◌, ◌||◌}
use swooshz_platform.Base.Tests.{leb, if◌then◌else◌}

-- The characters that `trim` removes: white space and line terminators of ECMAScript.
abbrev pub is_space : Char → Bool
is_space ch =
    let c = code ch in
    (leb 9 c && leb c 13)
    || ((leb 32 c && leb c 32)
        || ((leb 160 c && leb c 160)
            || ((leb 5760 c && leb c 5760)
                || ((leb 8192 c && leb c 8202)
                    || ((leb 8232 c && leb c 8233)
                        || ((leb 8239 c && leb c 8239)
                            || ((leb 8287 c && leb c 8287)
                                || ((leb 12288 c && leb c 12288)
                                    || (leb 65279 c && leb c 65279)))))))))

unfoldable pub trim_start : String → String
trim_start String.[] = String.[]
trim_start (String.◌∷◌ c s) = let rest = trim_start s in if is_space c then rest else String.◌∷◌ c s

unfoldable pub trim_end : String → String
trim_end String.[] = String.[]
trim_end (String.◌∷◌ c s) = keep c (trim_end s)
  where
    keep : Char → String → String
    keep c String.[] = if is_space c then String.[] else String.◌∷◌ c String.[]
    keep c (String.◌∷◌ d r) = String.◌∷◌ c (String.◌∷◌ d r)

-- `value.trim()`
unfoldable pub trim : String → String
unfolding trim_start trim_end
trim s = trim_end (trim_start s)

-- JavaScript's truth of a text: every text but the empty one.
abbrev pub is_empty : String → Bool
is_empty String.[] = true
is_empty (String.◌∷◌ c s) = false

-- `!value.trim()`
unfoldable pub is_blank : String → Bool
unfolding trim
is_blank s = is_empty (trim s)

-- `value.length`: the number of UTF-16 units.
unfoldable pub utf16_length : String → ℕ
utf16_length String.[] = 0
utf16_length (String.◌∷◌ c s) = (if leb 65536 (code c) then 2 else 1) + utf16_length s
