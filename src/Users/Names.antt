-- ===== src/Users/Names.antt =====
-- The test of a name in `User.create`: how `trim` and `length` of JavaScript read a text, and `trim`.
use Prim.Native.Char.{Char, code}
use Prim.Native.String.{String, [], ◌∷◌}
use auction_platform_backend.Prelude.{
  ℕ, ◌+◌, Bool, true, not, ltb, leb, ◌==◌, ◌&&◌, ◌||◌, if◌then◌else◌,
}

-- White space and line ends.
abbrev is_space : Char → Bool
is_space c =
    let n = code c in
    (leb 9 n && leb n 13)
    || n == 32
    || n == 160
    || n == 5760
    || (leb 8192 n && leb n 8202)
    || n == 8232
    || n == 8233
    || n == 8239
    || n == 8287
    || n == 12288
    || n == 65279

unfoldable pub is_blank : String → Bool
is_blank [] = true
is_blank (c ∷ s) = is_space c && is_blank s

-- `trim`: what stands between the first and the last character that is no space.
trim_start : String → String
trim_start [] = []
trim_start (c ∷ s) = if is_space c then trim_start s else c ∷ s

trim_end : String → String
trim_end [] = []
trim_end (c ∷ s) = if is_blank (c ∷ s) then [] else c ∷ trim_end s

unfoldable pub trim : String → String
unfolding trim_start trim_end is_blank
trim s = trim_end (trim_start s)

-- The length in units of UTF-16.
unfoldable pub utf16_length : String → ℕ
utf16_length [] = 0
utf16_length (c ∷ s) = (if ltb (code c) 65536 then 1 else 2) + utf16_length s

unfoldable pub is_name : String → Bool
is_name s = not (is_blank s || ltb (utf16_length s) 3)
