-- ===== src/Server/Text.antt =====
-- The text functions of the standard library that crates/rustafari-server/src/main.rs calls.
use Prim.Native.Char.{code}
use rustafari_db.Common.{
  ℕ, ◌+◌, String, Bool, true, false, ◌&&◌, ◌||◌, Option, none, some, leb, ◌==◌, if◌then◌else◌,
}

-- `char::is_whitespace`: the code points of the property White_Space.
abbrev pub is_whitespace : ℕ → Bool
is_whitespace c =
    (leb 9 c && leb c 13)
    || (c == 32)
    || (c == 133)
    || (c == 160)
    || (c == 5760)
    || (leb 8192 c && leb c 8202)
    || (c == 8232)
    || (c == 8233)
    || (c == 8239)
    || (c == 8287)
    || (c == 12288)

abbrev pub is_empty : String → Bool
is_empty String.[] = true
is_empty (String.◌∷◌ c s) = false

unfoldable pub trim_start_by : (ℕ → Bool) → String → String
trim_start_by p String.[] = String.[]
trim_start_by p (String.◌∷◌ c s) =
    let rest = trim_start_by p s in if p (code c) then rest else String.◌∷◌ c s

unfoldable pub trim_end_by : (ℕ → Bool) → String → String
trim_end_by p String.[] = String.[]
trim_end_by p (String.◌∷◌ c s) =
    let rest = trim_end_by p s in
    if is_empty rest && p (code c) then String.[] else String.◌∷◌ c rest

-- `str::trim`
unfoldable pub trim : String → String
unfolding trim_start_by trim_end_by
trim s = trim_end_by is_whitespace (trim_start_by is_whitespace s)

-- `trim_end_matches(';')`
unfoldable pub trim_semicolons : String → String
unfolding trim_end_by
trim_semicolons s = trim_end_by (λ c. c == b';') s

-- `char::to_ascii_lowercase`
abbrev pub to_ascii_lowercase : ℕ → ℕ
to_ascii_lowercase c = if leb b'A' c && leb c b'Z' then c + 32 else c

unfoldable pub eq_ignore_ascii_case : String → String → Bool
eq_ignore_ascii_case String.[] String.[] = true
eq_ignore_ascii_case (String.◌∷◌ c s) (String.◌∷◌ d t) =
    (to_ascii_lowercase (code c) == to_ascii_lowercase (code d)) && eq_ignore_ascii_case s t
eq_ignore_ascii_case _ _ = false

-- `s.strip_prefix(p)`, whose first argument here is `p`.
unfoldable pub strip_prefix : String → String → Option String
strip_prefix String.[] s = some s
strip_prefix (String.◌∷◌ c p) String.[] = none
strip_prefix (String.◌∷◌ c p) (String.◌∷◌ d s) =
    let rest = strip_prefix p s in if code c == code d then rest else none
