-- ===== src/Base/TextParts.antt =====
-- The operations of the language's standard library that cut texts or change their letters.
pub mod Trim
use Prim.Native.Nat.{ℕ, ◌-◌}
use Prim.Native.Char.{Char, code}
use Prim.Native.String.{String, [], ◌∷◌, char_at}
use mathlib.Core.Path.{◌≡◌, refl}
use mathlib.Core.Bool.{Bool, true, false, ◌&&◌}
use mathlib.Core.Option.{Option, none, some}
use mathlib.Core.List.{List, [], ◌∷◌}
use text.Mathlib.Text.{◌==◌}
use stonr.Base.Tests.{leb, nat_eq, if◌then◌else◌, is_some}
use stonr.Base.Text.{is_whitespace, is_blank, strip_prefix}

-- `str::trim`
unfoldable pub trim_start : String → String
unfolding is_whitespace
trim_start [] = []
trim_start (c ∷ s) = let rest = trim_start s in if is_whitespace (code c) then rest else c ∷ s

unfoldable pub trim_end : String → String
unfolding is_blank
trim_end [] = []
trim_end (c ∷ s) = let rest = trim_end s in if is_blank (c ∷ s) then [] else c ∷ rest

unfoldable pub trim : String → String
unfolding trim_start trim_end
trim s = trim_end (trim_start s)

abbrev pub is_empty_text : String → Bool
is_empty_text [] = true
is_empty_text (c ∷ s) = false

-- `str::to_ascii_lowercase`
lower_letter : Char → Char
lower_letter c =
    if leb b'A' (code c) && leb (code c) b'Z'
    then char_at "abcdefghijklmnopqrstuvwxyz" (code c - b'A')
    else c

unfoldable pub to_ascii_lowercase : String → String
unfolding lower_letter
to_ascii_lowercase [] = []
to_ascii_lowercase (c ∷ s) = lower_letter c ∷ to_ascii_lowercase s

-- `str::starts_with`
unfoldable pub starts_with : String → String → Bool
unfolding strip_prefix
starts_with s prefix = is_some (strip_prefix s prefix)

prepend : Char → Option String → Option String
prepend c none = none
prepend c (some s) = some (c ∷ s)

-- `str::strip_suffix`
unfoldable pub strip_suffix : String → String → Option String
unfolding prepend
strip_suffix [] suffix = if is_empty_text suffix then some [] else none
strip_suffix (c ∷ s) suffix =
    let rest = strip_suffix s suffix in if c ∷ s == suffix then some [] else prepend c rest

-- `str::ends_with`
unfoldable pub ends_with : String → String → Bool
unfolding strip_suffix
ends_with s suffix = is_some (strip_suffix s suffix)

unfoldable pub extend : Char → List String → List String
extend c [] = (c ∷ []) ∷ []
extend c (part ∷ parts) = (c ∷ part) ∷ parts

-- `str::split` at a character.
unfoldable pub split : ℕ → String → List String
unfolding extend
split sep [] = "" ∷ []
split sep (c ∷ s) =
    let parts = split sep s in if nat_eq (code c) sep then "" ∷ parts else extend c parts

prepend_first : Char → Option (String × String) → Option (String × String)
prepend_first c none = none
prepend_first c (some (s, rest)) = some (c ∷ s, rest)

-- `str::split_once` at a character.
unfoldable pub split_once : ℕ → String → Option (String × String)
unfolding prepend_first
split_once sep [] = none
split_once sep (c ∷ s) =
    let rest = split_once sep s in
    if nat_eq (code c) sep then some ("", s) else prepend_first c rest

drop_last_empty : List String → List String
drop_last_empty [] = []
drop_last_empty (line ∷ []) = if is_empty_text line then [] else line ∷ []
drop_last_empty (line ∷ next ∷ lines) = line ∷ drop_last_empty (next ∷ lines)

drop_return : String → String
drop_return [] = []
drop_return (c ∷ []) = if nat_eq (code c) 13 then [] else c ∷ []
drop_return (c ∷ d ∷ s) = c ∷ drop_return (d ∷ s)

-- `str::lines`. The carriage return goes only where a line feed came after it.
ended : List String → List String
ended [] = []
ended (line ∷ []) = line ∷ []
ended (line ∷ next ∷ lines) = drop_return line ∷ ended (next ∷ lines)

unfoldable pub lines : String → List String
unfolding split ended drop_last_empty drop_return
lines s = drop_last_empty (ended (split 10 s))

trim_tests :
    (trim " a b " ≡ "a b")
    × (trim "  " ≡ "")
    × (to_ascii_lowercase "Image/PNG" ≡ "image/png")
    × (strip_suffix "image/*" "/*" ≡ some "image")
    × (strip_suffix "/*" "/*" ≡ some "")
    × (strip_suffix "image/" "/*" ≡ none)
    × (starts_with "image/png" "image/" ≡ true)
    × (ends_with "https://a/files" "/files" ≡ true)
unfolding trim to_ascii_lowercase strip_suffix starts_with ends_with
trim_tests = (refl, refl, refl, refl, refl, refl, refl, refl)

split_tests :
    (split b',' "a,,b" ≡ "a" ∷ "" ∷ "b" ∷ [])
    × (split b',' "" ≡ "" ∷ [])
    × (split_once b'=' "a=b=c" ≡ some ("a", "b=c"))
    × (split_once b'=' "abc" ≡ none)
    × (lines "a\r\nb\n" ≡ "a" ∷ "b" ∷ [])
    × (lines "" ≡ [])
unfolding split split_once lines
split_tests = (refl, refl, refl, refl, refl, refl)
