-- ===== src/Config/Parse.antt =====
-- stonr/src/config.rs: the lines of the environment file and the values in them.
use mathlib.Core.Option
use Prim.Native.String.{◌++◌ as str_append}
use stonr.Base.{
  ℕ, ◌-◌, ◌^◌, String, Bool, Option, none, some, List, [], ◌∷◌, ◌++◌, ◌==◌, ◌||◌, not, map, keep,
  leb, nat_eq, if◌then◌else◌, unwrap_or, Result, ok_or, ◌≡◌, refl,
}
use stonr.Base.Dict.{Dict, find, put}
use stonr.Base.Sort.{sort_by}
use stonr.Base.Text.{parse_u64, is_blank}
use stonr.Base.TextOrder.{str_leb, dedup}
use stonr.Base.TextParts.{
  trim, split, split_once, lines, starts_with, to_ascii_lowercase, is_empty_text,
}
use stonr.Files.{FileKeepMode, referenced, all}

-- `HashMap<String, String>`; the last value of a key counts.
abbrev pub Env : Type 0
Env = Dict String

-- A line after its trim: nothing, a comment, or a key and a value.
add_line : String → Env → Env
unfolding starts_with split_once trim put
add_line line env =
    if is_empty_text line || starts_with line "#" then env else elim (split_once b'=' line) [
      | none ↦ env
      | some (key, value) ↦ put (trim key) (trim value) env
    ]

add_lines : List String → Env → Env
unfolding add_line
add_lines [] env = env
add_lines (line ∷ more) env = add_lines more (add_line (trim line) env)

-- `parse_env_file`, on the text of the file.
unfoldable pub parse_env_file : String → Env
unfolding add_lines lines
parse_env_file text = add_lines (lines text) []

unfoldable pub env_value : Env → String → Option String
unfolding find
env_value env key = find key env

unfoldable pub required_env : Env → String → Result String
unfolding env_value ok_or
required_env env key = ok_or (env_value env key) (str_append "missing required field: " key)

-- `env_value(&env, key).unwrap_or(default) == "1"`
unfoldable pub flag : Env → String → String → Bool
unfolding env_value
flag env key default = unwrap_or (env_value env key) default == "1"

unfoldable pub csv_strings : String → List String
unfolding keep split trim
csv_strings input = keep (λ t. not (is_empty_text t)) (map trim (split b',' input))

-- `str::parse::<u32>`
unfoldable pub parse_u32 : String → Option ℕ
unfolding parse_u64
parse_u32 text = Option.bind (parse_u64 text) (λ n. if leb n (2 ^ 32 - 1) then some n else none)

unfoldable pub add_number : Option ℕ → List ℕ → List ℕ
add_number none numbers = numbers
add_number (some n) numbers = n ∷ numbers

unfoldable pub numbers_of : List String → List ℕ
unfolding parse_u32 trim add_number
numbers_of [] = []
numbers_of (part ∷ parts) = add_number (parse_u32 (trim part)) (numbers_of parts)

unfoldable pub csv_u32 : String → List ℕ
unfolding numbers_of split
csv_u32 input = numbers_of (split b',' input)

-- `if values.is_empty() { None } else { Some(values) }`
unfoldable pub some_unless_empty {ℓ} : {A : Type ℓ} → List A → Option (List A)
some_unless_empty [] = none
some_unless_empty (a ∷ l) = some (a ∷ l)

unfoldable pub csv_strings_opt : String → Option (List String)
unfolding csv_strings some_unless_empty
csv_strings_opt input = some_unless_empty (csv_strings input)

unfoldable pub csv_u32_opt : String → Option (List ℕ)
unfolding csv_u32 some_unless_empty
csv_u32_opt input = some_unless_empty (csv_u32 input)

-- A list under a key.
unfoldable pub env_strings : Env → String → Option (List String)
unfolding env_value csv_strings_opt
env_strings env key = Option.bind (env_value env key) csv_strings_opt

unfoldable pub env_numbers : Env → String → Option (List ℕ)
unfolding env_value csv_u32_opt
env_numbers env key = Option.bind (env_value env key) csv_u32_opt

unfoldable pub positive : ℕ → Option ℕ
positive n = if nat_eq n 0 then none else some n

-- A number above zero under a key, of type `u64` or `usize`.
unfoldable pub env_positive : Env → String → Option ℕ
unfolding env_value parse_u64 positive
env_positive env key = Option.bind (Option.bind (env_value env key) parse_u64) positive

-- A text under a key, unless it is refused.
unfoldable pub env_text : Env → String → (String → Bool) → Option String
unfolding env_value
env_text env key refused = Option.bind (env_value env key) (λ s. if refused s then none else some s)

unfoldable pub parse_file_keep_mode : Option String → FileKeepMode
unfolding to_ascii_lowercase trim
parse_file_keep_mode value =
    if to_ascii_lowercase (trim (unwrap_or value "referenced")) == "all" then all else referenced

-- The lines of the denylist file that are no comments.
listed_lines : List String → List String
unfolding trim to_ascii_lowercase starts_with
listed_lines [] = []
listed_lines (line ∷ more) =
    let rest = listed_lines more in
    if is_empty_text (trim line) || starts_with (trim line) "#"
    then rest
    else to_ascii_lowercase (trim line) ∷ rest

denylist_file : (String → Option String) → Option String → List String
unfolding listed_lines lines is_blank
denylist_file read_file none = []
denylist_file read_file (some path) =
    if is_blank path then [] else listed_lines (lines (unwrap_or (read_file path) ""))

-- `load_hash_denylist`; `read_file` gives the text of a file, or nothing where it cannot be read.
unfoldable pub load_hash_denylist : (String → Option String) → Env → Option (List String)
unfolding csv_strings env_value to_ascii_lowercase denylist_file some_unless_empty sort_by dedup
load_hash_denylist read_file env =
    let listed =
      map to_ascii_lowercase (csv_strings (unwrap_or (env_value env "FILE_HASH_DENYLIST") "")) in
    some_unless_empty (
      dedup (
        sort_by str_leb
          (listed ++ denylist_file read_file (env_value env "FILE_HASH_DENYLIST_PATH"))))

parse_tests :
    (parse_env_file "# c\nA = 1\n\nB=x=y\r\nA=2" ≡ ("A", "2") ∷ ("B", "x=y") ∷ [])
    × (csv_strings " a, ,b" ≡ "a" ∷ "b" ∷ [])
    × (csv_u32 "1, x, 4294967296,7" ≡ 1 ∷ 7 ∷ [])
    × (load_hash_denylist
          (λ _. some "BB\n#c")
          (("FILE_HASH_DENYLIST", "cc,AA") ∷ ("FILE_HASH_DENYLIST_PATH", "f") ∷ [])
        ≡ some ("aa" ∷ "bb" ∷ "cc" ∷ []))
unfolding parse_env_file csv_strings csv_u32 load_hash_denylist Option.bind
parse_tests = (refl, refl, refl, refl)
