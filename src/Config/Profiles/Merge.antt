-- ===== src/Config/Profiles/Merge.antt =====
-- stonr/src/autoconfig.rs: the profiles of a list, merged into one lock for each key.
pub mod Agrees
pub mod Locks
use mathlib.Core.Option
use Prim.Native.String.{◌++◌ as str_append}
use stonr.Base.{
  ℕ, String, Bool, true, false, Option, none, some, List, [], ◌∷◌, ◌++◌, ◌==◌, ◌&&◌, ◌||◌, not, map,
  leb, nat_eq, if◌then◌else◌, unwrap_or, Result, ok, err, panic, ok_or, ◌>>=◌, ◌>>◌, fail_if, ◌≡◌,
  refl,
}
use stonr.Base.Dict.{Dict, find, put}
use stonr.Base.Sort.{sort_by}
use stonr.Base.TextOrder.{str_leb}
use stonr.Base.TextParts.{trim, is_empty_text}
use stonr.Config.Lists.{join}
use stonr.Config.Parse.{csv_strings, csv_u32}
use stonr.Config.Profiles.{
  MergeKind, bool_or, csv_text, csv_number, exact, NormalizedSetting, parse_bool_string,
  dedup_strings, dedup_numbers, join_numbers, normalize_setting,
}
use stonr.Filter.{Value, object, Members, no_members, member, as_str, get}
use stonr.Files.{insert_text}

pub record AppSupportProfile : Type 0 where
  pub name : String
  pub path : String
  pub description : Option String
  pub locked_keys : List String

pub record AppSupportLock : Type 0 where
  pub env_key : String
  pub value : String
  pub sources : List String

pub record AppSupportStatus : Type 0 where
  pub profiles : List AppSupportProfile
  pub locks : List AppSupportLock

-- What is merged under a key so far.
pub record Entry : Type 0 where
  pub merge_kind : MergeKind
  pub value : String
  pub sources : List String

unfoldable pub merge_csv_strings : String → String → String
unfolding dedup_strings csv_strings join
merge_csv_strings existing incoming =
    join (dedup_strings (csv_strings existing ++ csv_strings incoming))

unfoldable pub merge_csv_u32 : String → String → String
unfolding dedup_numbers csv_u32 join_numbers
merge_csv_u32 existing incoming =
    join_numbers (dedup_numbers (csv_u32 existing ++ csv_u32 incoming))

unfoldable pub is_true : String → Bool
unfolding parse_bool_string
is_true written = unwrap_or (parse_bool_string written) false

unfoldable pub same_kind : MergeKind → MergeKind → Bool
same_kind bool_or bool_or = true
same_kind csv_text csv_text = true
same_kind csv_number csv_number = true
same_kind exact exact = true
same_kind _ _ = false

conflict : String → String → String → String
conflict key old new =
    str_append "conflicting app support values for "
      (str_append key (str_append ": " (str_append old (str_append " vs " new))))

-- The value of a key after a setting of its kind.
unfoldable pub merge_value : MergeKind → String → String → String → Result String
unfolding is_true merge_csv_strings merge_csv_u32 conflict
merge_value bool_or key old new = ok (if is_true old || is_true new then "1" else "0")
merge_value csv_text key old new = ok (merge_csv_strings old new)
merge_value csv_number key old new = ok (merge_csv_u32 old new)
merge_value exact key old new = if not (old == new) then err (conflict key old new) else ok old

-- `or_insert_with`
unfoldable pub entry_or_new : Option Entry → NormalizedSetting → Entry
entry_or_new (some entry) setting = entry
entry_or_new none setting = record {
  merge_kind = setting.merge_kind;
  value = setting.value;
  sources = [];
}

unfoldable pub merge_entry : String → NormalizedSetting → Entry → Result Entry
unfolding same_kind merge_value insert_text
merge_entry name setting entry = do
  fail_if (not (same_kind entry.merge_kind setting.merge_kind)) (
      str_append "app support merge mismatch for "
        (str_append setting.env_key (str_append " in " name)))
  merged ← merge_value setting.merge_kind setting.env_key entry.value setting.value
  ok (record entry { value = merged; sources = insert_text name entry.sources })

unfoldable pub merge_setting : String → NormalizedSetting → Dict Entry → Result (Dict Entry)
unfolding merge_entry entry_or_new find put
merge_setting name setting merged = do
  entry ← merge_entry name setting (entry_or_new (find setting.env_key merged) setting)
  ok (put setting.env_key entry merged)

unfoldable pub merge_settings : String → List NormalizedSetting → Dict Entry → Result (Dict Entry)
unfolding merge_setting
merge_settings name [] merged = ok merged
merge_settings name (setting ∷ settings) merged = do
  next ← merge_setting name setting merged
  merge_settings name settings next

-- `serde_json::Map`, which iterates in the order of its keys; a later value takes a key's place.
put_members : Members → Dict Value → Dict Value
unfolding put
put_members no_members dict = dict
put_members (member name v more) dict = put_members more (put name v dict)

field_members : String → Option Value → Dict Value → Result (Dict Value)
unfolding put_members
field_members field none dict = ok dict
field_members field (some (object entries)) dict = ok (put_members entries dict)
field_members field (some _) dict = err (str_append field " must be an object")

earlier_key : String × Value → String × Value → Bool
earlier_key left right = str_leb left.0 right.0

earlier_setting : NormalizedSetting → NormalizedSetting → Bool
earlier_setting left right = str_leb left.env_key right.env_key

normalize_all : Dict Value → Result (List NormalizedSetting)
unfolding normalize_setting
normalize_all [] = ok []
normalize_all ((key, v) ∷ dict) = do
  setting ← normalize_setting key v
  rest ← normalize_all dict
  ok (setting ∷ rest)

non_empty_settings : Dict Value → Result (List NormalizedSetting)
unfolding normalize_all sort_by earlier_key earlier_setting
non_empty_settings [] = err "app support file must include a non-empty settings object"
non_empty_settings (entry ∷ dict) = do
  normalized ← normalize_all (sort_by earlier_key (entry ∷ dict))
  ok (sort_by earlier_setting normalized)

-- `parse_settings_map`, on the top-level object.
unfoldable pub parse_settings_map : Value → Result (List NormalizedSetting)
unfolding field_members non_empty_settings get
parse_settings_map root = do
  settings ← field_members "settings" (get "settings" root) []
  merged ← field_members "requires" (get "requires" root) settings
  non_empty_settings merged

-- A trimmed text under a name, if it is not empty.
filled_text : Value → String → Option String
unfolding get as_str trim
filled_text root name =
    Option.bind (Option.bind (get name root) as_str)
      (λ s. if is_empty_text (trim s) then none else some (trim s))

is_object : Value → Bool
is_object (object _) = true
is_object _ = false

unfoldable pub parse_support_file : String → Value → Result AppSupportProfile
unfolding is_object filled_text parse_settings_map ok_or
parse_support_file path root = do
  fail_if (not (is_object root)) "app support file must be a top-level object"
  name ← ok_or (filled_text root "name") "app support file must include a non-empty name"
  settings ← parse_settings_map root
  ok (record {
    name = name;
    path = path;
    description = filled_text root "description";
    locked_keys = map (λ (setting : NormalizedSetting). setting.env_key) settings;
  })

-- The loop over the paths; `read` gives what a file parses to, as YAML or JSON.
unfoldable pub merge_profiles :
    (String → Result Value)
    → List String
    → Dict Entry
    → Result (List AppSupportProfile × Dict Entry)
unfolding parse_support_file parse_settings_map merge_settings
merge_profiles read [] merged = ok ([], merged)
merge_profiles read (path ∷ paths) merged = do
  root ← read path
  profile ← parse_support_file path root
  settings ← parse_settings_map root
  next ← merge_settings profile.name settings merged
  (profiles, last) ← merge_profiles read paths next
  ok (profile ∷ profiles, last)

unfoldable pub lock_of : String × Entry → AppSupportLock
lock_of (env_key, entry) = record {
  env_key = env_key;
  value = entry.value;
  sources = entry.sources;
}

unfoldable pub earlier_lock : AppSupportLock → AppSupportLock → Bool
earlier_lock left right = str_leb left.env_key right.env_key

-- `load_app_support_status`, for the paths of the list file.
unfoldable pub load_app_support_status :
    (String → Result Value) → List String → Result AppSupportStatus
unfolding merge_profiles lock_of dedup_strings sort_by earlier_lock
load_app_support_status read paths = do
  (profiles, merged) ← merge_profiles read (dedup_strings paths) []
  ok (record { profiles = profiles; locks = sort_by earlier_lock (map lock_of merged) })
