-- ===== src/Config/Profiles/Merge/Agrees.antt =====
-- stonr/src/autoconfig.rs: the locks that come out agree with every profile that asked for them.
use stonr.Base.{
  ℕ, String, ◌≡◌, refl, Bool, true, false, not, some, List, [], ◌∷◌, ◌++◌, ◌==◌, ◌||◌,
  if◌then◌else◌, ok, fail_if, >>=-eq-ok, ok-injective, test_passed, arith, eq_iff, ap, sym, subst,
  ◌∙◌, All,
}
use stonr.Base.Dict.{Dict, find}
use stonr.Base.Sort.{sort_by, All-sort_by}
use stonr.Base.TextOrder.{str_leb, dedup}
use stonr.Config.Items.{csv_strings-IsItem}
use stonr.Config.Lists.{IsItem, csv_strings-join}
use stonr.Config.Parse.{csv_strings, csv_u32}
use stonr.Config.Profiles.{
  MergeKind, bool_or, csv_text, csv_number, exact, NormalizedSetting, dedup_strings, dedup_numbers,
}
use stonr.Config.Profiles.Merge.{
  Entry, merge_csv_strings, merge_csv_u32, is_true, same_kind, merge_value, merge_entry,
}
use stonr.Config.Profiles.Numbers.{
  IsU32, csv_u32-join_numbers, csv_u32-IsU32, has_number-dedup_numbers, All-dedup_numbers,
}
use stonr.Query.{has_text, has_number}
use stonr.Query.Sorted.{has_text-sorted, All-dedup}
use stonr.Store.Consistent.{has_text-append}

-- What a setting's value asks of the value of its lock.
abbrev pub Agrees : MergeKind → String → String → Type 0
Agrees bool_or asked locked = (not (is_true asked) || locked == "1") ≡ true
Agrees csv_text asked locked =
    (item : String)
    → (not (has_text (csv_strings asked) item) || has_text (csv_strings locked) item) ≡ true
Agrees csv_number asked locked =
    (n : ℕ) → (not (has_number (csv_u32 asked) n) || has_number (csv_u32 locked) n) ≡ true
Agrees exact asked locked = locked ≡ asked

All-append : {A : Type 0} (P : A → Type 0) (l m : List A) → All P l → All P m → All P (l ++ m)
All-append P [] m h k = k
All-append P (a ∷ l) m (p, h) k = (p, All-append P l m h k)

-- The items of two lists that are merged are those of both.
csv_strings-merge_csv_strings :
    (old new item : String)
    → has_text (csv_strings (merge_csv_strings old new)) item
      ≡ (has_text (csv_strings old) item || has_text (csv_strings new) item)
unfolding merge_csv_strings dedup_strings
csv_strings-merge_csv_strings old new item =
    let both = csv_strings old ++ csv_strings new in
    let items : All IsItem (dedup (sort_by str_leb both)) =
      All-dedup IsItem (sort_by str_leb both) (
        All-sort_by str_leb IsItem both (
          All-append IsItem (csv_strings old) (csv_strings new) (csv_strings-IsItem old)
            (csv_strings-IsItem new))) in
    ap (λ l. has_text l item) (csv_strings-join _ items)
    ∙ has_text-sorted both item
    ∙ has_text-append (csv_strings old) (csv_strings new) item

has_number-append :
    (l m : List ℕ) (n : ℕ) → has_number (l ++ m) n ≡ (has_number l n || has_number m n)
unfolding has_number
has_number-append [] m n = refl
has_number-append (a ∷ l) m n = ground (arith, has_number-append l m n)

-- The numbers of two lists that are merged are those of both.
csv_u32-merge_csv_u32 :
    (old new : String) (n : ℕ)
    → has_number (csv_u32 (merge_csv_u32 old new)) n
      ≡ (has_number (csv_u32 old) n || has_number (csv_u32 new) n)
unfolding merge_csv_u32
csv_u32-merge_csv_u32 old new n =
    let both = csv_u32 old ++ csv_u32 new in
    let small : All IsU32 (dedup_numbers both) =
      All-dedup_numbers IsU32 both
        (All-append IsU32 (csv_u32 old) (csv_u32 new) (csv_u32-IsU32 old) (csv_u32-IsU32 new)) in
    ap (λ l. has_number l n) (csv_u32-join_numbers (dedup_numbers both) small)
    ∙ has_number-dedup_numbers both n
    ∙ has_number-append (csv_u32 old) (csv_u32 new) n

one-is_true : is_true "1" ≡ true
unfolding is_true
one-is_true = refl

new_flag : (old new : Bool) → (not new || (if old || new then "1" else "0") == "1") ≡ true
new_flag true true = refl
new_flag true false = refl
new_flag false true = refl
new_flag false false = refl

old_flag :
    (asked : Bool) (old : String) (new : Bool)
    → (not asked || old == "1") ≡ true
    → (not asked || (if is_true old || new then "1" else "0") == "1") ≡ true
old_flag false old new h = refl
old_flag true old new h = rw (ap is_true ((eq_iff old "1").0 h) ∙ one-is_true) refl

-- A merge agrees with the new value, and with all that the old one agreed with.
merge_value-Agrees :
    (kind : MergeKind) (key old new merged : String)
    → merge_value kind key old new ≡ ok merged
    → Agrees kind new merged × ((asked : String) → Agrees kind asked old → Agrees kind asked merged)
unfolding merge_value
merge_value-Agrees bool_or key old new merged h =
    let e = ok-injective h in
    (
      subst (λ m. (not (is_true new) || m == "1") ≡ true) e (new_flag (is_true old) (is_true new)),
      λ asked a.
          subst (λ m. (not (is_true asked) || m == "1") ≡ true) e
            (old_flag (is_true asked) old (is_true new) a),
    )
merge_value-Agrees csv_text key old new merged h =
    let e = ok-injective h in
    (
      λ item.
          subst
            (λ m. (not (has_text (csv_strings new) item) || has_text (csv_strings m) item) ≡ true) e
            (ground (arith, csv_strings-merge_csv_strings old new item)),
      λ asked a item.
          subst
            (λ m. (not (has_text (csv_strings asked) item) || has_text (csv_strings m) item) ≡ true)
            e (ground (arith, a item, csv_strings-merge_csv_strings old new item)),
    )
merge_value-Agrees csv_number key old new merged h =
    let e = ok-injective h in
    (
      λ n.
          subst (λ m. (not (has_number (csv_u32 new) n) || has_number (csv_u32 m) n) ≡ true) e
            (ground (arith, csv_u32-merge_csv_u32 old new n)),
      λ asked a n.
          subst (λ m. (not (has_number (csv_u32 asked) n) || has_number (csv_u32 m) n) ≡ true) e
            (ground (arith, a n, csv_u32-merge_csv_u32 old new n)),
    )
merge_value-Agrees exact key old new merged h =
    (ground (arith, eq_iff old new), λ asked a. ground (arith, eq_iff old new))

same_kind-eq : (a b : MergeKind) → same_kind a b ≡ true → a ≡ b
unfolding same_kind
same_kind-eq bool_or bool_or h = refl
same_kind-eq csv_text csv_text h = refl
same_kind-eq csv_number csv_number h = refl
same_kind-eq exact exact h = refl
same_kind-eq _ _ h = cc

-- The key of the setting has an entry of its kind, and the entry's value agrees with it.
unfoldable pub Holds : Dict Entry → NormalizedSetting → Type 0
Holds merged setting =
    (entry : Entry) × (find setting.env_key merged ≡ some entry)
    × (entry.merge_kind ≡ setting.merge_kind)
    × Agrees setting.merge_kind setting.value entry.value

-- What a merge makes of an entry.
pub merge_entry-Agrees :
    (name : String) (setting : NormalizedSetting) (entry after : Entry)
    → merge_entry name setting entry ≡ ok after
    → (entry.merge_kind ≡ setting.merge_kind)
      × (after.merge_kind ≡ entry.merge_kind)
      × Agrees setting.merge_kind setting.value after.value
      × ((asked : String)
          → Agrees setting.merge_kind asked entry.value
          → Agrees setting.merge_kind asked after.value)
unfolding merge_entry
merge_entry-Agrees name setting entry after h =
    let (_, same, h1) =
      >>=-eq-ok (fail_if (not (same_kind entry.merge_kind setting.merge_kind)) _) _ h in
    let (merged, run, h2) =
      >>=-eq-ok (merge_value setting.merge_kind setting.env_key entry.value setting.value) _ h1 in
    let e = ok-injective h2 in
    let (new, old) =
      merge_value-Agrees setting.merge_kind setting.env_key entry.value setting.value merged run in
    let value : merged ≡ after.value = ap (λ (n : Entry). n.value) e in
    (
      same_kind-eq entry.merge_kind setting.merge_kind (test_passed _ _ same),
      sym (ap (λ (n : Entry). n.merge_kind) e),
      subst (λ m. Agrees setting.merge_kind setting.value m) value new,
      λ asked a. subst (λ m. Agrees setting.merge_kind asked m) value (old asked a),
    )
