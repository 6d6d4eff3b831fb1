-- ===== src/Config/Profiles/Merge/Locks.antt =====
-- stonr/src/autoconfig.rs: every setting that a loaded profile asks for has its lock.
use stonr.Base.{
  String, ◌≡◌, refl, List, [], ◌∷◌, ◌==◌, inl, inr, map, Result, ok, >>=-eq-ok, ok-injective,
  ok-pair, arith, eq_iff, ap, sym, subst, ◌∙◌, Bool-cases, In,
}
use stonr.Base.Dict.{Dict, find, find-put, find-In}
use stonr.Base.Sort.{In-sort_by}
use stonr.Config.Profiles.{NormalizedSetting, dedup_strings}
use stonr.Config.Profiles.Merge.{
  Entry, AppSupportProfile, AppSupportLock, AppSupportStatus, entry_or_new, merge_entry,
  merge_setting, merge_settings, merge_profiles, parse_settings_map, parse_support_file, lock_of,
  earlier_lock, load_app_support_status,
}
use stonr.Filter.{Value}
use stonr.Query.Sorted.{has_text-sorted}
use stonr.Store.Consistent.{has_text_iff}
use stonr.Config.Profiles.Merge.Agrees.{Agrees, Holds, merge_entry-Agrees}

merge_setting-Holds :
    (name : String) (setting : NormalizedSetting) (merged after : Dict Entry)
    → merge_setting name setting merged ≡ ok after
    → Holds after setting
unfolding merge_setting Holds
merge_setting-Holds name setting merged after h =
    let start = entry_or_new (find setting.env_key merged) setting in
    let (entry, run, h1) = >>=-eq-ok (merge_entry name setting start) _ h in
    let (kind, same, new, _) = merge_entry-Agrees name setting start entry run in
    (
      entry,
      sym (ap (find setting.env_key) (ok-injective h1))
          ∙ find-put setting.env_key setting.env_key entry merged
          ∙ ground (arith, eq_iff setting.env_key setting.env_key),
      same ∙ kind,
      new,
    )

merge_setting-keeps :
    (name : String) (setting other : NormalizedSetting) (merged after : Dict Entry)
    → merge_setting name setting merged ≡ ok after
    → Holds merged other
    → Holds after other
unfolding merge_setting entry_or_new Holds
merge_setting-keeps name setting other merged after h (was, known, kind, agrees) =
    let start = entry_or_new (find setting.env_key merged) setting in
    let (entry, run, h1) = >>=-eq-ok (merge_entry name setting start) _ h in
    let (asked, same, _, old) = merge_entry-Agrees name setting start entry run in
    let found =
      sym (ap (find other.env_key) (ok-injective h1))
      ∙ find-put other.env_key setting.env_key entry merged in
    elim (Bool-cases (setting.env_key == other.env_key)) [
      | inr different ↦ (was, (ground (arith, found)), kind, agrees)
      | inl is_it ↦
          let key = (eq_iff setting.env_key other.env_key).0 is_it in
          let start_is : start ≡ was =
            ap (λ o. entry_or_new o setting) (ap (λ k. find k merged) key ∙ known) in
          let kinds : other.merge_kind ≡ setting.merge_kind =
            sym kind ∙ sym (ap (λ (n : Entry). n.merge_kind) start_is) ∙ asked in
          let before =
            subst (λ (n : Entry). Agrees other.merge_kind other.value n.value) (sym start_is)
              agrees in
          (
            entry,
            (ground (arith, found)),
            same ∙ asked ∙ sym kinds,
            subst (λ k. Agrees k other.value entry.value) (sym kinds)
                (old other.value (subst (λ k. Agrees k other.value start.value) kinds before)),
          )
    ]

merge_settings-keeps :
    (name : String) (settings : List NormalizedSetting) (other : NormalizedSetting)
    (merged after : Dict Entry)
    → merge_settings name settings merged ≡ ok after
    → Holds merged other
    → Holds after other
unfolding merge_settings
merge_settings-keeps name [] other merged after h holds =
    subst (λ m. Holds m other) (ok-injective h) holds
merge_settings-keeps name (setting ∷ settings) other merged after h holds =
    let (next, run, h1) = >>=-eq-ok (merge_setting name setting merged) _ h in
    merge_settings-keeps name settings other next after h1
      (merge_setting-keeps name setting other merged next run holds)

merge_settings-Holds :
    (name : String) (settings : List NormalizedSetting) (setting : NormalizedSetting)
    (merged after : Dict Entry)
    → merge_settings name settings merged ≡ ok after
    → In setting settings
    → Holds after setting
unfolding merge_settings
merge_settings-Holds name [] setting merged after h m = absurd m
merge_settings-Holds name (first ∷ settings) setting merged after h m =
    let (next, run, h1) = >>=-eq-ok (merge_setting name first merged) _ h in
    elim m [
      | inl is_first ↦ merge_settings-keeps name settings setting next after h1 (
          subst (λ s. Holds next s) (sym is_first) (merge_setting-Holds name first merged next run))
      | inr later ↦ merge_settings-Holds name settings setting next after h1 later
    ]

-- One round of the loop over the paths.
merge_profiles-cons :
    (read : String → Result Value) (path : String) (paths : List String) (merged last : Dict Entry)
    (profiles : List AppSupportProfile)
    → merge_profiles read (path ∷ paths) merged ≡ ok (profiles, last)
    → (root : Value) × (read path ≡ ok root)
      × (name : String) × (settings : List NormalizedSetting) × (parse_settings_map root
          ≡ ok settings)
      × (next : Dict Entry) × (merge_settings name settings merged ≡ ok next)
      × (rest : List AppSupportProfile) × (merge_profiles read paths next ≡ ok (rest, last))
unfolding merge_profiles
merge_profiles-cons read path paths merged last profiles h =
    let (root, known, h1) = >>=-eq-ok (read path) _ h in
    let (profile, _, h2) = >>=-eq-ok (parse_support_file path root) _ h1 in
    let (settings, parsed, h3) = >>=-eq-ok (parse_settings_map root) _ h2 in
    let (next, run, h4) = >>=-eq-ok (merge_settings profile.name settings merged) _ h3 in
    let ((rest, final), more, h5) = >>=-eq-ok (merge_profiles read paths next) _ h4 in
    let ended : final ≡ last = (ok-pair h5).1 in
    (
      root,
      known,
      profile.name,
      settings,
      parsed,
      next,
      run,
      rest,
      more ∙ ap (λ m. ok (rest, m)) ended,
    )

merge_profiles-keeps :
    (read : String → Result Value) (paths : List String) (other : NormalizedSetting)
    (merged last : Dict Entry) (profiles : List AppSupportProfile)
    → merge_profiles read paths merged ≡ ok (profiles, last)
    → Holds merged other
    → Holds last other
unfolding merge_profiles
merge_profiles-keeps read [] other merged last profiles h holds =
    subst (λ m. Holds m other) (ok-pair h).1 holds
merge_profiles-keeps read (path ∷ paths) other merged last profiles h holds =
    let (_, _, name, settings, _, next, run, rest, more) =
      merge_profiles-cons read path paths merged last profiles h in
    merge_profiles-keeps read paths other next last rest more
      (merge_settings-keeps name settings other merged next run holds)

merge_profiles-Holds :
    (read : String → Result Value) (paths : List String) (path : String) (root : Value)
    (settings : List NormalizedSetting) (setting : NormalizedSetting) (merged last : Dict Entry)
    (profiles : List AppSupportProfile)
    → merge_profiles read paths merged ≡ ok (profiles, last)
    → In path paths
    → read path ≡ ok root
    → parse_settings_map root ≡ ok settings
    → In setting settings
    → Holds last setting
merge_profiles-Holds read [] path root settings setting merged last profiles h m known parsed s =
    absurd m
merge_profiles-Holds read (first ∷ paths) path root settings setting merged last profiles h m known
      parsed s =
    let (found, read_it, name, asked, parsed', next, run, rest, more) =
      merge_profiles-cons read first paths merged last profiles h in
    elim m [
      | inr later ↦
          merge_profiles-Holds read paths path root settings setting next last rest more later known
            parsed s
      | inl is_first ↦
          let same : found ≡ root = ok-injective (sym read_it ∙ ap read (sym is_first) ∙ known) in
          let same_settings : asked ≡ settings =
            ok-injective (sym parsed' ∙ ap parse_settings_map same ∙ parsed) in
          merge_profiles-keeps read paths setting next last rest more (
            merge_settings-Holds name asked setting merged next run
              (subst (λ l. In setting l) (sym same_settings) s))
    ]

In-map-lock_of :
    (key : String) (entry : Entry) (merged : Dict Entry)
    → In (key, entry) merged
    → In (lock_of (key, entry)) (map lock_of merged)
In-map-lock_of key entry [] m = absurd m
In-map-lock_of key entry (e ∷ merged) (inl same) = inl (ap lock_of same)
In-map-lock_of key entry (e ∷ merged) (inr later) = inr (In-map-lock_of key entry merged later)

-- Where the support profiles of a list load, every setting that a profile of the list asks for has
-- a lock of its key whose value agrees with it: it is the setting's own value if the kind is exact,
-- `1` if the setting is a true flag, and has every item of the setting if that is a list of texts or
-- of numbers.
pub load_app_support_status-Agrees :
    (read : String → Result Value) (paths : List String) (status : AppSupportStatus) (path : String)
    (root : Value) (settings : List NormalizedSetting) (setting : NormalizedSetting)
    → load_app_support_status read paths ≡ ok status
    → In path paths
    → read path ≡ ok root
    → parse_settings_map root ≡ ok settings
    → In setting settings
    → (lock : AppSupportLock) × In lock status.locks
      × (lock.env_key ≡ setting.env_key)
      × Agrees setting.merge_kind setting.value lock.value
unfolding load_app_support_status dedup_strings lock_of Holds
load_app_support_status-Agrees read paths status path root settings setting h m known parsed s =
    let ((profiles, merged), run, h1) =
      >>=-eq-ok (merge_profiles read (dedup_strings paths) []) _ h in
    let locks = ap (λ (t : AppSupportStatus). t.locks) (ok-injective h1) in
    let listed =
      (has_text_iff (dedup_strings paths) path).0
        (has_text-sorted paths path ∙ (has_text_iff paths path).1 m) in
    let (entry, found, _, agrees) =
      merge_profiles-Holds read (dedup_strings paths) path root settings setting [] merged profiles
        run listed known parsed s in
    (
      lock_of (setting.env_key, entry),
      subst (λ l. In (lock_of (setting.env_key, entry)) l) locks
          (In-sort_by earlier_lock _ _ (
            In-map-lock_of setting.env_key entry merged
              (find-In setting.env_key entry merged found))),
      refl,
      agrees,
    )
