-- ===== src/Policy/Described.antt =====
-- stonr/src/policy.rs: the policy with the blob store's part, and the branches it can take.
use stonr.Base.{
  ℕ, ◌≡◌, refl, true, false, ◌⊎◌, inl, inr, nat_eq, if◌then◌else◌, Result, ok, ◌>>◌, >>=-eq-ok, sym,
  subst, ◌∙◌, Bool-cases,
}
use stonr.Event.{Event}
use stonr.External.{External}
use stonr.Files.{FileSettings, FileDisk}
use stonr.Files.Metadata.{validate_metadata_event}
use stonr.Policy.{Settings, is_owner_pubkey, check_event, validate_event}

module _ ⦃x : External⦄ where
  -- `validate_event_with_files`
  unfoldable pub validate_event_with_files :
      Settings → FileSettings → FileDisk → Event → ℕ → Result (Unit {0})
  unfolding is_owner_pubkey validate_event validate_metadata_event
  validate_event_with_files settings file_settings files event now =
      if is_owner_pubkey settings event.pubkey then ok tt else do
        validate_event settings event now
        if nat_eq event.kind 1063 then validate_metadata_event event file_settings files else ok tt

  stranger-validate_event :
      (settings : Settings) (event : Event) (now : ℕ)
      → is_owner_pubkey settings event.pubkey ≡ false
      → validate_event settings event now ≡ check_event settings event now
  unfolding validate_event
  stranger-validate_event settings event now stranger = rw stranger refl

  stranger_tests :
      (settings : Settings) (file_settings : FileSettings) (files : FileDisk) (event : Event)
      (now : ℕ)
      → is_owner_pubkey settings event.pubkey ≡ false
      → validate_event_with_files settings file_settings files event now ≡ ok tt
      → (validate_event settings event now
          >> (if nat_eq event.kind 1063
              then validate_metadata_event event file_settings files
              else ok tt))
        ≡ ok tt
  unfolding validate_event_with_files
  stranger_tests settings file_settings files event now stranger h =
      subst
        (λ owner.
          (if owner
            then ok tt
            else (validate_event settings event now
                >> (if nat_eq event.kind 1063
                    then validate_metadata_event event file_settings files
                    else ok tt)))
          ≡ ok tt)
        stranger h

  any_kind :
      (file_settings : FileSettings) (files : FileDisk) (event : Event)
      → (if nat_eq event.kind 1063
          then validate_metadata_event event file_settings files
          else ok tt)
        ≡ ok tt
      → validate_metadata_event event file_settings files ≡ ok tt
  any_kind file_settings files event h = elim (Bool-cases (nat_eq event.kind 1063)) [
    | inl described ↦ rw described at h
    | inr plain ↦ unfold validate_metadata_event in rw plain refl
  ]

  -- What passes is an owner's, or passes every test.
  pub validate_event_with_files-passed :
      (settings : Settings) (file_settings : FileSettings) (files : FileDisk) (event : Event)
      (now : ℕ)
      → validate_event_with_files settings file_settings files event now ≡ ok tt
      → (is_owner_pubkey settings event.pubkey ≡ true)
        ⊎ ((check_event settings event now ≡ ok tt)
            × (validate_metadata_event event file_settings files ≡ ok tt))
  validate_event_with_files-passed settings file_settings files event now h =
      elim (Bool-cases (is_owner_pubkey settings event.pubkey)) [
        | inl owner ↦ inl owner
        | inr stranger ↦
            let (_, checked, described) =
              >>=-eq-ok (validate_event settings event now) _
                (stranger_tests settings file_settings files event now stranger h) in
            inr (
              sym (stranger-validate_event settings event now stranger) ∙ checked,
              any_kind file_settings files event described,
            )
      ]
