-- ===== src/Policy/Validation.antt =====
-- What `validate_event` accepts, and how long an answer is under the query policy.
use stonr.Base.{
  ℕ, ◌+◌, ◌≤◌, Bool, true, false, Option, none, some, List, ◌≡◌, ◌↔◌, refl, arith, u64_max, length,
  min, unwrap_or, ok, inl, inr, ◌⊎◌, Bool-cases,
}
use stonr.Event.{Event}
use stonr.External.{External}
use stonr.Policy.{
  Settings, is_owner_pubkey, is_private_message_kind, apply_query_policy, check_event,
  validate_event,
}
use stonr.Query.{Query, has_text, has_number}
use stonr.Store.{Store, Disk}
use stonr.Store.Read.{query_with_policy}
use stonr.Store.Read.Shape.{query_with_policy-HasShape}

-- What a setting asks, if it is configured.
abbrev pub Limited : {A : Type 0} → Option A → (A → Type 0) → Type 0
Limited none P = Unit
Limited (some a) P = P a

module _ ⦃x : External⦄ where
  -- What the settings ask of an event of anyone but an owner, each limit if it is configured.
  pub record IsAdmitted (settings : Settings) (event : Event) (now : ℕ) : Type 0 where
    pub is_public :
        settings.filter_private_messages ≡ true → is_private_message_kind event.kind ≡ false
    pub unblocked : Limited settings.blocked_pubkeys (λ keys. has_text keys event.pubkey ≡ false)
    pub allowed : Limited settings.allowed_pubkeys (λ keys. has_text keys event.pubkey ≡ true)
    pub kind_unblocked :
        Limited settings.blocked_kinds (λ kinds. has_number kinds event.kind ≡ false)
    pub kind_allowed : Limited settings.allowed_kinds (λ kinds. has_number kinds event.kind ≡ true)
    pub small : Limited settings.max_event_bytes (λ n. x.json_len event ≤ n)
    pub recent : Limited settings.max_event_age_secs (λ n. now ≤ event.created_at + n)
    pub past : Limited settings.max_event_future_secs (λ n. event.created_at ≤ now + n)

  check_event_iff :
      (settings : Settings) (event : Event) (now : ℕ)
      → event.created_at ≤ u64_max
      → (check_event settings event now ≡ ok tt) ↔ IsAdmitted settings event now
  unfolding check_event
  check_event_iff settings event now fits = (λ h. ground (arith, h), λ a. ground (arith, a))

  -- For an event whose time is a `u64`, `validate_event` accepts exactly the events of the owners
  -- and those within every configured limit, with ages and future times as differences of unbounded
  -- numbers: the saturation of the code's arithmetic admits nothing more.
  pub validate_event_iff :
      (settings : Settings) (event : Event) (now : ℕ)
      → event.created_at ≤ u64_max
      → (validate_event settings event now ≡ ok tt)
        ↔ ((is_owner_pubkey settings event.pubkey ≡ true) ⊎ IsAdmitted settings event now)
  unfolding validate_event
  validate_event_iff settings event now fits = (
    λ h. elim (Bool-cases (is_owner_pubkey settings event.pubkey)) [
      | inl owner ↦ inl owner
      | inr stranger ↦ inr ((check_event_iff settings event now fits).0 (rw stranger at h))
    ],
    λ a. elim a [
      | inl owner ↦ rw owner refl
      | inr admitted ↦
          let checked = (check_event_iff settings event now fits).1 admitted in
          elim (Bool-cases (is_owner_pubkey settings event.pubkey)) [
            | inl owner ↦ rw owner refl
            | inr stranger ↦ rw stranger checked
          ]
    ],
  )

  -- Under the query policy an answer has at most as many events as the configured maximum, and as
  -- the filter's own limit, whatever is on the disk.
  pub query_with_policy-apply_query_policy :
      (settings : Settings) (store : Store) (disk : Disk) (now : ℕ) (q : Query)
      (deletes expires : Bool) (max_limit : ℕ) {events : List Event}
      → settings.max_limit ≡ some max_limit
      → query_with_policy store disk now (apply_query_policy settings q) deletes expires ≡ ok events
      → (length events ≤ max_limit) × Limited q.limit (λ n. length events ≤ n)
  unfolding apply_query_policy
  query_with_policy-apply_query_policy settings store disk now q deletes expires max_limit at h =
      let (_, _, short) =
        query_with_policy-HasShape store disk now (apply_query_policy settings q) deletes expires
          h in
      ground (arith, short (min (unwrap_or q.limit max_limit) max_limit))
