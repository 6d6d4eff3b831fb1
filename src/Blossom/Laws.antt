-- ===== src/Blossom/Laws.antt =====
-- stonr/src/blossom.rs: what an accepted authorization says of its event and of the blobs.
use stonr.Base.{
  ℕ, ◌≤◌, ◌<◌, String, Bool, true, false, Option, some, List, [], ◌∷◌, ◌&&◌, ◌⊎◌, inl, inr, ◌↔◌,
  not, any, map, keep, ltb, leb, nat_eq, nat_eq_iff, Result, ok, ok_or, ok_or_iff, fail_if,
  fail_if-eq-ok, test_passed, >>=-eq-ok, ok-injective, ◌≡◌, ◌≢◌, refl, sym, ap, ◌∙◌, subst, arith,
  eq_iff,
}
use stonr.Base.Text.{eq_ignore_ascii_case, parse_u64}
use stonr.Base.TextParts.{to_ascii_lowercase}
use stonr.Blossom.{
  blossom_auth_kind, Action, as_tag, VerifiedAuth, unauthorized, require_hash, tag_values,
  last_text, out_of_scope, is_blob_hash, auth_hashes, check_blossom_event, read_blossom_event,
  verify_auth,
}
use stonr.Crypto.{verify_event}
use stonr.Event.{Event}
use stonr.External.{External, BlossomCrates}
use stonr.Query.{has_text}
use stonr.Query.Sorted.{has_text-sorted}

has_text-keep :
    (p : String → Bool) (texts : List String) (text : String)
    → has_text (keep p texts) text ≡ (p text && has_text texts text)
unfolding has_text keep
has_text-keep p [] text = ground arith
has_text-keep p (a ∷ texts) text = ground (arith, eq_iff a text, has_text-keep p texts text)

unauthorized-ne-ok : (hashes : List String) → unauthorized hashes ≢ ok tt
unfolding unauthorized
unauthorized-ne-ok [] h = absurd (ground arith)
unauthorized-ne-ok (hash ∷ hashes) h = absurd (ground arith)

require_hash_iff :
    (auth : VerifiedAuth) (hash : String)
    → (require_hash auth hash ≡ ok tt) ↔ (has_text auth.hashes (to_ascii_lowercase hash) ≡ true)
unfolding require_hash
require_hash_iff auth hash = ground (arith, unauthorized-ne-ok auth.hashes)

pub Servers : List String → String → Type 0
Servers names host = (names ≡ []) ⊎ (has_text names host ≡ true)

out_of_scope-Servers :
    (names : List String) (host : String) → out_of_scope names host ≡ false → Servers names host
unfolding out_of_scope Servers
out_of_scope-Servers [] host h = inl refl
out_of_scope-Servers (name ∷ names) host h = inr (ground arith)

module _ ⦃x : External⦄ where
  -- What an event has to be for an action on a host.
  pub record Permits (event : Event) (action : Action) (host : String) (now : ℕ) : Type 0 where
    pub signed : verify_event event ≡ ok tt
    pub kind : event.kind ≡ 24242
    pub not_early : event.created_at ≤ now
    pub not_expired :
        (text : String) × (expiration : ℕ) × (last_text (tag_values event "expiration") ≡ some text)
        × (parse_u64 text ≡ some expiration)
        × (now < expiration)
    pub for_action :
        any (λ value. eq_ignore_ascii_case value (as_tag action)) (tag_values event "t") ≡ true
    pub for_server :
        Servers (map to_ascii_lowercase (tag_values event "server")) (to_ascii_lowercase host)

  check_blossom_event-Permits :
      (event : Event) (action : Action) (host : String) (now : ℕ) {auth : VerifiedAuth}
      → check_blossom_event event action host now ≡ ok auth
      → Permits event action host now
        × (record { pubkey = event.pubkey; hashes = auth_hashes event } ≡ auth)
  unfolding check_blossom_event
  check_blossom_event-Permits event action host now h =
      let (_, signed, h) = >>=-eq-ok (verify_event event) _ h in
      let (_, right_kind, h) =
        >>=-eq-ok (fail_if (not (nat_eq event.kind blossom_auth_kind)) _) _ h in
      let (_, past, h) = >>=-eq-ok (fail_if (ltb now event.created_at) _) _ h in
      let (text, tagged, h) = >>=-eq-ok (ok_or (last_text (tag_values event "expiration")) _) _ h in
      let (expiration, parsed, h) = >>=-eq-ok (ok_or (parse_u64 text) _) _ h in
      let (_, live, h) = >>=-eq-ok (fail_if (leb expiration now) _) _ h in
      let (_, permitted, h) =
        >>=-eq-ok
          (fail_if
            (not (any (λ value. eq_ignore_ascii_case value (as_tag action)) (tag_values event "t")))
            "blocked: auth action not permitted")
          _ h in
      let (_, scoped, done) =
        >>=-eq-ok
          (fail_if
            (out_of_scope (map to_ascii_lowercase (tag_values event "server"))
              (to_ascii_lowercase host))
            "blocked: auth server scope mismatch")
          _ h in
      (
        record {
          signed = signed;
          kind = (nat_eq_iff event.kind 24242).0 (test_passed _ _ right_kind);
          not_early = ground (arith, fail_if-eq-ok _ _ past);
          not_expired = (
            text,
            expiration,
            (ok_or_iff (last_text (tag_values event "expiration")) _ text).0 tagged,
            (ok_or_iff (parse_u64 text) _ expiration).0 parsed,
            ground (arith, fail_if-eq-ok _ _ live),
          );
          for_action = test_passed _ _ permitted;
          for_server = out_of_scope-Servers _ _ (fail_if-eq-ok _ _ scoped);
        },
        ok-injective done,
      )

  auth_hashes-exact :
      (event : Event) (hash : String)
      → has_text (auth_hashes event) hash
        ≡ (is_blob_hash hash && has_text (map to_ascii_lowercase (tag_values event "x")) hash)
  unfolding auth_hashes
  auth_hashes-exact event hash =
      has_text-sorted (keep is_blob_hash (map to_ascii_lowercase (tag_values event "x"))) hash
      ∙ has_text-keep is_blob_hash (map to_ascii_lowercase (tag_values event "x")) hash

  require_hash-exact :
      (event : Event) (auth : VerifiedAuth) (hash : String)
      → record { pubkey = event.pubkey; hashes = auth_hashes event } ≡ auth
      → (require_hash auth hash ≡ ok tt) ↔ (
          (is_blob_hash (to_ascii_lowercase hash)
            && has_text (map to_ascii_lowercase (tag_values event "x")) (to_ascii_lowercase hash))
          ≡ true)
  require_hash-exact event auth hash same =
      subst (λ b. (require_hash auth hash ≡ ok tt) ↔ (b ≡ true))
        (ap (λ a. has_text a.hashes (to_ascii_lowercase hash)) (sym same)
          ∙ auth_hashes-exact event (to_ascii_lowercase hash))
        (require_hash_iff auth hash)

  -- An accepted header decodes to an event which verifies, has the kind, is not of the future and
  -- has not expired, names the action and, if it names servers, the host. The authorization is for
  -- the event's author, and good for exactly the blobs that an `x` tag of the event names.
  pub verify_auth-Permits :
      ⦃w : BlossomCrates⦄ (authorization : Option (Result String)) (action : Action) (host : String)
      (now : ℕ) (auth : VerifiedAuth)
      → verify_auth authorization action host now ≡ ok auth
      → (event : Event) × (read_blossom_event authorization ≡ ok event)
        × Permits event action host now
        × (event.pubkey ≡ auth.pubkey)
        × ((hash : String)
            → (require_hash auth hash ≡ ok tt) ↔ (
                (is_blob_hash (to_ascii_lowercase hash)
                  && has_text
                      (map to_ascii_lowercase (tag_values event "x"))
                      (to_ascii_lowercase hash))
                ≡ true))
  unfolding verify_auth
  verify_auth-Permits authorization action host now auth h =
      let (event, read, checked) = >>=-eq-ok (read_blossom_event authorization) _ h in
      let (permits, same) = check_blossom_event-Permits event action host now checked in
      (
        event,
        read,
        permits,
        ap (λ a. a.pubkey) same,
        λ hash. require_hash-exact event auth hash same,
      )
