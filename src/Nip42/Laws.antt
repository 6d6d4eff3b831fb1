-- ===== src/Nip42/Laws.antt =====
-- AUTH events and a session's keys in shared/nostr-shared/src/nip42.rs.
use stonr.Base.{
  ℕ, ◌+◌, ◌≤◌, String, true, false, some, List, [], ◌∷◌, ◌==◌, ◌||◌, ok, ◌≡◌, ◌≢◌, ◌↔◌, refl, sym,
  ◌∙◌, arith, eq_iff, inl, inr, Bool-cases, >>=-eq-ok, fail_if, ok_or, ok_or_iff, test_passed,
  nat_eq_iff, nat_eq, not, ltb,
}
use stonr.Base.TextOrder.{str_leb, str_leb_refl, str_leb_total, str_leb_trans}
use stonr.Crypto.{verify_event}
use stonr.Event.{Event, tag_value}
use stonr.External.{External, AuthCrates}
use stonr.Query.{has_text}
use stonr.Nip42.{
  SessionAuth, authenticate, is_authenticated, contains_pubkey, min_text, actor_pubkey,
  relay_tag_matches, verify_auth_event, abs_diff,
}

fresh_passed :
    (a b most : ℕ) (message : String)
    → fail_if (ltb most (abs_diff a b)) message ≡ ok tt
    → (b ≤ a + most) × (a ≤ b + most)
unfolding abs_diff
fresh_passed a b most message h = ground arith

some-injective : {a b : String} → some a ≡ some b → a ≡ b
some-injective h = cc

module _ ⦃x : External⦄ ⦃w : AuthCrates⦄ where
  -- What an AUTH event has to be for a session.
  pub record Authenticates (event : Event) (challenge bind_ws : String) (max_age_secs now : ℕ)
      : Type 0 where
    pub kind : event.kind ≡ 22242
    pub signed : verify_event event ≡ ok tt
    pub answers : tag_value event "challenge" ≡ some challenge
    pub names :
        (relay : String) × (tag_value event "relay" ≡ some relay)
        × (relay_tag_matches relay bind_ws ≡ true)
    pub not_old : now ≤ event.created_at + max_age_secs
    pub not_early : event.created_at ≤ now + max_age_secs

  -- An AUTH event is accepted exactly when it has the kind, verifies, carries the session's own
  -- challenge in its first challenge tag and an address of this relay in its first relay tag, and is
  -- at most the configured age off the clock either way.
  pub verify_auth_event_iff :
      (event : Event) (challenge bind_ws : String) (max_age_secs now : ℕ)
      → (verify_auth_event event challenge bind_ws max_age_secs now ≡ ok tt)
        ↔ Authenticates event challenge bind_ws max_age_secs now
  unfolding verify_auth_event abs_diff
  verify_auth_event_iff event challenge bind_ws max_age_secs now = (
    λ h.
        let (_, right_kind, h) =
          >>=-eq-ok (fail_if (not (nat_eq event.kind 22242)) "AUTH event must use kind 22242") _
            h in
        let (_, signed, h) = >>=-eq-ok (verify_event event) _ h in
        let (found, tagged, h) =
          >>=-eq-ok (ok_or (tag_value event "challenge") "AUTH event missing challenge tag") _ h in
        let (_, same, h) =
          >>=-eq-ok (fail_if (not (found == challenge)) "AUTH event challenge mismatch") _ h in
        let (relay, named, h) =
          >>=-eq-ok (ok_or (tag_value event "relay") "AUTH event missing relay tag") _ h in
        let (_, matches, fresh) =
          >>=-eq-ok
            (fail_if (not (relay_tag_matches relay bind_ws))
              "AUTH event relay tag does not match this relay")
            _ h in
        let own : found ≡ challenge = (eq_iff found challenge).0 (test_passed _ _ same) in
        record {
          kind = (nat_eq_iff event.kind 22242).0 (test_passed _ _ right_kind);
          signed = signed;
          answers =
              (ok_or_iff (tag_value event "challenge") "AUTH event missing challenge tag" found).0
                tagged
              ∙ (λ i. some (own i));
          names = (
            relay,
            (ok_or_iff (tag_value event "relay") "AUTH event missing relay tag" relay).0 named,
            test_passed _ _ matches,
          );
          not_old = (fresh_passed event.created_at now max_age_secs _ fresh).0;
          not_early = (fresh_passed event.created_at now max_age_secs _ fresh).1;
        },
    λ a.
        let (relay, named, matches) = a.names in
        ground (
          arith,
          a.signed,
          (ok_or_iff (tag_value event "challenge") "AUTH event missing challenge tag" challenge).1
              a.answers,
          (ok_or_iff (tag_value event "relay") "AUTH event missing relay tag" relay).1 named,
          eq_iff challenge challenge,
          matches,
          a.kind,
          a.not_old,
          a.not_early,
        ),
  )

  -- An AUTH event that one session accepts is refused by every session with another challenge,
  -- whatever the time and the configured age there.
  pub verify_auth_event-no_replay :
      (event : Event) (challenge other bind_ws : String) (age now age' now' : ℕ)
      → verify_auth_event event challenge bind_ws age now ≡ ok tt
      → challenge ≢ other
      → verify_auth_event event other bind_ws age' now' ≢ ok tt
  verify_auth_event-no_replay event challenge other bind_ws age now age' now' h different again =
      let a = (verify_auth_event_iff event challenge bind_ws age now).0 h in
      let b = (verify_auth_event_iff event other bind_ws age' now').0 again in
      different (some-injective (sym a.answers ∙ b.answers))

-- The least text of a list is one of its texts, and not after any other.
IsLeast : List String → Type 0
IsLeast keys =
    (least : String) × (min_text keys ≡ some least)
    × (has_text keys least ≡ true)
    × ((key : String) → has_text keys key ≡ true → str_leb least key ≡ true)

min_text-IsLeast_of_cons : (first : String) (keys : List String) → IsLeast (first ∷ keys)
unfolding IsLeast min_text has_text
min_text-IsLeast_of_cons first [] = (
  first,
  refl,
  ground (arith, eq_iff first first),
  λ key h. ground (arith, eq_iff first key, str_leb_refl first),
)
min_text-IsLeast_of_cons first (second ∷ keys) =
    let (least, found, among, below) = min_text-IsLeast_of_cons second keys in
    elim (Bool-cases (str_leb first least)) [
      | inl front ↦ (
        first,
        ground (arith, found),
        ground (arith, eq_iff first first),
        λ key h.
            ground (
              arith,
              eq_iff first key,
              str_leb_refl first,
              below key,
              str_leb_trans first least key,
            ),
      )
      | inr later ↦ (
        least,
        ground (arith, found),
        ground (arith, among),
        λ key h. ground (arith, eq_iff first key, below key, str_leb_total first least),
      )
    ]

min_text-IsLeast : (keys : List String) (key : String) → has_text keys key ≡ true → IsLeast keys
unfolding has_text
min_text-IsLeast [] key h = absurd (cc)
min_text-IsLeast (first ∷ keys) key h = min_text-IsLeast_of_cons first keys

not-empty :
    (keys : List String) (key : String)
    → has_text keys key ≡ true
    → elim keys [ [] ↦ false | _ ∷ _ ↦ true ] ≡ true
unfolding has_text
not-empty [] key h = absurd (cc)
not-empty (first ∷ keys) key h = refl

-- The keys of a session after a successful AUTH are those of before and the new one, the session is
-- authenticated, and its actor is the least of its keys in the order of texts, however often and in
-- whatever order they came.
pub authenticate-actor_pubkey :
    (session : SessionAuth) (pubkey : String)
    → let after = authenticate session pubkey in
      ((key : String) → contains_pubkey after key ≡ (key == pubkey || contains_pubkey session key))
      × (is_authenticated after ≡ true)
      × ((actor : String) × (actor_pubkey after ≡ some actor)
          × (contains_pubkey after actor ≡ true)
          × ((key : String) → contains_pubkey after key ≡ true → str_leb actor key ≡ true))
unfolding authenticate contains_pubkey is_authenticated actor_pubkey has_text IsLeast
authenticate-actor_pubkey session pubkey = elim (Bool-cases (has_text session.pubkeys pubkey)) [
  | inl known ↦ rw known (
    (λ key. ground (arith, eq_iff key pubkey, known)),
    not-empty session.pubkeys pubkey known,
    min_text-IsLeast session.pubkeys pubkey known,
  )
  | inr new ↦ rw new (
    (λ key. ground (arith, eq_iff key pubkey, eq_iff pubkey key)),
    refl,
    min_text-IsLeast_of_cons pubkey session.pubkeys,
  )
]
