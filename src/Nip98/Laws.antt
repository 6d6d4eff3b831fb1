-- ===== src/Nip98/Laws.antt =====
-- The header of an HTTP request in shared/nostr-shared/src/nip98.rs: building it and checking it.
use Prim.Native.String.{◌++◌ as str_append}
use mathlib.Core.Path.{subst}
use stonr.Base.{
  ℕ, ◌+◌, ◌-◌, ◌%◌, ◌^◌, ◌≤◌, ◌<◌, String, true, Option, none, some, ◌==◌, ◌||◌, not, ltb, nat_eq,
  nat_eq_iff, find_map, unwrap_or, Result, ok, fail_if, ok_or, ok_or_iff, test_passed, >>=-eq-ok,
  ok-injective, ◌≡◌, refl, ◌∙◌, arith, eq_iff,
}
use stonr.Base.Text.{strip_prefix-append, eq_ignore_ascii_case, eq_ignore_ascii_case_refl}
use stonr.Crypto.{verify_event, sign_event}
use stonr.Crypto.Laws.{SignsSoundly, verify_event-sign_event}
use stonr.Event.{Event, tag_value, named_value}
use stonr.External.{External, AuthCrates}
use stonr.Nip98.{
  auth_kind, max_skew_secs, payload_tag_matches, check_payload, verify_http_auth, check_auth_event,
  read_auth_event, auth_event, payload_tags, build_http_auth_header,
}

skew_passed :
    (created_at now : ℕ) (message : String)
    → now + 300 < 2 ^ 64
    → fail_if (ltb ((now + 300) % 2 ^ 64) created_at || ltb 300 (now - created_at)) message ≡ ok tt
    → (created_at ≤ now + 300) × (now ≤ created_at + 300)
skew_passed created_at now message fits h = ground arith

module _ ⦃x : External⦄ ⦃w : AuthCrates⦄ where
  -- What an event has to be for a request.
  pub record Authorizes (event : Event) (method url : String) (payload : Option String) (now : ℕ)
      : Type 0 where
    pub signed : verify_event event ≡ ok tt
    pub kind : event.kind ≡ 27235
    pub not_early : event.created_at ≤ now + 300
    pub not_old : now ≤ event.created_at + 300
    pub for_url : tag_value event "u" ≡ some url
    pub for_method :
        (m : String) × (tag_value event "method" ≡ some m) × (eq_ignore_ascii_case m method ≡ true)
    pub for_payload : check_payload event payload ≡ ok tt

  check_auth_event-Authorizes :
      (event : Event) (method url : String) (payload : Option String) (now : ℕ) {pubkey : String}
      → now + 300 < 2 ^ 64
      → check_auth_event event method url payload now ≡ ok pubkey
      → Authorizes event method url payload now × (event.pubkey ≡ pubkey)
  unfolding check_auth_event
  check_auth_event-Authorizes event method url payload now fits h =
      let (_, signed, h) = >>=-eq-ok (verify_event event) _ h in
      let (_, right_kind, h) =
        >>=-eq-ok (fail_if (not (nat_eq event.kind auth_kind)) "blocked: invalid auth event kind") _
          h in
      let (_, fresh, h) =
        >>=-eq-ok
          (fail_if
            (ltb ((now + max_skew_secs) % 2 ^ 64) event.created_at
              || ltb max_skew_secs (now - event.created_at))
            "blocked: stale auth event")
          _ h in
      let (at, tagged, h) =
        >>=-eq-ok (ok_or (tag_value event "u") "blocked: auth missing url tag") _ h in
      let (_, same, h) = >>=-eq-ok (fail_if (not (at == url)) "blocked: auth url mismatch") _ h in
      let (m, named, h) =
        >>=-eq-ok (ok_or (tag_value event "method") "blocked: auth missing method tag") _ h in
      let (_, matches, h) =
        >>=-eq-ok (fail_if (not (eq_ignore_ascii_case m method)) "blocked: auth method mismatch") _
          h in
      let (_, paid, done) = >>=-eq-ok (check_payload event payload) _ h in
      (
        record {
          signed = signed;
          kind = (nat_eq_iff event.kind 27235).0 (test_passed _ _ right_kind);
          not_early = (skew_passed event.created_at now "blocked: stale auth event" fits fresh).0;
          not_old = (skew_passed event.created_at now "blocked: stale auth event" fits fresh).1;
          for_url =
              (ok_or_iff (tag_value event "u") "blocked: auth missing url tag" at).0 tagged
              ∙ (λ i. some ((eq_iff at url).0 (test_passed _ _ same) i));
          for_method = (
            m,
            (ok_or_iff (tag_value event "method") "blocked: auth missing method tag" m).0 named,
            test_passed _ _ matches,
          );
          for_payload = paid;
        },
        ok-injective done,
      )

  check_auth_event-of_Authorizes :
      (event : Event) (method url : String) (payload : Option String) (now : ℕ)
      → now + 300 < 2 ^ 64
      → Authorizes event method url payload now
      → check_auth_event event method url payload now ≡ ok event.pubkey
  unfolding check_auth_event
  check_auth_event-of_Authorizes event method url payload now fits a =
      let (m, named, matches) = a.for_method in
      ground (
        arith,
        a.signed,
        a.kind,
        (ok_or_iff (tag_value event "u") "blocked: auth missing url tag" url).1 a.for_url,
        (ok_or_iff (tag_value event "method") "blocked: auth missing method tag" m).1 named,
        matches,
        a.for_payload,
        eq_iff url url,
        fits,
        a.not_early,
        a.not_old,
      )

  -- A request that is let in as some public key came with a header that decodes to an event by that
  -- key which verifies, has the kind, the request's own address and method and, for a body, its hash,
  -- and is at most 300 seconds off the clock, which is far from the end of a `u64`.
  pub verify_http_auth-Authorizes :
      (authorization : Option (Result String)) (method url : String) (payload : Option String)
      (now : ℕ) {pubkey : String}
      → now + 300 < 2 ^ 64
      → verify_http_auth authorization method url payload now ≡ ok pubkey
      → (event : Event) × (read_auth_event authorization ≡ ok event)
        × Authorizes event method url payload now
        × (event.pubkey ≡ pubkey)
  unfolding verify_http_auth
  verify_http_auth-Authorizes authorization method url payload now fits h =
      let (event, read, checked) = >>=-eq-ok (read_auth_event authorization) _ h in
      let (a, by) = check_auth_event-Authorizes event method url payload now fits checked in
      (event, read, a, by)

  read_auth_event-encode :
      (event : Event)
      → w.decode_event (w.encode_event event) ≡ ok event
      → read_auth_event (some (ok (str_append "Nostr " (w.encode_event event)))) ≡ ok event
  unfolding read_auth_event ok_or
  read_auth_event-encode event back = rw (strip_prefix-append "Nostr " (w.encode_event event)) back

  tags-check_payload :
      (event : Event) (method url : String) (payload : Option String) (time : ℕ)
      → event.tags ≡ (auth_event method url payload time).tags
      → check_payload event payload ≡ ok tt
  unfolding check_payload auth_event tag_value named_value find_map payload_tags payload_tag_matches
      ok_or
  tags-check_payload event method url none time tags = refl
  tags-check_payload event method url (some hash) time tags =
      rw tags (rw (eq_ignore_ascii_case_refl hash) refl)

  built-Authorizes :
      (event : Event) (method url : String) (payload : Option String) (time now : ℕ)
      → eq_ignore_ascii_case (w.uppercase method) method ≡ true
      → time ≤ now + 300
      → now ≤ time + 300
      → verify_event event ≡ ok tt
      → event.kind ≡ (auth_event method url payload time).kind
      → event.created_at ≡ (auth_event method url payload time).created_at
      → event.tags ≡ (auth_event method url payload time).tags
      → Authorizes event method url payload now
  unfolding auth_event tag_value named_value find_map
  built-Authorizes event method url payload time now cased early late verified kind at tags =
      record {
        signed = verified;
        kind = kind;
        not_early = rw at early;
        not_old = rw at late;
        for_url = rw tags refl;
        for_method = (w.uppercase method, rw tags refl, cased);
        for_payload = tags-check_payload event method url payload time tags;
      }

  -- The header that `build_http_auth_header` makes with a usable secret key is accepted for the same
  -- request, as that key's public key, for 300 seconds either way of its time: if the method differs
  -- from its upper case in the case of ASCII letters alone, base64 and JSON read back the event that
  -- they wrote, and signatures check.
  pub verify_http_auth-build_http_auth_header :
      (secret method url : String) (payload : Option String) (created_at : Option ℕ) (built now : ℕ)
      {header : String}
      → SignsSoundly x
      → ((event : Event)
          → sign_event (auth_event method url payload (unwrap_or created_at built)) secret
            ≡ ok event
          → w.decode_event (w.encode_event event) ≡ ok event)
      → eq_ignore_ascii_case (w.uppercase method) method ≡ true
      → now + 300 < 2 ^ 64
      → unwrap_or created_at built ≤ now + 300
      → now ≤ unwrap_or created_at built + 300
      → build_http_auth_header secret method url payload created_at built ≡ ok header
      → (pubkey : String) × (x.public_key secret ≡ ok pubkey)
        × (verify_http_auth (some (ok header)) method url payload now ≡ ok pubkey)
  unfolding build_http_auth_header verify_http_auth
  verify_http_auth-build_http_auth_header secret method url payload created_at built now sound back
        cased fits early late h =
      let (event, signed, made) =
        >>=-eq-ok (sign_event (auth_event method url payload (unwrap_or created_at built)) secret) _
          h in
      let (verified, known, kind, time, tags, _) = verify_event-sign_event _ secret sound signed in
      let a =
        built-Authorizes event method url payload (unwrap_or created_at built) now cased early late
          verified kind time tags in
      (
        event.pubkey,
        known,
        subst (λ t. verify_http_auth (some (ok t)) method url payload now ≡ ok event.pubkey)
            (ok-injective made)
            (rw (read_auth_event-encode event (back event signed))
              (check_auth_event-of_Authorizes event method url payload now fits a)),
      )
