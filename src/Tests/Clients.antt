-- ===== src/Tests/Clients.antt =====
-- The theorems on what clients may do: policy, rate limits and the two kinds of authentication.
use stonr.Base.{
  ◌-◌, ◌≤◌, String, true, false, none, some, List, [], ◌∷◌, ◌==◌, ◌||◌, find_map, length, min,
  unwrap_or, ok, ◌≡◌, ◌≢◌, ◌↔◌, ◌⊎◌, refl, sym, ap, ◌∙◌, arith,
}
use stonr.Base.Text.{eq_ignore_ascii_case_refl}
use stonr.Base.TextOrder.{str_leb}
use stonr.Crypto.{verify_event, event_hash, sign_event}
use stonr.Event.{Event, named_value}
use stonr.External.{AuthCrates}
use stonr.Nip42.{
  SessionAuth, authenticate, is_authenticated, contains_pubkey, actor_pubkey, verify_auth_event,
}
use stonr.Nip42.Laws.{
  Authenticates, verify_auth_event_iff, verify_auth_event-no_replay, authenticate-actor_pubkey,
}
use stonr.Nip98.{verify_http_auth, read_auth_event, build_http_auth_header, auth_event}
use stonr.Nip98.Laws.{
  Authorizes, verify_http_auth-Authorizes, verify_http_auth-build_http_auth_header,
}
use stonr.Policy.{
  Settings, CounterKey, query, is_owner_pubkey, validate_event, apply_query_policy, max_per_window,
}
use stonr.Policy.RateLimit.{Request, passed, in_window, passed-in_window}
use stonr.Policy.Validation.{
  IsAdmitted, Limited, validate_event_iff, query_with_policy-apply_query_policy,
}
use stonr.Store.{empty}
use stonr.Store.Read.{query_with_policy, id_sets, load_all_events}
use stonr.Tests.Sample.{sample, note, small_store, any_event}

abbrev settings : Settings
settings = record {
  owner_pubkeys = some ("owner" ∷ []);
  filter_private_messages = true;
  blocked_pubkeys = some ("mallory" ∷ []);
  allowed_pubkeys = none;
  blocked_kinds = none;
  allowed_kinds = some (1 ∷ 5 ∷ []);
  max_event_bytes = some 1000;
  max_event_age_secs = some 60;
  max_event_future_secs = some 60;
  max_limit = some 10;
  rate_limit_window_secs = some 60;
  max_queries_per_window = some 2;
  max_counts_per_window = none;
  max_publishes_per_window = some 1;
}

validate_event_iff_example :
    (validate_event settings note 10 ≡ ok tt)
    ↔ ((is_owner_pubkey settings note.pubkey ≡ true) ⊎ IsAdmitted settings note 10)
validate_event_iff_example = validate_event_iff settings note 10 (omega arith)

nothing-found :
    query_with_policy small_store empty 10 (apply_query_policy settings any_event) true true ≡ ok []
unfolding query_with_policy apply_query_policy id_sets load_all_events
nothing-found = refl

query_with_policy-apply_query_policy_example :
    (length {A = Event} [] ≤ 10) × Limited any_event.limit (λ n. length {A = Event} [] ≤ n)
query_with_policy-apply_query_policy_example =
    query_with_policy-apply_query_policy settings small_store empty 10 any_event true true 10 refl
      nothing-found

abbrev requests : List Request
requests =
    record { action = query; actor = "ip:a"; now = 60 }
    ∷ record { action = query; actor = "ip:a"; now = 61 }
    ∷ record { action = query; actor = "ip:b"; now = 62 }
    ∷ record { action = query; actor = "ip:a"; now = 63 }
    ∷ []

abbrev counter : CounterKey
counter = record { action = query; bucket = 1; actor_key = "ip:a" }

passed-in_window_example :
    in_window settings 60 counter (passed settings 60 requests (λ key. none))
    ≡ min (in_window settings 60 counter requests) (2 - unwrap_or none 0)
unfolding max_per_window
passed-in_window_example =
    passed-in_window settings 60 requests (λ key. none) counter 2 refl (omega arith) refl
      (omega arith)

-- The events that authenticate carol, for a session and for an upload.
abbrev auth : Event
auth = record note {
  id = "";
  pubkey = "carol";
  kind = 22242;
  created_at = 100;
  tags = ("challenge" ∷ "c1" ∷ []) ∷ ("relay" ∷ "ws://r/" ∷ []) ∷ [];
  content = "";
}

abbrev signed_request : Event
signed_request = record auth {
  kind = 27235;
  tags = ("u" ∷ "https://r/up" ∷ []) ∷ ("method" ∷ "POST" ∷ []) ∷ ("payload" ∷ "ab" ∷ []) ∷ [];
}

-- Crates that know this one request.
instance abbrev crates : AuthCrates
crates = record {
  parse_url = λ url. none;
  encode_event = λ event. "event";
  decode_event = λ text. ok signed_request;
  hex_to_base64 = λ hash. ok hash;
  uppercase = λ method. method;
}

verify_auth_event_iff_example :
    (verify_auth_event auth "c1" "r" 60 90 ≡ ok tt) ↔ Authenticates auth "c1" "r" 60 90
verify_auth_event_iff_example = verify_auth_event_iff auth "c1" "r" 60 90

auth-accepted : verify_auth_event auth "c1" "r" 60 90 ≡ ok tt
unfolding verify_auth_event verify_event event_hash find_map named_value
auth-accepted = refl

distinct_challenges : ◌≢◌ {A = String} "c1" "c2"
distinct_challenges same = let e : true ≡ false = ap (λ (t : String). t == "c1") same in cc

verify_auth_event-no_replay_example : verify_auth_event auth "c2" "r" 60 95 ≢ ok tt
verify_auth_event-no_replay_example =
    verify_auth_event-no_replay auth "c1" "c2" "r" 60 90 60 95 auth-accepted distinct_challenges

abbrev session : SessionAuth
session = record { challenge = "c1"; pubkeys = "bob" ∷ [] }

authenticate-actor_pubkey_example :
    ((key : String)
      → contains_pubkey (authenticate session "alice") key
        ≡ (key == "alice" || contains_pubkey session key))
    × (is_authenticated (authenticate session "alice") ≡ true)
    × ((actor : String) × (actor_pubkey (authenticate session "alice") ≡ some actor)
        × (contains_pubkey (authenticate session "alice") actor ≡ true)
        × ((key : String)
            → contains_pubkey (authenticate session "alice") key ≡ true
            → str_leb actor key ≡ true))
authenticate-actor_pubkey_example = authenticate-actor_pubkey session "alice"

request-accepted :
    verify_http_auth (some (ok "Nostr event")) "post" "https://r/up" (some "AB") 120 ≡ ok "carol"
unfolding verify_http_auth verify_event event_hash find_map named_value
request-accepted = refl

verify_http_auth-Authorizes_example :
    (event : Event) × (read_auth_event (some (ok "Nostr event")) ≡ ok event)
    × Authorizes event "post" "https://r/up" (some "AB") 120
    × (event.pubkey ≡ "carol")
verify_http_auth-Authorizes_example =
    verify_http_auth-Authorizes (some (ok "Nostr event")) "post" "https://r/up" (some "AB") 120
      (omega arith) request-accepted

request-signed :
    sign_event (auth_event "POST" "https://r/up" (some "ab") 100) "carol" ≡ ok signed_request
unfolding sign_event auth_event event_hash
request-signed = refl

header-built :
    build_http_auth_header "carol" "POST" "https://r/up" (some "ab") (some 100) 0 ≡ ok "Nostr event"
unfolding build_http_auth_header sign_event
header-built = refl

verify_http_auth-build_http_auth_header_example :
    (pubkey : String) × (sample.public_key "carol" ≡ ok pubkey)
    × (verify_http_auth (some (ok "Nostr event")) "POST" "https://r/up" (some "ab") 120 ≡ ok pubkey)
verify_http_auth-build_http_auth_header_example =
    verify_http_auth-build_http_auth_header "carol" "POST" "https://r/up" (some "ab") (some 100) 0
      120 (λ secret pubkey digest h. refl) (λ event signed. sym request-signed ∙ signed)
      (eq_ignore_ascii_case_refl "POST") (omega arith) (omega arith) (omega arith) header-built
