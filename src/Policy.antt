-- ===== src/Policy.antt =====
-- stonr/src/policy.rs: which events the relay takes, how long an answer may be, and how often a
-- client may ask. `Settings` has the fields of stonr/src/config.rs that this code reads.
pub mod Validation
pub mod RateLimit
pub mod Described
use Prim.Native.String.{◌++◌ as str_append}
use stonr.Base.{
  ℕ, ◌+◌, ◌-◌, ◌/◌, String, Bool, true, false, Option, none, some, List, [], ◌∷◌, ◌==◌, ◌&&◌, ◌||◌,
  not, min, ltb, leb, nat_eq, if◌then◌else◌, is_some_and, unwrap_or, saturating_add, Result, ok,
  err, panic, fail_if, ◌>>=◌, ◌>>◌,
}
use stonr.Event.{Event}
use stonr.External.{External}
use stonr.Query.{Query, has_text, has_number}

pub record Settings : Type 0 where
  pub owner_pubkeys : Option (List String)
  pub filter_private_messages : Bool
  pub blocked_pubkeys : Option (List String)
  pub allowed_pubkeys : Option (List String)
  pub blocked_kinds : Option (List ℕ)
  pub allowed_kinds : Option (List ℕ)
  pub max_event_bytes : Option ℕ
  pub max_event_age_secs : Option ℕ
  pub max_event_future_secs : Option ℕ
  pub max_limit : Option ℕ
  pub rate_limit_window_secs : Option ℕ
  pub max_queries_per_window : Option ℕ
  pub max_counts_per_window : Option ℕ
  pub max_publishes_per_window : Option ℕ

unfoldable pub is_owner_pubkey : Settings → String → Bool
unfolding has_text
is_owner_pubkey settings pubkey =
    is_some_and settings.owner_pubkeys (λ owners. has_text owners pubkey)

unfoldable pub is_private_message_kind : ℕ → Bool
is_private_message_kind kind =
    nat_eq kind 4 || nat_eq kind 13 || nat_eq kind 14 || nat_eq kind 15 || nat_eq kind 1059

unfoldable pub apply_query_policy : Settings → Query → Query
apply_query_policy settings query = elim settings.max_limit [
  | none ↦ query
  | some max_limit ↦ record query { limit = some (min (unwrap_or query.limit max_limit) max_limit) }
]

module _ ⦃x : External⦄ where
  -- The tests that an event of anyone but an owner meets, in their order.
  unfoldable pub check_event : Settings → Event → ℕ → Result (Unit {0})
  unfolding has_text has_number is_private_message_kind
  check_event settings event now = do
    fail_if (settings.filter_private_messages && is_private_message_kind event.kind)
        "encrypted private messages are filtered"
    fail_if (is_some_and settings.blocked_pubkeys (λ pubkeys. has_text pubkeys event.pubkey))
        "author is blocked"
    fail_if (is_some_and settings.allowed_pubkeys (λ pubkeys. not (has_text pubkeys event.pubkey)))
        "author is not allowed"
    fail_if (is_some_and settings.blocked_kinds (λ kinds. has_number kinds event.kind))
        "event kind is blocked"
    fail_if (is_some_and settings.allowed_kinds (λ kinds. not (has_number kinds event.kind)))
        "event kind is not allowed"
    fail_if (is_some_and settings.max_event_bytes (λ max_bytes. ltb max_bytes (x.json_len event)))
        "event exceeds max size"
    fail_if
        (is_some_and settings.max_event_age_secs (λ max_age. ltb max_age (now - event.created_at)))
        "event is too old"
    fail_if
        (is_some_and settings.max_event_future_secs
          (λ max_future. ltb (saturating_add now max_future) event.created_at))
        "event is too far in the future"

  -- `validate_event`
  unfoldable pub validate_event : Settings → Event → ℕ → Result (Unit {0})
  unfolding check_event is_owner_pubkey
  validate_event settings event now =
      if is_owner_pubkey settings event.pubkey then ok tt else check_event settings event now

pub data RateLimitAction : Type 0 where
  query count publish : RateLimitAction

unfoldable pub label : RateLimitAction → String
label query = "reads"
label count = "counts"
label publish = "writes"

unfoldable pub max_per_window : RateLimitAction → Settings → Option ℕ
max_per_window query settings = settings.max_queries_per_window
max_per_window count settings = settings.max_counts_per_window
max_per_window publish settings = settings.max_publishes_per_window

-- The file of a counter, `runtime/rate-limit/<action>/<bucket>-<actor>.txt`, by the action, the
-- bucket and the hash of the actor's label.
pub record CounterKey : Type 0 where
  pub action : RateLimitAction
  pub bucket : ℕ
  pub actor_key : String

-- The counts in the files; `none` is a file that is missing or holds no number.
abbrev pub Counters : Type 0
Counters = CounterKey → Option ℕ

same_action : RateLimitAction → RateLimitAction → Bool
same_action query query = true
same_action count count = true
same_action publish publish = true
same_action _ _ = false

-- Whether two counters are one file.
unfoldable pub same_counter : CounterKey → CounterKey → Bool
unfolding same_action
same_counter a b =
    same_action a.action b.action && (nat_eq a.bucket b.bucket && a.actor_key == b.actor_key)

module _ ⦃x : External⦄ where
  -- The file of an actor's counter at a time. A window of no length divides by zero.
  unfoldable pub counter_of : RateLimitAction → String → ℕ → ℕ → CounterKey
  counter_of action actor window_secs now = record {
    action = action;
    bucket = now / window_secs;
    actor_key = x.sha1_hex actor;
  }

  -- The count in one file, read, compared and written.
  unfoldable pub spend : RateLimitAction → CounterKey → ℕ → Counters → Result Counters
  unfolding same_counter label
  spend action key limit counters =
      let current = unwrap_or (counters key) 0 in
      if leb limit current
      then err (str_append "rate limit exceeded for " (label action))
      else ok (λ other.
        if same_counter key other then some (saturating_add current 1) else counters other)

  -- With a window and a limit, either of which may be absent.
  unfoldable pub spend_if_limited :
      Option ℕ → Option ℕ → RateLimitAction → String → ℕ → Counters → Result Counters
  unfolding spend counter_of
  spend_if_limited none limit action actor now counters = ok counters
  spend_if_limited (some window_secs) none action actor now counters = ok counters
  spend_if_limited (some window_secs) (some limit) action actor now counters =
      if nat_eq window_secs 0
      then panic
      else spend action (counter_of action actor window_secs now) limit counters

  -- `enforce_rate_limit` where the actor's lock is free, as it is for requests one after another; the
  -- attempts to take it, and the error after them, are left out.
  unfoldable pub enforce_rate_limit :
      Settings → RateLimitAction → String → ℕ → Counters → Result Counters
  unfolding spend_if_limited max_per_window
  enforce_rate_limit settings action actor now counters =
      spend_if_limited settings.rate_limit_window_secs (max_per_window action settings) action actor
        now counters
