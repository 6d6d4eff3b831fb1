-- ===== src/Config/Bounds.antt =====
-- stonr/src/config.rs: the numbers of the settings that `from_env` loads.
use mathlib.Core.Option
use stonr.Base.{
  ℕ, String, ◌≡◌, ◌≢◌, Option, none, some, List, inl, inr, nat_eq, Result, ok, panic, >>=-eq-ok,
  ok-injective, ap, sym, ◌∙◌, arith, Bool-cases,
}
use stonr.External.{External}
use stonr.Policy.{
  Settings, RateLimitAction, CounterKey, Counters, spend, counter_of, spend_if_limited,
  enforce_rate_limit, max_per_window,
}
use stonr.Config.{AllSettings}
use stonr.Filter.{Value}
use stonr.Config.Parse.{Env, env_positive, positive, parse_env_file, required_env}
use stonr.Config.Load.{load_policy, apply_env_overrides, from_env}

positive-ne-zero : (n : ℕ) → positive n ≢ some 0
unfolding positive
positive-ne-zero n h = ground arith

bind-ne-zero : (o : Option ℕ) → Option.bind o positive ≢ some 0
unfolding Option.bind
bind-ne-zero none h = cc
bind-ne-zero (some n) h = positive-ne-zero n h

env_positive-ne-zero : (env : Env) (key : String) → env_positive env key ≢ some 0
unfolding env_positive
env_positive-ne-zero env key h = bind-ne-zero _ h

-- What `from_env` loads, it loads from some environment.
from_env-policy :
    (read_file : String → Option String) (read_profile : String → Result Value)
    (list : Result (List String)) (text : String) (settings : AllSettings)
    → from_env read_file read_profile list text ≡ ok settings
    → (env : Env) × (settings.policy ≡ load_policy env)
unfolding from_env
from_env-policy read_file read_profile list text settings h =
    let (env, _, loaded) =
      >>=-eq-ok (apply_env_overrides read_profile list (parse_env_file text)) _ h in
    let (_, _, h1) = >>=-eq-ok (required_env env "STORE_ROOT") _ loaded in
    let (_, _, h2) = >>=-eq-ok (required_env env "BIND_HTTP") _ h1 in
    let (_, _, h3) = >>=-eq-ok (required_env env "BIND_WS") _ h2 in
    (env, ap (λ (s : AllSettings). s.policy) (sym (ok-injective h3)))

load_policy-window : (env : Env) → (load_policy env).rate_limit_window_secs ≢ some 0
unfolding load_policy
load_policy-window env e = env_positive-ne-zero env "RATE_LIMIT_WINDOW_SECS" e

module _ ⦃x : External⦄ where
  spend-ne-panic :
      (action : RateLimitAction) (key : CounterKey) (limit : ℕ) (counters : Counters)
      → spend action key limit counters ≢ panic
  unfolding spend
  spend-ne-panic action key limit counters h = ground arith

  spend_if_limited-ne-panic :
      (window limit : Option ℕ) (action : RateLimitAction) (actor : String) (now : ℕ)
      (counters : Counters)
      → window ≢ some 0
      → spend_if_limited window limit action actor now counters ≢ panic
  unfolding spend_if_limited
  spend_if_limited-ne-panic none limit action actor now counters nonzero h = cc
  spend_if_limited-ne-panic (some w) none action actor now counters nonzero h = cc
  spend_if_limited-ne-panic (some w) (some limit) action actor now counters nonzero h =
      elim (Bool-cases (nat_eq w 0)) [
        | inl zero_window ↦ nonzero (ap some (ground arith))
        | inr positive_window ↦
            spend-ne-panic action (counter_of action actor w now) limit counters
              (rw positive_window at h)
      ]

  -- With the settings that `from_env` loads from any text and support profiles, the rate limit of any
  -- action divides by no window of length zero: it does not panic.
  pub enforce_rate_limit-ne-panic :
      (read_file : String → Option String) (read_profile : String → Result Value)
      (list : Result (List String)) (text : String) (settings : AllSettings)
      (action : RateLimitAction) (actor : String) (now : ℕ) (counters : Counters)
      → from_env read_file read_profile list text ≡ ok settings
      → enforce_rate_limit settings.policy action actor now counters ≢ panic
  unfolding enforce_rate_limit
  enforce_rate_limit-ne-panic read_file read_profile list text settings action actor now counters
        h =
      let (env, loaded) = from_env-policy read_file read_profile list text settings h in
      spend_if_limited-ne-panic settings.policy.rate_limit_window_secs
        (max_per_window action settings.policy) action actor now counters
        (λ zero.
          load_policy-window env
            (sym (ap (λ (p : Settings). p.rate_limit_window_secs) loaded) ∙ zero))
