-- ===== src/Policy/RateLimit.antt =====
-- How many requests of a client the rate limit lets through in a window.
use stonr.Base.{
  ℕ, suc, ◌+◌, ◌-◌, ◌≤◌, ◌<◌, String, true, false, Option, none, some, List, [], ◌∷◌, keep, length,
  min, nat_eq, leb, unwrap_or, u64_max, saturating_add, if◌then◌else◌, Result, ok, err, panic,
  ok-injective, ◌≡◌, ◌⊎◌, refl, sym, ◌∙◌, arith, inl, inr, Bool-cases, eq_iff,
}
use Prim.Native.String.{◌++◌ as str_append}
use mathlib.Core.Path.{subst}
use stonr.External.{External}
use stonr.Policy.{
  Settings, RateLimitAction, query, count, publish, CounterKey, Counters, same_action, same_counter,
  counter_of, max_per_window, enforce_rate_limit, label, spend, spend_if_limited,
}

pub record Request : Type 0 where
  pub action : RateLimitAction
  pub actor : String
  pub now : ℕ

same_action_iff : (a b : RateLimitAction) → same_action a b ≡ true → a ≡ b
unfolding same_action
same_action_iff query query h = refl
same_action_iff count count h = refl
same_action_iff publish publish h = refl
same_action_iff _ _ h = cc

same_action_refl : (a : RateLimitAction) → same_action a a ≡ true
unfolding same_action
same_action_refl query = refl
same_action_refl count = refl
same_action_refl publish = refl

same_counter_eq : (a b : CounterKey) → same_counter a b ≡ true → a ≡ b
unfolding same_counter
same_counter_eq a b h =
    let action : a.action ≡ b.action = same_action_iff a.action b.action (ground arith) in
    let bucket : a.bucket ≡ b.bucket = ground arith in
    let actor : a.actor_key ≡ b.actor_key = (eq_iff a.actor_key b.actor_key).0 (ground arith) in
    λ i. record { action = action i; bucket = bucket i; actor_key = actor i }

module _ ⦃x : External⦄ (settings : Settings) (window_secs : ℕ) where
  -- The requests of a sequence that pass, each counted in the files that the one before left.
  pub passed : List Request → Counters → List Request
  passed [] counters = []
  passed (r ∷ requests) counters =
      elim (enforce_rate_limit settings r.action r.actor r.now counters) [
        | ok after ↦ r ∷ passed requests after
        | _ ↦ passed requests counters
      ]

  -- The requests of one action and actor in one window.
  pub in_window : CounterKey → List Request → ℕ
  unfolding keep
  in_window key requests =
      length (keep (λ r. same_counter (counter_of r.action r.actor window_secs r.now) key) requests)

  key_of : Request → CounterKey
  key_of r = counter_of r.action r.actor window_secs r.now

  -- What a request does to the counter of its own key: nothing where that is full, else one more.
  OwnStep : ℕ → CounterKey → Request → Counters → Type 0
  OwnStep n key r counters =
      ((n ≤ unwrap_or (counters key) 0)
        × (message : String) × (enforce_rate_limit settings r.action r.actor r.now counters
            ≡ err message))
      ⊎ ((unwrap_or (counters key) 0 < n)
          × (after : Counters) × (enforce_rate_limit settings r.action r.actor r.now counters
              ≡ ok after)
          × (after key ≡ some (unwrap_or (counters key) 0 + 1)))

  same_counter_refl : (key : CounterKey) → same_counter key key ≡ true
  unfolding same_counter
  same_counter_refl key =
      ground (arith, same_action_refl key.action, eq_iff key.actor_key key.actor_key)

  enforce-spend :
      (n : ℕ) (r : Request) (counters : Counters)
      → settings.rate_limit_window_secs ≡ some window_secs
      → 0 < window_secs
      → max_per_window r.action settings ≡ some n
      → enforce_rate_limit settings r.action r.actor r.now counters
        ≡ spend r.action (key_of r) n counters
  unfolding enforce_rate_limit spend_if_limited key_of
  enforce-spend n r counters windowed positive limited =
      (λ i. spend_if_limited (windowed i) (limited i) r.action r.actor r.now counters)
      ∙ ground arith

  own_step :
      (n : ℕ) (r : Request) (counters : Counters)
      → settings.rate_limit_window_secs ≡ some window_secs
      → 0 < window_secs
      → max_per_window r.action settings ≡ some n
      → n ≤ u64_max
      → OwnStep n (key_of r) r counters
  unfolding spend OwnStep
  own_step n r counters windowed positive limited fits =
      let key = key_of r in
      let current = unwrap_or (counters key) 0 in
      let same = enforce-spend n r counters windowed positive limited in
      elim (Bool-cases (leb n current)) [
        | inl full ↦ inl (
          ground arith,
          str_append "rate limit exceeded for " (label r.action),
          same ∙ rw full refl,
        )
        | inr free ↦ inr (
          ground arith,
          (λ other.
              if same_counter key other then some (saturating_add current 1) else counters other),
          same ∙ rw free refl,
          ground (arith, same_counter_refl key),
        )
      ]

  spend-other :
      (action : RateLimitAction) (own : CounterKey) (n : ℕ) (counters after : Counters)
      (key : CounterKey)
      → same_counter own key ≡ false
      → spend action own n counters ≡ ok after
      → after key ≡ counters key
  unfolding spend
  spend-other action own n counters after key other h =
      elim (Bool-cases (leb n (unwrap_or (counters own) 0))) [
        | inl full ↦ absurd (cc (h, rw full at h))
        | inr free ↦
            let written = ok-injective (rw free at h) in sym (λ i. written i key) ∙ rw other refl
      ]

  limited-other :
      (limit : Option ℕ) (r : Request) (counters after : Counters) (key : CounterKey)
      → same_counter (key_of r) key ≡ false
      → spend_if_limited (some window_secs) limit r.action r.actor r.now counters ≡ ok after
      → after key ≡ counters key
  unfolding spend_if_limited key_of
  limited-other none r counters after key other h = sym (λ i. ok-injective h i key)
  limited-other (some n) r counters after key other h = elim (Bool-cases (nat_eq window_secs 0)) [
    | inl zero ↦ absurd (cc (rw zero at h))
    | inr long ↦ spend-other r.action (key_of r) n counters after key other (rw long at h)
  ]

  -- What a request does to the counter of another key: nothing, passed or not.
  other_step :
      (r : Request) (counters after : Counters) (key : CounterKey)
      → settings.rate_limit_window_secs ≡ some window_secs
      → same_counter (key_of r) key ≡ false
      → enforce_rate_limit settings r.action r.actor r.now counters ≡ ok after
      → after key ≡ counters key
  unfolding enforce_rate_limit
  other_step r counters after key windowed other h =
      limited-other (max_per_window r.action settings) r counters after key other (
        subst
          (λ w.
            spend_if_limited w (max_per_window r.action settings) r.action r.actor r.now counters
            ≡ ok after)
          windowed h)

  in_window-cons :
      (key : CounterKey) (r : Request) (requests : List Request)
      → in_window key (r ∷ requests) ≡ (
          if same_counter (key_of r) key
          then suc (in_window key requests)
          else in_window key requests)
  unfolding in_window keep key_of
  in_window-cons key r requests = ground arith

  -- The statement on a sequence, at one key.
  Exact : CounterKey → ℕ → List Request → Counters → Type 0
  Exact key n requests counters =
      in_window key (passed requests counters)
      ≡ min (in_window key requests) (n - unwrap_or (counters key) 0)

  own_request :
      (key : CounterKey) (n : ℕ) (r : Request) (requests : List Request) (counters : Counters)
      → ((counters : Counters) → Exact key n requests counters)
      → same_counter (key_of r) key ≡ true
      → OwnStep n key r counters
      → Exact key n (r ∷ requests) counters
  unfolding Exact passed OwnStep
  own_request key n r requests counters rest same (inl (full, message, run)) =
      (ground (arith, run, rest counters, in_window-cons key r requests))
  own_request key n r requests counters rest same (inr (free, after, run, more)) =
      (ground (
        arith,
        run,
        rest after,
        in_window-cons key r requests,
        in_window-cons key r (passed requests after),
      ))

  other_request :
      (key : CounterKey) (n : ℕ) (r : Request) (requests : List Request) (counters : Counters)
      (result : Result Counters)
      → ((counters : Counters) → Exact key n requests counters)
      → same_counter (key_of r) key ≡ false
      → enforce_rate_limit settings r.action r.actor r.now counters ≡ result
      → ((after : Counters) → result ≡ ok after → after key ≡ counters key)
      → Exact key n (r ∷ requests) counters
  unfolding Exact passed
  other_request key n r requests counters (ok after) rest other run same =
      (ground (
        arith,
        run,
        rest after,
        same after refl,
        in_window-cons key r requests,
        in_window-cons key r (passed requests after),
      ))
  other_request key n r requests counters (err message) rest other run same =
      (ground (arith, run, rest counters, in_window-cons key r requests))
  other_request key n r requests counters panic rest other run same =
      (ground (arith, run, rest counters, in_window-cons key r requests))

  -- From counters that hold `c` for an action and actor in a window, of any sequence of requests,
  -- those of other clients, actions and windows among them, exactly the first `max - c` of that
  -- action and actor in that window pass: no more get through, and none is refused before.
  pub passed-in_window :
      (requests : List Request) (counters : Counters) (key : CounterKey) (n : ℕ)
      → settings.rate_limit_window_secs ≡ some window_secs
      → 0 < window_secs
      → max_per_window key.action settings ≡ some n
      → n ≤ u64_max
      → in_window key (passed requests counters)
        ≡ min (in_window key requests) (n - unwrap_or (counters key) 0)
  unfolding Exact passed in_window keep key_of counter_of
  passed-in_window [] counters key n windowed positive limited fits = omega arith
  passed-in_window (r ∷ requests) counters key n windowed positive limited fits =
      let rest : (counters : Counters) → Exact key n requests counters =
        λ c. passed-in_window requests c key n windowed positive limited fits in
      elim (Bool-cases (same_counter (key_of r) key)) [
        | inl same ↦
            let at = same_counter_eq (key_of r) key same in
            let own =
              own_step n r counters windowed positive
                (subst (λ k. max_per_window k.action settings ≡ some n) (sym at) limited) fits in
            own_request key n r requests counters rest same
              (subst (λ k. OwnStep n k r counters) at own)
        | inr other ↦
            other_request key n r requests counters
              (enforce_rate_limit settings r.action r.actor r.now counters) rest other refl
              (λ after run. other_step r counters after key windowed other run)
      ]
