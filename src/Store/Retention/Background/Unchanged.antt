-- ===== src/Store/Retention/Background/Unchanged.antt =====
-- `enforce_retention_background` of stonr/src/storage.rs over a directory that nobody changed since
-- its walk.
use mathlib.Core.Path.{subst}
use stonr.Base.{
  ℕ, String, Bool, true, some, length, Result, ok, ◌>>=◌, >>=-eq-ok, ok-pair, ◌≡◌, refl, sym, ◌∙◌,
  inl, inr, Bool-cases,
}
use stonr.Event.{Event}
use stonr.External.{External}
use stonr.Store.{Store, Disk}
use stonr.Store.Consistent.{stored, IsConsistent}
use stonr.Store.Frame.{SameFiles, IsConsistent-of_SameFiles}
use stonr.Store.Retention.{sorted_event_records, total_size, enforce_retention, report_disabled}
use stonr.Store.Retention.Background.{
  RetentionPassOutcome, disabled, within_limits, busy, changed, applied, counts_differ,
  enforce_retention_background, enforce_retention_background-enforce_retention,
}
use stonr.Store.Retention.Enforce.{enforce_retention-protects}
use stonr.Store.Status.{has_no_limits, retention_limits_exceeded, write_retention_status}
use stonr.Store.Visibility.{event_is_retention_protected}

-- No event is new, and every pinned one is still there.
abbrev pub Protects : Store → Disk → Disk → Type 0
Protects store disk after =
    (id : String) (event : Event)
    → (stored after id ≡ some event → stored disk id ≡ some event)
      × (stored disk id ≡ some event
          → event_is_retention_protected store event ≡ true
          → stored after id ≡ some event)

-- What the outcome of a pass says of the events.
unfoldable pub Reports : ⦃x : External⦄ → Store → ℕ → Disk → Disk → RetentionPassOutcome → Type 0
Reports store now disk after (applied n) = enforce_retention store now disk ≡ ok (after, n)
Reports store now disk after disabled = after.events ≡ disk.events
Reports store now disk after within_limits = after.events ≡ disk.events
Reports store now disk after busy = after ≡ disk
Reports store now disk after changed = after ≡ disk

Protects-of_events :
    (store : Store) (disk after : Disk) → after.events ≡ disk.events → Protects store disk after
unfolding stored
Protects-of_events store disk after e id event =
    (λ s. rw (← e, stored) s, λ s safe. rw (e, stored) s)

module _ ⦃x : External⦄ where
  abbrev Kept : Store → ℕ → Disk → Disk → RetentionPassOutcome → Type 0
  Kept store now disk after outcome =
      IsConsistent after × Protects store disk after × Reports store now disk after outcome

  Kept-of_SameFiles :
      (store : Store) (now : ℕ) (disk written after : Disk) (said outcome : RetentionPassOutcome)
      → IsConsistent disk
      → SameFiles written disk
      → Reports store now disk written said
      → ◌≡◌ {A = Result (Disk × RetentionPassOutcome)} (ok (written, said)) (ok (after, outcome))
      → Kept store now disk after outcome
  Kept-of_SameFiles store now disk written after said outcome c same reports h =
      let (at, of) = ok-pair h in
      let kept : Kept store now disk written said = (
        IsConsistent-of_SameFiles same c,
        Protects-of_events store disk written same.events,
        reports,
      ) in
      subst (Kept store now disk after) of (subst (λ d. Kept store now disk d said) at kept)

  applied-Kept :
      (store : Store) (now : ℕ) (disk after : Disk) (outcome : RetentionPassOutcome)
      → IsConsistent disk
      → ◌>>=◌ {B = Disk × RetentionPassOutcome}
          (enforce_retention store now disk)
          (λ run. ok (run.0, applied run.1))
        ≡ ok (after, outcome)
      → Kept store now disk after outcome
  unfolding Reports
  applied-Kept store now disk after outcome c h =
      let ((last, n), run, ends) = >>=-eq-ok (enforce_retention store now disk) _ h in
      let (at, of) = ok-pair ends in
      let (sound, protects) = enforce_retention-protects store now disk last n c run in
      let kept : Kept store now disk last (applied n) = (sound, protects, run) in
      subst (Kept store now disk after) of (subst (λ d. Kept store now disk d (applied n)) at kept)

  -- A background pass over a consistent directory that nobody changed since its walk leaves it
  -- consistent, with no new event and with every pinned one, however the pass ends. If it says that
  -- it removed some number of events, `enforce_retention` does the same and returns that number;
  -- otherwise it removed none.
  pub enforce_retention_background-Protects :
      (store : Store) (now : ℕ) (free : Bool) (disk after : Disk) (outcome : RetentionPassOutcome)
      → IsConsistent disk
      → enforce_retention_background store now disk free disk ≡ ok (after, outcome)
      → IsConsistent after × Protects store disk after × Reports store now disk after outcome
  unfolding enforce_retention_background report_disabled write_retention_status Reports
  enforce_retention_background-Protects store now free disk after outcome c h =
      let records = sorted_event_records disk in
      elim (Bool-cases (has_no_limits store)) [
        | inl none_set ↦
            Kept-of_SameFiles store now disk _ after disabled outcome c
              (record { events = refl; index = refl }) refl (rw none_set at h)
        | inr limited ↦
            elim (Bool-cases
              (retention_limits_exceeded store (length records) (total_size records))) [
                | inr within ↦
                    Kept-of_SameFiles store now disk _ after within_limits outcome c
                      (record { events = refl; index = refl }) refl (rw (limited, within) at h)
                | inl over ↦ elim (Bool-cases free) [
                  | inr taken ↦
                      Kept-of_SameFiles store now disk disk after busy outcome c
                        (record { events = refl; index = refl }) refl
                        (rw (limited, over, taken) at h)
                  | inl had ↦
                      elim (Bool-cases
                        (counts_differ disk.stats (length records) (total_size records))) [
                          | inl differ ↦
                              Kept-of_SameFiles store now disk disk after changed outcome c
                                (record { events = refl; index = refl }) refl
                                (rw (limited, over, had, differ) at h)
                          | inr agree ↦ applied-Kept store now disk after outcome c (
                              sym (
                                enforce_retention_background-enforce_retention store now disk
                                  limited over agree)
                              ∙ subst
                                  (λ b.
                                    enforce_retention_background store now disk b disk
                                    ≡ ok (after, outcome))
                                  had h)
                        ]
                ]
              ]
      ]
