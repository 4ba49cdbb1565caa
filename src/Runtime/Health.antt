-- ===== src/Runtime/Health.antt =====
-- src/operations/health.ts: what is known of the scans. Times of the clock are in milliseconds, those
-- of the state in seconds; an error code is a text.
use ppops.Prelude.{
  ℕ, ◌+◌, ◌-◌, ◌*◌, ◌/◌, ◌≡◌, refl, ◌∙◌, Bool, true, false, not, ◌&&◌, List, [], ◌∷◌, Option, none,
  some, ltb, Text,
}

-- `HealthState`; of the progress, when it was last updated, in seconds, if it says so
pub record HealthState : Type 0 where
  pub railgun_ready : Bool
  pub started_at : ℕ
  pub scan_in_progress : Bool
  pub consecutive_failures : ℕ
  pub scans_succeeded : ℕ
  pub scans_failed : ℕ
  pub last_scan_duration_ms : Option ℕ
  pub last_scan_started_at : Option ℕ
  pub last_scan_at : Option ℕ
  pub last_scan_error : Option Text
  pub sync_progress : Option ℕ
  pub scan_stalled : Bool

unfoldable pub initially : ℕ → HealthState
initially started_at_ms = record {
  railgun_ready = false;
  started_at = started_at_ms / 1_000;
  scan_in_progress = false;
  consecutive_failures = 0;
  scans_succeeded = 0;
  scans_failed = 0;
  last_scan_duration_ms = none;
  last_scan_started_at = none;
  last_scan_at = none;
  last_scan_error = none;
  sync_progress = none;
  scan_stalled = false;
}

unfoldable pub sync_progress_updated : Option ℕ → HealthState → HealthState
sync_progress_updated progress s = record s { sync_progress = progress; scan_stalled = false }

unfoldable pub scan_started : ℕ → HealthState → HealthState
scan_started started_at_ms s = record s {
  scan_in_progress = true;
  last_scan_started_at = some (started_at_ms / 1_000);
  sync_progress = none;
  scan_stalled = false;
}

unfoldable pub scan_succeeded : ℕ → ℕ → HealthState → HealthState
scan_succeeded started_at_ms completed_at_ms s = record s {
  railgun_ready = true;
  last_scan_at = some (completed_at_ms / 1_000);
  last_scan_duration_ms = some (completed_at_ms - started_at_ms);
  scan_in_progress = false;
  consecutive_failures = 0;
  scans_succeeded = s.scans_succeeded + 1;
  last_scan_error = none;
}

unfoldable pub scan_failed : ℕ → ℕ → Text → HealthState → HealthState
scan_failed started_at_ms failed_at_ms error_code s = record s {
  railgun_ready = false;
  last_scan_duration_ms = some (failed_at_ms - started_at_ms);
  scan_in_progress = false;
  consecutive_failures = s.consecutive_failures + 1;
  scans_failed = s.scans_failed + 1;
  last_scan_error = some error_code;
}

-- More than `limit_ms` have passed since that second; a time that is to come has not.
abbrev older_than : ℕ → ℕ → ℕ → Bool
older_than limit_ms now_ms second = ltb (limit_ms + second * 1_000) now_ms

abbrev is_stale : ℕ → ℕ → Option ℕ → Bool
is_stale max_staleness_ms now_ms none = true
is_stale max_staleness_ms now_ms (some second) = older_than max_staleness_ms now_ms second

-- `left ?? right`
abbrev or_right : Option ℕ → Option ℕ → Option ℕ
or_right none right = right
or_right (some a) right = some a

abbrev has_stalled : ℕ → ℕ → Option ℕ → Bool
has_stalled threshold_ms now_ms none = false
has_stalled threshold_ms now_ms (some second) = older_than threshold_ms now_ms second

module _ (max_staleness_ms scan_stall_threshold_ms : ℕ) where
  unfoldable pub snapshot : ℕ → HealthState → HealthState
  snapshot now_ms s = record s {
    railgun_ready = s.railgun_ready && not (is_stale max_staleness_ms now_ms s.last_scan_at);
    scan_stalled =
        s.scan_in_progress
        && has_stalled scan_stall_threshold_ms now_ms
            (or_right s.sync_progress s.last_scan_started_at);
  }

-- What the runtime reports, the latest first.
pub data Report : Type 0 where
  progressed : Option ℕ → Report
  started : ℕ → Report
  succeeded : ℕ → ℕ → Report
  failed : ℕ → ℕ → Text → Report

abbrev reported_to : Report → HealthState → HealthState
reported_to (progressed progress) s = sync_progress_updated progress s
reported_to (started at) s = scan_started at s
reported_to (succeeded from until) s = scan_succeeded from until s
reported_to (failed from until code) s = scan_failed from until code s

pub state_after : ℕ → List Report → HealthState
state_after began [] = initially began
state_after began (r ∷ reports) = reported_to r (state_after began reports)

-- The second at which the last scan that ended did, if it succeeded.
abbrev pub last_success : List Report → Option ℕ
last_success [] = none
last_success (progressed progress ∷ reports) = last_success reports
last_success (started at ∷ reports) = last_success reports
last_success (succeeded from until ∷ reports) = some (until / 1_000)
last_success (failed from until code ∷ reports) = none

-- The state of a success, and that there was none.
abbrev Remembers : Option ℕ → HealthState → Type 0
Remembers none s = s.railgun_ready ≡ false
Remembers (some second) s = (s.railgun_ready ≡ true) × (s.last_scan_at ≡ some second)

Remembers-moved :
    (o : Option ℕ) (s t : HealthState)
    → t.railgun_ready ≡ s.railgun_ready
    → t.last_scan_at ≡ s.last_scan_at
    → Remembers o s
    → Remembers o t
Remembers-moved none s t ready at m = ready ∙ m
Remembers-moved (some second) s t ready at m = (ready ∙ m.0, at ∙ m.1)

state_after-Remembers :
    (began : ℕ) (reports : List Report)
    → Remembers (last_success reports) (state_after began reports)
unfolding state_after initially sync_progress_updated scan_started scan_succeeded scan_failed
state_after-Remembers began [] = refl
state_after-Remembers began (progressed progress ∷ reports) =
    Remembers-moved (last_success reports) (state_after began reports) _ refl refl
      (state_after-Remembers began reports)
state_after-Remembers began (started at ∷ reports) =
    Remembers-moved (last_success reports) (state_after began reports) _ refl refl
      (state_after-Remembers began reports)
state_after-Remembers began (succeeded from until ∷ reports) = (refl, refl)
state_after-Remembers began (failed from until code ∷ reports) = refl

snapshot-Remembers :
    (max_staleness_ms threshold_ms now_ms : ℕ) (o : Option ℕ) (s : HealthState)
    → Remembers o s
    → (snapshot max_staleness_ms threshold_ms now_ms s).railgun_ready
      ≡ not (is_stale max_staleness_ms now_ms o)
unfolding snapshot
snapshot-Remembers max_staleness_ms threshold_ms now_ms none s m = rw m refl
snapshot-Remembers max_staleness_ms threshold_ms now_ms (some second) s m = rw (m.0, m.1) refl

-- Whatever was reported, the daemon says that it is ready exactly when the last scan that ended
-- succeeded, and no more than the longest staleness has passed since the second in which it did;
-- progress and the start of another scan change nothing of that.
pub snapshot-last_success :
    (max_staleness_ms threshold_ms now_ms began : ℕ) (reports : List Report)
    → (snapshot max_staleness_ms threshold_ms now_ms (state_after began reports)).railgun_ready
      ≡ not (is_stale max_staleness_ms now_ms (last_success reports))
snapshot-last_success max_staleness_ms threshold_ms now_ms began reports =
    snapshot-Remembers max_staleness_ms threshold_ms now_ms (last_success reports)
      (state_after began reports) (state_after-Remembers began reports)
