-- ===== src/Jobs/Tests.antt =====
-- Runs of the scheduled jobs of src/jobs.
use meru_core.Base.{
  ℕ, ◌+◌, String, Option, none, some, List, [], ◌∷◌, ◌++◌, ◌≡◌, refl, true, arith, length, Result,
  ok, err, All, ◌==◌, if◌then◌else◌, pos,
}
use meru_core.Jobs.Catalogue.{JobName, rescreening, Evidence, fast, tick_scope}
use meru_core.Jobs.Runs.{ok_, failed, find_run}
use meru_core.Jobs.Runs.History.{Recorded, replay, of_job, summary, find_run-replay}
use meru_core.Jobs.Dispatch.{Services, State, TickResult, no_result, tick, tick_turn, run_job}
use meru_core.Jobs.Dispatch.Outcome.{run_job_skipped}
use meru_core.Jobs.Dispatch.Tick.{IsReported, size, tick_reports}

-- An item is its tenant; every item of tenant "b" fails.
abbrev visit : String → ℕ → ℕ × Option String
visit tenant n = if tenant == "b" then (n, some "down") else (n + 1, none)

abbrev visited : List String
visited = "a" ∷ "b" ∷ "a" ∷ []

abbrev refused : List String
refused = "b" ∷ []

-- The world is a clock that a job moves on by a second; one job always throws.
abbrev serve : JobName → ℕ → ℕ × Result String (Option Evidence)
serve rescreening t = (t + 1000, err "timed out")
serve _ t = (t + 1000, ok none)

abbrev services : Services ℕ
services = record { handle = serve; clock = λ t. t; can_read = λ t. true; can_write = λ t. true }

abbrev fresh : State ℕ
fresh = record { world = 5000; runs = []; marks = [] }

abbrev later : State ℕ
later = record { world = 60000; runs = []; marks = [] }

run_job_skipped_example :
    tick_turn services 60000 (run_job services rescreening fresh).0.runs rescreening later no_result
    ≡ (later, record no_result { skipped = [] ++ rescreening ∷ [] })
run_job_skipped_example =
    run_job_skipped services rescreening fresh later 60000 no_result refl (omega arith)

tick_reports_example :
    (t : TickResult) × ((tick services fast fresh).1 ≡ ok t)
    × All (λ j. IsReported j t) (tick_scope fast)
    × (size t ≡ length (tick_scope fast))
tick_reports_example = tick_reports services fast fresh refl

abbrev call : String → ℕ → Recorded
call job t = record {
  job = job;
  outcome = record { status = ok_; duration_ms = pos 7; error = none; scope = none };
  at = t;
}

abbrev failed_call : ℕ → Recorded
failed_call t = record {
  job = "rescreening";
  outcome = record { status = failed; duration_ms = pos 0; error = some "down"; scope = none };
  at = t;
}

abbrev calls : List Recorded
calls = failed_call 30 ∷ call "queue-drain" 20 ∷ call "rescreening" 10 ∷ []

find_run-replay_example :
    find_run "rescreening" (replay calls) ≡ summary "rescreening" (of_job "rescreening" calls)
find_run-replay_example = find_run-replay "rescreening" calls
