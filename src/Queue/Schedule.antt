-- ===== src/Queue/Schedule.antt =====
-- The recurring jobs of src/queue/queue.service.ts: `scheduleJob`, `cancelScheduledJob` and
-- `processScheduledJobs`.
use meru_core.Base.{
  ℕ, suc, String, Option, none, some, List, [], ◌∷◌, ◌++◌, Bool, true, false, not, ◌&&◌, ◌||◌, ◌==◌,
  if◌then◌else◌, ltb, leb, nat_eq, filter, find?, Result, ok, err, ◌>>=◌, from_option,
}
use meru_core.Jobs.Sweep.{SweepScope, run_tenant_bound_sweep}
use meru_core.Queue.Types.{
  JobType, JobData, QueueScheduledJob, Queue, QueueError, scheduled_job_not_found, invalid_cron,
}
use meru_core.Queue.Jobs.{Env, create_job, no_options}

pub record ScheduleOptions : Type 0 where
  pub end_date : Option ℕ
  pub max_runs : Option ℕ

-- `x || null`, of a number
abbrev nonzero : Option ℕ → Option ℕ
nonzero none = none
nonzero (some n) = if nat_eq n 0 then none else some n

abbrev pub new_schedule :
    String → String → String → JobType → JobData → String → ScheduleOptions → ℕ → QueueScheduledJob
new_schedule id tenant_id name type job_data cron options next = record {
  id = id;
  tenant_id = tenant_id;
  name = name;
  type = type;
  data_ = job_data;
  cron_expression = cron;
  next_run = next;
  last_run = none;
  is_active = true;
  run_count = 0;
  max_runs = nonzero options.max_runs;
  end_date = options.end_date;
}

unfoldable pub schedule_job :
    Env
    → String
    → String
    → JobType
    → JobData
    → String
    → ScheduleOptions
    → Queue
    → Result QueueError Queue
schedule_job env tenant_id name type job_data cron options q =
    from_option (invalid_cron cron) (env.next_run cron) >>= λ next. ok (record q {
      schedules =
          q.schedules
          ++ new_schedule (env.new_id q.given) tenant_id name type job_data cron options next ∷ [];
      given = suc q.given;
    })

-- `scheduledRepo.save` of a row that is there
abbrev pub put_schedule : QueueScheduledJob → List QueueScheduledJob → List QueueScheduledJob
put_schedule s [] = []
put_schedule s (r ∷ rs) =
    let rest = put_schedule s rs in if r.id == s.id then s ∷ rest else r ∷ rest

abbrev pub save_schedule : QueueScheduledJob → Queue → Queue
save_schedule s q = record q { schedules = put_schedule s q.schedules }

unfoldable pub cancel_scheduled_job : String → String → Queue → Result QueueError Queue
cancel_scheduled_job id tenant_id q =
    from_option scheduled_job_not_found
      (find? (λ s. s.id == id && s.tenant_id == tenant_id) q.schedules)
    >>= λ s. ok (save_schedule (record s { is_active = false }) q)

abbrev pub is_due_schedule : ℕ → QueueScheduledJob → Bool
is_due_schedule now s = s.is_active && ltb s.next_run now

-- `maxRuns && runCount >= maxRuns`
abbrev pub runs_out : Option ℕ → ℕ → Bool
runs_out none runs = false
runs_out (some n) runs = not (nat_eq n 0) && leb n runs

-- `endDate && new Date() > endDate`
abbrev pub ended : Option ℕ → ℕ → Bool
ended none now = false
ended (some d) now = ltb d now

abbrev pub ran_schedule : ℕ → ℕ → QueueScheduledJob → QueueScheduledJob
ran_schedule now next s =
    let runs = suc s.run_count in
    record s {
      last_run = some now;
      run_count = runs;
      next_run = next;
      is_active = if runs_out s.max_runs runs || ended s.end_date now then false else s.is_active;
    }

-- The rest of a turn, once the job is created: an expression that cannot be parsed throws after it.
abbrev pub ran_saved : Env → QueueScheduledJob → Option ℕ → Queue → Queue × Option QueueError
ran_saved env s none q = (q, some (invalid_cron s.cron_expression))
ran_saved env s (some next) q = (save_schedule (ran_schedule env.now next s) q, none)

abbrev pub run_created :
    Env → QueueScheduledJob → Result QueueError Queue → Queue → Queue × Option QueueError
run_created env s (err e) q = (q, some e)
run_created env s (ok created) q = ran_saved env s (env.next_run s.cron_expression) created

unfoldable pub run_schedule : Env → QueueScheduledJob → Queue → Queue × Option QueueError
run_schedule env s q =
    run_created env s (create_job env s.tenant_id s.type s.data_ no_options none q) q

unfoldable pub process_scheduled_jobs : Env → Queue → SweepScope QueueError × Queue
process_scheduled_jobs env q =
    run_tenant_bound_sweep (λ s. s.tenant_id) (λ s. s.id) (run_schedule env)
      (filter (is_due_schedule env.now) q.schedules) q
