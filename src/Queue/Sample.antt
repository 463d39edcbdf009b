-- ===== src/Queue/Sample.antt =====
-- Sample queues: a job in work, one that waits to be tried again, one that is pending.
use meru_core.Base.{
  ℕ, zero, suc, String, none, some, List, [], ◌∷◌, ◌≡◌, refl, ap, ◌∙◌, sym, true, codes, length,
  pos, null, arith, eq_iff,
}
use meru_core.Queue.Types.{
  JobStatus, normal, high, email_send, data_export, JobData, StoredOptions, QueueJob,
  QueueScheduledJob, Queue,
}
use meru_core.Queue.Jobs.{Env}
use meru_core.Queue.Invariant.{Injective, IsWellFormed}

-- Ids in unary.
abbrev pub unary : ℕ → String
unary zero = String.[]
unary (suc n) = String.◌∷◌ "1" (unary n)

length-unary : (n : ℕ) → length (codes (unary n)) ≡ n
length-unary zero = refl
length-unary (suc n) = ap suc (length-unary n)

pub unary-Injective : Injective unary
unary-Injective m n e = sym (length-unary m) ∙ ap (λ s. length (codes s)) e ∙ length-unary n

abbrev pub at_time : ℕ → Env
at_time t = record {
  now = t;
  new_id = unary;
  accepts = λ tenant type. true;
  locked = [];
  next_run = λ cron. some 9000;
}

abbrev pub job_data : JobData
job_data = record { tenant_id = none; user_id = none; payload = null; metadata = none }

abbrev pub stored : StoredOptions
stored = record { timeout = none; backoff = none; remove_on_complete = none; remove_on_fail = none }

abbrev pub pending_job : QueueJob
pending_job = record {
  id = "1";
  tenant_id = "t";
  type = email_send;
  status = JobStatus.pending;
  priority = normal;
  data_ = job_data;
  result = none;
  progress = none;
  attempts = 0;
  max_attempts = 3;
  last_error = none;
  scheduled_for = none;
  processed_at = none;
  completed_at = none;
  failed_at = none;
  duration = pos 0;
  tags = [];
  options = stored;
  created_at = 100;
}

abbrev pub urgent_job : QueueJob
urgent_job = record pending_job { id = "11"; priority = high; created_at = 200 }

abbrev pub working_job : QueueJob
working_job = record pending_job {
  id = "";
  status = JobStatus.processing;
  attempts = 1;
  processed_at = some 300;
}

abbrev pub waiting_job : QueueJob
waiting_job = record working_job { status = JobStatus.retrying; scheduled_for = some 400 }

abbrev pub hourly : QueueScheduledJob
hourly = record {
  id = "s";
  tenant_id = "t";
  name = "export";
  type = data_export;
  data_ = job_data;
  cron_expression = "0 * * * *";
  next_run = 50;
  last_run = none;
  is_active = true;
  run_count = 0;
  max_runs = none;
  end_date = none;
}

abbrev pub queue_of : List QueueJob → Queue
queue_of jobs = record { jobs = jobs; logs = []; schedules = hourly ∷ []; events = []; given = 3 }

abbrev pub two_jobs : Queue
two_jobs = queue_of (pending_job ∷ urgent_job ∷ [])

abbrev pub waiting_queue : Queue
waiting_queue = queue_of (waiting_job ∷ pending_job ∷ [])

pub two_jobs-IsWellFormed : IsWellFormed unary two_jobs
two_jobs-IsWellFormed = record {
  ids_distinct = ((ground (arith, eq_iff "1" "11"), tt), (tt, tt));
  known = ((1, omega arith, refl), ((2, omega arith, refl), tt));
  sound = (ground arith, (ground arith, tt));
}

pub waiting_queue-IsWellFormed : IsWellFormed unary waiting_queue
waiting_queue-IsWellFormed = record {
  ids_distinct = ((ground (arith, eq_iff "" "1"), tt), (tt, tt));
  known = ((0, omega arith, refl), ((1, omega arith, refl), tt));
  sound = (ground arith, (ground arith, tt));
}
