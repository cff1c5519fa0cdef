-- ===== src/Runtime/Shutdown.antt =====
-- The shutdown of the five services: apps/executor/src/main.ts (lines 36 to 58), and the same function
-- in the main.ts of app-apis, auth-api, telemetry-ingest and telemetry-consumers. `exited` holds the
-- exit code.
use express_monorepo_bank_te.Base.{
  ℕ, suc, zero, ◌+◌, ◌≤◌, Bool, true, false, Option, none, some, List, [], ◌∷◌, ◌++◌, ◌≡◌, ◌≢◌, ◌⊎◌,
  refl, sym, ap, inl, inr, if◌then◌else◌, arith, length, append-nil, append_assoc,
}
pub mod Orderly

-- What a shutdown awaits or calls, in the order of the source.
pub data Task : Type 0 where
  stop_server stop_worker stop_devices stop_consumers : Task
  close_health close_queue quit_redis disconnect_producer end_pool : Task

pub data Service : Type 0 where
  app_apis auth_api executor telemetry_ingest telemetry_consumers : Service

abbrev pub app_plan : List Task
app_plan = stop_server ∷ close_queue ∷ quit_redis ∷ end_pool ∷ []

abbrev pub auth_plan : List Task
auth_plan = stop_server ∷ end_pool ∷ []

abbrev pub executor_plan : List Task
executor_plan = stop_worker ∷ close_health ∷ quit_redis ∷ end_pool ∷ []

abbrev pub ingest_plan : List Task
ingest_plan = stop_devices ∷ close_health ∷ disconnect_producer ∷ []

abbrev pub consumers_plan : List Task
consumers_plan = stop_consumers ∷ close_health ∷ disconnect_producer ∷ end_pool ∷ []

unfoldable pub plan : Service → List Task
plan app_apis = app_plan
plan auth_api = auth_plan
plan executor = executor_plan
plan telemetry_ingest = ingest_plan
plan telemetry_consumers = consumers_plan

-- `finished` has the tasks that are over, in their order. The two APIs have no `running`.
pub record Process : Type 0 where
  pub running : Bool
  pub shutting_down : Bool
  pub finished : List Task
  pub left : List Task
  pub exited : Option ℕ

unfoldable pub started : Process
started = record { running = true; shutting_down = false; finished = []; left = []; exited = none }

-- What happens to a process: SIGTERM or SIGINT, the end of the task it waits for, the failure of
-- that task (an unhandled rejection, which ends a Node process with code 1), the hard exit's timer.
pub data Happening : Type 0 where
  signal task_over task_failed timer : Happening

-- The next line of `shutdown` once a task is over: the next task, or `process.exit(0)`.
abbrev pub advance : Process → Process
advance p = elim p.left [
  | [] ↦ p
  | task ∷ [] ↦ record p { finished = p.finished ++ task ∷ []; left = []; exited = some 0 }
  | task ∷ next ∷ rest ↦ record p { finished = p.finished ++ task ∷ []; left = next ∷ rest }
]

abbrev pub give_up : Process → Process
give_up p = if p.shutting_down then record p { exited = some 1 } else p

abbrev pub react : Service → Happening → Process → Process
react s signal p =
    if p.shutting_down then p else record p { shutting_down = true; running = false; left = plan s }
react s task_over p = advance p
react s task_failed p = give_up p
react s timer p = give_up p

-- Nothing happens in a process that has exited.
unfoldable pub happen : Service → Happening → Process → Process
unfolding plan
happen s h p = elim p.exited [ none ↦ react s h p | some code ↦ p ]

unfoldable pub live : Service → List Happening → Process → Process
unfolding happen
live s [] p = p
live s (h ∷ rest) p = live s rest (happen s h p)
