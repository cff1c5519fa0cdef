-- ===== src/Runtime/Shutdown/Orderly.antt =====
-- The shutdowns run to their end in the order of the source, whatever signals come.
use express_monorepo_bank_te.Base.{
  ℕ, ◌+◌, ◌≤◌, ◌<◌, true, false, none, some, List, [], ◌∷◌, ◌++◌, ◌≡◌, refl, ◌∙◌, arith, length,
  append_assoc,
}
use express_monorepo_bank_te.Runtime.Shutdown.{
  Task, Service, app_apis, auth_api, executor, telemetry_ingest, telemetry_consumers, plan, Process,
  started, Happening, signal, task_over, task_failed, timer, happen, live,
}

-- Before a signal nothing is over and nothing is to do. From then on the tasks that are over and
-- those that are left make the plan; the process has exited with code 0 only if none is left, and
-- waits for a task as long as it has not exited.
pub data Phase (s : Service) : Process → Type 0 where
  serving :
      Phase s
        (record { running = true; shutting_down = false; finished = []; left = []; exited = none })
  stopping :
      (finished : List Task) (task : Task) (rest : List Task)
      → finished ++ task ∷ rest ≡ plan s
      → Phase s (record {
        running = false;
        shutting_down = true;
        finished = finished;
        left = task ∷ rest;
        exited = none;
      })
  stopped :
      (finished : List Task)
      → finished ≡ plan s
      → Phase s (record {
        running = false;
        shutting_down = true;
        finished = finished;
        left = [];
        exited = some 0;
      })
  abandoned :
      (finished left : List Task)
      → finished ++ left ≡ plan s
      → Phase s (record {
        running = false;
        shutting_down = true;
        finished = finished;
        left = left;
        exited = some 1;
      })

signalled-Phase :
    (s : Service)
    → Phase s (record {
      running = false;
      shutting_down = true;
      finished = [];
      left = plan s;
      exited = none;
    })
unfolding plan
signalled-Phase app_apis = stopping [] _ _ refl
signalled-Phase auth_api = stopping [] _ _ refl
signalled-Phase executor = stopping [] _ _ refl
signalled-Phase telemetry_ingest = stopping [] _ _ refl
signalled-Phase telemetry_consumers = stopping [] _ _ refl

happen-Phase : (s : Service) (h : Happening) {p : Process} → Phase s p → Phase s (happen s h p)
unfolding happen
happen-Phase s signal serving = signalled-Phase s
happen-Phase s task_over serving = serving
happen-Phase s task_failed serving = serving
happen-Phase s timer serving = serving
happen-Phase s signal (stopping finished task rest h) = stopping finished task rest h
happen-Phase s task_over (stopping finished task [] h) = stopped (finished ++ task ∷ []) h
happen-Phase s task_over (stopping finished task (next ∷ rest) h) =
    stopping (finished ++ task ∷ []) next rest (append_assoc finished (task ∷ []) (next ∷ rest) ∙ h)
happen-Phase s task_failed (stopping finished task rest h) = abandoned finished (task ∷ rest) h
happen-Phase s timer (stopping finished task rest h) = abandoned finished (task ∷ rest) h
happen-Phase s h (stopped finished e) = stopped finished e
happen-Phase s h (abandoned finished left e) = abandoned finished left e

live-Phase : (s : Service) (hs : List Happening) {p : Process} → Phase s p → Phase s (live s hs p)
unfolding live
live-Phase s [] h = h
live-Phase s (x ∷ hs) h = live-Phase s hs (happen-Phase s x h)

-- From its start, whatever signals come, tasks end or fail and timers fire, a service is in one of
-- the phases: serving; stopping, with the tasks over and left making the plan in its order; stopped
-- with code 0 once the whole plan is over; or ended with code 1 on the way.
pub shutdown-Phase : (s : Service) (hs : List Happening) → Phase s (live s hs started)
unfolding started
shutdown-Phase s hs = live-Phase s hs serving

-- Signals and ends of tasks, no failure and no timer.
abbrev pub IsCalm : List Happening → Type 0
IsCalm [] = Unit {0}
IsCalm (signal ∷ hs) = IsCalm hs
IsCalm (task_over ∷ hs) = IsCalm hs
IsCalm (task_failed ∷ hs) = ⊥
IsCalm (timer ∷ hs) = ⊥

abbrev pub tasks_over : List Happening → ℕ
tasks_over [] = 0
tasks_over (task_over ∷ hs) = tasks_over hs + 1
tasks_over (_ ∷ hs) = tasks_over hs

abbrev Ended : Service → Process → Type 0
Ended s p = (p.exited ≡ some 0) × (p.finished ≡ plan s)

live-Ended : (s : Service) (hs : List Happening) (p : Process) → Ended s p → Ended s (live s hs p)
unfolding live happen
live-Ended s [] p h = h
live-Ended s (x ∷ hs) p h = live-Ended s hs (happen s x p) (rw (h.0, happen) h)

stopping-Ended :
    (s : Service) (hs : List Happening) (finished : List Task) (task : Task) (rest : List Task)
    → finished ++ task ∷ rest ≡ plan s
    → IsCalm hs
    → length rest < tasks_over hs
    → Ended s (
        live s hs (record {
          running = false;
          shutting_down = true;
          finished = finished;
          left = task ∷ rest;
          exited = none;
        }))
unfolding live happen
stopping-Ended s [] finished task rest h calm enough = absurd (omega (arith, enough))
stopping-Ended s (signal ∷ hs) finished task rest h calm enough =
    stopping-Ended s hs finished task rest h calm enough
stopping-Ended s (task_over ∷ hs) finished task [] h calm enough = live-Ended s hs _ (refl, h)
stopping-Ended s (task_over ∷ hs) finished task (next ∷ rest) h calm enough =
    stopping-Ended s hs (finished ++ task ∷ []) next rest
      (append_assoc finished (task ∷ []) (next ∷ rest) ∙ h) calm (omega (arith, enough))
stopping-Ended s (task_failed ∷ hs) finished task rest h calm enough = absurd calm
stopping-Ended s (timer ∷ hs) finished task rest h calm enough = absurd calm

-- After a signal, when as many tasks end as the service's plan has, further signals may come but no
-- task fails and the timer does not fire, the process has exited with code 0, and the tasks that are
-- over are the plan's, in its order.
pub shutdown_ends :
    (s : Service) (hs : List Happening)
    → IsCalm hs
    → length (plan s) ≤ tasks_over hs
    → ((live s (signal ∷ hs) started).exited ≡ some 0)
      × ((live s (signal ∷ hs) started).finished ≡ plan s)
unfolding live happen started plan
shutdown_ends app_apis hs calm enough = stopping-Ended app_apis hs [] _ _ refl calm enough
shutdown_ends auth_api hs calm enough = stopping-Ended auth_api hs [] _ _ refl calm enough
shutdown_ends executor hs calm enough = stopping-Ended executor hs [] _ _ refl calm enough
shutdown_ends telemetry_ingest hs calm enough =
    stopping-Ended telemetry_ingest hs [] _ _ refl calm enough
shutdown_ends telemetry_consumers hs calm enough =
    stopping-Ended telemetry_consumers hs [] _ _ refl calm enough
