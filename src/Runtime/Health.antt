-- ===== src/Runtime/Health.antt =====
-- The health endpoints: apps/telemetry-ingest/src/health.ts, apps/telemetry-consumers/src/health.ts
-- and apps/executor/src/health.ts. The database and redis answer or not; the checks are those that
-- the main.ts of the service gives.
use express_monorepo_bank_te.Base.{
  ℕ, String, Bool, true, ◌&&◌, List, [], ◌∷◌, ◌≡◌, ◌↔◌, str_eq, eq_iff, if◌then◌else◌, arith,
}
use express_monorepo_bank_te.Runtime.Shutdown.{Process}

pub record Reply : Type 0 where
  pub code : ℕ
  pub status : String
  pub checks : List (String × Bool)

-- `Object.values(checks).every(Boolean)`
abbrev pub every_check : List (String × Bool) → Bool
every_check [] = true
every_check ((name, b) ∷ rest) = b && every_check rest

abbrev pub not_found : Reply
not_found = record { code = 404; status = ""; checks = [] }

abbrev pub graded : Bool → List (String × Bool) → Reply
graded healthy checks = record {
  code = if healthy then 200 else 503;
  status = if healthy then "ok" else "degraded";
  checks = checks;
}

-- The checks of apps/telemetry-ingest/src/main.ts: the process, the TCP server and the producer.
abbrev pub ingest_checks : Process → Bool → Bool → List (String × Bool)
ingest_checks p listening producer_connected =
    ("running", p.running) ∷ ("listening", listening) ∷ ("kafka", producer_connected) ∷ []

unfoldable pub ingest_health : String → Process → Bool → Bool → Reply
ingest_health url p listening producer_connected =
    let checks = ingest_checks p listening producer_connected in
    if str_eq url "/health" then graded (every_check checks) checks else not_found

-- `consumers` has each consumer's `isRunning()`.
unfoldable pub consumers_health : String → Process → Bool → List (String × Bool) → Reply
consumers_health url p database consumers =
    if str_eq url "/health"
    then if database
      then graded (p.running && every_check consumers) consumers
      else record { code = 503; status = "database-unreachable"; checks = [] }
    else not_found

unfoldable pub executor_health : String → Process → Bool → Reply
executor_health url p redis =
    if str_eq url "/health"
    then if redis
      then if p.running
        then record { code = 200; status = "ok"; checks = [] }
        else record { code = 503; status = "stopping"; checks = [] }
      else record { code = 503; status = "redis-unreachable"; checks = [] }
    else not_found

-- Each of the three endpoints answers 200 just when the request is for `/health` and all that the
-- service depends on is well: for the ingest the process is running, the server is listening and the
-- producer is connected; for the consumers the process is running, the database answers and every
-- consumer is running; for the executor the process is running and redis answers.
pub health_lem :
    (url : String) (p : Process) (a b : Bool) (consumers : List (String × Bool))
    → (((ingest_health url p a b).code ≡ 200)
        ↔ ((url ≡ "/health") × (p.running ≡ true) × (a ≡ true) × (b ≡ true)))
      × (((consumers_health url p a consumers).code ≡ 200)
          ↔ ((url ≡ "/health") × (p.running ≡ true) × (a ≡ true) × (every_check consumers ≡ true)))
      × (((executor_health url p a).code ≡ 200)
          ↔ ((url ≡ "/health") × (p.running ≡ true) × (a ≡ true)))
unfolding ingest_health consumers_health executor_health
health_lem url p a b consumers = (
  (
    (λ h. (ground (arith, eq_iff url "/health"), ground arith, ground arith, ground arith)),
    (λ h. ground (arith, eq_iff url "/health")),
  ),
  (
    (λ h. (ground (arith, eq_iff url "/health"), ground arith, ground arith, ground arith)),
    (λ h. ground (arith, eq_iff url "/health")),
  ),
  (
    (λ h. (ground (arith, eq_iff url "/health"), ground arith, ground arith)),
    (λ h. ground (arith, eq_iff url "/health")),
  ),
)
