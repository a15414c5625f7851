-- ===== src/Runtime/Archiver/Tests.antt =====
-- A job and a run that are old enough, a step row that never ended, and two drivers.
use carve.Common.{
  ℕ, ◌+◌, String, false, Option, none, some, List, [], ◌∷◌, ◌≡◌, refl, ◌==◌, string_eq, nat_eq,
  option_eq,
}
use carve.Common.Slices.{length}
use carve.Runtime.Archiver.{
  jobs, step_runs, logs, runs, Row, Table, Db, table, Driver, Settings, predicate, archive_each,
  archive_one, archive_once, test_of,
}
use carve.Runtime.Archiver.Sweep.{swept, tally}
use carve.Runtime.Archiver.Pass.{TableOutcome, archive_once-TableOutcome, archive_once-conserves}
use carve.Runtime.Archiver.Refers.{here}
use carve.Runtime.Archiver.Held.{unfinished_step_holds_runs}
use carve.Runtime.Archiver.Completes.{archive_once-archives}

abbrev row : String → Option ℕ → String → Option String → Row
row id finished status run_id = record {
  id = id;
  finished = finished;
  status = status;
  tenant_id = 1;
  run_id = run_id;
}

abbrev crashed_step : Row
crashed_step = row "step" none "running" (some "run")

abbrev old_run : Row
old_run = row "run" (some 10) "failed" none

abbrev old_job : Row
old_job = row "job" (some 10) "failed" (some "run")

abbrev live : List Row → Table
live rows = record { active = rows; archived = [] }

abbrev db : Db
db = record {
  jobs_table = live (old_job ∷ row "job-2" (some 95) "failed" none ∷ []);
  step_runs_table = live (crashed_step ∷ []);
  logs_table = live [];
  runs_table = live (old_run ∷ row "run-2" (some 10) "success" none ∷ []);
  last_run_ids = [];
}

abbrev healthy : Driver
healthy = record { down = λ name s. false; rowcount = λ name s n. some n }

abbrev settings : Settings
settings = record { now = 100; window = λ name. 10; tenant_id = 1 }

moves_one_job :
    (archive_once healthy settings db).moved ≡ ((jobs, 1) ∷ (step_runs, 0) ∷ (logs, 0) ∷ [])
unfolding archive_once archive_each archive_one string_eq nat_eq option_eq length
moves_one_job = refl

archive_once-TableOutcome_example : TableOutcome settings jobs db (archive_once healthy settings db)
archive_once-TableOutcome_example = archive_once-TableOutcome healthy settings jobs db

archive_once-conserves_example :
    tally (λ r. r.id == "job") (table jobs (archive_once healthy settings db).db).active
      + tally (λ r. r.id == "job") (table jobs (archive_once healthy settings db).db).archived
    ≡ tally (λ r. r.id == "job") (table jobs db).active
      + tally (λ r. r.id == "job") (table jobs db).archived
archive_once-conserves_example =
    archive_once-conserves healthy settings jobs db (λ r. r.id == "job")

unfinished_step_holds_runs_example :
    table runs (archive_once healthy settings db).db ≡ table runs db
unfolding predicate string_eq nat_eq
unfinished_step_holds_runs_example =
    unfinished_step_holds_runs healthy settings db crashed_step old_run here refl refl here refl

archive_once-archives_example :
    table jobs (archive_once healthy settings db).db ≡ swept (test_of settings jobs) (table jobs db)
archive_once-archives_example =
    archive_once-archives healthy settings jobs db
      (record { up = λ s. refl; counted = λ s n. refl }) refl
