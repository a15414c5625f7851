-- ===== src/Lib.antt =====
-- A model of carve's core: who may run what (the permission layer), which job runs next (the job
-- queue), who runs it (the worker), and how the steps of one pipeline run (the pipeline walk).
--
-- Parts, and how they interact. A run of an agent has a mode; `build_policy` reconciles it with the
-- configuration, the agent's grant and the registered MCP tools into one policy, and the gate asks
-- that policy at every tool call, passing a shell command on to the bash gate. Apart from it, the
-- runtime enqueues pipelines as jobs; workers claim jobs, move them to running, beat and finish
-- them, and the reaper returns those of lost workers to the queue. The scheduler is one of those
-- that enqueue, and the archiver moves old rows out of the live tables. A claimed job's pipeline is
-- walked along its step graph, under the failure mode of each step, and the sink writes a row for
-- each attempt. The SQL tool classifies a statement before it asks the mode whether it may run.
--
-- Files and code (paths from the repository's root):
--   Common: Python's `==`, `in`, dicts, sets of names and string methods.
--   Permissions: src/carve/core/agents/permissions. Modes is modes.py and warehouse_roles.py; Tables
--     and Policy are policy.py; Bash is bash_gate.py; Gate is gate.py; Shlex is `shlex.split` of the
--     standard library. Sets are lists read by membership, an error message is a constructor, and
--     `Path.resolve` is a parameter.
--   Queue: src/carve/core/state/job_queue.py over the jobs table of models.py. Table has the rows,
--     the primary key and the two partial unique indexes; Enqueue, Claim, Transitions and Reclaim
--     have the methods. A method is one transaction, a function from the queue to a value with the
--     next queue, or to an error, which writes nothing: `store` refuses rows that violate an index.
--     Concurrent transactions are sequences of calls; the rows that one of them holds at the
--     moment of a SKIP LOCKED are the parameter `locked`. `update_heartbeat` reads its row before it
--     writes it, with no lock: its read and its write are apart, and others may commit in between.
--     A tie in ORDER BY takes the first row. Identifiers and times are arguments. The foreign key
--     to the runs table is left out. Life is the abstract view of one job, and System the histories
--     of the queue as a step relation, in which anyone may release any job at any time; the archiver
--     is not in them.
--   Runtime: Store is the queue with the tables of runs, workers and step runs (models.py,
--     src/carve/core/state/repository.py and job_queue.py); Call says what one call of the store by
--     a process is: before it the others may change the store in any way, and it may raise. Worker
--     is worker.py and heartbeat.py, Reaper is reaper.py and Sink is persisting_step_sink.py of
--     src/carve/runtime. The outcome of `execute_pipeline` is a parameter of the worker. A
--     cancelled task is not modelled.
--     Archiver is archiver.py: the four tables have one row type with the columns that a batch or a
--     foreign key reads, and a batch is one transaction that no other one interleaves with.
--   Sql: src/carve/core/sql. Dialects is dialects.py, Classify is classify.py over the kinds of the
--     nodes that `sqlglot` parses to, and Tool is the operation `run` of tool.py, with the runners and
--     the approver of a connection as parameters and the calls it makes of them as a list.
--   Scheduler: src/carve/runtime/scheduler.py and cron.py, and the rows of
--     src/carve/core/state/schedules.py that a pass reads and writes; Live has the changes of that
--     module by hand and by the reconciler, over the same rows with their trail. The croniter and
--     zoneinfo libraries are the parameter `Croniter`, of which `NextIsLater` is assumed where it is
--     named; what a pass did before an exception stays.
--   Pipeline: src/carve/runtime. Dag and Graph are pipeline_dag.py, FailureModes is
--     failure_modes.py, Execute is execute_pipeline.py, and Step is what they read of
--     src/carve/core/config/pipeline_schema.py and step_executor.py. Rendering and the step
--     executors are parameters that may answer every attempt anew. The steps of a wave see the
--     results before it; the hooks are kept for each step apart, so no order between two steps is
--     assumed. A hook may raise, which ends the walk; which of the exceptions of a wave it is, is left
--     out. Delays are whole numbers. The path in a cycle's message is left out.
--   Each Tests module runs the definitions on small inputs.
--
-- Fuel. The depth-first search has the number of steps and one more, since a chain of visits holds
-- a step once; Kahn's loop has the number of steps, since each is taken once; the downstream search
-- has the number of edges and the size of the first frontier and one more; the walk has the length
-- of the order and one more, since each wave resolves a step.
--
-- Not modelled: the worker pool, the other operations of the SQL tool, configuration, deployment, the
-- agents' loop over a language model, and all that is input and output (API, CLI, connectors,
-- integrations, migrations).
pub mod Common
pub mod Permissions
pub mod Queue
pub mod Scheduler
pub mod Sql
pub mod Runtime
pub mod Pipeline
