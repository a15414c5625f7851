-- ===== src/Pipeline.antt =====
-- Running one pipeline: its step graph, its failure modes, and the walk that launches the steps
-- (src/carve/runtime/pipeline_dag.py, failure_modes.py and execute_pipeline.py).
mod Tests
pub mod Step
pub mod Dag
pub mod Graph
pub mod FailureModes
pub mod Execute
