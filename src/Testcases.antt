-- ===== src/Testcases.antt =====
-- testcases/: the typed model of a YAML testcase and the executor that runs it.
pub mod Model
pub mod Keywords
pub mod Executor
pub mod Lifecycle
pub mod Suite
