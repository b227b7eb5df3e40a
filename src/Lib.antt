-- ===== src/Lib.antt =====
-- The verification library of aqualinkd_validator, a tool that drives an AqualinkD installation
-- through testcases and restores the pool equipment afterwards.
--
-- Parts, and the files that model them (paths of the program are from the repository's root):
-- - Capture: src/aqualinkd_validator/capture.py. Frames is `JandyFrameBuffer` (`feed`, `flush`,
--   `_frame_end`); Pcapng is `PcapngSerialWriter`, whose writes are the bytes they append;
--   Transport is `CapturedSerialTransport`, which gives each chunk to the frame buffer of its
--   direction, and each frame to the timeline and the writer. Pcapng/Reader is a reader of the
--   format, independent of the writer.
-- - Capture/LogCapture: src/aqualinkd_validator/protocols/rs485/log_capture.py and
--   src/aqualinkd_validator/adapters/log_capture.py, over what the regular expressions capture.
-- - Testcases: src/aqualinkd_validator/testcases/. Model and Model/Steps hold the classes of
--   model.py, Suite its suites; Keywords and Executor are executor.py, where a keyword is a
--   function on the state of its runtime that may raise; Lifecycle is lifecycle.py, which runs the
--   executor for each testcase and then the final restoration.
-- - Equipment: src/aqualinkd_validator/domain/equipment.py.
-- - Engine/Restoration: `RestorationSession` of src/aqualinkd_validator/engine/restoration.py.
--   Action is the monad of its callbacks, which may fail or be cancelled; Restore is `restore`,
--   one definition for each `try`; Logic, Keeping and Pending have the rules to reason about it,
--   Panel what is assumed of the panel behind the callbacks, and Order the order of the devices.
-- - Engine/Stability: `EquipmentStabilityService.wait` of
--   src/aqualinkd_validator/engine/equipment_stability.py, over a list of the rounds of its loop.
-- - Engine/Runtime and Engine/Actions: `EquipmentActions` of
--   src/aqualinkd_validator/engine/equipment_actions.py, over a record of the calls that it
--   depends on; a poll loop has fuel. Keeps and Performing have the rules for all actions,
--   Commands what is assumed of the API, and Tracking, Outcome and Termination what follows.
-- - Pda/Programmer and Pda/Restoration: programmer.py, restoration.py, restoration_coordinator.py
--   and equipment_control.py of src/aqualinkd_validator/protocols/pda/; Sending and Once count the
--   commands of a restoration, Retaining and Pending follow what its session holds as touched. The
--   restoration session of Engine/Restoration runs on the callbacks of Pda/Restoration, and these
--   on Engine/Actions.
-- - Pda/Sleep: `PdaSleepWakeService` of src/aqualinkd_validator/protocols/pda/sleep.py; Replay has
--   the state machine of sleep that its search is compared with, Logged what is assumed of the
--   log, and Cycle what an observed cycle has seen.
-- - Monitor: `OutputMonitor` of src/aqualinkd_validator/adapters/process.py, over the batches of
--   lines that come while a wait sleeps; Monitor/Log is the log it stands for.
-- - Supervisor: `supervise` of src/aqualinkd_validator/adapters/process.py, over a host of the
--   process, the tasks and the signals.
-- - AllButton: `AllButtonPanelDriver` of src/aqualinkd_validator/protocols/rs485/allbutton.py,
--   over a list of what its exchanges give; Keys is what they tell, Status what the panel shows.
-- - Correlation: src/aqualinkd_validator/correlation.py; Conditions writes its tests out, Matching
--   and Verdict follow what it reports.
-- - TimeSync: src/aqualinkd_validator/protocols/time_sync.py; Distance is its arithmetic, Restore
--   the restoration of the panel's clock.
-- - Prelude has the shared names and lemmas, Tests the runs on concrete inputs.
--
-- Bounds and fuel: `drain` takes as many rounds as the buffer has bytes, and one more, which is
-- enough since each round shortens the buffer. `poll` of the equipment actions has as many rounds
-- as its fuel (`poll_time` of TimeSync too), and a round more than the timeout has polling
-- intervals is enough. The other loops are structural. Integers of a PCAPNG block have their
-- width, and a number that does not fit is the error of `struct.pack`. Times are whole numbers of
-- one unit, since the code only compares, adds and subtracts them.
--
-- Not modelled: I/O (files, sockets, processes, the console), the parsing of JSON and YAML, the
-- start of the PDA, the command line, and the scheduling of coroutines: awaited calls happen in
-- the order of the code, and a race is decided by a parameter. Python's `casefold` and `strip` are
-- those of ASCII.
pub mod Prelude
pub mod Capture
pub mod Testcases
pub mod Equipment
pub mod Engine
pub mod Monitor
pub mod Supervisor
pub mod Pda
pub mod AllButton
pub mod TimeSync
pub mod Correlation
pub mod Tests
