-- ===== src/Lib.antt =====
-- Verification of ZERG, which runs the tasks of a feature on parallel workers, level by level.
--
-- The orchestrator keeps the tasks and the counters of their levels in memory, in the
-- LevelController of zerg/levels.py. Workers claim tasks and write their results to a state file
-- that all processes share. The orchestrator takes the stored results over into the controller,
-- schedules retries of failed tasks, and asks a circuit breaker per worker and a backpressure
-- controller per level whether to go on. When a level is resolved, the coordinator of the levels
-- merges the branches of the workers, by a staging branch and behind the quality gates.
--
--   Common          names and lemmas that all parts use: dictionaries in insertion order, Boolean
--                   tests, signed integers
--   Constants       zerg/constants.py: levels and task statuses
--   Levels          zerg/levels.py, and LevelStatus of zerg/types.py. Marks has the calls that move
--                   a task, Tally and Steps the counters against the tasks, Initial what initialize
--                   builds, Resolved and Order when a level counts as resolved and may start
--   State           zerg/state/task_repo.py and zerg/dependency_checker.py: the stored tasks; Claims
--                   and Exclusive are about claim_task. State.Retry is zerg/state/retry_repo.py,
--                   LevelRepo zerg/state/level_repo.py and Log zerg/state/execution.py
--   Backoff         zerg/retry_backoff.py
--   Retries         zerg/task_retry_manager.py, with Verify for verify_with_retry
--   Sync            zerg/state_sync_service.py, over Levels and State
--   Reconcile       zerg/state_reconciler.py, over Levels, State and Workers: LevelId for the level
--                   that an ID names, Transition for the two reconciliations
--   Ports           zerg/ports.py: Fresh for what is handed out, Enough for when that succeeds
--   Assign          zerg/assign.py, with Balance for how the minutes are spread, and Rebalance
--   CircuitBreaker  zerg/circuit_breaker.py: Machine and Diagram for the states, Threshold and
--                   Cooldown for when a circuit opens and what it lets through
--   Backpressure    zerg/backpressure.py: Window for the deque of outcomes, History and Verdict for
--                   the answers told from the whole history of calls
--   Validation      zerg/validation.py: TaskId for the format of IDs, Ownership for the files, and
--                   Dependencies for levels and cycles, with Fuel, Layered and Acyclic about it
--   Parser          zerg/parser.py, which the checks of Validation guard: Sort for the topological
--                   sort, with Index, Relax, Kahn, Start, Accepted and Sorted about it, Ready
--                   for the tasks that may start, and Critical for the critical path, with
--                   Longest, Settled, Chain and CriticalPath about it
--   GraphValidation zerg/graph_validation.py: Cycles and Depth for cycles within a level, Search
--                   and Reached for tasks that no root leads to, Properties for the whole check
--   Workers         zerg/state/worker_repo.py and WorkerState of zerg/types.py; Registry is
--                   zerg/worker_registry.py
--   Loops           zerg/loops.py, with Best about its answer
--   Tiers           zerg/verification_tiers.py, with Pass about its verdict
--   Gates           zerg/gates.py and the plugin gates of zerg/plugins.py: Reference for gates that run
--                   one after the other, Rounds for the loops against it, and Verdict
--   Git             zerg/git/base.py and zerg/git/ops.py, as far as merging uses them: Calls for
--                   calls that change a state and may raise, Triple for what such calls ensure,
--                   Still for the commands that leave a branch where it is, and Changes for
--                   the operations that merging does not use
--   Merge           zerg/merge.py: Pipeline for how gates are run, with GatePipeline of
--                   zerg/level_coordinator.py, Steps for the steps on the repository, and Quiet,
--                   Passed, GateSteps, Flow and Guarded about them
--   Coordinator     LevelCoordinator of zerg/level_coordinator.py, over Levels, Backpressure, State
--                   and Merge; Stored, Handled and Outcome are about the end of a level
--   Protocol        zerg/protocol_state.py: what a worker writes, and Claiming about how it claims
--   Escalation      zerg/escalation.py, with Resolved about it
--   Heartbeat       zerg/heartbeat.py, with Stalled about it
--
-- A method is a function with the name of the method, from the state to the answer and the new
-- state. A record has the fields of the class or of the stored dictionary; a missing key and a
-- stored None are both none. A call that reads the clock takes its readings as arguments or as a
-- function of their position. Times are numbers of clock ticks, where the source compares
-- timestamps as text or subtracts floats. random.uniform, random.shuffle, the verifier, the run of
-- a command, the order in which Python lists a set, the code points of a string, the answer of the
-- system to a bind, Python's text of an integer, the program git, plugin gates, the files of gate
-- results and the texts of messages are parameters. A callback on the end of a level may raise and
-- change the outside world, and takes no part of the coordinator with it. A call that writes stored
-- tasks runs under a lock on the state file, so such calls of several processes are a sequence of
-- functions on the stored tasks; a call that only reads takes the copy that its process has. An
-- exception is a value of the answer: LevelError, none, or a constructor of
-- its own.
--
-- Most loops are by structural recursion over a list or a known number of rounds. Six run on fuel:
-- has_cycle of Validation, with one unit for each ID that the graph names, since each call visits a
-- new one; the topological sort, with one round for each task, since a round finishes one; the
-- search for reachable tasks, with one round for each place that a task can take on the queue;
-- the search for cycles within a level, whose depth is at most the number of IDs of the level; the
-- critical path, which is followed back in at most one step for each task; and the polling of a
-- worker, with one round for each tick that it waits, since a round sleeps for one at least.
-- Running out of fuel is an answer of its own, none or a constructor.
--
-- Not modelled: input and output, logging, the state file itself, the program git, launchers and containers,
-- the command line, the analyses of source text, the tests of the shape of a task graph in JSON and
-- its level definitions, and the main loops of the orchestrator and of a worker. The reports (get_status and the like)
-- of the breaker and of backpressure only read fields that other operations set.
pub mod Common
pub mod CircuitBreaker
pub mod Backpressure
pub mod Constants
pub mod Levels
pub mod State
pub mod Backoff
pub mod Retries
pub mod Sync
pub mod Ports
pub mod Assign
pub mod Validation
pub mod GraphValidation
pub mod Workers
pub mod Gates
pub mod Git
pub mod Merge
pub mod Coordinator
pub mod Protocol
pub mod Escalation
pub mod Heartbeat
pub mod Tiers
pub mod Reconcile
pub mod Loops
pub mod Parser
