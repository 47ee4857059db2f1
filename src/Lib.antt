-- ===== src/Lib.antt =====
-- The Python side of cubiczan-resilience: the package cubiczan_resilience (python/), the on-chain
-- writer (onchain/python/) and a part of scope-core (scope-core/), as pure functions with the
-- theorems about them.
--
-- The parts and the files that model them:
--   Circuit    python/src/cubiczan_resilience/circuit.py: `CircuitBreaker`, one function per method
--              on a record of its fields; Circuit/Runs has sequences of calls, and Circuit/Machine
--              what a caller may know of a breaker, a machine with one number in each state.
--   Retry      python/src/cubiczan_resilience/retry.py: `RetryPolicy`; Retry/Loop has `_run_sync` and
--              `_run_async`, which call the breaker of Circuit before and after each attempt, and
--              Retry/Resilient the decorator `resilient` around them.
--   Onchain    onchain/python/resilient_onchain/client.py: receipts, fees and error texts;
--              Onchain/Breaker has the breaker of that file, Onchain/Attempt the data of an attempt
--              and Onchain/Send `send_with_retry`.
--   Tiered     python/src/cubiczan_resilience/tiered.py: `resolve_tiered` and the badges.
--   Gate       python/src/cubiczan_resilience/verification_gate.py: `build_gate`.
--   Atomic     python/src/cubiczan_resilience/atomic.py: `atomic_write` on the files of a directory.
--   Idempotency  python/src/cubiczan_resilience/idempotency.py: both stores; the file store writes by
--              `atomic_write` of Atomic. Idempotency/Protocol has the protocol `IdempotencyStore` as a
--              record of operations with its laws, and both stores as instances.
--   Audit      python/src/cubiczan_resilience/audit_ledger.py: `AuditLedger` and `verify_ledger` on the
--              text of the file; Audit/Records has the records and what of them is signed, Audit/Paths
--              the confinement of the path.
--   Security   python/src/cubiczan_resilience/fastapi_helpers.py: the dependency of `require_auth`, and
--              `cors_allowlist`.
--   Athena     scope-core/src/scope_core/athena.py and utils.py: the checks of identifiers, `wait` and
--              `poll_until_terminal`; Athena/Client has the client's `start`, `fetch_rows` and `execute`.
--   Handlers   scope-core/src/scope_core/handlers.py: `BaseAnalysisHandler`, which checks its entities
--              by Athena's allowlist and runs its queries by Athena's client (Handlers/Analysis), and
--              Handlers/Ingestion `BaseIngestionHandler` with the S3 writers of utils.py.
--   Base, Text, Dict  what these share: library names, texts as code points, dicts and files.
--
-- How code becomes definitions. An object is a record of its fields, and a method a function from it to
-- its result and the object after it. The lock of an object makes a method one step, so what threads
-- do is a sequence of calls. What the code calls outside itself is a parameter over a world of any
-- type, which such a call may change: clocks, sleep, the random generator, the wrapped function, the
-- callbacks of the on-chain writer and of the tiers. An exception is a value of the result. A clock
-- reading is a number of ticks, any unit that all settings share; it may go back between two readings.
-- The rounding and the overflow of floats are not modelled: delays are numbers of ticks, the
-- multiplier of the back-off is a natural number, and the bump factor is a number of millionths.
--
-- Loops recurse on the rounds that `range` has left, so they need no fuel. The `while True` of
-- `poll_until_terminal` and `wait` has fuel, `timeout + 2` rounds for a positive interval, on a clock
-- that never runs back and with sleeps that last as long as they are asked to. The decimal digits of an
-- age recurse on the age itself, which is more than the number of its digits. `execute` waits with that
-- fuel, and `execute-Executes` shows that it is never spent.
--
-- The modules json and hmac, UTF-8 and the system calls are parameters. `atomic_write` has a list of
-- the files between its calls, one of which a crash leaves; the calls that fail are an argument. The
-- `json` module is assumed to read its own text back, where a theorem says so, which Python does for
-- dicts of JSON values with text keys.
--
-- Not modelled: the logger, `functools.wraps` and the overloads, the texts of most exceptions, exceptions
-- that are no `Exception` where only those are caught, the package exports, which are names only, and
-- the ports to TypeScript, Rust and JavaScript, which are other languages.
pub mod Base
pub mod Circuit
pub mod Retry
pub mod Text
pub mod Onchain
pub mod Gate
pub mod Tiered
pub mod Dict
pub mod Atomic
pub mod Idempotency
pub mod Audit
pub mod Athena
pub mod Handlers
pub mod Security
