-- ===== src/Lib.antt =====
-- spoolctl is a job queue for one machine: commands are rows of an SQLite database, worker processes
-- claim and run them, and operators submit, list, cancel, retry, wait for and prune them.
--
-- The parts, and the files that model them:
-- - Models, Models/Backoff: spoolctl/models.py, its states, reasons, row records, constants and the
--   retry delay backoff_seconds. A time is a number of microseconds since the epoch, where the code
--   has a float of seconds; an interval that the code would make negative stops at 0, as in now -
--   threshold.
-- - Sql and its children: the SQL that the queries are made of, over a table as the list of its rows
--   in the order of their ids, and the laws of each operation (Laws, Keys for tables by ascending key,
--   Order for ORDER BY, Limit for LIMIT).
-- - Store and its children: spoolctl/store.py. Db has the three tables and the AUTOINCREMENT marks;
--   Submit is add_job_checked, Claim is claim_next, Record is record_success, record_failure and
--   update_heartbeat, Reap is stale_running_candidates and reap, Manual is retry_job and cancel_job,
--   Prune is prune_matches and prune_delete, Queries is every read-only query. Each transaction is one
--   function from the database to the new database and the answer, with the guards, early returns and
--   writes in the order of the code; a ROLLBACK returns the old database. Invariant says what a
--   well-formed database is, and its children treat the operations one by one; History is the queue's
--   history as a step relation, one step for each transaction of any process; Lifecycle is the
--   abstract queue that it refines: what each job is in, by its id, and the moves that it may make.
--   Schema is _ensure_schema with the migrations of older databases, over rows with columns by name.
-- - Worker and its children: spoolctl/worker.py. Liveness is is_worker_pid_dead, with the answers of
--   os.kill and ps as arguments; Reaping is reap_pass, Running is execute_attempt, process_one and the
--   loop of the heartbeat thread, Cycle is about a whole cycle, Loop is work_loop over the list of its
--   rounds. The child process and the signals are arguments, as are the changes that other processes
--   make to the database meanwhile. Store/Lease says what a claim gives to a worker through the
--   transactions of others, and Leased places a worker's cycle in the queue's history.
-- - Operations and its children: spoolctl/operations.py over the store. Errors has the error codes and
--   exit codes of spoolctl/errors.py and spoolctl/models.py, with CliError as a value; Requests is
--   cancel, retry and add; Pruning is prune_operation, with os.stat, os.unlink and os.rmdir as
--   parameters; Events is _event_page; Listing is list_operation; Waiting is wait_operation and the
--   long poll of events_operation; Feedback is feedback_operation; Output is output_operation, with
--   the files that open reads as a parameter; Doctor is doctor_operation, with the answers of the file
--   system and of SQLite as arguments.
-- - Validation and its children: spoolctl/validation.py. A text is the list of its code points. What
--   Python itself says of a character (decimal digit, blank, printable), its limit on the digits of an
--   integer, its floats, datetime and os.path are parameters. A parser answers a value, a CliError
--   with its suggestion, or an escaped ValueError. Ints, Names, Tags, Envs, States and Floats have the
--   parsers that their names say; Models/Suggest is _levenshtein_leq1 and _suggest of
--   spoolctl/models.py.
-- - Config: spoolctl/config.py. os.path, os.getcwd and what json.load gives for a path are parameters.
-- - Cli and its children: spoolctl/cli.py. Follow is _run_events_follow over the list of its looks at
--   the database; Verbs is cmd_cancel, cmd_retry, cmd_prune and cmd_wait, with their gates and exit
--   codes; Events is cmd_events and the checks of its arguments, Work is cmd_work over the worker's
--   loop, Lists is cmd_list and Output is cmd_output; Arguments is what main reads off the arguments
--   before argparse does. Store/Ledger says what the transactions do to the event ledger that Follow
--   reads.
-- - Base: names that all share. Examples: the theorems at a small concrete queue.
--
-- The worker and the operators meet only in the database: each calls the store's transactions, which
-- BEGIN IMMEDIATE puts in some order, so a history is a list of steps and an interleaving is one of
-- them.
--
-- Loops are structural recursion: the reap pass over its candidates, the prune over its ids, a wait
-- over the list of its polls, a stream over its looks and a worker over the list of its rounds, where
-- an outcome of its own says that those given do not end it. The loop of _ensure_schema runs on fuel
-- 6, for five migrations at most and the last check, which is proved to be enough; so does the
-- printing of a decimal number, on one more than the number.
--
-- Where the code reads by several statements outside a transaction, what others commit between them is a
-- parameter: the two reads behind a claim's COMMIT, the rounds of a reap pass and the three reads of an
-- event page. The per-id reads of one poll of wait, and the reads of the other read-only operations, are
-- of one database.
--
-- Not modelled: the connection with its PRAGMAs, indexes and CHECK constraints, migrators that race
-- with each other, exceptions of SQLite itself (but for the one that ends a stream), the making of a
-- job's output files, the signals that kill a process group, argparse and the printing of
-- spoolctl/cli.py, the published contract and schemas (static documents), the verbs that only project
-- rows (status, show, config), and the texts of messages and remediations. Exceptions that are neither expected nor caught are left out too: of ps, those that are no OSError or SubprocessError; of the files of output, those that are no FileNotFoundError. Texts of errors and event
-- details are data with what the code puts into them. While a prune removes files, nobody else changes
-- them. _validate_execution_payload checks types, which hold here by typing.
pub mod Base
pub mod Sql
pub mod Models
pub mod Store
pub mod Worker
pub mod Operations
pub mod Validation
pub mod Config
pub mod Cli
pub mod Examples
