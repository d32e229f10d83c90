-- ===== src/Lib.antt =====
-- FlowStudy-Judge: a worker that takes submissions from a RabbitMQ queue, compiles and runs them in
-- isolate sandboxes, compares their outputs, writes the verdicts to MySQL and acknowledges the
-- messages.
--
-- The parts of the program, and the files that model them:
--   Status     src/judge/status.h and status.cpp: the verdicts and their names.
--   Config     src/config/config.h and config.cpp: the structs and `load_config`.
--   Sandbox    src/judge/sandbox.h and sandbox.cpp: `init`, `cleanup`, `write_file`, `read_file` and
--              `execute` are in Sandbox/Command, `parse_meta` in Sandbox/Meta, `compile` and `run`
--              in Sandbox/Compile and Sandbox/Run, the names of languages and of Java classes in
--              Sandbox/Language.
--   Judge      src/judge/judge_engine.h and judge_engine.cpp: the structs are in Judge/Data,
--              `parse_message` in Judge/Message, `compare_output` in Judge/Compare, the class
--              `BoxPool` in Judge/BoxPool, and `JudgeEngine::judge` in Judge/Engine.
--   Db         src/db/mysql_client.h and mysql_client.cpp: the connection is in Db, the statements
--              in Db/Sql, `update_submission` and `update_code_run` in Db/Update.
--   Mq         src/mq/rabbitmq_client.h and rabbitmq_client.cpp: the connection and the answers are
--              in Mq, the consume loop in Mq/Consume.
--   Worker     src/worker/worker.h and worker.cpp: `on_message` is in Worker, the constructor, `run`
--              and `shutdown` in Worker/Run.
--   Main       src/main.cpp.
--   Common     shared helpers; Platform and Json are parameters.
--
-- How they interact: `main` loads the configuration and makes the worker; `run` connects both
-- clients and hands `on_message` to the consume loop; `on_message` parses the body, calls `judge`,
-- which takes a box from the pool and calls `compile` and `run` of its sandbox, then writes the
-- result in one transaction, and acknowledges the delivery or hands it back.
--
-- How the code is modelled: a struct is a record with the same fields. A method is a function on
-- the members that it changes, with the effects of Common/Effects: a call returns (`done`), an
-- exception leaves it (`threw`) or it waits for ever (`hung`), each with the state at that point.
-- An `int` is ℤ; the conversions from `size_t` wrap at 32 bits (`to_int32`), and `stoi` fails
-- outside of `int`; the sums of `int` that the program forms are taken not to overflow, which C++
-- leaves undefined. A `std::string` is a list of bytes. Logging is left out, and so are the move
-- operations of the clients, which are defaulted.
--
-- Parameters, for code that is not in the repository: the operating system, the files and `double`
-- (record Platform), nlohmann::json (JsonLib), libmysqlclient (MySqlLib), rabbitmq-c (AmqpLib).
-- A command of `std::system` and a call of a library are taken to return; the one wait in the model
-- is that of `BoxPool::acquire`. Documented behaviour is assumed only where a theorem names it:
-- Db/Atomic.Transactions, the laws of transactions on one connection, where a COMMIT that reports a
-- failure has committed all or nothing; Db/Server, the same laws for all connections; Db/Lexer, what
-- `mysql_real_escape_string` writes of a value, where it reports no error, and how a server reads
-- literals; Db/Recorded.Performs, a server that does to the tables what a statement that it reads
-- says; Mq/Ledger, a record of the deliveries and of the answers called for; Sandbox/Meta/RoundTrip,
-- the lines of isolate's meta file; Sandbox/Compile/Built, a source that the compiler accepts;
-- Sandbox/Run/Program, a program that isolate runs to its end. The files Scripted give concrete
-- instances, on which the definitions are run and the theorems are applied in the files Tests,
-- Judge/Engine/Ends and Judge/Engine/Echo.
--
-- Abstract specifications, stated apart from the code: Worker/Spec (the rounds of the worker, seen
-- from the broker and the committed rows) and Main/Process (the process, on top of it),
-- Judge/Engine/Verdict and Judge/Engine/Graded (the runs of a submission and what its result tells
-- of them), Judge/Engine/Shape (the shapes of a result), Judge/Compare/Lines (equal output),
-- Judge/Message/Fields and Config/Settings (the fields of a message and of a configuration),
-- Db/Pieces and Db/Meaning (what a statement says), Db/Tables (the tables, and what an update makes
-- of them).
--
-- Bounds: the digits of a number are made on fuel, one more than the number, which its digits never
-- exceed. The loop of `consume` is endless, and is watched for any number of rounds; the connection
-- loops are watched for as long as there are readings of `running_`, which other threads set. The
-- mutex of the pool makes each of its methods one step.
--
-- Not modelled: the test programs, the sample submissions, the scripts and the build files.
pub mod Common
pub mod Status
pub mod Judge
pub mod Config
pub mod Platform
pub mod Sandbox
pub mod Db
pub mod Json
pub mod Mq
pub mod Worker
pub mod Main
