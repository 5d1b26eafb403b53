-- ===== src/Lib.antt =====
-- pgquarry: a Postgres extension that queues texts, and a worker in C++ that turns them into
-- embeddings or generated texts with llama.cpp and writes those back.
--
-- The parts, and the modules that model them:
-- Config: config.hpp, embedding_config.hpp and generation_config.hpp of src/. Load is
--   `load_config`, Validate is `AppConfig::validate`, Purge is `parse_purge_after`. The TOML
--   library and the file system are parameters. An `int` is an integer that `IsInt` bounds;
--   `narrow` is the conversion to it.
-- Job: src/job_type.hpp.
-- Writeback: src/writeback_sql_builder.cpp, the texts of the statements that write a result back.
-- Database: the tables of sql/pgquarry--1.0.sql and the statements of src/job_sql.hpp on them.
--   Claims has the steps that clients and workers make, one statement each, in any order.
-- Store: src/job_store.cpp. A call takes a `Session` and returns a result or an error with the
--   session after it. The server is the parameter `Env`: which statements fail, the time of each,
--   the rows that other sessions hold, the order in which it returns rows, how an interval is
--   read. Handle is the life of the connection, Chosen and Cached the statements that a sequence
--   of writes executes.
-- Watch: src/watch_cache.cpp, the copy of watched_tables that the worker keeps. `find` may reload
--   it once in a batch.
-- Dispatch: src/job_dispatcher.cpp. A batch of claimed jobs goes to a provider, a parameter, and
--   each result goes through the cache and the store.
-- Llama: src/llama_provider.cpp. `Backend` is what llama.cpp answers. `embed_batch` cuts the
--   texts into chunks that `llama_encode` takes at once; its limits are cast to `int` as in the
--   code, and the sum of two token counts is exact, where the code has an `int`, which only an
--   `n_batch` of 2^30 or more can make overflow. Placed is the layout of a batch. Init is the
--   life of the provider, and Capacity the size of the batch that its context takes.
-- Generate: src/llama_generation_provider.cpp. `Context` is what llama.cpp answers. The loop of
--   `generate` is recursion on the rounds left, of which there are `max_tokens` at the start, as
--   in the code; so nothing runs out. A sum of `int`s that overflows has the outcome `undefined`.
--   Init is the life of the provider.
-- Lifetime: the calls of llama.cpp and libpq that take and give back a resource, and what it
--   means that all is given back.
-- Provider: src/embedding_provider.cpp and src/generation_provider.cpp, the factories and the
--   `embed_batch` of the interface.
-- Extension: sql/pgquarry--1.0.sql. Registered is what `watch` registers, Combined the jobs that
--   a change then enqueues, its triggers in the order of their names, which is a parameter, and
--   Polling the calls that wait for a job. Their loop is recursion on a number of rounds; the
--   timeout bounds the rounds that are needed.
-- Base: what the modules share. Examples: the theorems at concrete inputs.
-- Worker: src/worker_main.cpp. Start is the arguments and the gates of the start; Logger is
--   `init_logger`, which the start calls and which may end the process; Rounds and Backlog to
--   Served are the main loop, a round of which claims, dispatches, notifies and may purge; Own
--   and Honest are its claimed jobs whatever the server answers; Lifetime is what the process
--   takes and gives back. The signal that ends the loop is the end of the list of rounds.
-- All other loops of the code but the main loop run over lists or count down, and are structural
-- recursion; no fuel is needed. The main loop runs over the rounds until the signal that ends it.
--
-- Not modelled: the log lines, the mutex of a provider, the signal handlers and the sleeping of
-- the worker, the grants of the extension, llama.cpp.
mod Base
pub mod Config
pub mod Job
pub mod Database
pub mod Writeback
pub mod Store
pub mod Watch
pub mod Dispatch
pub mod Lifetime
pub mod Llama
pub mod Generate
pub mod Provider
pub mod Worker
pub mod Extension
mod Examples
