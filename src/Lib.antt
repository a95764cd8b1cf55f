-- ===== src/Lib.antt =====
-- hydra-queue-runner: the queue runner hands out the build steps of Hydra to builders.
--
-- The program: builds ask for a top-level derivation; its steps form a graph of dependencies. A step
-- without open dependencies is runnable and becomes a job of the queue of its system. A dispatch goes
-- over the queues and hands each ready job to a builder that has capacity and the features; the
-- builder reports, and a finished step releases the steps that waited for it.
--
-- Base holds what the parts share: lists, texts, words, association maps, comparisons, sorting.
-- NixUtils.StorePath is crates/nix-utils/src/store_path.rs, NixUtils.Derivation is drv.rs beside it,
-- Db.Models is crates/db/src/models.rs, BinaryCache.Compression and BinaryCache.NarInfo (with its
-- parser, Parse) are compression.rs and narinfo.rs of crates/binary-cache/src, Shared.Product and
-- Shared.NixSupport are crates/shared/src/lib.rs. The modules of State are the files of
-- queue-runner/src/state: State.Heap, State.Step and State.Steps are step.rs, State.StepInfo is
-- step_info.rs, State.Queue is queue.rs, State.Jobset is jobset.rs, State.Machine is machine.rs,
-- State.Build and State.Remote and State.Output are build.rs, State.Jobsets is the registry of
-- jobset.rs, State.Metrics is metrics.rs, State.Channel is inspectable_channel.rs, and
-- State.Dispatch is the part of queue.rs where queues and builders meet. State.Runner is mod.rs,
-- which ties them together: Finish is succeed_step and utils.rs, Fail is fail_step and
-- inner_fail_job, Cached is what is decided without a run, Builders is what happens to builders,
-- Realise sends a job to a builder, Submit fills the queues and aborts unsupported steps,
-- CreateStep and CreateBuild read new builds. Its other modules are proofs. Functions have the
-- names of the source.
--
-- State: an `Arc` is an address. Steps, builds and jobsets are cells of `Heap`, jobs are cells of
-- `InnerQueues`, builders are cells of `Machines`; a `Weak` is an address whose cell may be empty or,
-- for a job, may have no owner. Atomics and locks are fields, and an operation is one step on the
-- state that it returns. A hash map is an association list, whose order stands for the iteration
-- order that the program cannot know. The clock is an argument.
--
-- An operation of State.Runner is an action on the record Runner, which ends with a value or a
-- failure and the state that it has reached. The database is the list of the statements that it has
-- committed; a transaction collects its statements first, and each connection, statement and commit
-- may be refused. What Nix, the stores and the channels answer is in the environment. Calls that the
-- source runs side by side follow each other.
--
-- Numbers: `u64` counters wrap at 2^64; an `i32`, `i64` or float is given by its bits and compared
-- through a key; sums that cannot come near a bound are plain. Multiplication, division and casts of
-- floats are arguments.
--
-- Fuel: `get_dependents` searches a graph that may have cycles. It gets fuel, and the number of the
-- paths that are not seen yet, plus one, is enough. `propagate_priorities` searches along the
-- dependencies; fuel for one round and one for each path of a dependency is enough. The loop of
-- `inner_fail_job` gets the bound `rounds`, two more than there are unfinished builds, and `search`
-- bounds the searches in State.Runner. `create_step` and `create_build` get fuel too; no bound for
-- these is shown yet.
--
-- Not modelled: the SQL of the database, the Nix store and the network, the servers, most metrics,
-- configuration files, the builder and the client of the binary cache, which are I/O over external
-- crates; of queue-runner/src/state/mod.rs the loops that wait for notifications, the start-up,
-- the FOD checker, the status dump and the reading of the rows of new builds.
pub mod Base
pub mod NixUtils
pub mod Db
pub mod BinaryCache
pub mod Shared
pub mod State
