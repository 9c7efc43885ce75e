-- ===== src/Lib.antt =====
-- packtrail: a durable workflow engine, event-sourced. An execution is a log of events; a command
-- is decided on the state that the log folds to, and the decision is a list of new events.
-- This library models the pure heart of it (internal/fold), the definitions that it reads and their
-- validation (flow), and the engine that loads a state, decides a command and appends the decision.
--
-- Parts and files.
-- - GoMap: Go's maps with string keys, as entries in the order of their keys. Json: JSON values and
--   json.RawMessage. Platform: the float64 operations and SHA-256, which are parameters, and the
--   identifier rules of internal/names/names.go. Outcome: errors as values; a formatted text is
--   kept as the data of its format (Msg). Text: what the code uses of Go's strings and strconv.
-- - Event (event/event.go): the payloads of the log. Cmd (internal/cmd/cmd.go): the commands.
-- - Flow, Flow.Backoff (flow/flow.go, flow/graph.go): a validated flow as the fold reads it. A
--   compiled expression (internal/expr/expr.go) and an output schema are functions of the flow.
-- - Flow.Source: a definition as it is written, and the problems of flow/errors.go. Flow.Validate and
--   its children (flow/validate.go) check it level by level: the flow, the fields of a node, the
--   nodes, and with Flow.Graph (flow/graph.go) the fans, the entries into branches, the start and
--   what it leads to. A nil pointer that is dereferenced is a panic of the model. Flow.Valid and its
--   children hold the theorems and the runs.
-- - Fold.State, Fold.Apply and its children (internal/fold/state.go, view.go): State and Apply.
--   Apply goes down a chain of functions by event, as in the source: Apply.Nodes (applyNode),
--   Apply.Structure (applyStructure), Apply.Waits (applyWait). Fold.Reduce: reduce.go.
-- - Fold.Decide (internal/fold/decide.go): Decide, DecideFork, Continue and Abort. A method of the
--   decider is an action (Decide.Monad) that reads the decider and changes the state and the events
--   emitted so far; Decide.Basics, Decide.Route, Decide.Join and Decide.Settle hold the methods,
--   Decide.Fork those of a fork, a continuation and an abort.
-- - Fold.Rules and its children: what each event keeps, a decision keeps. Fold.Frame: what an event
--   of a node leaves alone. Fold.Replay, Fold.Numbering, Fold.Writes and the others named in the
--   results hold theorems; Fold.Scenarios holds runs and instances.
-- - StateCache (internal/statecache/statecache.go): the bounded cache of states; which entry Put
--   evicts is a parameter.
-- - Ready (internal/ready/ready.go): the readiness of a process, with the callbacks that Begin
--   returns as values of the state. Snapshot (internal/snapshot/snapshot.go): when one is due.
-- - Worker.Semaphore (worker/semaphore.go): the slots of a concurrency key. Its functions are the
--   updates that casSem applies; Semaphore.System is a step relation of many workers that read the
--   bucket and write to it at a revision, and of the key's TTL (internal/infra/provision.go);
--   Semaphore.Loop has the retries of casSem.
--   GoMap.Count counts the keys of a map.
-- - Infra: the server, which is not of the repository, with the stores built on it (the snapshots,
--   the archive, the registered flows): a record of what it holds and answers, and IsHonest, the
--   behaviour of it that the theorems rely on. Log (internal/eventlog/eventlog.go): Append and Read.
--   Loader (internal/loader/loader.go): the state from a log, a snapshot and the archive;
--   Loader.Reference is the state that a whole log stands for.
-- - Engine (internal/engine/engine.go): apply, the rounds in which a command is loaded, decided and
--   appended. The server between two calls is changed by a parameter: other engines. Engine.Memory
--   is a server in memory; Engine.Tests has runs on it. Fold.Placed, Fold.Heads and Fold.Versions
--   say of a decision what the loader relies on: the sequence is not read, what its events begin
--   with, and which version of the flow they name. Engine.Delivery: handle, with its replies and
--   the calls on the message as a list of effects.
--
-- Bounds and fuel. Entering a node recurs through the graph: `enter` has MaxStepsOrDefault as its
-- fuel, each entry counts a step, and an entry past the limit fails the execution. The loop of
-- mapProgress makes a round for each item that has not started. Other loops are recursions on lists.
-- The search for unreachable nodes has the number of nodes as its fuel: a round takes a node off the
-- stack, and a node is put on it once.
-- casSem makes 16 rounds, apply 8, as in the source. A read has one round more than there are
-- messages as its fuel: a batch that has more to come holds a message.
-- int64 delays are bit patterns below 2^64; counters, indexes and times are numbers without bound.
--
-- Not modelled: NATS, the dispatcher, the rest of the worker SDK, clients and tools, which do I/O;
-- of the engine what follows an append (snapshots, continuations), archiving and deleting; the
-- trace and DecisionEnd of an event. One load reads one server, and which flows are registered does
-- not change. The theorem on the rounds is for commands other than a fork, and for runs in which no
-- decision is over the engine's limit. A panic is an error of the model (panic): apply leaves the
-- cached state as far as the decision got, which is a parameter (torn), and the delivery is handed back
-- by the runner of internal/consume/consume.go. Of the rest are left out: the JSON encoding itself, but
-- for the null that an empty message is read back as; the decoding of YAML. The compilers of
-- expressions and schemas are parameters of the validation (Compiler), and what it stores for the
-- engine beside byID, branchOf, joinOf and the start is left out. The fold reads a validated flow:
-- negative durations and limits, which validation refuses, do not occur.
pub mod Prelude
pub mod Text
pub mod GoMap
pub mod Json
pub mod Platform
pub mod Outcome
pub mod Event
pub mod Flow
pub mod Cmd
pub mod Fold
pub mod Worker
pub mod StateCache
pub mod Ready
pub mod Snapshot
pub mod Infra
pub mod Log
pub mod Loader
pub mod Engine
