-- ===== src/Lib.antt =====
-- The core logic of Switchyard, a self-hosted home automation platform: the daemon `switchyardd`
-- keeps an event log, projects it into a state cache, supervises out-of-process device drivers,
-- and authorizes each request against policies compiled from the configuration.
--
-- Which file models which part (paths from the repository's root). A definition has the name of
-- the Go function or type, in snake case for functions; a helper says what part of it it stands for.
--   Prelude           Boolean tests, lists, Go maps as association lists, package strings
--   Graph             paths and cycles of a finite graph, for areas and roles
--   Policy            internal/policy. Schema: schema.go; Selector: selector.go; Scope: intersect.go;
--                     Roles, Rule and Compile: compiler.go; Runtime: runtime.go; Explain: explain.go
--   Api               internal/api/token_scope.go, with tokenScopeBlobForMint of service_auth.go and
--                     decodeTokenScope of interceptor_authn.go
--   Carport           internal/carport. Fsm: fsm.go; Supervisor: the lifecycle loop of supervisor.go,
--                     RestartInstance of control.go; Dispatch: dispatch.go and routing.go
--   Config            internal/config. Diff: diff.go; Merge: merge.go
--   State             internal/state/cache.go
--   EditSession       internal/editsession/locks.go
--   EventStore        internal/eventstore. Event: event.go, filter.go; Projector: projector.go; Store and
--                     Batch: store.go; Query: query.go; Replay: replay.go; Subscription: subscribe.go,
--                     tailer.go, and what store.go publishes; CacheProjector and CacheReads: the store with internal/state/cache.go
--   Automation        internal/automation. Condition: condition/typed.go, compose.go; Mode: mode.go and
--                     fire and queuePump of engine.go; Trigger: trigger/state.go, event.go;
--                     Reload: reload.go with the registry of trigger/trigger.go
-- The child modules of a component hold its proofs; its Tests hold runs on small inputs.
--
-- How the parts interact: the configuration (merged by Config.Merge, compared by Config.Diff) gives
-- the raw policies and roles that Policy.Compile turns into an artifact, which Policy.Runtime installs
-- and asks for each request, together with the token scope of Policy.Scope, which Api.TokenScope
-- compiles from the message stored with a token. Carport.Dispatch sends a
-- command to an instance that Carport.Supervisor keeps running, and both append to the event log
-- of EventStore.Store, which the projectors, State.Cache among them, turn into views. EventStore.Subscription
-- brings the events to the triggers of Automation, which start runs and dispatch commands.
-- EditSession.Locks stands alone.
--
-- Conventions. State is passed explicitly: an operation takes the state and returns the new one.
-- Go's maps are association lists; where the program ranges over a map, the order of the list stands
-- for the order that Go picks. What the world answers is an argument: the clock, the random
-- generator, a hash, a codec, the rows of a query, the outcome of a spawn, a statement or an RPC. Goroutines that share state are a step relation. Times and
-- durations are numbers of nanoseconds, and int64 arithmetic is written with its wrap-around where a
-- loop doubles a duration.
--
-- Fuel and bounds. The depth-first walks over areas and roles run on fuel that bounds the depth of the
-- calls: one more than the number of keys of the map, since only a key has successors. The theorems on
-- reachability and cycles need no condition on it, so it is enough. The rounds of a replay are its
-- fuel, and the last position of the log is enough of them. All other loops are structural.
--
-- Not modelled: processes, sockets, gRPC streams, SQL, the Pkl evaluator, metrics,
-- spans and logs; the actions and the compiler of automations, the registry, authentication and the other API handlers.
pub mod Prelude
pub mod Graph
pub mod Policy
pub mod Api
pub mod Carport
pub mod Config
pub mod State
pub mod EditSession
pub mod EventStore
pub mod Automation
