-- ===== src/Lib.antt =====
-- Verification of mosfet-rs, an OpAMP client library: an agent that reports its state to a server and
-- answers the server's messages, over HTTP or over a websocket.
--
-- The application makes an `Api` (src/api.rs) and polls it in a loop. Each poll is one `trigger` of a
-- transport, which runs `State::evaluate` (src/state.rs) once: the state picks one handler of the
-- transport's `Channel` (src/opamp.rs), and the handler's answer picks the next state. The transports
-- are `HttpClient` (src/httpclient/mod.rs) and `WsClient` (src/wsclient/mod.rs). Both keep an
-- `agent_state`, which `get_status` fills once, and an outbox, which `handshake` and `poll` fill and
-- `send` empties; the HTTP client puts the responses into an inbox that `poll` empties.
--
-- Files:
--   Prelude, Prelude/*   shared names, tests on numbers, lists as vectors, `u32` texts
--   Exec, Exec/*         methods as functions of the client and the outside world, with panics; the
--                        rules by which a method keeps a predicate on the client (Exec/Keeps), one on
--                        client and world however it ends (Exec/Always) or with another one for the
--                        runs that panic (Exec/Tracks), and a relation over a loop (Exec/Steps)
--   Crates, Env          what is not in the repository: the generated protocol types, reqwest,
--                        tungstenite, prost, libdeflater, the clock, the environment, and the user's
--                        `ApiCallbacks` (src/api.rs)
--   Util                 the clock and the ulids of src/opamp.rs
--   Messages, Defaults   the records of src/api.rs and of the protocol, the defaults of src/opamp.rs
--   Machine              `State`, `StateResponse`, `evaluate` and the `Channel` trait;
--                        Machine/Moves has the edges that the transports take
--   Agent                what both clients write alike: `get_status`, `set_health`, `get_health`, the
--                        health report and the handling of one inbound message; Agent/Dispatch
--                        lists what has to happen for a message; proofs in Agent/*
--   Http                 src/httpclient/mod.rs: Http/Wire up to `send_and_receive`, Http/Steps the
--                        handlers of the state machine and `trigger`; proofs in the other files
--   Ws                   src/wsclient/mod.rs; proofs in Ws/*
--   Api                  the rest of src/api.rs: default settings, choice of a transport, `poll`
--   Config               src/extras/config.rs: `merge_values` and `merge`; Config/Yaml has the values
--                        and what is assumed of `serde_yaml::Mapping`; Config/Folder has
--                        `read_yaml_files`, for which a folder is listed when it is opened
--   Launcher             src/extras/launcher.rs: `Task`, the loop of its thread, in rounds, and the
--                        macro `get_stem`
--   Tests                a small concrete world, runs of the clients, the theorems applied there
--
-- Correspondence. A method is a function from the client and the world to an outcome, the new
-- client and the new world; `await` and `&mut self` become this order of steps. An outcome is a
-- returned value or a panic with the place that panics: `unwrap`, `expect` and slicing are never
-- left out. The parts of a long function are functions of their own, in the order of the source.
-- The world is any type; the theorems hold whatever the calls of it return, unless a hypothesis
-- says otherwise. Such hypotheses are mostly records: `Clock` says that the clock does not stand
-- before the epoch; `RequestLog` (with such a clock) and `FrameLog` view the world as a log that
-- only posting or sending extends, `HttpLog` and `SocketLog` say that nothing else of the world
-- touches it, `CallLog` adds a history of the calls of the callbacks, with what each replied: it
-- does not restrict the replies, which may depend on all that the application has seen; `Outage`
-- and `Refused` say that a server does not answer, `Answering`, `Welcome` and `Listening` that it
-- does (`takes`: that one stream takes every frame), `Hosted` that the host is known and has ulids
-- and such a clock; `Mapping` says what `serde_yaml::Mapping` does for keys that are equal only if
-- written alike (serde_yaml takes two mappings as equal keys whatever the order of their entries:
-- keys that are mappings are taken in one order), `Snapshot` that a folder stays as it is, `Pipe`
-- and `Wired` that a pipe works, `Closed` that a channel has no sender left, `LastExit` that no
-- exit comes after one, `Wire` that messages come off a stream in order and only reading takes one.
--
-- Numbers: `backoff` is cut to 32 bits, `seqno` and the nanoseconds of a health record to 64 bits, as
-- the release build wraps; `2u64.pow` wraps likewise. The endless polling loop of the application is
-- `repeat n` for every `n`, so nothing depends on a bound; the loop of a task's thread is `rounds n`
-- likewise.
--
-- Not modelled: logging; the reqwest client handle and reserved capacity, which no result depends on;
-- a poisoned callback mutex, since `lock().unwrap()` is taken to succeed; the time that a call takes
-- beyond what the clock says.

pub mod Prelude
pub mod Exec
pub mod Crates
pub mod Messages
pub mod Env
pub mod Util
pub mod Machine
pub mod Defaults
pub mod Agent
pub mod Http
pub mod Ws
pub mod Api
pub mod Config
pub mod Launcher
pub mod Tests
