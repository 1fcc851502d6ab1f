-- ===== src/Lib.antt =====
-- Oxiscale, an embeddable control server for a tailnet.
--
-- A host builds a control server over a `Store`, which keeps networks, users, nodes, pre-auth keys
-- and policies. A client connects over HTTP, and upgrades its connection with a Noise handshake;
-- the server then sends an EarlyNoise frame and serves HTTP/2 inside the encrypted stream.
--
-- Store models crates/control-core/src/store.
--   Store.Types, Store.Document    types.rs, error.rs, document.rs: the aggregates, `StoreError` and
--                                  `StoreDocument`, the policies as an association list
--   Store.Calls                    traits.rs: a call of the trait `Store`, and its answer
--   Store.Table                    the searches, writes and filters on a `Vec` of aggregates
--   Store.Chrono                   the crate `chrono`: a parameter
--   Store.Memory                   memory.rs: `MemoryStore`, a function per method. Each takes the
--                                  lock once and holds it to its end, so that a method is one step,
--                                  and what concurrent callers see is what some sequence of
--                                  calls sees (Store.Memory.Trace). The time at which
--                                  `consume_preauth_key` reads the clock is an argument.
--   Store.Spec                     what a store promises: maps from ids to aggregates
--   Store.FilePath, Store.Host     the paths, `std::fs` and the serializers of file.rs. The file
--                                  system and the serializers are parameters; what is relied on is
--                                  IsFileSystem (a successful write is read back, a rename moves its
--                                  source or changes nothing) and IsCodec (what is written parses
--                                  back to the document, up to the order of the policies).
--   Store.File, Store.File.Methods file.rs: `FileStore`, with the disk as a state that is passed on.
--                                  A call runs to its end before the next one.
--   Store.File.Tasks               file.rs with callers that overlap: each of the tasks that share a
--                                  store is at a stage of its method, and a schedule says who moves.
--                                  A step is a method of the memory store, a snapshot, the creation of
--                                  the temporary file, the writing to it, or a rename; what is relied on
--                                  of the first two is IsCreate (`std::fs::write` is one and then the
--                                  other, and a file that is created is empty). Where a theorem has
--                                  TakesTurns, no task reaches the disk while another is between its
--                                  creation of the temporary file and its rename. The code does not see
--                                  to that: without it, a rename may take an empty file
--                                  (Store.File.Tasks.Halfway) or a part of a document
--                                  (Store.File.Tasks.Torn).
--   Store.File.Sessions,
--   Store.File.History             file.rs over restarts: sessions, each of which opens the store at its
--                                  path, calls it, and leaves the disk to the next
--   Store.Memory.Scenarios,
--   Store.File.Scenarios           the tests of memory.rs and file.rs, on any calendar and any disk
--   Store.Contract                 traits.rs: the trait `Store` as an interface with laws, which the
--                                  memory store and the file store fill
--
-- Noise models crates/noise and crates/tailcfg.
--   Noise.Tailcfg                  the constants of the protocol and the types that the server emits
--   Noise.Tailcfg.Json             key_exchange.rs: the JSON of those types, over the texts of keys
--   Noise.Ts                       the crates `base64`, `ts_noise`, `ts_control_noise`, `ts_keys`,
--                                  `x25519_dalek` and `serde_json`, and the socket: parameters. What
--                                  is relied on is IsTs (decoding yields bytes, sizes fit two bytes,
--                                  a response fills its array) and IsSocket (what is written where a
--                                  write succeeds is sent).
--   Noise.Text                     `str::trim` and the decimal digits of the prologue. Printing `n`
--                                  runs on `n + 1` rounds of fuel, and each round divides by ten.
--   Noise.Initiation               responder.rs: the checks of `accept` on the decoded bytes. A panic
--                                  is `none`.
--   Noise.Responder                responder.rs: `accept` and `write_early_noise`. What the handshake
--                                  and the challenge draw at random are arguments.
--   Noise.Client                   the tests of responder.rs: a client and the server over one wire. The
--                                  initiator of `ts_control_noise` is a parameter; what is relied on is
--                                  IsClient (a server opens an initiation that was made for its key,
--                                  learns the client's key, and the client completes on the response)
--                                  and IsWriter (what is first written on the stream is decrypted).
--   Noise.FramedIo                 framed_io.rs: the encrypted stream as a byte stream, over a buffer,
--                                  a stream and a sink that are parameters. The loop that fills the
--                                  buffer runs on fuel; more fuel than there are chunks ready is
--                                  enough. A panic, and fuel that runs out, are `none`. What is relied
--                                  on is IsBuf, IsStream (finitely many chunks are ready at a time),
--                                  IsSink and, to read to the end, IsFinite (nor do errors and waits
--                                  come without end).
--   Noise.FramedIo.Tokio           `write_all`, `flush` and `read_exact` over the polls of framed_io.rs.
--                                  They are tokio's, and parameters; what is relied on is IsTokio (a
--                                  call that succeeds is a run of polls).
--   Noise.Stream                   responder.rs: `NoiseStream`. `BytesMut` and the codec of a session
--                                  are parameters; what is relied on is IsBuf, IsBiCodec (what the
--                                  sink has taken when it is flushed was sent in a form that a paired
--                                  session decrypts) and IsDecoder (what a paired session sends is
--                                  yielded).
--   Noise.Stream.Duplex            the test of responder.rs that sends data in both directions. What
--                                  the client sends arrives at once (Inbox), and a read of no more than
--                                  is left ends (IsLive). Noise.FramedIo.Steady.Polling has loops of
--                                  polls that take the place of tokio's in the examples.
--
-- Http models crates/control-core/src/server/mod.rs: the handlers, with a request as the two headers
-- that they read, the task that an upgrade spawns, and the connection that it serves. The encrypted
-- stream as a writer and hyper's HTTP/2 server on it are a parameter.
--   Http.Router                    `router`: its table of routes. axum's choice of a route is a
--                                  parameter; what is relied on is IsAxum (a path selects its route,
--                                  404 without one, 405 for another method, but a route of `get` answers
--                                  HEAD as well, without the body).
--   Http.Smoke                     tests/server_smoke.rs: a client from the server's key to the
--                                  EarlyNoise frame, through the router and the connection
--
-- Api models crates/control-api (the builder, the routing strategies, the events, the server) and
-- bin/tailcontrold. Binding an address and serving on it are a parameter, and a key pair that is drawn
-- at random is an argument.
--
-- Prelude holds the Boolean tests on numbers, the lists measured by them, `Result` and big-endian
-- bytes. A text of the store is a string; a text that the code takes apart is a list of codes.
--
-- Not modelled: the listener, which only calls axum; logging; what serde makes of a text that it
-- parses; the modules of crates/control-core that hold nothing yet; and crates/tskey, which passes on
-- types of `ts_keys`.
pub mod Prelude
pub mod Store
pub mod Noise
pub mod Http
pub mod Api
