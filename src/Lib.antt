-- ===== src/Lib.antt =====
-- A model of the metrics agent, a sidecar that reads JSON events as datagrams from a unix socket,
-- routes each to its project and posts them in batches to a gateway.
--
-- The way of a datagram: `listen` (listener.go) gives it to `registry.dispatch` (routing.go), which
-- scans it for `_project` and `_token`, cuts these members out, finds or registers the project's
-- pipeline, and puts it on the shared queue. `registry.demux` moves it to the pipeline's own buffer.
-- The pipeline's batcher (events.go) joins events to batches, its flusher (flusher.go) posts them.
-- The routing table follows the keys file (`reload`), and idle inline pipelines are retired.
--
--   Prelude       shared names, tests, list lemmas, texts as lists of bytes
--   Scan          the JSON scanners of routing.go (scanWS to scanNumber)
--   Strip         extractAndStripFields of routing.go
--   Data, Stats   rawDatagram, EventBatch, Config, the counters (events.go, main.go, stats.go)
--   Settings      loadConfig of main.go
--   Events        validateEvent, hasTopLevelKey and injectTopLevelField of events.go
--   Batcher       eventsBatcher and encodeEventBatch of events.go
--   Registry      pipeline, registry, lookup, registerInline, dispatch, demux of routing.go
--   Keys          buildTable, reload, install, expireInline, loadKeysFile behind the decoder
--   Lifecycle     the goroutines interleaved as a step relation on the registry; shutdown
--   Flusher       postJSON and eventsFlusher.send of flusher.go
--   Listener      the read loop of listener.go
--   Health        the answer to /stats of health.go, with the snapshots of stats.go
--   RoutingTests  runs of Registry and Keys; the other parts have their own Tests
--
-- Each part's children hold its proofs. Bytes are numbers, a text is a list of them, and an index
-- `i` into a body `b` is the suffix `b[i:]`. A `*pipeline` is an index into a heap, a Go map an
-- association list, an `atomic.Uint64` a number that wraps at 2 ^ 64. A function that takes locks is
-- one step; the outcome of a `select` is an argument. In `Lifecycle` dispatch and demux are taken
-- apart, and their steps use any pointer, also one from a table that has been replaced; the load and
-- the store of a table by a reload, a registration or an expiry stay one step. Of `drain` only the
-- closing of the input is modelled. The integers of the configuration are natural numbers, which
-- `loadConfig` makes sure of.
--
-- Fuel: the walk over the members has the length of the body, since each round reads a key; demux
-- has one turn for each queued datagram and one more; the loop of hasTopLevelKey has one turn for
-- each byte of the event, since a token takes at least one. The other loops are structural.
--
-- Parameters: `utf8.Valid` and `json.Unmarshal` into a string (`Codec`); `json.Valid`,
-- `json.Decoder`, `bytes.TrimSpace` and the text of the time (`Runtime`, with what is relied on as
-- the laws `Reading`, `Trimming`, `Decoded` and `Quoted`); the environment and `strconv.Atoi`
-- (`System`); the answers of the network and the waits that are interrupted; the decoded keys file;
-- the reads that the socket gives; the clock.
--
-- Not modelled: the binding of the socket, the waits after failed reads, the HTTP server and its
-- JSON encoding, the reading of the keys file from the disk, logging, the length of the flusher's
-- waits, those of `drain` and `shutdown`, the signals and tickers of `main`, a table that is stored
-- between another's load and store.
pub mod Prelude
pub mod Scan
pub mod Strip
pub mod Data
pub mod Stats
pub mod Settings
pub mod Events
pub mod Batcher
pub mod Registry
pub mod Keys
pub mod Lifecycle
pub mod Flusher
pub mod Listener
pub mod Health
pub mod RoutingTests
