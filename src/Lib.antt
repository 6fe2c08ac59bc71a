-- ===== src/Lib.antt =====
-- The core of a telemetry cloud for racing cars: what a car sends is attributed to its run, stored
-- once and shown live, and teams decide who sees it.
--
-- Parts, and the files that model them (paths from the repository's root):
-- Repository: the base class of all repositories, libs/common/src/database/abstract.repository.ts
-- (Repository/Abstract), over a table of TypeORM and Postgres, which is a parameter: a record of
-- operations with their laws, an insert being refused by a unique index or failing at any time.
-- Repository/InMemory is a list that meets the laws.
-- Teams: apps/api/src/teams. Teams holds the entities and tables, Teams/Service the operations of
-- teams.service.ts and of its three repositories, as actions that answer with a value or an HTTP
-- error and leave the tables; what was written before an error stays, but in a transaction. The
-- other files are proofs, by what they prove; Teams/Races lets another request run inside
-- removeMember, and Teams/Joining lets others run inside acceptInvite, before the query that deletes
-- the invite, or this query fail.
-- Wire: the MQTT topics (libs/common/src/constants/mqtt-topics.ts) and the Redis channels
-- (libs/common/src/live-telemetry/live-telemetry-channels.ts), which ingest, the API and the cars
-- agree on.
-- Ingest: apps/telemetry-ingest/src. telemetry.controller.ts hands a message to
-- telemetry.service.ts (Ingest/Service); this asks device-registry.service.ts (Ingest/Registry)
-- for the run's context, which ingest-sessions.service.ts (Ingest/Sessions) opens, and hands the
-- sample to live-publisher.service.ts (Ingest/Publisher) and telemetry-writer.service.ts
-- (Ingest/Writer). Ingest/Messages has the shapes that travel, Ingest/Counter the counters behind
-- the summaries in the log.
-- Live: apps/api/src/live-telemetry/live-telemetry-bus.service.ts, which subscribes to the channels
-- of the cars that somebody watches and hands their messages on; and live-telemetry.gateway.ts
-- beside it (Live/Gateway), the sockets of the viewers.
-- Analysis: apps/api/src/analysis. Analysis/Points has the samples and the geometry
-- (analysis.types.ts, sample-math.ts, geo.ts), Analysis/Crossing gate-crossing.ts,
-- Analysis/Distance lap-distance.ts, Analysis/Sectors sectors.ts, Analysis/Braking
-- braking-points.ts, Analysis/Segmenter lap-segmenter.ts, which uses all of these, and
-- Analysis/Best optimal-lap-core.ts. Analysis/Trace and Analysis/Delta are lap-trace.ts;
-- Analysis/Placing and Analysis/Ring hold the geometry of sector-gates.ts and Analysis/SectorGates
-- its steps; Analysis/Optimal is optimal-lap.ts. On these stands analysis.service.ts: its state and
-- its memo in Analysis/Office, its derivations in Analysis/Service and its traces in
-- Analysis/Service/Traces, over the stored laps of Analysis/Laps (laps.repository.ts).
-- Tracks: apps/api/src/tracks, as far as the analysis calls it.
-- Cars: apps/api/src/cars. Cars/Service holds the operations of cars.service.ts, which asks
-- Teams/Service for the caller's seat, with those of cars.repository.ts; Cars/Admin the accounts of
-- the cars at the broker and Cars/Plumbing the queue and the matching of responses, both of
-- mqtt-admin.service.ts.
-- Sessions: apps/api/src/sessions/sessions.service.ts, which asks Cars/Service for the access to the
-- car of a session. Sessions/Closing lets other requests run inside close.
--
-- Conventions. Times are milliseconds in ℕ, and ℤ where a sample may lie before the epoch. The
-- handlers of the service run one after another; the queries of openSession do not: two functions
-- stand for whatever other writers do to the table between them. A query that reads, updates or
-- deletes does not fail, but for the deletion in Teams/Joining. The writer takes its events in any
-- order. A promise of the registry is the number of the load behind it. All loops are structural,
-- so no function runs on fuel. Redis is a function from the pipelines that it was given before to
-- its answer, and may throw, reject or report errors; JSON.stringify, toLowerCase and the decoders
-- of class-transformer and class-validator are parameters without laws. The numbers of a frame that
-- no code computes with are an opaque type. The numbers of the analysis are an instance of
-- `Numbers`, the operations of IEEE 754 and of Math; what a theorem needs of comparison and
-- addition is the record `IsOrdered`, whose laws hold with NaN and with overflow, or `IsScaled`, on
-- the steps of an axis. A derivation of laps runs alone and at one time; the insert that ignores
-- duplicates, which is there for other derivations at once, is a law of the table. The stored
-- samples and the map of a track are functions. The broker Mosquitto is a record of the commands
-- with what is documented of them, for a world in which no command that timed out is still with it:
-- after one, the next answer need not be the command's own (Cars/Plumbing/Late). A promise of the
-- plumbing is the ticket of its request, and the callbacks of an attempt hold the promise that they
-- settle; timers, failed publishes, responses and the connection are events in any order.
--
-- Not modelled: the log's lines but the summaries, the timers that call sweep and flush, the sorting
-- of the reads by creation time, the rules that class-validator checks on a message, the parts of the
-- API beyond teams, cars, sessions, the live view and the analysis, such as users, authentication and
-- the maps of the tracks, the SQL that reads the samples, the handshake of a
-- socket, the lists of cars and sessions, the frontend, the migrations and the deployment.
pub mod Prelude
pub mod Repository
pub mod Teams
pub mod Wire
pub mod Ingest
pub mod Live
pub mod Analysis
pub mod Tracks
pub mod Cars
pub mod Sessions
