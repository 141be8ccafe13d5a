-- ===== src/Lib.antt =====
-- The edge agent of the weapon detection platform: how a detection gets from the Bridge's socket
-- through validation and the local database to the Backend.
--
-- The Bridge (deployment/jetson/deepstream/bridge) writes frames to a Unix socket. The agent
-- (agent/src/weapon_detection_agent) reads a frame (detection/protocol.py and `_read_frame` of
-- detection/ingest_handler.py), validates its JSON (detection/validation.py), suppresses duplicates
-- (detection/cooldown.py), stores what remains (persistence/detection_event_repository.py) and
-- acknowledges it (`_process` of detection/ingest_handler.py), upon which the Bridge may send the
-- image (detection/snapshot_capture.py). A worker sends the pending rows to the Backend
-- (sync/worker.py, sync/client.py) and marks them by its answer; snapshots of accepted detections
-- wait in a table of their own (persistence/snapshot_outbox_repository.py) until the answer names
-- their alert.
--
-- Base          Python's and SQL's basics: tests, lists, integers, dict, set, tables, ORDER BY, text
-- Protocol      detection/protocol.py and `_read_frame`: frames, read and written
-- Cooldown      detection/cooldown.py: `decide`, `commit` and `evaluate` of the tracker
-- Time, Float   datetime and float values; Json: the values of `json.loads`
-- Event         detection/models.py: `DetectionEvent` and its `__post_init__`
-- Validation    detection/validation.py: `normalize_v2_payload` and `validate_detection`, step by
--               step in the order of the code, with what each step rejects or raises
-- EventStore    persistence/detection_event_repository.py: `insert`, `list_pending` and the marks
-- SnapshotOutbox  persistence/snapshot_outbox_repository.py, every method
-- Identity      `DeviceIdentity` of persistence/models.py, and in Identity.Repository
--               persistence/device_identity_repository.py
-- Ingest        `_process`, `_send_ack` and `_consume` of detection/ingest_handler.py; in
--               Ingest.Connection `_handle_connection`, `_parse_detection_body` and `_enqueue`
-- Capture       detection/snapshot_capture.py, and `_process_snapshot` of the handler
-- Bridge        the other side of the socket, deployment/jetson/deepstream/bridge/app/
--               deepstream_bridge: Bridge.Wire is probe.py up to the message that is sent,
--               Bridge.Rendezvous the rendezvous of JPEG and acceptance in snapshot.py,
--               Bridge.Transport the queues and, step by step,
--               the sender of transport.py, Bridge.Reader its reader
-- Backoff       `_sleep_backoff`, `_reset_backoff` and `_run` of sync/worker.py and snapshot/worker.py
-- Sync.Client   sync/client.py and sync/models.py: from the HTTP response to the batch's outcome
-- Sync.Worker   `_drain_once` of sync/worker.py, its marks, and the sinks of its factory
-- Upload        snapshot/client.py and `_drain_once`, `_upload_one` of snapshot/worker.py, with the
--               spool directory as the set of its files
-- Runtime       runtime/operational_state_coordinator.py: the components, started and stopped by the
--               state of the device; in Runtime.Supervisor runtime/supervisor.py, which activates or
--               validates at the startup, runs the monitor and shuts down
-- Credentials   validation/client.py and monitor.py, which may lock the device; activation/, which
--               stores or renews its identity
-- Configuration  configuration/: the client's reading of the answer, the rules, the cached text, the
--               mapping of the Bridge's source numbers to cameras, and in Configuration.Coordinator
--               what a poll, a start and a stop do to the applied configuration, the cache and the process
-- Deepstream    deepstream/process_manager.py, and what config_generator.py may write
-- Tests         the theorems at concrete inputs
--
-- A call is a function from the state to the state and what the call returns or raises. Where a
-- method opens a transaction, an exception leaves the table as it was. A table is the list of its
-- rows in the order of insertion; UUIDs are the numbers that they stand for; instants are whole
-- microseconds, and clock readings are arguments. Logging is left out.
--
-- Floats are a parameter (the record `Float`), since their arithmetic is the machine's: the record
-- `FloatLaws` states, for frame sizes below 2 ^ 52, the facts of IEEE 754 arithmetic that one theorem
-- relies on, and Tests.Floats gives a model of them. Other parameters: `UUID` on a text, `urlparse`, `bytes.decode`, what the HTTP client
-- answers, and where the database fails. The loops of the code run over a list that they are given, and are
-- recursion on that list; the loop of a connection and the scan of an image have fuel, one turn for
-- each byte of what is read, since every turn leaves fewer bytes; `recv_from` of Bridge.Reader has one
-- turn for each byte that it asks for, since a turn that goes on has received one.
--
-- Not modelled: the frontend and the Backend (C# and TypeScript); the Bridge's configuration, command
-- line and GStreamer pipeline; the preflight checks; the construction of the objects at the startup; the
-- database schema, settings, logging and its redaction; and the sockets, tasks, HTTP requests and SQL
-- connections below the functions named above.
pub mod Base
pub mod Protocol
pub mod Cooldown
pub mod Float
pub mod Json
pub mod Time
pub mod Event
pub mod Validation
pub mod EventStore
pub mod SnapshotOutbox
pub mod Identity
pub mod Backoff
pub mod Capture
pub mod Ingest
pub mod Sync
pub mod Upload
pub mod Runtime
pub mod Configuration
pub mod Credentials
pub mod Deepstream
pub mod Bridge
pub mod Tests
