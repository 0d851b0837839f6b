-- ===== src/Lib.antt =====
-- A verification library for the agent workload platform: the Python code of the voice agent
-- (products/voice-agent), from its domain rules to the services over the durable task owner.
--
-- Parts. The gateway (products/voice-agent/apps/gateway) authenticates a caller, keeps personal
-- knowledge in a SPARQL store, and calls, as workers do, the services of the tasking package
-- (products/voice-agent/packages/tasking/src/voice_agent/tasking, `tasking` below). A service keeps no
-- state of its own: it validates, sends commands to the one process that owns the tasks, and shows
-- public views of what that process answers. The stack alert monitor (products/voice-agent/tools/ops)
-- polls Grafana and submits firing incidents to the same owner. The edge process
-- (products/voice-agent/apps/edge) speaks the replies while they arrive and draws what they present.
--
-- Files.
--   Prelude, Prelude/*        shared names, Boolean tests, lists, Python's `str`, exceptions
--   Prelude/Outcomes          what holds of a result, be it a value or an exception
--   Json                      the values of `json.loads` and the reads `dict.get`, `isinstance`;
--                             Loading: `json.loads` with what it raises; Unhashable: the error of a
--                             value that cannot be looked up
--   Tasking/Exec              code that sends commands and may raise; Keeps: rules for invariants
--   Tasking/Owner             tasking/infrastructure/pi_durable_owner.py: `_call` and every command;
--                             Submits: which commands create work
--   Tasking/Workspaces        tasking/domain/workspaces.py; Inside: which paths are accepted
--   Tasking/Artifacts         tasking/infrastructure/artifacts.py: names, keys, bounded reads;
--                             Bounded: what is returned
--   Tasking/Trace             tasking/application/service.py: bounded_trace_context
--   Tasking/PiResponse        tasking/application/pi_response.py; Shapes, Bounds: what a response holds;
--                             Stream: which message of the events it is
--   Tasking/TaskProgress      tasking/domain/task_progress.py; Public: what may be narrated
--   Tasking/TaskView          tasking/application/service.py: `_plan`, `_native_view`;
--                             Reads: what they do not submit
--   Tasking/Service           the same file: TaskService; DigitalTwin, Listing: its ingestion tasks and
--                             its list; Submits, Ownership: what is sent and for whom
--   Tasking/Images            tasking/domain/execution_images.py, with the paths and names in
--                             Tasking/ImageNames; Inside, Loaded: what a plan can name
--   Tasking/Albums            tasking/domain/session_albums.py; Fair: the choice of an album
--   Song/Manifest             tasking/domain/song_generation.py; Pattern: its regular expressions;
--                             Bounds: what validation gives
--   Song/Lifecycle            tasking/domain/song_lifecycle.py; Laws: decisions and views
--   Song/Service              tasking/application/song_service.py; Reads, Renders, Ownership: proofs
--   Ops/Alerts                products/voice-agent/tools/ops/stack_alert_monitor.py: a round of `main`;
--                             Keys: the incident of an alert; Table: its database;
--                             Cooldown, Retry: when an incident is submitted
--   Edge/Spoken               products/voice-agent/apps/edge/presentation_response.py:
--                             StreamingSpokenExtractor; Hex: int(text, 16); Tags, Search: the regular
--                             expression; Chunks, Decodes: what is returned
--   Edge/Presentation         products/voice-agent/apps/edge/presentation_response.py:
--                             parse_presentation_response. Decoding: the JSON in a text; Flow: diagrams;
--                             Traces, Playwright, Drawing, Review: the other kinds; Bounded: bounded
--                             JSON; Shown: what a kind shows; Response: the whole response. Their
--                             children Joined, Grafana, Traced, Within, Cameras, Reviewed and Agrees
--                             hold what each gives
--   Edge/Recorder             products/voice-agent/apps/edge/audio_diagnostics.py: the recorder of a
--                             session and its writer; Bounded: what they keep
--   Gateway                   products/voice-agent/apps/gateway/src/voice_gateway/main.py: credentials;
--                             Identity: the owner; Requests, Patterns, Checks: the bodies and their bounds;
--                             Literal, Journal, Queries, Feedback, Decisions, Reviews, Constants: the
--                             SPARQL texts; Facts: rows and search; Lines: texts in texts;
--                             Store, Knowledge: the routes of the
--                             store; Views: what is shown of a result; Routes: tasks and songs. Their
--                             children Topics, Closed, Terms, Ranked, Decided, Guarded, Public and Owned hold
--                             what each gives
--   Examples                  concrete inputs, tests and the properties at them
--
-- Conventions. A function of the source keeps its name, and a class its record or data type; a method
-- takes the object's parameters first. A dict is a list of fields, of which the first with a key
-- counts. A `raise` is a value of `Result`. The world of an action is the list of commands sent so far
-- and the transport failures counted; the other process answers by an arbitrary function of the
-- commands sent before, so that a theorem holds for every behaviour of it.
--
-- Parameters. json, uuid4, uuid5, uuid.UUID, urlparse, parse_qs, ZoneInfo, str.lower and casefold, the
-- MD5 and SHA digests, the arithmetic of floats, the file system, the object store and the answers of
-- the knowledge store, and what owner_submit of the monitor gives, are arguments. json.loads may
-- raise: besides the JSONDecodeError that the source catches, it has ValueErrors and RecursionErrors
-- of its own, which go where the source lets them. Two have hypotheses: that urlparse raises nothing
-- but a TypeError, a ValueError or an OverflowError, and, for the decisions on reviews, that the store
-- answers with the status of one candidate, which an update with the line for a status sets. The
-- levels of `_bounded_json_value` are the code's own bound of six, a response nested in `spoken` is
-- unwrapped four times, as there, and the decimal of n has at most n + 1 digits. No other definition
-- takes fuel.
--
-- Not modelled. Routing and the checks that FastAPI and pydantic do by themselves, web sockets, the
-- frame processors of the edge and the handlers of the speech broker, audio processing with numpy and
-- native libraries, Git and archive subprocesses, benchmark drivers, the Ansible modules and the
-- rendering scripts for documents.
pub mod Prelude
pub mod Json
pub mod Tasking
pub mod Song
pub mod Ops
pub mod Edge
pub mod Gateway
pub mod Examples
