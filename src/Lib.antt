-- ===== src/Lib.antt =====
-- A verification library for UV Studio, a local video studio written in Python whose projects are
--   directories of JSON documents. It models the core that the other parts of the program stand on:
--   what a project's documents may contain, how a timeline and the accepted edits change, and how
--   every change is made durable. Paths are from the repository's root.
--
-- The parts and their files
--   Base, Json
--       what Python gives: lists, text as code points, `str.strip`, dicts, stable sorting, calls
--       that return or raise (`Outcome`), and the values of `json.loads`.
--   Projects/Identifiers, Projects/Paths
--       `validate_identifier` and `validate_project_relative_path` of uv_studio/projects/models.py,
--       over the part of `PurePosixPath` that they use.
--   Projects/Files
--       How a project path resolves on disk (uv_studio/projects/store.py). A `Disk` says what
--       stands at a path, a `JsonFile` what reading a document yields.
--   Projects/References
--       The registered media of a project, as far as a timeline looks at them.
--   Projects/Migrations
--       `migrate_project_data` (uv_studio/projects/migrations.py). Its while loop runs on fuel,
--       `migrate_within`; two turns are enough, since there are two versions.
--   Projects/Identity
--       The classification of a project by its recipe and its extension `studio`, and the identity
--       that a production command requires (uv_studio/projects/identity.py).
--   Projects/MediaRanges
--       `MediaRange` and its resolution against a source (uv_studio/projects/media_ranges.py).
--   Projects/EditState
--       `AcceptedRangeEdit`, `EditState` and its store (uv_studio/projects/edit_state.py): add,
--       remove, accept, load.
--   Projects/Timeline
--       `TimelineClip`, `TimelineTrack`, `TimelineDocument` and `TimelineStore`
--       (uv_studio/projects/timeline.py).
--   Projects/Transactions
--       `ProjectUnitOfWork` (uv_studio/projects/transactions.py): commit, undo, redo, the execution
--       of a prepared operation, its rollback, and the recovery.
--   Editor/TimelineCommands
--       `TimelineCommandService` (uv_studio/editor/timeline_commands.py): the commands, the
--       timelines that they compute, and how they are committed.
--   Generation/Jobs
--       `GenerationExecutionAttempt`, `GenerationJob` and the transitions of `GenerationJobManager`
--       (uv_studio/generation/jobs.py).
--   Production/State
--       `validate_production_document` and `ProductionDocumentStore.load`
--       (uv_studio/projects/production_state.py).
--   Production/Semantics
--       `Scene`, `Shot`, `Take` and `ProductionSemanticsDocument`
--       (uv_studio/production/semantics.py). The two loops over the links are one, `link_each`,
--       given how parents and children are named (`Pass`, `Kind`).
--   Production/Commands
--       `ProductionSemanticService` (uv_studio/production/commands.py): create_scene, create_shot,
--       register_take, accept_take, and their commit through the transactions; accept_take also
--       changes the timeline of Projects/Timeline.
--   Examples
--       Runs of the theorems at concrete inputs.
--
-- How the code is represented
--   A function that may raise is a function into `Outcome`, with a constructor for each `raise` of
--   the component; the texts of the messages are not kept. A `__post_init__` is a function from the
--   arguments, of any JSON type, to the value (`make_clip`, `make_track`, `make_timeline`,
--   `make_state`, `make_range`, `make_scene`, `make_shot`, `make_take`, `make_semantics`);
--   `dataclasses.replace` is that function again on the fields. Numbers are unbounded, as in
--   Python; a bool is told from an int, and a float is its bit pattern. A snapshot of the
--   transactions is the content that it encodes: its base64 text, size and digest fields are not
--   kept.
--
--   What is on disk is a `World`: the documents by path, the history index, and the journal records
--   in two folders. Each atomic replacement of a file is one `Write`. An execution is given how
--   many of its writes succeed before one fails, and how many of its handler's; the recovery of the
--   next start is `recover`, whose own writes succeed. So every place at which an operation can
--   fail or the process can stop is a number that a theorem quantifies over. But for the loop of
--   the migration nothing needs fuel: the loops are recursion on lists. The project lock makes the
--   operations of one project run one at a time; they are not interleaved here.
--
--   What the code calls and this repository does not define is a parameter: `hashlib.sha256`,
--   `json.dumps` and `json.loads`, the validation that the unit of work makes of the staged
--   documents and the media check of redo (`Services`), the generated ids and times (`Attempt`,
--   `new_id`), the state of the disk, and for jobs the normalization of a request through JSON
--   (`portable`). No theorem supposes a law of `json.dumps`, of `json.loads` or of
--   the digest.
--
-- What is not modelled
--   The validation of `project.json` and of the other documents inside a transaction, symbolic
--   links and permissions beyond what `Disk` tells apart, the bytes of a file that are not UTF-8, a
--   failure of the recovery's own writes, the persistence and the artifact checks of jobs, the
--   transitions that a generic write may make to an identity, and the other packages:
--   uv_studio/agent, api, capabilities, mcp, orchestration, recipes, integrations, the rest of
--   production, projects, editor and generation, the front end, and the vendored application. Of a
--   production command, the printing of the project document is given by the surroundings, and
--   accept_take does not construct the changed reference and the project anew. Reading or decoding
--   errors of a file that Python raises outside the handlers of the code are not told apart from
--   the malformed file. What `_atomic_write_json` makes of a document that
--   a store hands on to be written is not modelled, and of generation jobs the recovery
--   (uv_studio/generation/recovery.py) is not, which also requeues a failed job and completes an
--   attempt. A timeline keeps no schema version: one that Python finds equal to 1, such as True, is
--   printed as 1.
pub mod Base
pub mod Json
pub mod Projects
pub mod Editor
pub mod Generation
pub mod Production
pub mod Examples
