-- ===== src/Lib.antt =====
-- The CultureShift service localizes an advertisement between China and the UK. A run is created for
-- a source ad and a Brand Lock, analyzed, confirmed, drafted, composed and reviewed; then it may be
-- revised once on feedback, with at most one retry of a technical failure. All of that state stands in
-- one repository, whose methods the HTTP handlers and the services call.
--
-- The parts, by file and by the code they follow (paths from the root of the repository):
--   Base              shared names, Boolean tests, lists, text, integers, and results that may fail
--   Domain            src/cultureshift/domain.py: `ProjectRun` and its status
--   Contracts         src/cultureshift/contracts.py: the records and their validators, as functions
--                     into Bool (`brand_lock_valid` is what `BrandLock(...)` accepts)
--   Analysis          src/cultureshift/analysis_pipeline.py, with the protocol and the providers of
--                     src/cultureshift/analysis_provider.py and the media types of asset_storage.py
--   Workflow          src/cultureshift/workflow.py: `decide_retry`
--   Confirmation      src/cultureshift/brand_lock_confirmation.py
--   Repository        src/cultureshift/repository.py. State has the tables, Monad the methods and
--                     transactions, Reads, Runs, Artifacts and Operations the methods by their names;
--                     Calls is the type of all calls that write. The other files are proofs: Statuses
--                     and Lifecycle on the status of a run, Immutable on what is written once,
--                     Consistent on the columns of a context, Exclusive on active operations, and
--                     Idempotency on repeated requests.
--   Critic            src/cultureshift/critic.py: the review of a composed draft
--   RateLimits        src/cultureshift/rate_limits.py
--   Draft             src/cultureshift/draft_generation.py
--   Revision          src/cultureshift/revision.py
--   Revising          src/cultureshift/revision_service.py. Session has what the service is built
--                     with and its steps, Composing and Execution the parts of `_execute`; Steps,
--                     Effects, Answers, Replay, Failures, Images, Attempts and Undone are proofs.
--   Actions           the steps that a handler or a service takes on the database and the images, with
--                     what they do to the database (Effects)
--   Compositions      src/cultureshift/composition_service.py, and in Exports composition_export.py;
--                     Laws and Replay are proofs
--   Capabilities      src/cultureshift/capability_tokens.py, with Base64; Trips and Laws are proofs
--   Storage           the protocol of src/cultureshift/cloud_storage.py. Compositions has the cloud store
--                     of composition_storage.py, Assets that of asset_storage.py; Files has a disk,
--                     Local the store of composition_storage.py on it, Temporary that of
--                     asset_storage.py. Images, Lifecycle, Roundtrip, Files.Laws, Local.Atomic and
--                     Temporary.Closing are proofs, and Memory is an object store in memory.
--   Rendering         src/cultureshift/composition.py: how a text is broken into lines; Lines is a proof
--   Application       src/cultureshift/app.py: Runs, Analyses, Uploads, Artifacts and Revisions have the
--                     handlers by their names, Routes the requests as one type; Refinement, Access,
--                     Tokens, Created, Failures and Uploads.Laws are proofs.
--   Tests             runs of the model and the theorems at concrete inputs
--
-- How the parts interact: the repository stores what Contracts describes, moves a run along the
-- table of Domain, and calls Confirmation when a Brand Lock is confirmed. The Critic judges what
-- the repository stores by the same test of a composition's layers as the repository
-- (`shows_lock`). The service that revises a run claims an operation of the repository, revises
-- the draft, draws it, has the Critic review it, and completes the operation or records its
-- failure. The application authorizes each request by a capability token, and calls the
-- repository and the services. It reads a source asset through `load_asset` of `Moment`, and an
-- image through `Export`. The cloud stores of both stand on the object store and are modelled
-- apart from it; the handlers of uploads use the store of assets.
--
-- How the model reads the code. A method is a function from the database to its result and the
-- database after it; `transaction` undoes the writes of a block that raises, as `_connect` does. A
-- table with a primary key is a function of the key. A column with JSON text holds the value that the
-- code stores, since pydantic reads back what it wrote; a pydantic refusal is `value_error`. A time is
-- a count of microseconds with the offset of its zone, and `utc_now()` is an argument. UUIDs are
-- numbers. The case folding of Python is an argument of the Critic. A run of clients is a list of
-- whole calls: the transactions of SQLite do not overlap, and a method of several transactions is
-- taken as one step. Fields with one possible value are left out. Every loop is a recursion on a list or
-- a count of digits, so no fuel is used.
--
-- What comes from outside is a parameter. `Codec` has the JSON text of a token and the HMAC;
-- `Studio` has the providers, the drawing, the store of images, the digests and the case folding;
-- `Export` has the loading of an image, Pillow's reader, and the JSON text of a summary;
-- `ObjectStore` has the objects, with the laws `Behaves`; `KeepsImages` is what an
-- undone revision asks of the images of `Studio`; `Format` and `AssetFormat` have SHA-256
-- and the JSON text of the metadata of a stored image and asset; `fits` is whether a line is
-- within the width of its font. Nothing is assumed of them but what a theorem says. Each request
-- is one step and has one time, `Moment.now`, where the code reads the clock for each call, and
-- the requests of other clients stand before or after it.
--
-- A disk (`Disk`) is its files and a list of how the next calls of the operating system go: each works,
-- raises `OSError`, raises it after a part of a new file was written, or is denied (`PermissionError`),
-- which `glob` takes for an empty directory. The tests whether a file exists are taken to work. The
-- tombstone of an asset, whose name is a digest of the identifier, is a file of that identifier. The
-- lock of a local store makes each of its operations one step; a disk that other processes change
-- meanwhile is not modelled.
--
-- Not modelled: the migrations of older databases; the purge of local assets; the HTTP client of
-- the object store; the drawing of images, with the choice of a font size; the PostgreSQL
-- dialect; and in app.py the reading of the environment, CORS, the handler of validation errors
-- and the health check.
--
-- The discipline of the application, which some theorems ask of each call (`IsDisciplined`): a run is
-- created pending, an analysis is completed or failed before the run is reviewed, and no handler calls
-- `update_status`. Application.Refinement is about whether the handlers keep it.
pub mod Base
pub mod Domain
pub mod Contracts
pub mod Analysis
pub mod Workflow
pub mod Confirmation
pub mod Repository
pub mod Critic
pub mod RateLimits
pub mod Draft
pub mod Revision
pub mod Revising
pub mod Actions
pub mod Compositions
pub mod Capabilities
pub mod Storage
pub mod Rendering
pub mod Application
pub mod Tests
