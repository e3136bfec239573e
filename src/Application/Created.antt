-- ===== src/Application/Created.antt =====
-- Creating a run succeeds, and the token that comes with it shows the run.
use cultureshift.Base.{
  ℕ, ◌+◌, ◌/◌, ◌<◌, ◌≤◌, true, List, [], ◌∷◌, ◌++◌, none, some, length, ◌≡◌, refl, ◌∙◌, arith,
  is_empty, nat_eq, codes_eq, false,
}
use cultureshift.Base.Result.{ok}
use cultureshift.Domain.{
  Uuid, utc, ProjectRun, LocalizationDirection, pending, model_validate, model_dump,
  warning_codes_valid, validate_timestamps, direction_eq, is_utc,
}
use cultureshift.Contracts.{RunCreate, run_created_valid, run_snapshot_valid, UtcDatetime}
use cultureshift.Capabilities.{
  Capability, Payload, capability_eq, issue, timestamp, last_second, payload_for, signature,
}
use cultureshift.Capabilities.Base64.{encode}
use cultureshift.Capabilities.Trips.{are_bytes}
use cultureshift.Repository.State.{Database, put}
use cultureshift.Repository.Reads.{get}
use cultureshift.Repository.Runs
use cultureshift.Repository.Runs.{run_row, new_context}
use cultureshift.Revising.Session.{World, with_database}
use cultureshift.Application.{Server, Moment, uuid_text, hex_digits, authorize}
use cultureshift.Application.Runs.{
  create_run, store_run, new_run, created, snapshot, get_run, run_capabilities,
}
use cultureshift.Application.Tokens.{bearer_header, authorize-issue, is_empty-append}

-- The run that a request creates.
abbrev pub fresh_run : Moment → LocalizationDirection → ProjectRun
fresh_run moment direction = record {
  id = moment.run_id;
  direction = direction;
  status = pending;
  warning_codes = [];
  initial_generation_count = 0;
  human_revision_count = 0;
  technical_attempt_count = 0;
  created_at = utc moment.now;
  updated_at = utc moment.now;
}

new_run-eq :
    (moment : Moment) (direction : LocalizationDirection)
    → new_run moment direction ≡ ok (fresh_run moment direction)
unfolding model_validate warning_codes_valid validate_timestamps
new_run-eq moment direction = ground arith

fresh-validate :
    (moment : Moment) (direction : LocalizationDirection)
    → model_validate (model_dump (fresh_run moment direction)) ≡ ok (fresh_run moment direction)
unfolding model_validate warning_codes_valid validate_timestamps
fresh-validate moment direction = ground arith

-- The database with a new run.
abbrev with_run : ProjectRun → RunCreate → Database → Database
with_run run request db = record db {
  runs = put run.id (run_row run) db.runs;
  contexts = put run.id (new_context request) db.contexts;
}

create-fresh :
    (moment : Moment) (request : RunCreate) (db : Database)
    → db.runs moment.run_id ≡ none
    → db.contexts moment.run_id ≡ none
    → (let run = fresh_run moment request.direction in
        Runs.create run (some request) db ≡ (ok run, with_run run request db))
unfolding Runs.create direction_eq
create-fresh moment request db h k = ground arith

get-fresh :
    (moment : Moment) (request : RunCreate) (db : Database)
    → (let run = fresh_run moment request.direction in
        (get moment.run_id (with_run run request db)).0 ≡ ok run)
unfolding get
get-fresh moment request db = ground (arith, fresh-validate moment request.direction)

created-accepted :
    (moment : Moment) (direction : LocalizationDirection) (token : List ℕ)
    → 16 ≤ length token
    → length token ≤ 4096
    → run_created_valid (created (fresh_run moment direction) token) ≡ true
unfolding run_created_valid is_utc
created-accepted moment direction token low high = ground arith

uuid_text-filled : (id : Uuid) → is_empty (uuid_text id) ≡ false
unfolding uuid_text
uuid_text-filled id =
    ground (arith, is_empty-append (hex_digits 8 (id / 79228162514264337593543950336)))

module _ {Store : Type 0} (server : Server Store) (moment : Moment) where
  abbrev lifetime : ℕ
  lifetime = 900000000

  -- The payload of the token of the new run, and the token.
  abbrev pub run_payload : Payload
  run_payload =
      payload_for server.codec server.tokens (uuid_text moment.run_id) run_capabilities lifetime
        moment.now

  abbrev pub run_token : List ℕ
  run_token =
      let encoded = encode (server.codec.dumps run_payload) in
      encoded ++ (b'.' ∷ signature server.codec server.tokens encoded)

  issue-fresh :
      timestamp (moment.now + lifetime) ≤ last_second
      → issue server.codec server.tokens
          (uuid_text moment.run_id)
          run_capabilities
          lifetime
          (utc moment.now)
        ≡ ok run_token
  unfolding issue
  issue-fresh h = rw (uuid_text-filled moment.run_id) (ground arith)

  store-fresh :
      (request : RunCreate) (w : World Store)
      → w.database.runs moment.run_id ≡ none
      → w.database.contexts moment.run_id ≡ none
      → (let run = fresh_run moment request.direction in
          run_created_valid (created run run_token) ≡ true)
      → (let run = fresh_run moment request.direction in
          store_run server moment request run run_token w
          ≡ (ok (created run run_token), with_database (with_run run request w.database) w))
  unfolding store_run
  store-fresh request w h k v = ground (arith, create-fresh moment request w.database h k)

  create_run-fresh :
      (request : RunCreate) (w : World Store)
      → w.database.runs moment.run_id ≡ none
      → w.database.contexts moment.run_id ≡ none
      → timestamp (moment.now + lifetime) ≤ last_second
      → (let run = fresh_run moment request.direction in
          run_created_valid (created run run_token) ≡ true)
      → (let run = fresh_run moment request.direction in
          create_run server moment request w
          ≡ (ok (created run run_token), with_database (with_run run request w.database) w))
  unfolding create_run
  create_run-fresh request w h k t v =
      rw (new_run-eq moment request.direction, issue-fresh t) (store-fresh request w h k v)

  authorize-fresh :
      (later : UtcDatetime)
      → server.codec.loads (server.codec.dumps run_payload) ≡ some run_payload
      → are_bytes (server.codec.dumps run_payload) ≡ true
      → timestamp (moment.now + lifetime) ≤ last_second
      → timestamp later < timestamp (moment.now + lifetime)
      → authorize server Capability.read_project_run moment.run_id (bearer_header run_token) later
        ≡ ok tt
  unfolding capability_eq
  authorize-fresh later reads bytes t early =
      authorize-issue server moment.run_id moment.run_id run_capabilities lifetime (utc moment.now)
        run_token Capability.read_project_run later reads bytes (issue-fresh t) refl early
      ∙ ground (arith)

  get_run-found :
      (at : Moment) (header : List ℕ) (run : ProjectRun) (w : World Store)
      → authorize server Capability.read_project_run moment.run_id header at.now ≡ ok tt
      → (get moment.run_id w.database).0 ≡ ok run
      → run_snapshot_valid (snapshot server at run) ≡ true
      → (get_run server at moment.run_id header w).0 ≡ ok (snapshot server at run)
  unfolding get_run
  get_run-found at header run w a g v = ground arith

  fresh-snapshot :
      (at : Moment) (direction : LocalizationDirection)
      → run_snapshot_valid (snapshot server at (fresh_run moment direction)) ≡ true
  unfolding run_snapshot_valid is_utc
  fresh-snapshot at direction = ground arith

  -- When the identifier is new, the JSON text of the token's payload is bytes and reads back as the
  -- payload, the token has at least 16 and at most 4096 characters, and its end is before the year
  -- 10000: creating a run succeeds, and with the token that it answers, sent before the token's last
  -- second, the run is shown as pending, with the direction that was asked for.
  pub create_run-shown :
      (request : RunCreate) (w : World Store) (later : Moment)
      → w.database.runs moment.run_id ≡ none
      → w.database.contexts moment.run_id ≡ none
      → server.codec.loads (server.codec.dumps run_payload) ≡ some run_payload
      → are_bytes (server.codec.dumps run_payload) ≡ true
      → 16 ≤ length run_token
      → length run_token ≤ 4096
      → timestamp (moment.now + lifetime) ≤ last_second
      → timestamp later.now < timestamp (moment.now + lifetime)
      → (let run = fresh_run moment request.direction in
          ((create_run server moment request w).0 ≡ ok (created run run_token))
          × ((get_run server later moment.run_id
                (bearer_header run_token)
                (create_run server moment request w).1).0
              ≡ ok (snapshot server later run)))
  create_run-shown request w later h k reads bytes low high t early =
      let run = fresh_run moment request.direction in
      rw
        (create_run-fresh request w h k t
          (created-accepted moment request.direction run_token low high))
        (
          refl,
          get_run-found later (bearer_header run_token) run
              (with_database (with_run run request w.database) w)
              (authorize-fresh later.now reads bytes t early) (get-fresh moment request w.database)
              (fresh-snapshot later request.direction),
        )
