-- ===== src/Revising/Session.antt =====
-- revision_service.py: what the service is built with, and the steps of its work between a claim and
-- the answer, each of which may raise.
use cultureshift.Base.{ℕ, String, Bool, Option, none, some, List, if◌then◌else◌}
use cultureshift.Base.Result.{Result, ok, err}
use cultureshift.Domain.{Uuid}
use cultureshift.Contracts.{
  UtcDatetime, BackgroundRequest, BrandLock, AdCopy, CompositionLayer, FeedbackRequest,
  RetryRequest,
}
use cultureshift.Repository.State.{Database, RepositoryError}
use cultureshift.Repository.State
use cultureshift.Repository.Monad.{Method}

-- `RevisionServiceErrorCode`, and an exception that the service does not catch.
pub data ServiceError : Type 0 where
  run_not_found invalid_run_state idempotency_conflict operation_in_progress : ServiceError
  revision_limit_reached invalid_revision_request revision_failed retry_failed : ServiceError
  uncaught : ServiceError

-- What a step raises: an exception of the repository, one that the service takes as technical, or
-- another.
pub data Failure : Type 0 where
  repository : RepositoryError → Failure
  technical unexpected : Failure

-- `ComposeRequest`, without the path of the font.
pub record ComposeRequest : Type 0 where
  pub run_id : Uuid
  pub background : List ℕ
  pub brand_lock : BrandLock
  pub ad_copy : AdCopy
  pub logo : List ℕ
  pub product_ui : List ℕ

pub record Composed : Type 0 where
  pub png_bytes : List ℕ
  pub sha256 : String
  pub layers : List CompositionLayer

-- What `RevisionService` is built with. A save gives the digest of what was stored.
pub record Studio (Store : Type 0) : Type 0 where
  pub generate_background : BackgroundRequest → Result Failure (List ℕ)
  pub resolve : Uuid → Result Failure (List ℕ)
  pub compose : ComposeRequest → Result Failure Composed
  pub save : Uuid → List ℕ → UtcDatetime → Store → Result Failure String × Store
  pub delete : Uuid → Store → Result Failure Bool × Store
  pub digest : String → String
  pub feedback_fingerprint : FeedbackRequest → String
  pub retry_fingerprint : RetryRequest → String
  pub casefold : String → String

-- `uuid4()` and the times that `utc_now()` gives in one request.
pub record Inputs : Type 0 where
  pub artifact_id : Uuid
  pub claimed_at : UtcDatetime
  pub generated_at : UtcDatetime
  pub reviewed_at : UtcDatetime
  pub failed_at : UtcDatetime

pub record World (Store : Type 0) : Type 0 where
  pub database : Database
  pub store : Store

-- The work of `_execute`: its world, and `artifact_saved`.
pub record Session (Store : Type 0) : Type 0 where
  pub world : World Store
  pub artifact_saved : Bool

-- `_map_repository_error`
abbrev pub map_repository_error : RepositoryError → ServiceError
map_repository_error State.run_not_found = run_not_found
map_repository_error State.idempotency_conflict = idempotency_conflict
map_repository_error State.operation_in_progress = operation_in_progress
map_repository_error State.revision_limit_reached = revision_limit_reached
map_repository_error e = invalid_run_state

abbrev pub Step : Type 0 → Type 0 → Type 0
Step Store A = Session Store → Result Failure A × Session Store

abbrev pub ◌>>=◌ : {Store A B : Type 0} → Step Store A → (A → Step Store B) → Step Store B
◌>>=◌ step next s = let (r, s') = step s in elim r [ ok a ↦ next a s' | err e ↦ (err e, s') ]

abbrev pub ◌>>◌ : {Store B : Type 0} → Step Store (Unit {0}) → Step Store B → Step Store B
◌>>◌ step next s = let (r, s') = step s in elim r [ ok _ ↦ next s' | err e ↦ (err e, s') ]

infixl 5 ◌>>=◌ ◌>>◌
abbrev pub give : {Store A : Type 0} → Result Failure A → Step Store A
give r s = (r, s)

abbrev pub fail_when : {Store : Type 0} → Bool → Failure → Step Store (Unit {0})
fail_when c e s = (if c then err e else ok tt, s)

abbrev pub given : {Store A : Type 0} → Option A → Failure → Step Store A
given none e s = (err e, s)
given (some a) e s = (ok a, s)

abbrev pub with_database : {Store : Type 0} → Database → World Store → World Store
with_database db w = record w { database = db }

-- What the service sees of a result of the repository.
abbrev pub seen :
    {A : Type 0} → (RepositoryError → Failure) → Result RepositoryError A → Result Failure A
seen raised (ok a) = ok a
seen raised (err e) = err (raised e)

-- A call of a method of the repository, with what its exceptions are to the service.
abbrev pub call : {Store A : Type 0} → (RepositoryError → Failure) → Method A → Step Store A
call raised method s =
    let (r, db) = method s.world.database in
    (seen raised r, record s { world = with_database db s.world })
