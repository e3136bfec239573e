-- ===== src/Repository/Reads.antt =====
-- repository.py: the getters, and the checks of the stored columns.
use cultureshift.Base.{
  ◌≡◌, refl, arith, ℕ, String, Bool, not, ◌||◌, List, Option, none, some, ◌==◌, ◌!=◌, nat_eq, ltb,
  if◌then◌else◌,
}
use cultureshift.Base.Result.{Result, ok, err}
use cultureshift.Domain.{Uuid, Datetime, ProjectRun, RunValues, DomainError, model_validate, is_utc}
use cultureshift.Contracts.{
  AdAnalysis, AdCopy, BrandLock, CompositionGenerated, CreativeBrief, CritiqueReport, RunCreate,
}
use cultureshift.Repository.State.{
  Database, RunRow, ContextRow, RepositoryError, value_error, run_not_found,
  BrandLockConfirmationRecord, DraftRecord, CritiqueRecord, RevisionRecord,
}
use cultureshift.Repository.Monad.{
  Method, pure, ◌>>=◌, ◌>>◌, gets, raise_when, or_raise, lift, transaction,
}

-- The row of a run's context, which must be there.
abbrev pub context_of : Uuid → Method ContextRow
context_of id = do or_raise (← gets (λ db. db.contexts id)) run_not_found

-- A column of a LEFT JOIN.
abbrev pub column : {A : Type 0} → (ContextRow → Option A) → Option ContextRow → Option A
column f none = none
column f (some c) = f c

-- `COALESCE(c.count, 0)`
abbrev pub count_column : (ContextRow → ℕ) → Option ContextRow → ℕ
count_column f none = 0
count_column f (some c) = f c

abbrev pub confirmation_columns :
    Option BrandLock → Option Datetime → Result RepositoryError (Option BrandLockConfirmationRecord)
confirmation_columns none none = ok none
confirmation_columns (some lock) (some at) =
    if is_utc at
    then ok (some (record { brand_lock = lock; confirmed_at = at }))
    else err value_error
confirmation_columns _ _ = err value_error

-- `_confirmation_record`
unfoldable pub confirmation_record :
    Option ContextRow → Result RepositoryError (Option BrandLockConfirmationRecord)
confirmation_record row =
    confirmation_columns (column (λ c. c.confirmed_brand_lock) row)
      (column (λ c. c.brand_lock_confirmed_at) row)

abbrev pub draft_columns :
    Option CreativeBrief
    → Option AdCopy
    → Option (List String)
    → Option (List String)
    → Option Datetime
    → Result RepositoryError (Option DraftRecord)
draft_columns none none none none none = ok none
draft_columns (some brief) (some copy) (some facts) (some rules) (some at) =
    if is_utc at
    then ok (
        some (record {
          brief = brief;
          ad_copy = copy;
          fact_references = facts;
          rule_ids = rules;
          generated_at = at;
        }))
    else err value_error
draft_columns _ _ _ _ _ = err value_error

-- `_draft_record`
unfoldable pub draft_record : Option ContextRow → Result RepositoryError (Option DraftRecord)
draft_record row =
    draft_columns (column (λ c. c.creative_brief) row) (column (λ c. c.ad_copy) row)
      (column (λ c. c.draft_fact_references) row) (column (λ c. c.draft_rule_ids) row)
      (column (λ c. c.draft_generated_at) row)

abbrev pub critique_columns :
    Option CritiqueReport → Option Datetime → Result RepositoryError (Option CritiqueRecord)
critique_columns none none = ok none
critique_columns (some report) (some at) =
    if not (is_utc at) || at.instant != report.reviewed_at
    then err value_error
    else ok (some (record { report = report; reviewed_at = at }))
critique_columns _ _ = err value_error

-- `_critique_record`
unfoldable pub critique_record : Option ContextRow → Result RepositoryError (Option CritiqueRecord)
critique_record row =
    critique_columns (column (λ c. c.critique) row) (column (λ c. c.critic_reviewed_at) row)

unfoldable pub get_request : Uuid → Method RunCreate
get_request id = do row ← transaction (context_of id); pure row.request

unfoldable pub get_analysis : Uuid → Method (Option AdAnalysis)
get_analysis id = do row ← transaction (context_of id); pure row.analysis

unfoldable pub get_repair_attempted : Uuid → Method Bool
get_repair_attempted id = do
  row ← transaction (context_of id)
  raise_when (ltb 1 row.repair_attempted) value_error
  pure (row.repair_attempted == 1)

unfoldable pub get_confirmed_brand_lock : Uuid → Method (Option BrandLockConfirmationRecord)
unfolding confirmation_record
get_confirmed_brand_lock id = do
  row ← transaction (context_of id)
  lift (confirmation_record (some row))

unfoldable pub get_draft : Uuid → Method (Option DraftRecord)
unfolding draft_record
get_draft id = do row ← transaction (context_of id); lift (draft_record (some row))

unfoldable pub get_composition : Uuid → Method (Option CompositionGenerated)
get_composition id = do row ← transaction (context_of id); pure row.composition

unfoldable pub get_critique : Uuid → Method (Option CritiqueRecord)
unfolding critique_record
get_critique id = do row ← transaction (context_of id); lift (critique_record (some row))

-- `_revision_record`: the table has no time of the draft, which is read as that of the revision.
abbrev pub revision_record : RevisionRecord → RevisionRecord
revision_record v = record v { draft = record v.draft { generated_at = v.revised_at } }

abbrev pub read_revision : Option RevisionRecord → Option RevisionRecord
read_revision none = none
read_revision (some v) = some (revision_record v)

unfoldable pub get_revision : Uuid → Method (Option RevisionRecord)
get_revision id = gets (λ db. read_revision (db.revisions id))

-- The values of the SELECT of `get`.
abbrev run_values : Uuid → RunRow → Option ContextRow → RunValues
run_values id r c = record {
  id = id;
  direction = r.direction;
  status = r.status;
  warning_codes = r.warning_codes;
  initial_generation_count = count_column (λ c. c.initial_generation_count) c;
  human_revision_count = count_column (λ c. c.human_revision_count) c;
  technical_attempt_count = count_column (λ c. c.technical_attempt_count) c;
  created_at = r.created_at;
  updated_at = some r.updated_at;
}

-- A pydantic refusal is a `ValueError`.
abbrev pub from_domain : {A : Type 0} → Result DomainError A → Result RepositoryError A
from_domain (ok a) = ok a
from_domain (err e) = err value_error

unfoldable pub get : Uuid → Method ProjectRun
get id = do
  row ← or_raise (← gets (λ db. db.runs id)) run_not_found
  context ← gets (λ db. db.contexts id)
  lift (from_domain (model_validate (run_values id row context)))

-- Reading leaves the database as it is.
pub get_unchanged : (id : Uuid) (db : Database) → (get id db).1 ≡ db
unfolding get
get_unchanged id db = ground arith

pub get_request_unchanged : (id : Uuid) (db : Database) → (get_request id db).1 ≡ db
unfolding get_request
get_request_unchanged id db = ground arith

pub get_analysis_unchanged : (id : Uuid) (db : Database) → (get_analysis id db).1 ≡ db
unfolding get_analysis
get_analysis_unchanged id db = ground arith

pub get_confirmed_brand_lock_unchanged :
    (id : Uuid) (db : Database) → (get_confirmed_brand_lock id db).1 ≡ db
unfolding get_confirmed_brand_lock
get_confirmed_brand_lock_unchanged id db = ground arith

pub get_draft_unchanged : (id : Uuid) (db : Database) → (get_draft id db).1 ≡ db
unfolding get_draft
get_draft_unchanged id db = ground arith

pub get_composition_unchanged : (id : Uuid) (db : Database) → (get_composition id db).1 ≡ db
unfolding get_composition
get_composition_unchanged id db = ground arith

pub get_critique_unchanged : (id : Uuid) (db : Database) → (get_critique id db).1 ≡ db
unfolding get_critique
get_critique_unchanged id db = ground arith

pub get_repair_attempted_unchanged :
    (id : Uuid) (db : Database) → (get_repair_attempted id db).1 ≡ db
unfolding get_repair_attempted
get_repair_attempted_unchanged id db = ground arith

pub get_revision_unchanged : (id : Uuid) (db : Database) → (get_revision id db).1 ≡ db
unfolding get_revision
get_revision_unchanged id db = refl
