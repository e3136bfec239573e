-- ===== src/Contracts/Responses.antt =====
-- contracts.py: the answers of the HTTP application to requests about a run. A value that pydantic takes
-- as an instance of a model is not validated again; a `Literal` with one value is left out.
use cultureshift.Base.{ℕ, String, nat_eq, Bool, ◌&&◌, ◌||◌, List, ◌==◌, leb, length, all}
use cultureshift.Domain.{
  Uuid, Datetime, LocalizationDirection, ProjectRunStatus, ready, failed_final, status_eq, is_utc,
  is_warning_code,
}
use cultureshift.Contracts.Texts.{AssetRef, UtcDatetime, between}
use cultureshift.Contracts.Brand.{BrandLock, AdAnalysis}
use cultureshift.Contracts.Critiques.{CritiqueReport}

pub record AssetUploaded : Type 0 where
  pub asset : AssetRef
  pub size_bytes : ℕ
  pub created_at : UtcDatetime
  pub delete_capability_token : List ℕ

-- `AssetUploaded(...)` is accepted.
unfoldable pub asset_uploaded_valid : AssetUploaded → Bool
asset_uploaded_valid a =
    between 1 10485760 a.size_bytes && between 16 4096 (length a.delete_capability_token)

pub record RunCreated : Type 0 where
  pub run_id : Uuid
  pub status : ProjectRunStatus
  pub capability_token : List ℕ
  pub created_at : Datetime

-- `RunCreated(...)` is accepted.
unfoldable pub run_created_valid : RunCreated → Bool
run_created_valid r = between 16 4096 (length r.capability_token) && is_utc r.created_at

pub record RunSnapshot : Type 0 where
  pub run_id : Uuid
  pub direction : LocalizationDirection
  pub status : ProjectRunStatus
  pub warning_codes : List String
  pub created_at : Datetime
  pub updated_at : Datetime

unfoldable pub run_snapshot_valid : RunSnapshot → Bool
run_snapshot_valid r =
    leb (length r.warning_codes) 32
    && all is_warning_code r.warning_codes
    && is_utc r.created_at
    && is_utc r.updated_at

pub record AnalysisCompleted : Type 0 where
  pub run_id : Uuid
  pub analysis : AdAnalysis
  pub repair_attempted : Bool
  pub completed_at : Datetime

unfoldable pub analysis_completed_valid : AnalysisCompleted → Bool
analysis_completed_valid a = is_utc a.completed_at

pub record BrandLockConfirmed : Type 0 where
  pub run_id : Uuid
  pub brand_lock : BrandLock
  pub confirmed_at : Datetime

unfoldable pub brand_lock_confirmed_valid : BrandLockConfirmed → Bool
brand_lock_confirmed_valid c = is_utc c.confirmed_at

pub record CritiqueCompleted : Type 0 where
  pub run_id : Uuid
  pub status : ProjectRunStatus
  pub critique : CritiqueReport
  pub initial_generation_count : ℕ
  pub human_revision_count : ℕ
  pub technical_attempt_count : ℕ
  pub reviewed_at : UtcDatetime

-- `CritiqueCompleted(...)` is accepted: `match_review_timestamp`.
unfoldable pub critique_completed_valid : CritiqueCompleted → Bool
critique_completed_valid c =
    (c.status == ready || c.status == failed_final)
    && leb c.initial_generation_count 1
    && leb c.human_revision_count 1
    && c.reviewed_at == c.critique.reviewed_at
