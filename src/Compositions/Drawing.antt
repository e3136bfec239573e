-- ===== src/Compositions/Drawing.antt =====
-- composition_service.py: the errors of the service, and the drawing of the first composition before
-- anything is stored.
use cultureshift.Base.{not, Option, none, some}
use cultureshift.Base.Result.{Result, ok, err, ◌>>=◌, ◌>>◌, raise_if}
use cultureshift.Domain.{Uuid, ProjectRun}
use cultureshift.Contracts.{
  BrandLock, BackgroundRequest, background_request_valid, canvas_width, canvas_height,
  required_guardrails,
}
use cultureshift.Repository.State.{DraftRecord}
use cultureshift.Revising.Session.{Failure, technical, Composed, Studio}
use cultureshift.Revising.Composing.{first_image}

-- `CompositionServiceErrorCode`, and an exception that the service does not catch.
pub data CompositionServiceError : Type 0 where
  run_not_found invalid_run_state brand_lock_unconfirmed draft_unavailable : CompositionServiceError
  output_invalid persistence_failed uncaught : CompositionServiceError

abbrev first_request : ProjectRun → DraftRecord → BackgroundRequest
first_request run draft = record {
  direction = run.direction;
  target_locale = draft.brief.target_locale;
  narrative = draft.brief.narrative;
  use_scenario = draft.brief.use_scenario;
  width = canvas_width;
  height = canvas_height;
  prohibited_content = required_guardrails;
}

-- What a step of the drawing raises: `OUTPUT_INVALID` for the exceptions that are caught.
abbrev pub from_drawing : {A : Type 0} → Result Failure A → Result CompositionServiceError A
from_drawing (ok a) = ok a
from_drawing (err technical) = err output_invalid
from_drawing (err e) = err uncaught

abbrev image_or_refuse : Option Uuid → Result CompositionServiceError Uuid
image_or_refuse none = err output_invalid
image_or_refuse (some image) = ok image

module _ {Store : Type 0} (studio : Studio Store) where
  -- The drawing, before anything is stored.
  unfoldable pub draw :
      ProjectRun → BrandLock → DraftRecord → Result CompositionServiceError Composed
  draw run lock draft = do
    let request = first_request run draft
    raise_if (not (background_request_valid request)) output_invalid
    background ← from_drawing (studio.generate_background request)
    logo ← from_drawing (studio.resolve lock.logo_asset_id)
    image ← image_or_refuse (first_image lock.product_ui_asset_ids)
    product_ui ← from_drawing (studio.resolve image)
    from_drawing (
        studio.compose (record {
          run_id = run.id;
          background = background;
          brand_lock = lock;
          ad_copy = draft.ad_copy;
          logo = logo;
          product_ui = product_ui;
        }))
