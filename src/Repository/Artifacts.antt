-- ===== src/Repository/Artifacts.antt =====
-- repository.py: the transactions that store the confirmed Brand Lock, the draft, the composition
-- and the critique of a run, each once.
use cultureshift.Base.{
  Bool, false, not, ◌&&◌, ◌||◌, Option, none, some, ◌==◌, ◌!=◌, nat_eq, string_eq, ltb, is_empty,
  is_subset, if◌then◌else◌,
}
use cultureshift.Base.Result.{Result, ok, err}
use cultureshift.Domain.{
  Uuid, Datetime, utc, is_utc, ProjectRunStatus, in_progress, awaiting_brand_lock, ready,
  failed_final, status_eq,
}
use cultureshift.Contracts.{
  AdCopy, BrandLock, CompositionGenerated, CreativeBrief, CritiqueReport, CritiqueStatus, reject,
  CompositionLayer, brand_lock_eq, creative_brief_eq, ad_copy_eq, strings_eq, composition_eq,
  critique_report_eq, critique_status_eq, layer_source, is_among, is_given,
}
use cultureshift.Contracts
use cultureshift.Confirmation.{ConfirmationErrorCode, validate_brand_lock_confirmation}
use cultureshift.Repository.State.{
  RunRow, ContextRow, RepositoryError, value_error, run_not_found, brand_lock_immutable,
  invalid_run_state, draft_immutable, composition_immutable, critique_immutable,
  confirmation_refused, BrandLockConfirmationRecord, DraftRecord, CritiqueRecord,
}
use cultureshift.Repository.Monad.{
  Method, pure, raise, ◌>>=◌, ◌>>◌, gets, raise_when, or_raise, lift, transaction,
}
use cultureshift.Repository.Reads.{
  column, count_column, confirmation_record, draft_record, critique_record,
}
use cultureshift.Repository.Runs.{write_context, move_status}

abbrev pub from_confirmation :
    {A : Type 0} → Result ConfirmationErrorCode A → Result RepositoryError A
from_confirmation (ok a) = ok a
from_confirmation (err e) = err (confirmation_refused e)

-- An UPDATE of the context `WHERE run_id = ? AND …`; the exception when no row was changed.
abbrev pub update_context :
    Uuid → (ContextRow → Bool) → (ContextRow → ContextRow) → RepositoryError → Method (Unit {0})
update_context id test change e = do
  existing ← gets (λ db. db.contexts id)
  elim existing [
    | none ↦ raise e
    | some c ↦ if test c then write_context id (change c) else raise e
  ]

abbrev confirm_new :
    Uuid → BrandLock → Datetime → RunRow → Option ContextRow → Method BrandLockConfirmationRecord
confirm_new id proposed at row context = do
  raise_when (ltb at.instant row.created_at.instant) value_error
  raise_when (row.status != awaiting_brand_lock) invalid_run_state
  analysis ← or_raise (column (λ c. c.analysis) context) invalid_run_state
  validated ←
      lift (from_confirmation (validate_brand_lock_confirmation proposed analysis.brand_lock))
  update_context id (λ c. not (is_given c.confirmed_brand_lock))
      (λ c. record c { confirmed_brand_lock = some validated; brand_lock_confirmed_at = some at })
      brand_lock_immutable
  moved ← move_status id awaiting_brand_lock in_progress at
  raise_when (not moved) invalid_run_state
  pure (record { brand_lock = validated; confirmed_at = at })

abbrev replay_confirmation :
    BrandLock → BrandLockConfirmationRecord → Method BrandLockConfirmationRecord
replay_confirmation proposed existing =
    if existing.brand_lock == proposed then pure existing else raise brand_lock_immutable

-- `at` is `confirmed_at or utc_now()`.
unfoldable pub confirm_brand_lock : Uuid → BrandLock → Datetime → Method BrandLockConfirmationRecord
unfolding confirmation_record validate_brand_lock_confirmation
confirm_brand_lock id proposed at = do
  raise_when (not (is_utc at)) value_error
  transaction (do
    row ← or_raise (← gets (λ db. db.runs id)) run_not_found
    context ← gets (λ db. db.contexts id)
    existing ← lift (confirmation_record context)
    elim existing [
      | some record' ↦ replay_confirmation proposed record'
      | none ↦ confirm_new id proposed at row context
    ])

-- The five columns of the draft are NULL.
abbrev draft_absent : ContextRow → Bool
draft_absent c =
    not (is_given c.creative_brief)
    && not (is_given c.ad_copy)
    && not (is_given c.draft_fact_references)
    && not (is_given c.draft_rule_ids)
    && not (is_given c.draft_generated_at)

abbrev save_new_draft : Uuid → DraftRecord → RunRow → Option ContextRow → Method DraftRecord
save_new_draft id draft row context = do
  raise_when (row.status != in_progress) invalid_run_state
  confirmed ← or_raise (column (λ c. c.confirmed_brand_lock) context) invalid_run_state
  raise_when (draft.brief.brand_lock != confirmed) invalid_run_state
  raise_when
      (is_empty draft.fact_references
        || not (is_subset draft.fact_references confirmed.verified_product_facts))
      invalid_run_state
  update_context id draft_absent
      (λ c. record c {
        creative_brief = some draft.brief;
        ad_copy = some draft.ad_copy;
        draft_fact_references = some draft.fact_references;
        draft_rule_ids = some draft.rule_ids;
        draft_generated_at = some draft.generated_at;
      })
      draft_immutable
  pure draft

abbrev same_draft : DraftRecord → DraftRecord → Bool
same_draft d e =
    d.brief == e.brief
    && d.ad_copy == e.ad_copy
    && d.fact_references == e.fact_references
    && d.rule_ids == e.rule_ids

abbrev replay_draft : DraftRecord → DraftRecord → Method DraftRecord
replay_draft draft existing =
    if same_draft existing draft then pure existing else raise draft_immutable

-- The arguments are the fields of `draft`; its time is `generated_at or utc_now()`.
unfoldable pub save_draft : Uuid → DraftRecord → Method DraftRecord
unfolding draft_record
save_draft id draft = do
  raise_when (not (is_utc draft.generated_at)) value_error
  transaction (do
    row ← or_raise (← gets (λ db. db.runs id)) run_not_found
    context ← gets (λ db. db.contexts id)
    existing ← lift (draft_record context)
    elim existing [
      | some record' ↦ replay_draft draft record'
      | none ↦ save_new_draft id draft row context
    ])

-- `layer_sources.get("logo") == lock.logo_asset_id`
abbrev is_source : Uuid → Option Uuid → Bool
is_source logo none = false
is_source logo (some u) = u == logo

-- The logo layer shows the locked logo, and the product UI layer one of the locked images.
unfoldable pub shows_lock : BrandLock → CompositionGenerated → Bool
shows_lock lock composition =
    is_source lock.logo_asset_id
      (layer_source Contracts.CompositionLayerKind.logo composition.layers)
    && is_among (layer_source Contracts.CompositionLayerKind.product_ui composition.layers)
        lock.product_ui_asset_ids

abbrev save_new_composition :
    Uuid → CompositionGenerated → RunRow → Option ContextRow → Method CompositionGenerated
save_new_composition id composition row context = do
  raise_when (row.status != in_progress) invalid_run_state
  confirmed ← or_raise (column (λ c. c.confirmed_brand_lock) context) invalid_run_state
  raise_when (not (is_given (column (λ c. c.draft_generated_at) context))) invalid_run_state
  raise_when (not (shows_lock confirmed composition)) invalid_run_state
  update_context id (λ c. not (is_given c.composition) && c.initial_generation_count == 0)
      (λ c. record c { composition = some composition; initial_generation_count = 1 })
      composition_immutable
  pure composition

abbrev replay_composition :
    CompositionGenerated → CompositionGenerated → Method CompositionGenerated
replay_composition composition existing =
    if existing == composition then pure existing else raise composition_immutable

unfoldable pub save_composition : Uuid → CompositionGenerated → Method CompositionGenerated
save_composition id composition = do
  raise_when (composition.run_id != id) invalid_run_state
  transaction (do
    row ← or_raise (← gets (λ db. db.runs id)) run_not_found
    context ← gets (λ db. db.contexts id)
    elim (column (λ c. c.composition) context) [
      | some existing ↦ replay_composition composition existing
      | none ↦ save_new_composition id composition row context
    ])

-- The status that a report leads to.
abbrev pub target_status : CritiqueReport → ProjectRunStatus
target_status report = if report.status == reject then failed_final else ready

abbrev save_new_critique :
    Uuid → CritiqueReport → RunRow → Option ContextRow → Method CritiqueRecord
save_new_critique id report row context = do
  raise_when
      (row.status != in_progress
        || not (is_given (column (λ c. c.confirmed_brand_lock) context))
        || not (is_given (column (λ c. c.draft_generated_at) context))
        || not (is_given (column (λ c. c.composition) context))
        || count_column (λ c. c.initial_generation_count) context != 1)
      invalid_run_state
  update_context id (λ c. not (is_given c.critique) && not (is_given c.critic_reviewed_at))
      (λ c. record c { critique = some report; critic_reviewed_at = some (utc report.reviewed_at) })
      critique_immutable
  moved ← move_status id in_progress (target_status report) (utc report.reviewed_at)
  raise_when (not moved) invalid_run_state
  pure (record { report = report; reviewed_at = utc report.reviewed_at })

abbrev replay_critique : CritiqueReport → CritiqueRecord → Method CritiqueRecord
replay_critique report existing =
    if existing.report == report then pure existing else raise critique_immutable

unfoldable pub save_critique : Uuid → CritiqueReport → Method CritiqueRecord
unfolding critique_record
save_critique id report = transaction (do
  row ← or_raise (← gets (λ db. db.runs id)) run_not_found
  context ← gets (λ db. db.contexts id)
  raise_when (ltb report.reviewed_at row.created_at.instant) invalid_run_state
  existing ← lift (critique_record context)
  elim existing [
    | some record' ↦ replay_critique report record'
    | none ↦ save_new_critique id report row context
  ])
