-- ===== src/Confirmation/Laws.antt =====
-- What a Brand Lock that confirms the analyzed one may change.
use cultureshift.Base.{true, ◌≡◌, ◌↔◌, arith, length, is_subset, string_eq}
use cultureshift.Base.Result.{ok}
use cultureshift.Contracts.{BrandLock, localizable_field_eq}
use cultureshift.Confirmation.{validate_brand_lock_confirmation}

-- The proposal has every locked field of the analysis, its benefits in some order, and no localizable
-- field that the analysis lacks.
pub record Confirms (p a : BrandLock) : Type 0 where
  pub logo : p.logo_asset_id ≡ a.logo_asset_id
  pub name : p.product_name ≡ a.product_name
  pub facts : p.verified_product_facts ≡ a.verified_product_facts
  pub images : p.product_ui_asset_ids ≡ a.product_ui_asset_ids
  pub action : p.cta_action_meaning ≡ a.cta_action_meaning
  pub layout : p.layout_template_asset_id ≡ a.layout_template_asset_id
  pub benefits : length p.benefit_order ≡ length a.benefit_order
  pub benefits_kept : is_subset p.benefit_order a.benefit_order ≡ true
  pub benefits_all : is_subset a.benefit_order p.benefit_order ≡ true
  pub localizable : is_subset p.localizable_fields a.localizable_fields ≡ true

-- The validation returns the proposal exactly if it confirms the analyzed lock: the locked fields are
-- equal, the benefits are as many and the same set, and no localizable field is new.
pub validate_brand_lock_confirmation-Confirms :
    (p a : BrandLock) → (validate_brand_lock_confirmation p a ≡ ok p) ↔ Confirms p a
unfolding validate_brand_lock_confirmation
validate_brand_lock_confirmation-Confirms p a = (λ e. ground arith, λ c. ground arith)
