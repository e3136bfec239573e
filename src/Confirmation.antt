-- ===== src/Confirmation.antt =====
-- cultureshift/brand_lock_confirmation.py: whether a proposed Brand Lock confirms the analyzed one.
pub mod Laws
use cultureshift.Base.{Bool, ◌&&◌, ◌||◌, not, ◌!=◌, nat_eq, string_eq, length, is_subset}
use cultureshift.Base.Result.{Result, ok, ◌>>◌, raise_if}
use cultureshift.Contracts.{BrandLock, localizable_field_eq, strings_eq, uuids_eq}

pub data ConfirmationErrorCode : Type 0 where
  locked_field_changed benefit_order_invalid localizable_fields_invalid : ConfirmationErrorCode

-- `any(getattr(proposed, name) != getattr(analyzed, name) for name in locked_fields)`
unfoldable pub locked_field_differs : BrandLock → BrandLock → Bool
locked_field_differs p a =
    p.logo_asset_id != a.logo_asset_id
    || p.product_name != a.product_name
    || p.verified_product_facts != a.verified_product_facts
    || p.product_ui_asset_ids != a.product_ui_asset_ids
    || p.cta_action_meaning != a.cta_action_meaning
    || p.layout_template_asset_id != a.layout_template_asset_id

-- The lengths differ or the sets differ.
unfoldable pub benefit_order_differs : BrandLock → BrandLock → Bool
benefit_order_differs p a =
    length p.benefit_order != length a.benefit_order
    || not (is_subset p.benefit_order a.benefit_order && is_subset a.benefit_order p.benefit_order)

-- `validate_brand_lock_confirmation`
unfoldable pub validate_brand_lock_confirmation :
    BrandLock → BrandLock → Result ConfirmationErrorCode BrandLock
unfolding locked_field_differs benefit_order_differs
validate_brand_lock_confirmation proposed analyzed = do
  raise_if (locked_field_differs proposed analyzed) locked_field_changed
  raise_if (benefit_order_differs proposed analyzed) benefit_order_invalid
  raise_if (not (is_subset proposed.localizable_fields analyzed.localizable_fields))
      localizable_fields_invalid
  ok proposed
