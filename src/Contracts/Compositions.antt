-- ===== src/Contracts/Compositions.antt =====
-- contracts.py: the background request, the layers of a composition and its summary.
use cultureshift.Base.{
  ℕ, String, Bool, true, false, ◌&&◌, ◌||◌, not, Option, none, some, List, [], ◌∷◌, map, Eq, ◌==◌,
  ◌!=◌, nat_eq, string_discrete, ℕ_discrete, length, all, differ, if◌then◌else◌,
}
use cultureshift.Base.Int.{ℤ, pos, ◌-ℤ◌, ltb_ℤ, leb_ℤ, int_eq, ℤ-discrete}
use cultureshift.Domain.{Uuid, LocalizationDirection, china_to_uk, uk_to_china}
use cultureshift.Contracts.Texts.{
  between, long_text_valid, sha256_valid, Locale, zh_cn, en_gb, locale_eq, UtcDatetime,
}

abbrev pub canvas_width : ℕ
canvas_width = 1600

abbrev pub canvas_height : ℕ
canvas_height = 900

pub data ProhibitedContent : Type 0 where
  logo brand_name product_ui statistics claims long_text : ProhibitedContent

unfoldable pub ProhibitedContent-discrete : Discrete ProhibitedContent
ProhibitedContent-discrete = hlevel

unfoldable pub Guardrails-discrete : Discrete (List ProhibitedContent)
Guardrails-discrete = hlevel

instance unfoldable pub guardrails_eq : Eq (List ProhibitedContent)
unfolding Guardrails-discrete
guardrails_eq = record { dec = Guardrails-discrete }

abbrev pub required_guardrails : List ProhibitedContent
required_guardrails = logo ∷ brand_name ∷ product_ui ∷ statistics ∷ claims ∷ long_text ∷ []

pub record BackgroundRequest : Type 0 where
  pub direction : LocalizationDirection
  pub target_locale : Locale
  pub narrative : String
  pub use_scenario : String
  pub width : ℕ
  pub height : ℕ
  pub prohibited_content : List ProhibitedContent

-- The locale that a direction writes for.
abbrev pub expected_locale : LocalizationDirection → Locale
expected_locale china_to_uk = en_gb
expected_locale uk_to_china = zh_cn

-- `BackgroundRequest(...)` is accepted: `require_directional_locale_and_guardrails`.
unfoldable pub background_request_valid : BackgroundRequest → Bool
unfolding long_text_valid
background_request_valid b =
    long_text_valid b.narrative
    && long_text_valid b.use_scenario
    && b.width == canvas_width
    && b.height == canvas_height
    && b.target_locale == expected_locale b.direction
    && b.prohibited_content == required_guardrails

pub data CompositionLayerKind : Type 0 where
  background product_ui logo headline body cta disclosure : CompositionLayerKind

unfoldable pub CompositionLayerKind-discrete : Discrete CompositionLayerKind
CompositionLayerKind-discrete = hlevel

instance unfoldable pub layer_kind_eq : Eq CompositionLayerKind
unfolding CompositionLayerKind-discrete
layer_kind_eq = record { dec = CompositionLayerKind-discrete }

unfoldable pub LayerKinds-discrete : Discrete (List CompositionLayerKind)
LayerKinds-discrete = hlevel

instance unfoldable pub layer_kinds_eq : Eq (List CompositionLayerKind)
unfolding LayerKinds-discrete
layer_kinds_eq = record { dec = LayerKinds-discrete }

-- `tuple[int, int, int, int]`
pub record Bounds : Type 0 where
  pub left : ℤ
  pub top : ℤ
  pub right : ℤ
  pub bottom : ℤ

pub record CompositionLayer : Type 0 where
  pub kind : CompositionLayerKind
  pub source_asset_id : Option Uuid
  pub rgba_sha256 : String
  pub bounds : Bounds
  pub width : ℕ
  pub height : ℕ

unfoldable pub CompositionLayer-discrete : Discrete CompositionLayer
CompositionLayer-discrete = hlevel (ℕ_discrete, string_discrete, ℤ-discrete)

-- `kind in {"logo", "product_ui"}`
abbrev pub is_protected : CompositionLayerKind → Bool
is_protected product_ui = true
is_protected logo = true
is_protected _ = false

abbrev pub is_given : {A : Type 0} → Option A → Bool
is_given none = false
is_given (some a) = true

-- The bounds lie on the canvas and have the layer's size.
unfoldable pub bounds_valid : CompositionLayer → Bool
bounds_valid l = not (
    ltb_ℤ l.bounds.left (pos 0)
    || ltb_ℤ l.bounds.top (pos 0)
    || ltb_ℤ (pos canvas_width) l.bounds.right
    || ltb_ℤ (pos canvas_height) l.bounds.bottom
    || leb_ℤ l.bounds.right l.bounds.left
    || leb_ℤ l.bounds.bottom l.bounds.top
    || (l.bounds.right -ℤ l.bounds.left) != pos l.width
    || (l.bounds.bottom -ℤ l.bounds.top) != pos l.height)

-- `require_valid_source_and_bounds`
unfoldable pub composition_layer_valid : CompositionLayer → Bool
unfolding sha256_valid bounds_valid
composition_layer_valid l =
    sha256_valid l.rgba_sha256
    && between 1 1600 l.width
    && between 1 900 l.height
    && not (differ (is_protected l.kind) (is_given l.source_asset_id))
    && bounds_valid l

pub record CompositionGenerated : Type 0 where
  pub run_id : Uuid
  pub rendered_sha256 : String
  pub artifact_id : Uuid
  pub layers : List CompositionLayer
  pub generated_at : UtcDatetime

unfoldable pub CompositionGenerated-discrete : Discrete CompositionGenerated
CompositionGenerated-discrete = hlevel (ℕ_discrete, string_discrete, CompositionLayer-discrete)

instance unfoldable pub composition_eq : Eq CompositionGenerated
unfolding CompositionGenerated-discrete
composition_eq = record { dec = CompositionGenerated-discrete }

abbrev pub layer_kinds : List CompositionLayer → List CompositionLayerKind
layer_kinds ls = map (λ (l : CompositionLayer). l.kind) ls

abbrev pub full_order : List CompositionLayerKind
full_order = background ∷ product_ui ∷ logo ∷ headline ∷ body ∷ cta ∷ disclosure ∷ []

abbrev pub order_without_ui : List CompositionLayerKind
order_without_ui = background ∷ logo ∷ headline ∷ body ∷ cta ∷ disclosure ∷ []

-- `CompositionGenerated(...)` is accepted: `require_fixed_layer_order`. The fields that admit one
-- literal value only (`status`, `execution_mode`, the size, the media type, the disclosure) are
-- left out of the record.
unfoldable pub composition_valid : CompositionGenerated → Bool
unfolding sha256_valid composition_layer_valid
composition_valid c =
    sha256_valid c.rendered_sha256
    && between 6 7 (length c.layers)
    && all composition_layer_valid c.layers
    && (layer_kinds c.layers == full_order || layer_kinds c.layers == order_without_ui)

-- `{layer.kind: layer.source_asset_id for layer in layers if layer.source_asset_id is not None}`
-- read at one key: the last such layer of the kind.
abbrev pub layer_source : CompositionLayerKind → List CompositionLayer → Option Uuid
layer_source k [] = none
layer_source k (l ∷ ls) =
    let rest = layer_source k ls in
    elim rest [ some u ↦ some u | none ↦ if l.kind == k then l.source_asset_id else none ]

-- `layer_sources.get("product_ui") in lock.product_ui_asset_ids`
abbrev pub is_among : Option Uuid → List Uuid → Bool
is_among none us = false
is_among (some u) [] = false
is_among (some u) (v ∷ us) = v == u || is_among (some u) us
