-- ===== src/Contracts/Texts.antt =====
-- contracts.py: the constrained texts, the enumerations and the references to assets.
use cultureshift.Base.{
  ℕ, String, Bool, false, ◌&&◌, ◌||◌, Option, none, some, List, [], ◌∷◌, Eq, ◌==◌, nat_eq,
  string_discrete, ℕ_discrete, leb, if◌then◌else◌, length, all, codes, text_length, is_lower,
  is_digit, is_upper,
}
use cultureshift.Domain.{Uuid}

-- `ShortText` and `LongText`: the lengths that pydantic checks.
abbrev pub between : ℕ → ℕ → ℕ → Bool
between lo hi n = leb lo n && leb n hi

unfoldable pub short_text_valid : String → Bool
short_text_valid s = between 1 256 (text_length s)

unfoldable pub long_text_valid : String → Bool
long_text_valid s = between 1 4000 (text_length s)

-- `[A-Za-z0-9]` and `[A-Za-z0-9._/-]`
abbrev is_alnum : ℕ → Bool
is_alnum c = is_upper c || is_lower c || is_digit c

abbrev is_reference_char : ℕ → Bool
is_reference_char c = is_alnum c || c == b'.' || c == b'_' || c == b'/' || c == b'-'

-- What follows the prefix, if the text begins with it.
abbrev after_prefix : List ℕ → List ℕ → Option (List ℕ)
after_prefix [] s = some s
after_prefix (p ∷ ps) [] = none
after_prefix (p ∷ ps) (c ∷ s) = let rest = after_prefix ps s in if p == c then rest else none

abbrev reference_path : Option (List ℕ) → Bool
reference_path none = false
reference_path (some []) = false
reference_path (some (c ∷ s)) = is_alnum c && all is_reference_char s

-- `_validate_public_reference` over `PUBLIC_REFERENCE_PATTERN`
unfoldable pub public_reference_valid : String → Bool
public_reference_valid s =
    between 1 256 (text_length s)
    && (reference_path (after_prefix (codes "fixture:") (codes s))
        || reference_path (after_prefix (codes "rights:") (codes s))
        || reference_path (after_prefix (codes "evidence:") (codes s)))

-- `Sha256`: `^[a-f0-9]{64}$`
unfoldable pub sha256_valid : String → Bool
sha256_valid s =
    length (codes s) == 64 && all (λ c. (leb b'a' c && leb c b'f') || is_digit c) (codes s)

abbrev is_media_start : ℕ → Bool
is_media_start c = is_lower c || is_digit c

abbrev is_media_char : ℕ → Bool
is_media_char c = is_media_start c || c == b'.' || c == b'+' || c == b'-'

abbrev media_subtype : List ℕ → Bool
media_subtype [] = false
media_subtype (c ∷ s) = is_media_start c && all is_media_char s

-- The rest of the type up to `/`, then the subtype.
abbrev media_rest : List ℕ → Bool
media_rest [] = false
media_rest (c ∷ s) =
    let rest = media_rest s in if c == b'/' then media_subtype s else is_media_char c && rest

abbrev media_shape : List ℕ → Bool
media_shape [] = false
media_shape (c ∷ s) = is_media_start c && media_rest s

-- `MediaType`
unfoldable pub media_type_valid : String → Bool
media_type_valid s = media_shape (codes s)

pub data Market : Type 0 where
  china united_kingdom : Market

unfoldable pub Market-discrete : Discrete Market
Market-discrete = hlevel

instance unfoldable pub market_eq : Eq Market
unfolding Market-discrete
market_eq = record { dec = Market-discrete }

pub data Locale : Type 0 where
  zh_cn en_gb : Locale

unfoldable pub Locale-discrete : Discrete Locale
Locale-discrete = hlevel

instance unfoldable pub locale_eq : Eq Locale
unfolding Locale-discrete
locale_eq = record { dec = Locale-discrete }

pub data ExecutionMode : Type 0 where
  fixture live : ExecutionMode

unfoldable pub ExecutionMode-discrete : Discrete ExecutionMode
ExecutionMode-discrete = hlevel

instance unfoldable pub execution_mode_eq : Eq ExecutionMode
unfolding ExecutionMode-discrete
execution_mode_eq = record { dec = ExecutionMode-discrete }

pub data AssetKind : Type 0 where
  source_ad logo product_ui layout_template background rendered_ad : AssetKind

unfoldable pub AssetKind-discrete : Discrete AssetKind
AssetKind-discrete = hlevel

instance unfoldable pub asset_kind_eq : Eq AssetKind
unfolding AssetKind-discrete
asset_kind_eq = record { dec = AssetKind-discrete }

-- A UTC timestamp after `_require_utc`: microseconds.
abbrev pub UtcDatetime : Type 0
UtcDatetime = ℕ

pub record AssetRef : Type 0 where
  pub asset_id : Uuid
  pub kind : AssetKind
  pub media_type : String
  pub sha256 : String
  pub provenance_ref : String
  pub rights_ref : String
  pub expires_at : Option UtcDatetime

unfoldable pub AssetRef-discrete : Discrete AssetRef
AssetRef-discrete = hlevel (ℕ_discrete, string_discrete)

instance unfoldable pub asset_ref_eq : Eq AssetRef
unfolding AssetRef-discrete ℕ_discrete string_discrete
asset_ref_eq = record { dec = AssetRef-discrete }

unfoldable pub asset_ref_valid : AssetRef → Bool
unfolding media_type_valid sha256_valid public_reference_valid
asset_ref_valid a =
    media_type_valid a.media_type
    && sha256_valid a.sha256
    && public_reference_valid a.provenance_ref
    && public_reference_valid a.rights_ref

-- `SourceAdAssetRef`: an `AssetRef` of one kind.
unfoldable pub source_ad_valid : AssetRef → Bool
unfolding asset_ref_valid asset_kind_eq
source_ad_valid a = a.kind == source_ad && asset_ref_valid a
