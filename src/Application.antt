-- ===== src/Application.antt =====
-- cultureshift/app.py: the routes of the HTTP application. A request is handled as one step on the
-- database and the stored images; what it reads of the clock, of random identifiers and of the source
-- assets is given to it.
pub mod Runs
pub mod Analyses
pub mod Uploads
pub mod Artifacts
pub mod Revisions
pub mod Routes
pub mod Refinement
pub mod Access
pub mod Tokens
pub mod Created
pub mod Failures
use cultureshift.Base.{
  ℕ, zero, suc, ◌+◌, ◌/◌, ◌%◌, String, codes_eq, nat_eq, Bool, true, false, not, ◌||◌, List, [],
  ◌∷◌, ◌++◌, map, Option, none, some, ◌==◌, ◌!=◌, ltb, is_upper, is_empty, codes, if◌then◌else◌,
}
use cultureshift.Base.Result.{Result, ok, err}
use cultureshift.Domain.{Uuid, utc}
use cultureshift.Contracts.{AssetRef, UtcDatetime}
use cultureshift.Repository.State.{RepositoryError}
use cultureshift.Repository.State
use cultureshift.Analysis.{VisionProvider}
use cultureshift.Draft.{Copywriter}
use cultureshift.Capabilities.{Capability, CapabilityClaims, Codec, CapabilityTokenService, verify}
use cultureshift.Revising.Session.{Studio, Inputs}
use cultureshift.Compositions.Exports.{Export}
use cultureshift.Storage.Assets.{AssetFailure, LoadedAsset}

-- An `HTTPException` with its status and code, or an exception that the handler does not catch.
pub data HttpError : Type 0 where
  http : ℕ → String → HttpError
  uncaught : HttpError

-- What `create_app` is given.
pub record Server (Store : Type 0) : Type 0 where
  pub codec : Codec
  pub tokens : CapabilityTokenService
  pub provider : VisionProvider
  pub write : Copywriter
  pub studio : Studio Store
  pub export : Export Store

-- What a request finds: the time, a new identifier, and the source assets.
pub record Moment : Type 0 where
  pub now : UtcDatetime
  pub run_id : Uuid
  pub inputs : Inputs
  pub load_asset : Uuid → Result AssetFailure LoadedAsset

abbrev hex_digit : ℕ → ℕ
hex_digit n = if ltb n 10 then n + b'0' else n + 87

-- The last hexadecimal digits of a number, as many as the first argument says.
unfoldable pub hex_digits : ℕ → ℕ → List ℕ
hex_digits zero n = []
hex_digits (suc k) n = hex_digits k (n / 16) ++ (hex_digit (n % 16) ∷ [])

-- `str(uuid)`
unfoldable pub uuid_text : Uuid → List ℕ
unfolding hex_digits
uuid_text id =
    hex_digits 8 (id / 79228162514264337593543950336)
    ++ (b'-' ∷ hex_digits 4 (id / 1208925819614629174706176)
        ++ (b'-' ∷ hex_digits 4 (id / 18446744073709551616)
            ++ (b'-' ∷ hex_digits 4 (id / 281474976710656) ++ (b'-' ∷ hex_digits 12 id))))

-- `authorization.partition(" ")`: the part before the first space, and the part behind it.
abbrev pub partition_space : List ℕ → List ℕ × Option (List ℕ)
partition_space [] = ([], none)
partition_space (c ∷ cs) =
    let rest = partition_space cs in if c == b' ' then ([], some cs) else (c ∷ rest.0, rest.1)

-- `scheme.casefold()`, of which only the Latin letters matter to the comparison.
abbrev pub fold_letter : ℕ → ℕ
fold_letter c = if is_upper c then c + 32 else c

abbrev pub is_bearer : List ℕ → Bool
is_bearer scheme = map fold_letter scheme == codes "bearer"

abbrev pub invalid_capability : HttpError
invalid_capability = http 401 "invalid_capability"

-- The bearer token of an `Authorization` header.
abbrev pub token_or_refuse : List ℕ → Option (List ℕ) → Result HttpError (List ℕ)
token_or_refuse scheme none = err invalid_capability
token_or_refuse scheme (some token) =
    if not (is_bearer scheme) || is_empty token then err invalid_capability else ok token

unfoldable pub bearer_token : List ℕ → Result HttpError (List ℕ)
bearer_token header = token_or_refuse (partition_space header).0 (partition_space header).1

abbrev pub check_claims : List ℕ → Option CapabilityClaims → Result HttpError (Unit {0})
check_claims subject none = err invalid_capability
check_claims subject (some claims) =
    if claims.subject != subject then err (http 403 "capability_subject_mismatch") else ok tt

-- The first steps of every handler but those that create: the token, and that it was issued for the
-- run or the asset with this identifier.
unfoldable pub authorize :
    {Store : Type 0}
    → Server Store
    → Capability
    → Uuid
    → List ℕ
    → UtcDatetime
    → Result HttpError (Unit {0})
unfolding bearer_token
authorize server required id header now = elim (bearer_token header) [
  | err e ↦ err e
  | ok token ↦
      check_claims (uuid_text id) (verify server.codec server.tokens token required (utc now))
]

-- `except ProjectRunNotFoundError`; the other exceptions of a read pass on.
abbrev pub not_found : RepositoryError → HttpError
not_found State.run_not_found = http 404 "run_not_found"
not_found e = uncaught

abbrev pub conflict : HttpError
conflict = http 409 "invalid_run_state"

-- A response model that pydantic refuses is an exception.
abbrev pub respond : {A : Type 0} → Bool → A → Result HttpError A
respond c answer = if c then ok answer else err uncaught
