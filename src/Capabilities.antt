-- ===== src/Capabilities.antt =====
-- cultureshift/capability_tokens.py: signed tokens that let their holder act on one run or asset. Text
-- and bytes are lists of numbers. JSON and HMAC are parameters; base64 is written out.
pub mod Base64
pub mod Trips
pub mod Laws
use cultureshift.Base.{
  ℕ, ◌+◌, ◌*◌, ◌/◌, String, string_eq, nat_eq, codes_eq, Bool, true, false, not, ◌&&◌, ◌||◌, List,
  [], ◌∷◌, ◌++◌, map, Option, none, some, Eq, ◌==◌, ◌!=◌, leb, ltb, length, contains, is_empty, all,
  if◌then◌else◌,
}
use cultureshift.Base.Result.{Result, ok, err}
use cultureshift.Domain.{Datetime, utc, is_aware}
use cultureshift.Capabilities.Base64.{encode, decode}

pub data Capability : Type 0 where
  read_project_run analyze_project_run update_project_run delete_asset : Capability

unfoldable pub Capability-discrete : Discrete Capability
Capability-discrete = hlevel

instance unfoldable pub capability_eq : Eq Capability
unfolding Capability-discrete
capability_eq = record { dec = Capability-discrete }

-- `capability.value`
abbrev pub value : Capability → String
value read_project_run = "project_run:read"
value analyze_project_run = "project_run:analyze"
value update_project_run = "project_run:update"
value delete_asset = "asset:delete"

-- `Capability(value)`
abbrev pub of_value : String → Option Capability
of_value s =
    if s == "project_run:read"
    then some read_project_run
    else if s == "project_run:analyze"
    then some analyze_project_run
    else if s == "project_run:update"
    then some update_project_run
    else if s == "asset:delete"
    then some delete_asset
    else none

-- `audience` is a text of the service; `subject` names a run or an asset.
pub record CapabilityClaims : Type 0 where
  pub subject : List ℕ
  pub audience : String
  pub capabilities : List Capability
  pub issued_at : Datetime
  pub expires_at : Datetime

-- What `issue` writes and `verify` reads, with times in seconds.
pub record Payload : Type 0 where
  pub aud : String
  pub cap : List String
  pub exp : ℕ
  pub iat : ℕ
  pub sub : List ℕ
  pub v : ℕ

-- The JSON text of a payload, the payload of a text that has the members and their types, and
-- HMAC-SHA256 under a secret.
pub record Codec : Type 0 where
  pub dumps : Payload → List ℕ
  pub loads : List ℕ → Option Payload
  pub hmac_digest : List ℕ → List ℕ → List ℕ

pub record CapabilityTokenService : Type 0 where
  pub secret : List ℕ
  pub audience : String

-- The `ValueError`s of this file; `overflow` is a date past the year 9999.
pub data TokenError : Type 0 where
  short_secret audience_required subject_required ttl_not_positive naive_time overflow : TokenError

unfoldable pub new_service : List ℕ → String → Result TokenError CapabilityTokenService
new_service secret audience =
    if ltb (length secret) 32
    then err short_secret
    else if audience == ""
    then err audience_required
    else ok (record { secret = secret; audience = audience })

-- The last second of the year 9999.
abbrev pub last_second : ℕ
last_second = 253402300799

-- `int(value.timestamp())`
abbrev pub timestamp : ℕ → ℕ
timestamp instant = instant / 1000000

-- `datetime.fromtimestamp(seconds, UTC)`
abbrev pub from_timestamp : ℕ → Option Datetime
from_timestamp seconds = if leb seconds last_second then some (utc (seconds * 1000000)) else none

-- Every capability, in the order of the values.
abbrev pub ordered : List Capability
ordered = delete_asset ∷ analyze_project_run ∷ read_project_run ∷ update_project_run ∷ []

abbrev pub members : List Capability → List Capability → List Capability
members caps [] = []
members caps (c ∷ cs) = if contains caps c then c ∷ members caps cs else members caps cs

-- `sorted(...)` of a set of capabilities.
abbrev pub sorted_capabilities : List Capability → List Capability
sorted_capabilities caps = members caps ordered

-- `frozenset(Capability(value) for value in values)`
abbrev pub read_capabilities : List String → Option (List Capability)
read_capabilities [] = some []
read_capabilities (s ∷ ss) = elim (of_value s) [
  | none ↦ none
  | some c ↦ elim (read_capabilities ss) [ none ↦ none | some cs ↦ some (c ∷ cs) ]
]

-- `token.split(".", maxsplit=1)`, which has to give two parts.
abbrev pub split_token : List ℕ → Option (List ℕ × List ℕ)
split_token [] = none
split_token (c ∷ cs) =
    let rest = split_token cs in
    if c == b'.' then some ([], cs) else elim rest [ none ↦ none | some p ↦ some (c ∷ p.0, p.1) ]

abbrev pub is_ascii : List ℕ → Bool
is_ascii cs = all (λ c. ltb c 128) cs

module _ (codec : Codec) (service : CapabilityTokenService) where
  abbrev pub signature : List ℕ → List ℕ
  signature encoded = encode (codec.hmac_digest service.secret encoded)

  abbrev pub payload_for : List ℕ → List Capability → ℕ → ℕ → Payload
  payload_for subject caps ttl now = record {
    aud = service.audience;
    cap = map value (sorted_capabilities caps);
    exp = timestamp (now + ttl);
    iat = timestamp now;
    sub = subject;
    v = 1;
  }

  -- `issue`; a `ttl` of 0 stands for every one that is not positive.
  unfoldable pub issue : List ℕ → List Capability → ℕ → Datetime → Result TokenError (List ℕ)
  issue subject caps ttl now =
      let encoded = encode (codec.dumps (payload_for subject caps ttl now.instant)) in
      if is_empty subject || is_empty caps
      then err subject_required
      else if leb ttl 0
      then err ttl_not_positive
      else if not (is_aware now)
      then err naive_time
      else if ltb last_second (timestamp (now.instant + ttl))
      then err overflow
      else ok (encoded ++ (b'.' ∷ signature encoded))

  -- The part of `verify` that follows the signature, on the capabilities that were read.
  abbrev pub admitted : Capability → Datetime → Payload → List Capability → Option CapabilityClaims
  admitted required now p caps =
      if not (is_aware now)
      then none
      else if p.v != 1 || p.aud != service.audience
      then none
      else if not (contains caps required) || leb p.exp (timestamp now.instant)
      then none
      else elim (from_timestamp p.iat) [
        | none ↦ none
        | some issued ↦ elim (from_timestamp p.exp) [
          | none ↦ none
          | some expires ↦ some (record {
            subject = p.sub;
            audience = p.aud;
            capabilities = caps;
            issued_at = issued;
            expires_at = expires;
          })
        ]
      ]

  abbrev pub read_payload : Capability → Datetime → Option Payload → Option CapabilityClaims
  read_payload required now none = none
  read_payload required now (some p) = elim (read_capabilities p.cap) [
    | none ↦ none
    | some caps ↦ admitted required now p caps
  ]

  abbrev pub load_payload : Option (List ℕ) → Option Payload
  load_payload none = none
  load_payload (some bytes) = codec.loads bytes

  abbrev pub verify_parts : Capability → Datetime → List ℕ → List ℕ → Option CapabilityClaims
  verify_parts required now encoded supplied =
      if not (is_ascii encoded) || supplied != signature encoded
      then none
      else read_payload required now (load_payload (decode encoded))

  -- `verify`; `none` is `CapabilityTokenError`.
  unfoldable pub verify : List ℕ → Capability → Datetime → Option CapabilityClaims
  verify token required now = elim (split_token token) [
    | none ↦ none
    | some parts ↦ verify_parts required now parts.0 parts.1
  ]
