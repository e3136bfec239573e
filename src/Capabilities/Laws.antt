-- ===== src/Capabilities/Laws.antt =====
-- A token that was issued is accepted for what it allows, and nothing else is.
use cultureshift.Base.{
  ℕ, ◌+◌, ◌*◌, ◌<◌, ◌≤◌, string_eq, nat_eq, codes_eq, Bool, true, false, List, [], ◌∷◌, ◌++◌, map,
  Option, none, some, contains, all, ◌≡◌, refl, ap, ◌∙◌, arith, if◌then◌else◌,
}
use cultureshift.Base.Result.{ok}
use cultureshift.Domain.{Datetime, utc, is_aware}
use cultureshift.Capabilities.{
  Capability, capability_eq, CapabilityClaims, Payload, Codec, CapabilityTokenService, issue,
  verify, value, sorted_capabilities, read_capabilities, split_token, is_ascii, signature,
  payload_for, timestamp, last_second, verify_parts, read_payload, admitted, load_payload,
}
use cultureshift.Capabilities.Base64.{encode, decode}
use cultureshift.Capabilities.Trips.{are_bytes, is_plain, encode-is_plain, decode-encode}

split_token-plain :
    (cs ds : List ℕ) → all is_plain cs ≡ true → split_token (cs ++ (b'.' ∷ ds)) ≡ some (cs, ds)
split_token-plain [] ds h = ground arith
split_token-plain (c ∷ cs) ds h = ground (arith, split_token-plain cs ds)

is_ascii-plain : (cs : List ℕ) → all is_plain cs ≡ true → is_ascii cs ≡ true
is_ascii-plain [] h = refl
is_ascii-plain (c ∷ cs) h = ground (arith, is_ascii-plain cs)

-- A text that splits is its two parts around a full stop.
abbrev pub IsSplit : List ℕ → Option (List ℕ × List ℕ) → Type 0
IsSplit cs none = Unit
IsSplit cs (some p) = cs ≡ p.0 ++ (b'.' ∷ p.1)

split_token-IsSplit : (cs : List ℕ) → IsSplit cs (split_token cs)
split_token-IsSplit [] = tt
split_token-IsSplit (c ∷ cs) = ground (arith, split_token-IsSplit cs)

read_capabilities-value :
    (caps : List Capability)
    → read_capabilities (map value (sorted_capabilities caps)) ≡ some (sorted_capabilities caps)
unfolding string_eq
read_capabilities-value caps = ground arith

contains-sorted :
    (caps : List Capability) (c : Capability)
    → contains (sorted_capabilities caps) c ≡ contains caps c
unfolding capability_eq
contains-sorted caps Capability.read_project_run = ground arith
contains-sorted caps Capability.analyze_project_run = ground arith
contains-sorted caps Capability.update_project_run = ground arith
contains-sorted caps Capability.delete_asset = ground arith

-- The claims of a payload that `issue` wrote.
abbrev pub claims_for : CapabilityTokenService → List ℕ → List Capability → ℕ → ℕ → CapabilityClaims
claims_for service subject caps ttl now = record {
  subject = subject;
  audience = service.audience;
  capabilities = sorted_capabilities caps;
  issued_at = utc (timestamp now * 1000000);
  expires_at = utc (timestamp (now + ttl) * 1000000);
}

module _ (codec : Codec) (service : CapabilityTokenService) where
  abbrev encoded_for : List ℕ → List Capability → ℕ → ℕ → List ℕ
  encoded_for subject caps ttl now =
      encode (codec.dumps (payload_for codec service subject caps ttl now))

  pub issue-eq :
      (subject : List ℕ) (caps : List Capability) (ttl : ℕ) (now : Datetime) (token : List ℕ)
      → issue codec service subject caps ttl now ≡ ok token
      → (token
          ≡ encoded_for subject caps ttl now.instant
            ++ (b'.' ∷ signature codec service (encoded_for subject caps ttl now.instant)))
        × (timestamp (now.instant + ttl) ≤ last_second)
  unfolding issue
  issue-eq subject caps ttl now token h = ground arith

  admitted_lem :
      (subject : List ℕ) (caps : List Capability) (ttl now : ℕ) (required : Capability)
      (later : Datetime)
      → timestamp (now + ttl) ≤ last_second
      → contains caps required ≡ true
      → is_aware later ≡ true
      → timestamp later.instant < timestamp (now + ttl)
      → admitted codec service required later
          (payload_for codec service subject caps ttl now)
          (sorted_capabilities caps)
        ≡ some (claims_for service subject caps ttl now)
  admitted_lem subject caps ttl now required later h k l m =
      rw (l, contains-sorted caps required, k) (ground arith)

  verify-split :
      (token encoded supplied : List ℕ) (required : Capability) (now : Datetime)
      → split_token token ≡ some (encoded, supplied)
      → verify codec service token required now
        ≡ verify_parts codec service required now encoded supplied
  unfolding verify
  verify-split token encoded supplied required now h = ground arith

  verify_parts-signed :
      (required : Capability) (now : Datetime) (bytes encoded : List ℕ) (p : Payload)
      (caps : List Capability)
      → is_ascii encoded ≡ true
      → decode encoded ≡ some bytes
      → codec.loads bytes ≡ some p
      → read_capabilities p.cap ≡ some caps
      → verify_parts codec service required now encoded (signature codec service encoded)
        ≡ admitted codec service required now p caps
  verify_parts-signed required now bytes encoded p caps h k l m = ground arith

  -- When the JSON text of its payload is bytes and reads back as the payload, and a token was issued for
  -- some capabilities, `verify` accepts it for each of these at any time before the second in which
  -- it expires, and gives the subject, the audience, the set of capabilities, and the times cut to
  -- seconds.
  pub verify-issue :
      (subject : List ℕ) (caps : List Capability) (ttl : ℕ) (now : Datetime) (token : List ℕ)
      (required : Capability) (later : Datetime)
      → (let p = payload_for codec service subject caps ttl now.instant in
          codec.loads (codec.dumps p) ≡ some p)
      → are_bytes (codec.dumps (payload_for codec service subject caps ttl now.instant)) ≡ true
      → issue codec service subject caps ttl now ≡ ok token
      → contains caps required ≡ true
      → is_aware later ≡ true
      → timestamp later.instant < timestamp (now.instant + ttl)
      → verify codec service token required later
        ≡ some (claims_for service subject caps ttl now.instant)
  verify-issue subject caps ttl now token required later reads bytes issued has aware early =
      let p = payload_for codec service subject caps ttl now.instant in
      let text = codec.dumps p in
      let plain = encode-is_plain text in
      rw ((issue-eq subject caps ttl now token issued).0) (
        verify-split _ (encode text) (signature codec service (encode text)) required later
          (split_token-plain (encode text) (signature codec service (encode text)) plain)
        ∙ verify_parts-signed required later text (encode text) p (sorted_capabilities caps)
            (is_ascii-plain (encode text) plain) (decode-encode text bytes) reads
            (read_capabilities-value caps)
        ∙ admitted_lem subject caps ttl now.instant required later
            (issue-eq subject caps ttl now token issued).1 has aware early)

  -- The token is a text with its signature under the secret of the service.
  abbrev pub IsSigned : List ℕ → Type 0
  IsSigned token =
      (encoded : List ℕ) × (token ≡ encoded ++ (b'.' ∷ signature codec service encoded))

  -- Claims that allow an action now.
  abbrev pub Allows : Capability → Datetime → CapabilityClaims → Type 0
  Allows required now claims =
      (claims.audience ≡ service.audience)
      × (contains claims.capabilities required ≡ true)
      × (now.instant < claims.expires_at.instant)

  abbrev IsAllowed : Capability → Datetime → Option CapabilityClaims → Type 0
  IsAllowed required now none = Unit
  IsAllowed required now (some claims) = Allows required now claims

  admitted-IsAllowed :
      (required : Capability) (now : Datetime) (p : Payload) (caps : List Capability)
      → IsAllowed required now (admitted codec service required now p caps)
  admitted-IsAllowed required now p caps = ground arith

  read_payload-IsAllowed :
      (required : Capability) (now : Datetime) (r : Option Payload)
      → IsAllowed required now (read_payload codec service required now r)
  read_payload-IsAllowed required now none = tt
  read_payload-IsAllowed required now (some p) = after (read_capabilities p.cap)
    where
      after :
          (r : Option (List Capability))
          → IsAllowed required now (elim r as (λ _. Option CapabilityClaims) [
            | none ↦ none
            | some caps ↦ admitted codec service required now p caps
          ])
      after none = tt
      after (some caps) = admitted-IsAllowed required now p caps

  if-IsAllowed :
      (required : Capability) (now : Datetime) (c : Bool) (r : Option CapabilityClaims)
      → IsAllowed required now r
      → IsAllowed required now (if c then none else r)
  if-IsAllowed required now true r h = tt
  if-IsAllowed required now false r h = h

  verify_parts-IsAllowed :
      (required : Capability) (now : Datetime) (encoded supplied : List ℕ)
      → IsAllowed required now (verify_parts codec service required now encoded supplied)
  verify_parts-IsAllowed required now encoded supplied =
      if-IsAllowed required now _ _
        (read_payload-IsAllowed required now (load_payload codec service (decode encoded)))

  verify_parts-signature :
      (required : Capability) (now : Datetime) (encoded supplied : List ℕ)
      (claims : CapabilityClaims)
      → verify_parts codec service required now encoded supplied ≡ some claims
      → supplied ≡ signature codec service encoded
  verify_parts-signature required now encoded supplied claims h = ground arith

  IsAllowed-some :
      (required : Capability) (now : Datetime) (r : Option CapabilityClaims)
      (claims : CapabilityClaims)
      → IsAllowed required now r
      → r ≡ some claims
      → Allows required now claims
  IsAllowed-some required now none claims h e = cc
  IsAllowed-some required now (some c) claims h e = ground arith

  split-Allows :
      (token : List ℕ) (required : Capability) (now : Datetime) (claims : CapabilityClaims)
      (r : Option (List ℕ × List ℕ))
      → IsSplit token r
      → (elim r as (λ _. Option CapabilityClaims) [
        | none ↦ none
        | some parts ↦ verify_parts codec service required now parts.0 parts.1
      ])
        ≡ some claims
      → IsSigned token × Allows required now claims
  split-Allows token required now claims none i h = cc
  split-Allows token required now claims (some (encoded, supplied)) i h = (
    (
      encoded,
      i
          ∙ ap (λ s. encoded ++ (b'.' ∷ s))
              (verify_parts-signature required now encoded supplied claims h),
    ),
    IsAllowed-some required now _ claims (verify_parts-IsAllowed required now encoded supplied) h,
  )

  -- `verify` accepts a token only if it is a text with its signature under the secret of the service,
  -- and only with claims for the service's audience that hold the required capability and have not
  -- expired.
  pub verify-Allows :
      (token : List ℕ) (required : Capability) (now : Datetime) (claims : CapabilityClaims)
      → verify codec service token required now ≡ some claims
      → IsSigned token × Allows required now claims
  unfolding verify
  verify-Allows token required now claims h =
      split-Allows token required now claims (split_token token) (split_token-IsSplit token) h
