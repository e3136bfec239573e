-- ===== src/Application/Tokens.antt =====
-- A token that was issued for a run opens the routes of that run, and of no other.
use cultureshift.Base.{
  ℕ, ◌+◌, ◌<◌, codes_eq, nat_eq, some, true, false, List, [], ◌∷◌, ◌++◌, is_empty, contains, ◌≡◌,
  refl, ap, ◌∙◌, arith, ◌!=◌, if◌then◌else◌,
}
use cultureshift.Base.Result.{ok, err}
use cultureshift.Domain.{Uuid, utc, Datetime}
use cultureshift.Contracts.{UtcDatetime}
use cultureshift.Capabilities.{Capability, capability_eq, issue, verify, timestamp, payload_for}
use cultureshift.Capabilities.Base64.{encode}
use cultureshift.Capabilities.Trips.{are_bytes}
use cultureshift.Capabilities.Laws.{verify-issue, issue-eq}
use cultureshift.Application.{http, Server, authorize, bearer_token, uuid_text, check_claims}

abbrev pub bearer_header : List ℕ → List ℕ
bearer_header token = b'B' ∷ b'e' ∷ b'a' ∷ b'r' ∷ b'e' ∷ b'r' ∷ b' ' ∷ token

bearer_token-header :
    (token : List ℕ) → is_empty token ≡ false → bearer_token (bearer_header token) ≡ ok token
unfolding bearer_token nat_eq codes_eq
bearer_token-header token h = ground arith

pub is_empty-append : (xs : List ℕ) (y : ℕ) (ys : List ℕ) → is_empty (xs ++ (y ∷ ys)) ≡ false
is_empty-append [] y ys = refl
is_empty-append (x ∷ xs) y ys = refl

module _ {Store : Type 0} (server : Server Store) where
  issue-filled :
      (subject : List ℕ) (caps : List Capability) (ttl : ℕ) (now : Datetime) (token : List ℕ)
      → issue server.codec server.tokens subject caps ttl now ≡ ok token
      → is_empty token ≡ false
  issue-filled subject caps ttl now token h =
      rw (issue-eq server.codec server.tokens subject caps ttl now token h).0
        (is_empty-append (encode (server.codec.dumps _)) b'.' _)

  authorize-bearer :
      (j : Uuid) (header token : List ℕ) (required : Capability) (now : UtcDatetime)
      → bearer_token header ≡ ok token
      → authorize server required j header now
        ≡ check_claims (uuid_text j) (verify server.codec server.tokens token required (utc now))
  unfolding authorize bearer_token
  authorize-bearer j header token required now h = ground arith

  -- When the JSON text of its payload is bytes and reads back as the payload: a token that was issued for
  -- one run with some capabilities, sent as a bearer token before it expires where one of these is
  -- required, is let through on the routes of every run whose identifier has the same text, and is
  -- answered 403 on the routes of any other.
  pub authorize-issue :
      (id j : Uuid) (caps : List Capability) (ttl : ℕ) (now : Datetime) (token : List ℕ)
      (required : Capability) (later : UtcDatetime)
      → (let p = payload_for server.codec server.tokens (uuid_text id) caps ttl now.instant in
          server.codec.loads (server.codec.dumps p) ≡ some p)
      → (let p = payload_for server.codec server.tokens (uuid_text id) caps ttl now.instant in
          are_bytes (server.codec.dumps p) ≡ true)
      → issue server.codec server.tokens (uuid_text id) caps ttl now ≡ ok token
      → contains caps required ≡ true
      → timestamp later < timestamp (now.instant + ttl)
      → authorize server required j (bearer_header token) later ≡ (
          if uuid_text id != uuid_text j
          then err (http 403 "capability_subject_mismatch")
          else ok tt)
  authorize-issue id j caps ttl now token required later reads bytes issued has early =
      authorize-bearer j (bearer_header token) token required later
        (bearer_token-header token (issue-filled (uuid_text id) caps ttl now token issued))
      ∙ ap (check_claims (uuid_text j)) (
          verify-issue server.codec server.tokens (uuid_text id) caps ttl now token required
            (utc later) reads bytes issued has refl early)
