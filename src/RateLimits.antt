-- ===== src/RateLimits.antt =====
-- cultureshift/rate_limits.py: a fixed-window rate limiter. The lock makes each call one step.
pub mod Bounds
use cultureshift.Base.{
  ℕ, ◌+◌, String, Bool, true, false, ◌||◌, Option, none, some, ◌==◌, string_eq, leb, is_empty,
  codes, if◌then◌else◌,
}
use cultureshift.Base.Result.{Result, ok, err}
use cultureshift.Domain.{Datetime, is_aware}

-- `_entries`: the start of the window of a key and the calls allowed in it.
pub record Limiter : Type 0 where
  pub limit : ℕ
  pub window : ℕ
  pub entries : String → Option (ℕ × ℕ)

pub data LimiterError : Type 0 where
  not_positive key_required naive_time : LimiterError

-- `FixedWindowRateLimiter(limit, window)`; a window of 0 stands for every one that is not positive.
unfoldable pub new_limiter : ℕ → ℕ → Result LimiterError Limiter
new_limiter limit window =
    if not_one limit || not_one window
    then err not_positive
    else ok (record { limit = limit; window = window; entries = λ k. none })
  where
    not_one : ℕ → Bool
    not_one n = leb n 0

abbrev entry_or : ℕ → Option (ℕ × ℕ) → ℕ × ℕ
entry_or now none = (now, 0)
entry_or now (some e) = e

-- A window that has passed starts anew.
abbrev pub current_entry : ℕ → ℕ → ℕ × ℕ → ℕ × ℕ
current_entry window now (start, count) =
    if leb (start + window) now then (now, 0) else (start, count)

abbrev write_entry : String → ℕ × ℕ → Limiter → Limiter
write_entry key e l = record l { entries = λ k. if k == key then some e else l.entries k }

-- `allow` after its two checks.
unfoldable pub admit : String → ℕ → Limiter → Bool × Limiter
admit key now l =
    let (start, count) = current_entry l.window now (entry_or now (l.entries key)) in
    if leb l.limit count then (false, l) else (true, write_entry key (start, count + 1) l)

unfoldable pub allow : String → Datetime → Limiter → Result LimiterError Bool × Limiter
unfolding admit
allow key now l =
    if is_empty (codes key)
    then (err key_required, l)
    else if is_aware now
    then (let (allowed, l') = admit key now.instant l in (ok allowed, l'))
    else (err naive_time, l)
