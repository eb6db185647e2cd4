-- ===== src/RateLimit.antt =====
-- src/api/rate_limit.rs: the sliding-window rate limiter with escalating cooloff.
--
-- Timestamps and durations are Unix seconds and count from 0; they stay below 2^63, so no `i64`
-- sum wraps. `limit` is a `u32` and `limit * 2` wraps as it does in a release build; a build with
-- overflow checks panics there. The `rate_limit_state` table is a keyed table. `Io` says whether the
-- mutex of the database is sound, and whether SQLite answers the read and the write.
mod Store
pub mod Window
pub mod Cooloff
pub mod Ladder
pub mod Keys
pub mod PeerCache
pub mod Middleware
mod Examples
use community_search.Base.{
  ℕ, suc, ◌+◌, ◌-◌, ◌*◌, ◌%◌, ◌^◌, min, Bool, true, false, ◌&&◌, Option, none, some, List, [], ◌∷◌,
  ◌++◌, Text, text, ltb, leb, if◌then◌else◌, length, get_elem?, drop, retain,
}
use community_search.Base.Table.{Table, lookup, insert, text_key}

-- What a rate-limit window is tracked against.
pub data RateLimitKey : Type 0 where
  ip : Text → RateLimitKey
  peer : Text → RateLimitKey

unfoldable pub storage_key : RateLimitKey → Text
storage_key (ip s) = text "ip:" ++ s
storage_key (peer s) = text "peer:" ++ s

pub record RateLimitConfig : Type 0 where
  pub limit : ℕ
  pub window_seconds : ℕ
  pub cooloff_ladder : List ℕ
  pub clean_period_seconds : ℕ

-- `RateLimitConfig::default`
abbrev pub default_config : RateLimitConfig
default_config = record {
  limit = 30;
  window_seconds = 60;
  cooloff_ladder = 60 ∷ 300 ∷ 3600 ∷ [];
  clean_period_seconds = 3600;
}

pub data Decision : Type 0 where
  allow : Decision
  cooloff : ℕ → Decision

pub record RateLimitState : Type 0 where
  pub request_log : List ℕ
  pub violations : ℕ
  pub cooloff_until : ℕ
  pub last_violation_at : ℕ

-- A row of `rate_limit_state`. The log is stored as JSON text; `none` is a text that does not
-- parse.
pub record Row : Type 0 where
  pub log_json : Option (List ℕ)
  pub violations : ℕ
  pub cooloff_until : ℕ
  pub last_violation_at : ℕ
  pub updated_at : ℕ

-- Whether the mutex is not poisoned, and whether SQLite answers the read and the write of one call.
pub record Io : Type 0 where
  pub locks : Bool
  pub reads : Bool
  pub writes : Bool

-- `Ok`, `Err` from SQLite, or a panic.
pub data Outcome (A : Type 0) : Type 0 where
  ok : A → Outcome A
  storage_error : Outcome A
  panic : Outcome A

abbrev pub fresh_state : RateLimitState
fresh_state = record { request_log = []; violations = 0; cooloff_until = 0; last_violation_at = 0 }

-- `serde_json::from_str(&log_json).unwrap_or_default()`
abbrev pub parsed_log : Option (List ℕ) → List ℕ
parsed_log none = []
parsed_log (some log) = log

abbrev pub from_row : Option Row → RateLimitState
from_row none = fresh_state
from_row (some r) = record {
  request_log = parsed_log r.log_json;
  violations = r.violations;
  cooloff_until = r.cooloff_until;
  last_violation_at = r.last_violation_at;
}

abbrev pub to_row : ℕ → RateLimitState → Row
to_row now s = record {
  log_json = some s.request_log;
  violations = s.violations;
  cooloff_until = s.cooloff_until;
  last_violation_at = s.last_violation_at;
  updated_at = now;
}

unfoldable pub load_state : Table Text Row → Text → RateLimitState
load_state db k = from_row (lookup k db)

unfoldable pub save_state : Table Text Row → Text → ℕ → RateLimitState → Table Text Row
save_state db k now s = insert k (to_row now s) db

-- The clean-period reset. `now - last_violation_at > clean_period_seconds`, without a subtraction.
unfoldable pub clean_reset : RateLimitConfig → ℕ → RateLimitState → RateLimitState
clean_reset cfg now s =
    if ltb 0 s.last_violation_at
      && ltb (s.last_violation_at + cfg.clean_period_seconds) now
      && leb s.cooloff_until now
    then record s { violations = 0 }
    else s

-- `retain(|&t| t > now - window_seconds)`, without a subtraction.
unfoldable pub prune : RateLimitConfig → ℕ → RateLimitState → RateLimitState
prune cfg now s = record s {
  request_log = retain (λ t. ltb now (t + cfg.window_seconds)) s.request_log;
}

-- A violation at rung `duration`.
unfoldable pub escalate : ℕ → ℕ → RateLimitState → RateLimitState
escalate now duration s = record s {
  violations = s.violations + 1;
  cooloff_until = now + duration;
  last_violation_at = now;
}

-- The rung is `ladder[min(violations, len - 1)]`. On an empty ladder the index is out of range,
-- and the program panics.
abbrev pub rung : RateLimitConfig → RateLimitState → Option ℕ
rung cfg s = get_elem? cfg.cooloff_ladder (min s.violations (length cfg.cooloff_ladder - 1))

abbrev pub violate : Option ℕ → ℕ → RateLimitState → Outcome (Decision × RateLimitState)
violate none now s = panic
violate (some duration) now s = ok (cooloff duration, escalate now duration s)

-- `push(now)`, and the cap of the log at `limit * 2` entries.
unfoldable pub record_request : RateLimitConfig → ℕ → RateLimitState → RateLimitState
record_request cfg now s =
    let log = s.request_log ++ now ∷ [] in
    let cap = cfg.limit * 2 % 2 ^ 32 in
    record s { request_log = if ltb cap (length log) then drop (length log - cap) log else log }

-- The rate check, after the log is pruned.
unfoldable pub rate_check :
    RateLimitConfig → ℕ → RateLimitState → Outcome (Decision × RateLimitState)
rate_check cfg now s =
    if leb cfg.limit (length s.request_log)
    then violate (rung cfg s) now s
    else ok (allow, record_request cfg now s)

-- All of the decision that lies between the read and the write of the row.
unfoldable pub decide : RateLimitConfig → ℕ → RateLimitState → Outcome (Decision × RateLimitState)
decide cfg now loaded =
    let s = clean_reset cfg now loaded in
    if ltb now s.cooloff_until
    then ok (cooloff (s.cooloff_until - now), s)
    else rate_check cfg now (prune cfg now s)

abbrev pub persist :
    Io
    → Table Text Row
    → Text
    → ℕ
    → Outcome (Decision × RateLimitState)
    → Outcome Decision × Table Text Row
persist io db k now (ok (d, s)) =
    if io.writes then (ok d, save_state db k now s) else (storage_error, db)
persist io db k now storage_error = (storage_error, db)
persist io db k now panic = (panic, db)

-- Checks the limit of `key`, records the attempt, and writes the row back.
unfoldable pub check_and_record_key :
    Io → Table Text Row → RateLimitKey → ℕ → RateLimitConfig → Outcome Decision × Table Text Row
check_and_record_key io db key now cfg =
    if io.locks
    then (if io.reads
        then persist io db (storage_key key) now (decide cfg now (load_state db (storage_key key)))
        else (storage_error, db))
    else (panic, db)

unfoldable pub check_and_record :
    Io → Table Text Row → Text → ℕ → RateLimitConfig → Outcome Decision × Table Text Row
check_and_record io db client now cfg = check_and_record_key io db (ip client) now cfg
