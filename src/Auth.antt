-- ===== src/Auth.antt =====
-- src/api/auth_attempts.rs and src/api/auth.rs: the lockout of addresses that fail to present the
-- admin token, and the middleware that checks the token.
--
-- Timestamps are Unix seconds from 0, below 2^63. The `auth_attempts` table is a keyed table; `Io`
-- says whether SQLite answers the read and the write of a request.
pub mod Bearer
pub mod Lockout
pub mod Guard
mod Examples
use community_search.Base.{
  ℕ, ◌+◌, ◌-◌, ◌*◌, Bool, false, Option, none, some, Text, ltb, leb, if◌then◌else◌,
}
use community_search.Base.Table.{Table, lookup, insert, remove, text_key}
use community_search.ClientIp.{Origin, Header, missing, unreadable, readable, client_ip}
use Bearer.{extract_bearer, constant_time_eq}

-- MAX_FAILURES
abbrev pub max_failures : ℕ
max_failures = 5

-- LOCKOUT_SECONDS, 15 minutes
abbrev pub lockout_seconds : ℕ
lockout_seconds = 15 * 60

pub record AttemptState : Type 0 where
  pub failed_count : ℕ
  pub lockout_until : ℕ

-- A row of `auth_attempts`.
pub record Row : Type 0 where
  pub state : AttemptState
  pub last_attempt_at : ℕ

abbrev pub no_attempts : AttemptState
no_attempts = record { failed_count = 0; lockout_until = 0 }

pub record Io : Type 0 where
  pub reads : Bool
  pub writes : Bool

abbrev state_of : Option Row → AttemptState
state_of none = no_attempts
state_of (some r) = r.state

unfoldable pub current_state : Table Text Row → Text → AttemptState
current_state db ip = state_of (lookup ip db)

-- The row that the UPSERT of `record_failure` leaves, over the one that it finds.
abbrev failed_row : Option Row → ℕ → Row
failed_row none now = record {
  state = record {
    failed_count = 1;
    lockout_until = if leb max_failures 1 then now + lockout_seconds else 0;
  };
  last_attempt_at = now;
}
failed_row (some r) now = record {
  state = record {
    failed_count = r.state.failed_count + 1;
    lockout_until =
        if leb max_failures (r.state.failed_count + 1)
        then now + lockout_seconds
        else r.state.lockout_until;
  };
  last_attempt_at = now;
}

unfoldable pub record_failure : Table Text Row → Text → ℕ → Table Text Row
record_failure db ip now = insert ip (failed_row (lookup ip db) now) db

unfoldable pub record_success : Table Text Row → Text → Table Text Row
record_success db ip = remove ip db

-- 429 with its `Retry-After` seconds, the next handler's response, or 401.
pub data Response : Type 0 where
  too_many_requests : ℕ → Response
  forwarded : Response
  unauthorized : Response

-- Whether the `Authorization` header presents the admin token.
abbrev presents : Text → Option Text → Bool
presents admin_token none = false
presents admin_token (some token) = constant_time_eq token admin_token

abbrev pub bearer_of : Header → Option Text
bearer_of missing = none
bearer_of unreadable = none
bearer_of (readable s) = extract_bearer s

unfoldable pub authorized : Text → Header → Bool
authorized admin_token authorization = presents admin_token (bearer_of authorization)

-- What a request brings: where it comes from, its `Authorization` header, and when it comes.
pub record Request : Type 0 where
  pub origin : Origin
  pub authorization : Header
  pub now : ℕ

-- A read that SQLite refuses counts as no attempts; a write that it refuses is dropped.
unfoldable pub require_admin_token :
    Io → Text → Table Text Row → Request → Response × Table Text Row
require_admin_token io admin_token db req =
    let ip = client_ip req.origin in
    let attempts = if io.reads then current_state db ip else no_attempts in
    if ltb req.now attempts.lockout_until
    then (too_many_requests (attempts.lockout_until - req.now), db)
    else if authorized admin_token req.authorization
    then (forwarded, if io.writes then record_success db ip else db)
    else (unauthorized, if io.writes then record_failure db ip req.now else db)
