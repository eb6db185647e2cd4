-- ===== src/Auth/Lockout.antt =====
-- src/api/auth.rs and src/api/auth_attempts.rs: the guesses that the lockout admits.
use community_search.Base.{
  ℕ, ◌+◌, ◌-◌, ◌*◌, ◌≤◌, ◌≡◌, refl, Bool, true, false, List, [], ◌∷◌, arith, Text, eq_text,
  if◌then◌else◌,
}
use community_search.Base.Table.{Table, lookup, lookup-insert, text_key}
use community_search.ClientIp.{client_ip}
use community_search.Auth.{
  Io, Row, Request, Response, unauthorized, AttemptState, max_failures, lockout_seconds, state_of,
  current_state, failed_row, record_failure, authorized, require_admin_token,
}

-- SQLite answers.
abbrev pub healthy : Io
healthy = record { reads = true; writes = true }

-- The requests come in the order of their times, from `n` on.
abbrev pub Ascending : ℕ → List Request → Type 0
Ascending n [] = Unit
Ascending n (r ∷ rs) = (n ≤ r.now) × Ascending r.now rs

-- No request presents the admin token.
abbrev pub AllWrong : Text → List Request → Type 0
AllWrong token [] = Unit
AllWrong token (r ∷ rs) = (authorized token r.authorization ≡ false) × AllWrong token rs

-- Whether a response rejects a token, counted if the request is of the address at hand.
abbrev rejected : Response → ℕ
rejected unauthorized = 1
rejected _ = 0

abbrev evaluated : Bool → Response → ℕ
evaluated mine response = if mine then rejected response else 0

-- How many tokens from `ip` the middleware compares and rejects, while requests from any addresses
-- come in.
unfoldable pub guesses : Text → Text → Table Text Row → List Request → ℕ
guesses token ip db [] = 0
guesses token ip db (r ∷ rs) =
    let res = require_admin_token healthy token db r in
    evaluated (eq_text (client_ip r.origin) ip) res.0 + guesses token ip res.1 rs

-- After `count` rejected tokens since `since`, the last of them not after `now`.
record Paced (since now count : ℕ) (s : AttemptState) : Type 0 where
  counted : s.failed_count ≡ count
  started : since ≤ now
  slow : lockout_seconds * count ≤ lockout_seconds * max_failures + (now - since)
  locked : max_failures ≤ count → since + lockout_seconds * (count - 4) ≤ s.lockout_until

pub current_state-failure :
    (db : Table Text Row) (ip j : Text) (now : ℕ)
    → current_state (record_failure db ip now) j
      ≡ (if eq_text ip j then (failed_row (lookup ip db) now).state else current_state db j)
unfolding current_state record_failure
current_state-failure db ip j now =
    ground (arith, lookup-insert ip j (failed_row (lookup ip db) now) db)

pub current_state_lem :
    (db : Table Text Row) (ip : Text) → current_state db ip ≡ state_of (lookup ip db)
unfolding current_state
current_state_lem db ip = refl

abbrev pub last_time : ℕ → List Request → ℕ
last_time n [] = n
last_time n (r ∷ rs) = last_time r.now rs
