-- ===== src/Auth/Examples.antt =====
-- src/api/auth.rs and src/api/auth_attempts.rs: runs of the middleware, and its theorems at concrete
-- inputs.
use community_search.Base.{
  ℕ, ◌≡◌, refl, true, false, true, some, List, [], ◌∷◌, Text, text, eq_text, arith,
}
use community_search.Base.Table.{Table, lookup, insert}
use community_search.ClientIp.{Origin, missing, readable, client_ip, trim}
use community_search.Auth.{
  Row, Request, forwarded, unauthorized, no_attempts, current_state, record_failure, authorized,
  require_admin_token, bearer_of,
}
use community_search.Auth.Bearer.{extract_bearer, constant_time_eq, diff_bytes}
use community_search.Auth.Lockout.{healthy, guesses}
use community_search.Auth.Guard.{forwarded_iff, fifth_failure_locks, success_resets}

abbrev secret : Text
secret = text "s3cret"

abbrev home : Origin
home = record { forwarded_for = missing; connect_info = some (text "10.0.0.1") }

abbrev right : ℕ → Request
right now = record { origin = home; authorization = readable (text "bearer  s3cret "); now = now }

abbrev wrong : ℕ → Request
wrong now = record { origin = home; authorization = readable (text "Bearer guess"); now = now }

abbrev attack : List Request
attack =
    wrong 10 ∷ wrong 10 ∷ wrong 11 ∷ wrong 12 ∷ wrong 13 ∷ wrong 14 ∷ wrong 913 ∷ wrong 914 ∷ []

-- Five guesses, a lockout, one guess after it, and the next lockout.
guesses_run : guesses secret (text "10.0.0.1") [] attack ≡ 6
unfolding guesses require_admin_token client_ip current_state record_failure authorized
    extract_bearer constant_time_eq diff_bytes lookup insert eq_text
guesses_run = refl

-- The address failed four times.
abbrev four_failures : Table Text Row
four_failures =
    (
      text "10.0.0.1",
      record { state = record { failed_count = 4; lockout_until = 0 }; last_attempt_at = 12 },
    )
    ∷ []

right_passes : (require_admin_token healthy secret four_failures (right 13)).0 ≡ forwarded
unfolding require_admin_token client_ip current_state authorized extract_bearer constant_time_eq
    diff_bytes lookup eq_text trim
right_passes = refl

forwarded_iff_example : bearer_of (readable (text "bearer  s3cret ")) ≡ some secret
unfolding extract_bearer trim
forwarded_iff_example =
    ((forwarded_iff true secret four_failures (right 13) (omega arith) (omega arith)).0
      right_passes).1

fifth_failure_locks_example :
    (require_admin_token healthy secret four_failures (wrong 13)).0 ≡ unauthorized
unfolding current_state client_ip lookup eq_text authorized extract_bearer constant_time_eq
    diff_bytes trim
fifth_failure_locks_example =
    (fifth_failure_locks secret four_failures (wrong 13)
      (record { writes = true; request = right 20 }
        ∷ record { writes = false; request = wrong 30 }
        ∷ [])
      (record { writes = true; request = right 100 }) (omega arith) (omega arith) refl (omega arith)
      refl (omega arith)).0

success_resets_example :
    current_state (require_admin_token healthy secret four_failures (right 13)).1 (text "10.0.0.1")
    ≡ no_attempts
unfolding client_ip eq_text
success_resets_example =
    success_resets secret four_failures (right 13) (text "10.0.0.1") right_passes
