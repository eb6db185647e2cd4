-- ===== src/RateLimit/Examples.antt =====
-- src/api/rate_limit.rs: runs of the limiter, and its theorems at concrete inputs. The numbers are
-- those of the source's unit tests.
use community_search.Base.{
  ℕ, ◌≤◌, ◌+◌, ◌↔◌, sym, false, ◌≡◌, refl, true, Option, none, some, List, [], ◌∷◌, Text, text,
  eq_text, arith, count_if,
}
use community_search.Base.Table.{Table, lookup, insert}
use community_search.ClientIp.{Origin, missing, readable, client_ip}
use community_search.RateLimit.{
  RateLimitConfig, RateLimitKey, RateLimitState, ip, peer, allow, cooloff, ok, panic, Row,
  fresh_state, default_config, decide, check_and_record, check_and_record_key, load_state,
  save_state, storage_key, clean_reset, prune, rate_check, escalate, record_request,
}
use community_search.RateLimit.Window.{Request, inside, history, history-le-limit}
use community_search.RateLimit.Cooloff.{healthy, cooloff_holds, allows_again}
use community_search.RateLimit.Keys.{keys_independent}
use community_search.RateLimit.Ladder.{
  Allowed, start, more, rung_at, check_panics_iff, second_violation-IsNext,
}
use community_search.RateLimit.PeerCache.{PeerIpCache, PeerUrl, contains, is_stale, is_peer_ip}
use community_search.RateLimit.Middleware.{
  AppState, Moment, too_many_requests, require_rate_limit, Visit, visit, visits, refusal_holds,
}

-- `small_cfg` of the tests.
abbrev small_cfg : RateLimitConfig
small_cfg = record default_config { limit = 3 }

abbrev alice : RateLimitKey
alice = ip (text "1.2.3.4")

abbrev bob : RateLimitKey
bob = peer (text "1.2.3.4")

abbrev call : ℕ → Request
call now = record { io = healthy; key = alice; now = now }

abbrev calls : List Request
calls = call 1000 ∷ call 1000 ∷ call 1001 ∷ call 1002 ∷ call 1062 ∷ call 1063 ∷ []

-- The fourth call violates the limit, and the cooloff of 60 seconds lets the sixth through only after
-- the window has moved on.
history_example : history small_cfg alice [] [] calls ≡ 1063 ∷ 1062 ∷ 1001 ∷ 1000 ∷ 1000 ∷ []
unfolding history check_and_record_key load_state save_state storage_key decide clean_reset prune
    rate_check escalate record_request lookup insert eq_text
history_example = refl

history-le-limit_example :
    count_if (inside small_cfg 1000) (history small_cfg alice [] [] calls) ≤ 3
history-le-limit_example = history-le-limit small_cfg (omega arith) alice calls 1000 (omega arith)

-- A full log at time 1000.
abbrev full_row : Row
full_row = record {
  log_json = some (1000 ∷ 1000 ∷ 1000 ∷ []);
  violations = 0;
  cooloff_until = 0;
  last_violation_at = 0;
  updated_at = 1000;
}

abbrev full_db : Table Text Row
full_db = (text "ip:1.2.3.4", full_row) ∷ []

full_violates : (check_and_record_key healthy full_db alice 1001 small_cfg).0 ≡ ok (cooloff 60)
unfolding check_and_record_key load_state save_state storage_key decide clean_reset prune rate_check
    escalate record_request lookup insert eq_text
full_violates = refl

cooloff_holds_example :
    (check_and_record_key healthy
      (check_and_record_key healthy full_db alice 1001 small_cfg).1
      alice
      1060
      default_config).0
    ≡ ok (cooloff 1)
cooloff_holds_example =
    cooloff_holds full_db alice 1001 60 1060 small_cfg default_config full_violates (omega arith)

allows_again_example : (check_and_record_key healthy full_db alice 1060 small_cfg).0 ≡ ok allow
allows_again_example =
    allows_again full_db alice 1060 small_cfg (omega arith)
      (unfold load_state storage_key lookup eq_text in omega arith)
      (unfold load_state storage_key lookup eq_text in omega arith)

keys_independent_example :
    (check_and_record_key healthy
      (check_and_record_key healthy full_db alice 1001 small_cfg).1
      bob
      1002
      small_cfg).0
    ≡ (check_and_record_key healthy full_db bob 1002 small_cfg).0
keys_independent_example =
    keys_independent healthy healthy full_db alice bob 1001 1002 small_cfg small_cfg (λ e. cc)

check_panics_iff_example :
    ((check_and_record_key healthy full_db alice 1001 small_cfg).0 ≡ panic) ↔ (true ≡ false)
check_panics_iff_example = check_panics_iff healthy full_db alice 1001 small_cfg (omega arith)

abbrev full_state : RateLimitState
full_state = record fresh_state { request_log = 1000 ∷ 1000 ∷ 1000 ∷ [] }

abbrev first_violation : RateLimitState
first_violation = record full_state {
  violations = 1;
  cooloff_until = 1061;
  last_violation_at = 1001;
}

abbrev full_again : RateLimitState
full_again = record first_violation { request_log = 1061 ∷ 1061 ∷ 1061 ∷ [] }

first_decision : decide small_cfg 1001 full_state ≡ ok (cooloff 60, first_violation)
unfolding decide clean_reset prune rate_check escalate
first_decision = refl

second_decision :
    decide small_cfg 1061 full_again
    ≡ ok (
      cooloff 300,
      record full_again { violations = 2; cooloff_until = 1361; last_violation_at = 1061 },
    )
unfolding decide clean_reset prune rate_check escalate
second_decision = refl

-- Three allowed calls after the first violation fill the log again.
refilled : Allowed small_cfg 1061 first_violation full_again
unfolding decide clean_reset prune rate_check escalate record_request
refilled =
    more 1061 (more 1061 (more 1061 start (omega arith) refl) (omega arith) refl) (omega arith) refl

second_violation-IsNext_example :
    let before = (clean_reset small_cfg 1001 full_state).violations in
    (rung_at small_cfg before ≡ some 60)
    × (rung_at small_cfg (before + 1) ≡ some 300)
    × (2 ≡ before + 2)
second_violation-IsNext_example =
    second_violation-IsNext small_cfg 1001 1061 60 300 full_state first_violation full_again
      (record full_again { violations = 2; cooloff_until = 1361; last_violation_at = 1061 })
      (omega arith) first_decision refilled (omega arith) (omega arith) second_decision

-- A peer cache that was filled at instant 0 has gone stale after the TTL of 300 seconds.
abbrev old_cache : PeerIpCache
old_cache = record { hosts = text "old.example" ∷ []; last_refreshed_at = some 0 }

abbrev at_new_example : Text → Option Text
at_new_example url = some (text "new.example")

abbrev one_peer : List PeerUrl
one_peer = record { url = text "https://new.example"; enabled = true } ∷ []

abbrev late : ℕ
late = 300000000001

abbrev full_app : AppState
full_app = record {
  db = full_db;
  node_peers = some one_peer;
  rate_limit_config = small_cfg;
  peer_rate_limit_config = default_config;
  peer_ip_cache = old_cache;
}

abbrev moment : ℕ → Moment
moment t = record { unix_now = t; instant = 0 }

abbrev direct : Origin
direct = record { forwarded_for = missing; connect_info = some (text "1.2.3.4") }

abbrev proxied : Origin
proxied = record { forwarded_for = readable (text " 1.2.3.4 , 9.9.9.9"); connect_info = none }

same_client : client_ip direct ≡ client_ip proxied
unfolding client_ip
same_client = refl

first_refused :
    (require_rate_limit at_new_example full_app healthy (moment 1001) direct).0
    ≡ too_many_requests 60
unfolding require_rate_limit check_and_record check_and_record_key load_state save_state storage_key
    decide clean_reset prune rate_check escalate record_request lookup insert eq_text is_peer_ip
    is_stale contains client_ip
first_refused = refl

-- Other addresses come in between, one while the database does not answer; then the first again,
-- whose rows of peers and limits have changed.
abbrev between : List Visit
between =
    record {
      io = healthy;
      moment = moment 1010;
      origin = record { forwarded_for = missing; connect_info = some (text "8.8.8.8") };
      node_peers = some [];
      anonymous = small_cfg;
      peers = small_cfg;
    }
    ∷ record {
      io = record healthy { writes = false };
      moment = moment 1020;
      origin = direct;
      node_peers = none;
      anonymous = default_config;
      peers = default_config;
    }
    ∷ []

abbrev last_visit : Visit
last_visit = record {
  io = healthy;
  moment = moment 1060;
  origin = proxied;
  node_peers = some [];
  anonymous = default_config;
  peers = default_config;
}

refusal_holds_example :
    (visit at_new_example last_visit (
      visits at_new_example between
        (require_rate_limit at_new_example full_app healthy (moment 1001) direct).1)).0
    ≡ too_many_requests 1
refusal_holds_example =
    refusal_holds at_new_example full_app (moment 1001) direct 60 between last_visit first_refused
      (omega arith) refl (sym same_client) (omega arith)
