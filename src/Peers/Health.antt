-- ===== src/Peers/Health.antt =====
-- src/federation/health.rs: the results of calls to a peer, and the round that probes disabled peers.
--
-- The `PeerClient` is a parameter: whether a URL answers a probe.
pub mod Streak
pub mod Round
use community_search.Base.{
  ℕ, ◌+◌, Bool, true, false, not, ◌&&◌, Option, none, some, List, [], ◌∷◌, ◌++◌, Text, leb, retain,
  if◌then◌else◌,
}
use community_search.Peers.{
  NodePeer, Notification, peer_disabled, peer_re_enabled, Federation, update_peer, get_node_peer,
  list_node_peers, disable, set_node_peer_enabled,
}

-- FAILURE_THRESHOLD
abbrev pub failure_threshold : ℕ
failure_threshold = 5

abbrev pub succeeded : Option ℕ → ℕ → NodePeer → NodePeer
succeeded response_ms now p = record p {
  consecutive_failures = 0;
  last_response_ms = response_ms;
  last_checked_at = some now;
}

abbrev pub failed : ℕ → NodePeer → NodePeer
failed now p = record p {
  consecutive_failures = p.consecutive_failures + 1;
  last_checked_at = some now;
}

-- What a health check of all disabled peers found.
pub record HealthCheckOutcome : Type 0 where
  pub re_enabled : List ℕ
  pub still_down : List ℕ

module _ {F : Type 0} where
  unfoldable pub insert_notification : Notification → Federation F → Federation F
  insert_notification n fed = record fed { notifications = fed.notifications ++ n ∷ [] }

  -- `p` is the row as it is read after the failure.
  unfoldable pub auto_disable : ℕ → ℕ → NodePeer → Federation F → Federation F
  auto_disable now id p fed =
      if leb failure_threshold p.consecutive_failures && p.enabled
      then insert_notification (peer_disabled id p.consecutive_failures now)
          (record fed { node_peers = update_peer id (disable now) fed.node_peers })
      else fed

  -- An error, `false`, where a failure finds no row.
  unfoldable pub record_result : ℕ → ℕ → Bool → Option ℕ → Federation F → Federation F × Bool
  record_result now id true response_ms fed =
      (record fed { node_peers = update_peer id (succeeded response_ms now) fed.node_peers }, true)
  record_result now id false response_ms fed =
      let peers = update_peer id (failed now) fed.node_peers in
      elim (get_node_peer id peers) [
        | none ↦ (record fed { node_peers = peers }, false)
        | some p ↦ (auto_disable now id p (record fed { node_peers = peers }), true)
      ]

  -- One peer of the round.
  unfoldable pub check_peer :
      (Text → Bool)
      → ℕ
      → NodePeer
      → Federation F × HealthCheckOutcome
      → Federation F × HealthCheckOutcome
  check_peer health_check now p (fed, outcome) =
      if health_check p.url
      then (
        insert_notification (peer_re_enabled p.id now)
            (record fed { node_peers = set_node_peer_enabled now p.id true fed.node_peers }),
        record outcome { re_enabled = outcome.re_enabled ++ p.id ∷ [] },
      )
      else (fed, record outcome { still_down = outcome.still_down ++ p.id ∷ [] })

  unfoldable pub check_peers :
      (Text → Bool)
      → ℕ
      → List NodePeer
      → Federation F × HealthCheckOutcome
      → Federation F × HealthCheckOutcome
  check_peers health_check now [] r = r
  check_peers health_check now (p ∷ ps) r =
      check_peers health_check now ps (check_peer health_check now p r)

  abbrev pub disabled_peers : Federation F → List NodePeer
  disabled_peers fed = retain (λ p. not p.enabled) (list_node_peers fed.node_peers)

  unfoldable pub run_health_check_once :
      (Text → Bool) → ℕ → Federation F → Federation F × HealthCheckOutcome
  run_health_check_once health_check now fed =
      check_peers health_check now (disabled_peers fed)
        (fed, record { re_enabled = []; still_down = [] })

  -- A tick of the background task: the disabled peers are those of an earlier moment, `listed`, since
  -- the lock is released before the probes.
  unfoldable pub health_check_tick : (Text → Bool) → ℕ → Federation F → Federation F → Federation F
  health_check_tick health_check now listed fed =
      (check_peers health_check now (disabled_peers listed)
        (fed, record { re_enabled = []; still_down = [] })).0
