-- ===== src/Gossip/Admin/Lasting.antt =====
-- The engines known over a history of exchanges and of an administrator's removals
-- (src/api/gossip.rs, src/federation/gossip.rs, src/api/admin/discovered.rs).
use community_search.Base.{ℕ, ◌≡◌, refl, ◌∙◌, Option, some, List, [], ◌∷◌, Text, arith}
use community_search.Base.Table.{lookup, lookup-remove, text_key}
use community_search.Gossip.{DiscoveredEngine, EnginesTable, ExchangeRequest, exchange}
use community_search.Gossip
use community_search.Gossip.Keeps.{IsKept, exchange-IsKept}
use community_search.Gossip.Outbound.{
  Peer, NodePeer, spawn_gossip_exchange_with_peer, run_periodic_sync_once,
}
use community_search.Gossip.Outbound.Rounds.{spawned-IsKept, round-IsKept}
use community_search.Gossip.Admin.{Io, remove, remove_discovered}

pub data Event : Type 0 where
  answered : Gossip.Io → ℕ → ExchangeRequest → Event
  spawned : Gossip.Io → Peer → ℕ → Text → EnginesTable → Event
  synced : Gossip.Io → Peer → ℕ → Option (List NodePeer) → Event
  asked_to_remove : Io → Text → Event

module _ (parse_version : Text → Option (ℕ × ℕ)) (self_url : Text) where
  abbrev pub step : Event → EnginesTable → EnginesTable
  step (answered io now req) t = (exchange parse_version io now req t).1
  step (spawned io peer now peer_url before) t =
      spawn_gossip_exchange_with_peer parse_version io peer now peer_url before t
  step (synced io peer now peers) t = (run_periodic_sync_once parse_version io peer now peers t).1
  step (asked_to_remove io url) t = (remove_discovered self_url io url t).0

  unfoldable pub run : List Event → EnginesTable → EnginesTable
  run [] t = t
  run (e ∷ es) t = run es (step e t)

  own_entry_stays :
      (io : Io) (url : Text) (t : EnginesTable)
      → lookup self_url (remove_discovered self_url io url t).0 ≡ lookup self_url t
  unfolding remove_discovered remove
  own_entry_stays io url t = ground (arith, lookup-remove url self_url t)

  step-IsKept :
      (e : Event) (t : EnginesTable) (old : DiscoveredEngine)
      → lookup self_url t ≡ some old
      → IsKept self_url old (step e t)
  step-IsKept (answered io now req) t old known =
      exchange-IsKept parse_version io now req t self_url old known
  step-IsKept (spawned io peer now peer_url before) t old known =
      spawned-IsKept parse_version io now self_url old peer peer_url before t known
  step-IsKept (synced io peer now peers) t old known =
      (round-IsKept parse_version io now self_url old peer peers t known).0
  step-IsKept (asked_to_remove io url) t old known =
      (old, own_entry_stays io url t ∙ known, refl, omega arith)

  -- Whatever exchanges, spawned exchanges and rounds a node goes through, and whatever an
  -- administrator asks to remove, in any order and with any failures, the node's own entry is never
  -- lost: it is known at the end, was first seen when it was, and was last seen no earlier.
  pub run-IsKept :
      (es : List Event) (t : EnginesTable) (old : DiscoveredEngine)
      → lookup self_url t ≡ some old
      → IsKept self_url old (run es t)
  unfolding run
  run-IsKept [] t old known = (old, known, refl, omega arith)
  run-IsKept (e ∷ es) t old known =
      let (mid, there, first, last) = step-IsKept e t old known in
      let (now, here, first', last') = run-IsKept es (step e t) mid there in
      (now, here, first' ∙ first, omega (arith, last, last'))
