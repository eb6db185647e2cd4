-- ===== src/Gossip/Examples.antt =====
-- src/api/gossip.rs: an exchange, and its theorems at concrete inputs.
use community_search.Base.{
  ℕ, ◌≡◌, arith, refl, inl, true, false, ◌≤◌, Option, none, some, List, [], ◌∷◌, Text, text,
  eq_text, map, if◌then◌else◌,
}
use community_search.Base.Table.{lookup, insert, text_key}
use community_search.Crawler.UrlClass.{leb_text}
use community_search.Gossip.{
  DiscoveredEngine, EnginesTable, EngineSummary, ExchangeRequest, exchanged, Io, exchange,
  check_compatibility, normalize, upsert_all, upsert, merge_engine_lists, merge_incoming, by_url,
  list, summary_of,
}
use community_search.Gossip.Outbound.{
  Peer, replied, NodePeer, SyncResult, spawn_gossip_exchange_with_peer, run_periodic_sync_once,
  sync_all, exchange_with_peer,
}
use community_search.Gossip.Outbound.Rounds.{spawned-IsKept, round-IsKept}
use community_search.Gossip.Keeps.{IsKept}
use community_search.Gossip.Admin
use community_search.Gossip.Admin.{
  removed, bad_request, not_found, remove, deleted, remove_discovered, promote_discovered,
  list_discovered,
}
use community_search.Gossip.Admin.Lasting.{
  Event, answered, spawned, synced, asked_to_remove, run, run-IsKept,
}
use community_search.Gossip.Merge.{IsSeen}
use community_search.Gossip.Learns.{exchange-IsSeen}

abbrev parse_version : Text → Option (ℕ × ℕ)
parse_version v =
    if eq_text v (text "1.0.0")
    then some (1, 0)
    else if eq_text v (text "1.1.0")
    then some (1, 1)
    else none

abbrev ours : DiscoveredEngine
ours = record {
  url = text "http://a";
  name = text "A";
  description = [];
  first_seen = 10;
  last_seen = 20;
}

abbrev engines : EnginesTable
engines = (text "http://a", ours) ∷ []

abbrev summary : Text → EngineSummary
summary url = record { url = url; name = text "B"; description = [] }

-- A peer of the next minor version, which knows our engine under another name, and one more.
abbrev request : ExchangeRequest
request = record {
  protocol_version = text "1.1";
  engines = summary (text "http://b") ∷ summary (text "http://a") ∷ [];
}

abbrev healthy : Io
healthy = record { reads = true; writes = λ left. true }

abbrev told : List EngineSummary
told = summary_of ours ∷ []

exchange_run : (exchange parse_version healthy 100 request engines).0 ≡ exchanged told
unfolding exchange check_compatibility normalize upsert_all upsert merge_engine_lists merge_incoming
    by_url list lookup insert leb_text eq_text
exchange_run = refl

known_engine : lookup (text "http://a") engines ≡ some ours
unfolding lookup eq_text
known_engine = refl

exchange-IsSeen_example :
    (told ≡ map summary_of (list engines))
    × IsSeen (text "http://b") 100 (exchange parse_version healthy 100 request engines).1
exchange-IsSeen_example =
    exchange-IsSeen parse_version healthy 100 request engines told (text "http://b") exchange_run
      (inl (refl, omega arith))

-- The peer answers each request with two engines.
abbrev peer : Peer
peer = λ url req. replied (text "1.0") (summary (text "http://b") ∷ summary (text "http://a") ∷ [])

spawned-IsKept_example :
    IsKept
      (text "http://a")
      ours
      (spawn_gossip_exchange_with_peer parse_version healthy peer 100 (text "http://p/") [] engines)
spawned-IsKept_example =
    spawned-IsKept parse_version healthy 100 (text "http://a") ours peer (text "http://p/") []
      engines known_engine

abbrev peers : List NodePeer
peers =
    record { url = text "http://p/"; enabled = true }
    ∷ record { url = text "http://q"; enabled = false }
    ∷ []

abbrev round : SyncResult × EnginesTable
round = run_periodic_sync_once parse_version healthy peer 100 (some peers) engines

round_counts : round.0 ≡ record { attempted = 1; succeeded = 1 }
unfolding run_periodic_sync_once sync_all exchange_with_peer check_compatibility normalize
    upsert_all upsert merge_engine_lists merge_incoming by_url list lookup insert leb_text eq_text
round_counts = refl

abbrev counts : SyncResult
counts = round.0

round-IsKept_example : IsKept (text "http://a") ours round.1 × (counts.succeeded ≤ counts.attempted)
round-IsKept_example =
    round-IsKept parse_version healthy 100 (text "http://a") ours peer (some peers) engines
      known_engine

abbrev sound : Admin.Io
sound = record { locks = true; reads = true; writes = true }

remove_runs :
    ((remove_discovered (text "http://a") sound (text "http://a") engines).1 ≡ bad_request)
    × ((remove_discovered (text "http://b") sound (text "http://a") engines).1 ≡ removed 1)
    × ((remove_discovered (text "http://b") sound (text "http://c") engines).1 ≡ not_found)
unfolding remove_discovered remove deleted eq_text
remove_runs = (refl, refl, refl)

-- We learn of an engine, and are asked to remove it and then ourselves.
abbrev history : List Event
history =
    answered healthy 100 request
    ∷ asked_to_remove sound (text "http://b")
    ∷ asked_to_remove sound (text "http://a")
    ∷ synced healthy peer 110 (some peers)
    ∷ spawned healthy peer 120 (text "http://p/") []
    ∷ []

run-IsKept_example :
    IsKept (text "http://a") ours (run parse_version (text "http://a") history engines)
run-IsKept_example = run-IsKept parse_version (text "http://a") history engines ours known_engine
