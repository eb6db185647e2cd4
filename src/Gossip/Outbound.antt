-- ===== src/Gossip/Outbound.antt =====
-- src/federation/gossip.rs: the exchanges that a node starts.
--
-- What a peer answers is a parameter, `Peer`. The spawned exchange reads the table, waits for the peer
-- without the lock, and writes to the table as it is then. SQLite's answers are given by `Io`.
pub mod Rounds
use community_search.Base.{
  ℕ, ◌+◌, Bool, true, false, Option, none, some, List, [], ◌∷◌, ◌++◌, map, Text, text, length,
  retain, if◌then◌else◌, ◌==◌, is_empty,
}
use community_search.Gossip.{
  DiscoveredEngine, EnginesTable, EngineSummary, ExchangeRequest, Io, Compatibility, compatible,
  minor_mismatch, incompatible, check_compatibility, merge_engine_lists, list, upsert, upsert_all,
  seen_now, summary_of, protocol_version,
}

-- How the HTTP exchange with a peer may end.
pub data Reply : Type 0 where
  send_failed unreadable : Reply
  refused : ℕ → Reply
  replied : Text → List EngineSummary → Reply

-- The peers' answers to a request that is posted to a URL.
abbrev pub Peer : Type 0
Peer = Text → ExchangeRequest → Reply

pub data GossipError : Type 0 where
  http db version : GossipError
  status : ℕ → GossipError

pub record ExchangeOutcome : Type 0 where
  pub sent_count : ℕ
  pub received_count : ℕ

pub data GossipResult : Type 0 where
  done : ExchangeOutcome → GossipResult
  failed : GossipError → GossipResult

-- `trim_end_matches('/')`
unfoldable pub trim_slashes : Text → Text
trim_slashes [] = []
trim_slashes (c ∷ s) =
    let rest = trim_slashes s in if is_empty rest then if c == 47 then [] else c ∷ [] else c ∷ rest

abbrev pub exchange_url : Text → Text
exchange_url peer_url = trim_slashes peer_url ++ text "/api/gossip/exchange"

abbrev pub payload : List DiscoveredEngine → ExchangeRequest
payload local = record { protocol_version = protocol_version; engines = map summary_of local }

-- A row of `node_peers`, as far as a round reads it.
pub record NodePeer : Type 0 where
  pub url : Text
  pub enabled : Bool

pub record SyncResult : Type 0 where
  pub attempted : ℕ
  pub succeeded : ℕ

abbrev pub is_done : GossipResult → Bool
is_done (done outcome) = true
is_done (failed e) = false

module _ (parse_version : Text → Option (ℕ × ℕ)) where
  abbrev pub persist :
      Io
      → ℕ
      → List DiscoveredEngine
      → List EngineSummary
      → EnginesTable
      → GossipResult × EnginesTable
  persist io now local engines t =
      let persisted = upsert_all io (merge_engine_lists local (map (seen_now now) engines) now) t in
      (
        if persisted.0
            then done (record { sent_count = length local; received_count = length engines })
            else failed db,
        persisted.1,
      )

  abbrev pub versioned :
      Compatibility → EnginesTable → GossipResult × EnginesTable → GossipResult × EnginesTable
  versioned incompatible t merged = (failed version, t)
  versioned minor_mismatch t merged = merged
  versioned compatible t merged = merged

  abbrev pub on_reply :
      Io → ℕ → List DiscoveredEngine → Reply → EnginesTable → GossipResult × EnginesTable
  on_reply io now local send_failed t = (failed http, t)
  on_reply io now local unreadable t = (failed http, t)
  on_reply io now local (refused code) t = (failed (status code), t)
  on_reply io now local (replied their_version engines) t =
      versioned (check_compatibility parse_version their_version) t (persist io now local engines t)

  unfoldable pub exchange_with_peer :
      Io → Peer → ℕ → Text → EnginesTable → GossipResult × EnginesTable
  exchange_with_peer io peer now peer_url t =
      if io.reads
      then on_reply io now (list t) (peer (exchange_url peer_url) (payload (list t))) t
      else (failed db, t)

  -- The upserts of the spawned exchange: one that fails is skipped.
  unfoldable pub upsert_each : Io → List DiscoveredEngine → EnginesTable → EnginesTable
  upsert_each io [] t = t
  upsert_each io (e ∷ es) t = upsert_each io es (if io.writes (length es) then upsert t e else t)

  abbrev pub versioned_each : Compatibility → EnginesTable → EnginesTable → EnginesTable
  versioned_each incompatible t merged = t
  versioned_each minor_mismatch t merged = merged
  versioned_each compatible t merged = merged

  abbrev pub on_reply_each : Io → ℕ → List DiscoveredEngine → Reply → EnginesTable → EnginesTable
  on_reply_each io now local send_failed t = t
  on_reply_each io now local unreadable t = t
  on_reply_each io now local (refused code) t = t
  on_reply_each io now local (replied their_version engines) t =
      versioned_each (check_compatibility parse_version their_version) t
        (upsert_each io (merge_engine_lists local (map (seen_now now) engines) now) t)

  -- `before` is the table at the snapshot, `t` the one at the time of the writes.
  unfoldable pub spawn_gossip_exchange_with_peer :
      Io → Peer → ℕ → Text → EnginesTable → EnginesTable → EnginesTable
  spawn_gossip_exchange_with_peer io peer now peer_url before t =
      if io.reads
      then on_reply_each io now (list before) (peer (exchange_url peer_url) (payload (list before)))
          t
      else t

  -- How many of the exchanges succeed, and the table after them.
  unfoldable pub sync_all : Io → Peer → ℕ → List NodePeer → EnginesTable → ℕ × EnginesTable
  sync_all io peer now [] t = (0, t)
  sync_all io peer now (p ∷ ps) t =
      let one = exchange_with_peer io peer now p.url t in
      let rest = sync_all io peer now ps one.1 in
      (if is_done one.0 then rest.0 + 1 else rest.0, rest.1)

  -- The peers are those of `list_node_peers`, unless it fails.
  unfoldable pub run_periodic_sync_once :
      Io → Peer → ℕ → Option (List NodePeer) → EnginesTable → SyncResult × EnginesTable
  run_periodic_sync_once io peer now none t = (record { attempted = 0; succeeded = 0 }, t)
  run_periodic_sync_once io peer now (some all) t =
      let peers = retain (λ p. p.enabled) all in
      let synced = sync_all io peer now peers t in
      (record { attempted = length peers; succeeded = synced.0 }, synced.1)
