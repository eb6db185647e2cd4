-- ===== src/Gossip/Outbound/Rounds.antt =====
-- src/federation/gossip.rs: what the exchanges of a round keep.
use community_search.Base.{
  ℕ, suc, ◌≤◌, ◌≡◌, refl, Option, none, some, List, [], ◌∷◌, map, Text, arith, length, retain,
  if-cases,
}
use community_search.Base.Table.{lookup, text_key}
use community_search.Gossip.{
  DiscoveredEngine, EnginesTable, Io, Compatibility, compatible, minor_mismatch, incompatible,
  check_compatibility, merge_engine_lists, list, seen_now,
}
use community_search.Gossip.Keeps.{IsKept, upsert-IsKept, upsert_all-IsKept}
use community_search.Gossip.Outbound.{
  Reply, send_failed, unreadable, refused, replied, Peer, GossipResult, exchange_with_peer,
  on_reply, versioned, persist, upsert_each, versioned_each, on_reply_each,
  spawn_gossip_exchange_with_peer, NodePeer, sync_all, run_periodic_sync_once, is_done,
}

module _ (parse_version : Text → Option (ℕ × ℕ)) (io : Io) (now : ℕ) (u : Text)
    (old : DiscoveredEngine) where
  versioned-IsKept :
      (c : Compatibility) (t : EnginesTable) (r : GossipResult × EnginesTable)
      → IsKept u old t
      → IsKept u old r.1
      → IsKept u old (versioned parse_version c t r).1
  versioned-IsKept incompatible t r h k = h
  versioned-IsKept minor_mismatch t r h k = k
  versioned-IsKept compatible t r h k = k

  on_reply-IsKept :
      (local : List DiscoveredEngine) (r : Reply) (t : EnginesTable)
      → IsKept u old t
      → IsKept u old (on_reply parse_version io now local r t).1
  on_reply-IsKept local send_failed t h = h
  on_reply-IsKept local unreadable t h = h
  on_reply-IsKept local (refused code) t h = h
  on_reply-IsKept local (replied v engines) t h =
      versioned-IsKept (check_compatibility parse_version v) t
        (persist parse_version io now local engines t) h
        (upsert_all-IsKept io u old (merge_engine_lists local (map (seen_now now) engines) now) t h)

  exchange_with_peer-IsKept :
      (peer : Peer) (peer_url : Text) (t : EnginesTable)
      → IsKept u old t
      → IsKept u old (exchange_with_peer parse_version io peer now peer_url t).1
  unfolding exchange_with_peer
  exchange_with_peer-IsKept peer peer_url t h =
      if-cases (λ (r : GossipResult × EnginesTable). IsKept u old r.1) io.reads
        (λ reads. on_reply-IsKept (list t) _ t h) (λ fails. h)

  sync_all-IsKept :
      (peer : Peer) (ps : List NodePeer) (t : EnginesTable)
      → IsKept u old t
      → IsKept u old (sync_all parse_version io peer now ps t).1
        × ((sync_all parse_version io peer now ps t).0 ≤ length ps)
  unfolding sync_all
  sync_all-IsKept peer [] t h = (h, omega arith)
  sync_all-IsKept peer (p ∷ ps) t h =
      let rest = sync_all-IsKept peer ps _ (exchange_with_peer-IsKept peer p.url t h) in
      (
        rest.0,
        if-cases (λ n. n ≤ suc (length ps))
            (is_done (exchange_with_peer parse_version io peer now p.url t).0)
            (λ good. omega (arith, rest.1)) (λ bad. omega (arith, rest.1)),
      )

  upsert_each-IsKept :
      (es : List DiscoveredEngine) (t : EnginesTable)
      → IsKept u old t
      → IsKept u old (upsert_each parse_version io es t)
  unfolding upsert_each
  upsert_each-IsKept [] t h = h
  upsert_each-IsKept (e ∷ es) t h = upsert_each-IsKept es _ (
      if-cases (IsKept u old) (io.writes (length es)) (λ answered. upsert-IsKept u old e t h)
        (λ refuses. h))

  versioned_each-IsKept :
      (c : Compatibility) (t merged : EnginesTable)
      → IsKept u old t
      → IsKept u old merged
      → IsKept u old (versioned_each parse_version c t merged)
  versioned_each-IsKept incompatible t merged h k = h
  versioned_each-IsKept minor_mismatch t merged h k = k
  versioned_each-IsKept compatible t merged h k = k

  on_reply_each-IsKept :
      (local : List DiscoveredEngine) (r : Reply) (t : EnginesTable)
      → IsKept u old t
      → IsKept u old (on_reply_each parse_version io now local r t)
  on_reply_each-IsKept local send_failed t h = h
  on_reply_each-IsKept local unreadable t h = h
  on_reply_each-IsKept local (refused code) t h = h
  on_reply_each-IsKept local (replied v engines) t h =
      versioned_each-IsKept (check_compatibility parse_version v) t _ h
        (upsert_each-IsKept (merge_engine_lists local (map (seen_now now) engines) now) t h)

  -- An exchange that was spawned on an older table forgets no engine that was learnt meanwhile and
  -- sets no time of it back: whatever the table was at the snapshot and whatever the peer answers, each
  -- engine known when it writes is known after it, with the time at which it was first seen, and was
  -- last seen no earlier. Its name and its description may be the older ones again.
  pub spawned-IsKept :
      (peer : Peer) (peer_url : Text) (before t : EnginesTable)
      → lookup u t ≡ some old
      → IsKept u old (spawn_gossip_exchange_with_peer parse_version io peer now peer_url before t)
  unfolding spawn_gossip_exchange_with_peer
  spawned-IsKept peer peer_url before t known =
      if-cases (IsKept u old) io.reads
        (λ reads. on_reply_each-IsKept (list before) _ t (old, known, refl, omega arith))
        (λ fails. (old, known, refl, omega arith))

  -- A round of exchanges with all enabled peers, whatever they answer, forgets no engine, as each
  -- exchange does; and no more exchanges succeed than are attempted.
  pub round-IsKept :
      (peer : Peer) (all : Option (List NodePeer)) (t : EnginesTable)
      → lookup u t ≡ some old
      → let r = run_periodic_sync_once parse_version io peer now all t in
        let counts = r.0 in IsKept u old r.1 × (counts.succeeded ≤ counts.attempted)
  unfolding run_periodic_sync_once
  round-IsKept peer none t known = ((old, known, refl, omega arith), omega arith)
  round-IsKept peer (some all) t known =
      sync_all-IsKept peer (retain (λ p. p.enabled) all) t (old, known, refl, omega arith)
