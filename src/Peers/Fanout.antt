-- ===== src/Peers/Fanout.antt =====
-- src/federation/fanout.rs: the peers that a search is forwarded to, and what comes back of one.
--
-- A score is a value of a type `F` with a product. The `PeerClient` is a parameter; `none` is an error
-- of it.
use community_search.Base.{
  ℕ, ◌==◌, ◌&&◌, Option, none, some, List, [], ◌∷◌, ◌++◌, map, Text, text, eq_text, leb,
  if◌then◌else◌,
}
use community_search.Peers.{NodePeer, CollectionPeer, Federation}

pub record SearchRequest : Type 0 where
  pub query : Text
  pub collection : Option Text
  pub depth : ℕ

pub record SearchResult (F : Type 0) : Type 0 where
  pub title : Text
  pub url : Text
  pub snippet_html : Text
  pub source : Text
  pub timestamp : ℕ
  pub score : F

pub record ActiveCollectionPeer (F : Type 0) : Type 0 where
  pub collection_peer_id : ℕ
  pub node_peer_id : ℕ
  pub node_peer_url : Text
  pub remote_collection : Text
  pub source_weight : F
  pub source_label : Text

pub record PeerOutcome (F : Type 0) : Type 0 where
  pub node_peer_id : ℕ
  pub source_label : Text
  pub source_weight : F
  pub result : Option (List (SearchResult F))
  pub elapsed_ms : ℕ

-- The client, and the time that a peer takes.
pub record PeerClient (F : Type 0) : Type 0 where
  pub search : Text → SearchRequest → Option (List (SearchResult F))
  pub elapsed : Text → SearchRequest → ℕ

abbrev node_peer_of : List NodePeer → ℕ → Option NodePeer
node_peer_of [] id = none
node_peer_of (p ∷ ps) id = let rest = node_peer_of ps id in if p.id == id then some p else rest

module _ {F : Type 0} where
  -- `ORDER BY cp.id ASC`
  abbrev insert_by_id : CollectionPeer F → List (CollectionPeer F) → List (CollectionPeer F)
  insert_by_id cp [] = cp ∷ []
  insert_by_id cp (q ∷ qs) =
      let rest = insert_by_id cp qs in if leb cp.id q.id then cp ∷ q ∷ qs else q ∷ rest

  abbrev by_id : List (CollectionPeer F) → List (CollectionPeer F)
  by_id [] = []
  by_id (cp ∷ cps) = insert_by_id cp (by_id cps)

  abbrev active_peer : CollectionPeer F → NodePeer → ActiveCollectionPeer F
  active_peer cp np = record {
    collection_peer_id = cp.id;
    node_peer_id = np.id;
    node_peer_url = np.url;
    remote_collection = cp.remote_collection;
    source_weight = cp.source_weight;
    source_label = text "peer:" ++ np.url ++ text "/" ++ cp.remote_collection;
  }

  -- One row of the join, where it passes the conditions.
  abbrev active_row :
      Text
      → CollectionPeer F
      → Option NodePeer
      → List (ActiveCollectionPeer F)
      → List (ActiveCollectionPeer F)
  active_row local cp none rest = rest
  active_row local cp (some np) rest =
      if eq_text cp.local_collection local && (cp.enabled && np.enabled)
      then active_peer cp np ∷ rest
      else rest

  abbrev active_rows :
      List NodePeer → Text → List (CollectionPeer F) → List (ActiveCollectionPeer F)
  active_rows peers local [] = []
  active_rows peers local (cp ∷ cps) =
      active_row local cp (node_peer_of peers cp.node_peer_id) (active_rows peers local cps)

  unfoldable pub active_collection_peers_for : Federation F → Text → List (ActiveCollectionPeer F)
  active_collection_peers_for fed local =
      active_rows fed.node_peers local (by_id fed.collection_peers)

  module _ (mul : F → F → F) (client : PeerClient F) where
    -- The label and the weight of the peer go into its results.
    abbrev relabel : ActiveCollectionPeer F → SearchResult F → SearchResult F
    relabel peer r = record r { source = peer.source_label; score = mul r.score peer.source_weight }

    abbrev map_results :
        ActiveCollectionPeer F → Option (List (SearchResult F)) → Option (List (SearchResult F))
    map_results peer none = none
    map_results peer (some rs) = some (map (relabel peer) rs)

    abbrev forwarded : SearchRequest → ℕ → ActiveCollectionPeer F → SearchRequest
    forwarded request outgoing_depth peer = record request {
      depth = outgoing_depth;
      collection = some peer.remote_collection;
    }

    abbrev outcome_of : SearchRequest → ℕ → ActiveCollectionPeer F → PeerOutcome F
    outcome_of request outgoing_depth peer =
        let req = forwarded request outgoing_depth peer in
        record {
          node_peer_id = peer.node_peer_id;
          source_label = peer.source_label;
          source_weight = peer.source_weight;
          result = map_results peer (client.search peer.node_peer_url req);
          elapsed_ms = client.elapsed peer.node_peer_url req;
        }

    -- All outcomes, before they are put in the order in which they come.
    unfoldable pub dispatch :
        List (ActiveCollectionPeer F) → SearchRequest → ℕ → List (PeerOutcome F)
    dispatch peers request outgoing_depth = map (outcome_of request outgoing_depth) peers
