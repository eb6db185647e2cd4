-- ===== src/Peers.antt =====
-- src/federation/storage.rs: the node peers, the mappings of collections onto theirs, and the
-- notifications.
--
-- A weight is a value of a type `F`. Tables are lists in the order of insertion. SQLite is taken to
-- answer: `none` is a constraint that does not hold. Times are arguments.
pub mod Health
pub mod Fanout
pub mod Search
mod Examples
use community_search.Base.{
  ℕ, ◌+◌, ◌==◌, Bool, true, false, not, ◌&&◌, ◌||◌, Option, none, some, List, [], ◌∷◌, ◌++◌, map,
  Text, eq_text, leb, retain, if◌then◌else◌,
}
use community_search.Base.Table.{next_id}

pub record NodePeer : Type 0 where
  pub id : ℕ
  pub url : Text
  pub name : Option Text
  pub enabled : Bool
  pub consecutive_failures : ℕ
  pub last_response_ms : Option ℕ
  pub last_checked_at : Option ℕ
  pub disabled_at : Option ℕ
  pub created_at : ℕ

pub record CollectionPeer (F : Type 0) : Type 0 where
  pub id : ℕ
  pub local_collection : Text
  pub node_peer_id : ℕ
  pub remote_collection : Text
  pub source_weight : F
  pub enabled : Bool
  pub created_at : ℕ

-- A row of `admin_notifications`: its kind, the numbers of its message, and its time.
pub data Notification : Type 0 where
  peer_disabled : (node_peer_id consecutive_failures created_at : ℕ) → Notification
  peer_re_enabled : (node_peer_id created_at : ℕ) → Notification

pub record Federation (F : Type 0) : Type 0 where
  pub node_peers : List NodePeer
  pub collection_peers : List (CollectionPeer F)
  pub notifications : List Notification

-- `UPDATE node_peers … WHERE id = ?`
unfoldable pub update_peer : ℕ → (NodePeer → NodePeer) → List NodePeer → List NodePeer
update_peer id f [] = []
update_peer id f (p ∷ ps) = (if p.id == id then f p else p) ∷ update_peer id f ps

unfoldable pub get_node_peer : ℕ → List NodePeer → Option NodePeer
get_node_peer id [] = none
get_node_peer id (p ∷ ps) = let rest = get_node_peer id ps in if p.id == id then some p else rest

abbrev has_url : Text → List NodePeer → Bool
has_url url [] = false
has_url url (p ∷ ps) = eq_text p.url url || has_url url ps

abbrev pub has_peer : ℕ → List NodePeer → Bool
has_peer id [] = false
has_peer id (p ∷ ps) = (p.id == id) || has_peer id ps

-- `ORDER BY created_at ASC`, stable.
unfoldable pub insert_by_age : NodePeer → List NodePeer → List NodePeer
insert_by_age p [] = p ∷ []
insert_by_age p (q ∷ qs) =
    let rest = insert_by_age p qs in if leb p.created_at q.created_at then p ∷ q ∷ qs else q ∷ rest

unfoldable pub list_node_peers : List NodePeer → List NodePeer
list_node_peers [] = []
list_node_peers (p ∷ ps) = insert_by_age p (list_node_peers ps)

abbrev pub enable : NodePeer → NodePeer
enable p = record p { enabled = true; disabled_at = none; consecutive_failures = 0 }

abbrev pub disable : ℕ → NodePeer → NodePeer
disable now p = record p { enabled = false; disabled_at = some now }

unfoldable pub set_node_peer_enabled : ℕ → ℕ → Bool → List NodePeer → List NodePeer
set_node_peer_enabled now id true peers = update_peer id enable peers
set_node_peer_enabled now id false peers = update_peer id (disable now) peers

module _ {F : Type 0} where
  unfoldable pub insert_node_peer :
      ℕ → Text → Option Text → Federation F → Option (Federation F × ℕ)
  insert_node_peer now url name fed =
      let id = next_id (λ (p : NodePeer). p.id) fed.node_peers in
      if has_url url fed.node_peers
      then none
      else some (
        record fed {
          node_peers =
              fed.node_peers
              ++ record {
                id = id;
                url = url;
                name = name;
                enabled = true;
                consecutive_failures = 0;
                last_response_ms = none;
                last_checked_at = none;
                disabled_at = none;
                created_at = now;
              }
                ∷ [];
        },
        id,
      )

  -- The mappings of the peer go with it.
  unfoldable pub delete_node_peer : ℕ → Federation F → Federation F
  delete_node_peer id fed = record fed {
    node_peers = retain (λ p. not (p.id == id)) fed.node_peers;
    collection_peers = retain (λ cp. not (cp.node_peer_id == id)) fed.collection_peers;
  }

  abbrev has_mapping : Text → ℕ → Text → List (CollectionPeer F) → Bool
  has_mapping local id remote [] = false
  has_mapping local id remote (cp ∷ cps) =
      (eq_text cp.local_collection local
        && (cp.node_peer_id == id && eq_text cp.remote_collection remote))
      || has_mapping local id remote cps

  unfoldable pub insert_collection_peer :
      ℕ → Text → ℕ → Text → F → Federation F → Option (Federation F × ℕ)
  insert_collection_peer now local node_peer_id remote weight fed =
      let id = next_id (λ (cp : CollectionPeer F). cp.id) fed.collection_peers in
      if not (has_peer node_peer_id fed.node_peers)
        || has_mapping local node_peer_id remote fed.collection_peers
      then none
      else some (
        record fed {
          collection_peers =
              fed.collection_peers
              ++ record {
                id = id;
                local_collection = local;
                node_peer_id = node_peer_id;
                remote_collection = remote;
                source_weight = weight;
                enabled = true;
                created_at = now;
              }
                ∷ [];
        },
        id,
      )

  unfoldable pub delete_collection_peer : ℕ → Federation F → Federation F
  delete_collection_peer id fed = record fed {
    collection_peers = retain (λ cp. not (cp.id == id)) fed.collection_peers;
  }

  abbrev insert_mapping_by_age :
      CollectionPeer F → List (CollectionPeer F) → List (CollectionPeer F)
  insert_mapping_by_age cp [] = cp ∷ []
  insert_mapping_by_age cp (q ∷ qs) =
      let rest = insert_mapping_by_age cp qs in
      if leb cp.created_at q.created_at then cp ∷ q ∷ qs else q ∷ rest

  abbrev mappings_by_age : List (CollectionPeer F) → List (CollectionPeer F)
  mappings_by_age [] = []
  mappings_by_age (cp ∷ cps) = insert_mapping_by_age cp (mappings_by_age cps)

  -- Of one local collection, or all.
  unfoldable pub list_collection_peers :
      Option Text → List (CollectionPeer F) → List (CollectionPeer F)
  list_collection_peers none cps = mappings_by_age cps
  list_collection_peers (some local) cps =
      mappings_by_age (retain (λ cp. eq_text cp.local_collection local) cps)
