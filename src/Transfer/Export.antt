-- ===== src/Transfer/Export.antt =====
-- src/api/admin/export_import.rs: `build_envelope`.
--
-- The documents of the index, the version and the time are arguments; so is whether SQLite answers,
-- which the handler turns into a 500. Collections have distinct names, hence the documents of a name
-- are those of one collection.
use community_search.Base.{
  ℕ, ◌==◌, Option, none, some, List, [], ◌∷◌, map, Text, eq_text, if◌then◌else◌, retain,
}
use community_search.Crawler.UrlClass.{leb_text}
use community_search.Transfer.{
  CrawledPage, ExportedCrawlTarget, ExportedDocument, ExportedOutlinkHostSuggestion,
  ExportedNodePeer, ExportedRankingConfig, ExportedCollection, ExportedCollectionPeer,
  ExportEnvelope, format_version, CollectionRow, TargetRow, PageRow, ConfigRow, HostRow, PeerRow,
  CollectionPeerRow, Tables,
}

-- `ORDER BY` a text column, stable.
abbrev pub insert_on : {A : Type 0} → (A → Text) → A → List A → List A
insert_on key a [] = a ∷ []
insert_on key a (b ∷ rows) =
    let rest = insert_on key a rows in if leb_text (key a) (key b) then a ∷ b ∷ rows else b ∷ rest

abbrev pub sort_on : {A : Type 0} → (A → Text) → List A → List A
sort_on key [] = []
sort_on key (a ∷ rows) = insert_on key a (sort_on key rows)

-- A document of the index, with the name of its collection.
pub record IndexedDocument : Type 0 where
  pub collection : Text
  pub document : ExportedDocument

unfoldable pub export_crawled_pages : List PageRow → Text → List CrawledPage
export_crawled_pages pages target_id =
    map (λ (r : PageRow). r.page) (retain (λ r. eq_text r.crawl_target_id target_id) pages)

abbrev pub export_target : List PageRow → TargetRow → ExportedCrawlTarget
export_target pages t = record {
  url_prefix = t.url_prefix;
  recrawl_interval_s = t.recrawl_interval_s;
  recrawl_interval_secs = t.recrawl_interval_secs;
  enabled = t.enabled;
  crawl_delay_secs = t.crawl_delay_secs;
  created_at = t.created_at;
  crawled_pages = export_crawled_pages pages t.id;
}

unfoldable pub export_crawl_targets :
    List TargetRow → List PageRow → Text → List ExportedCrawlTarget
export_crawl_targets targets pages collection_id =
    map (export_target pages)
      (sort_on (λ t. t.url_prefix) (retain (λ t. eq_text t.collection_id collection_id) targets))

unfoldable pub export_outlinks : List HostRow → Text → List ExportedOutlinkHostSuggestion
export_outlinks hosts collection_id =
    sort_on (λ s. s.host)
      (map (λ (r : HostRow). r.suggestion)
        (retain (λ r. eq_text r.collection_id collection_id) hosts))

unfoldable pub export_node_peers : List PeerRow → List ExportedNodePeer
export_node_peers peers =
    sort_on (λ p. p.url)
      (map (λ (r : PeerRow). record { url = r.url; name = r.name; enabled = r.enabled }) peers)

abbrev documents_of : List IndexedDocument → Text → List ExportedDocument
documents_of docs name =
    map (λ (d : IndexedDocument). d.document) (retain (λ d. eq_text d.collection name) docs)

abbrev url_of : List PeerRow → ℕ → Option Text
url_of [] id = none
url_of (p ∷ peers) id = if p.id == id then some p.url else url_of peers id

module _ {F : Type 0} where
  unfoldable pub export_ranking_config : List (ConfigRow F) → ℕ → Option (ExportedRankingConfig F)
  export_ranking_config [] rowid = none
  export_ranking_config (r ∷ rows) rowid =
      if r.collection_id == rowid then some r.config else export_ranking_config rows rowid

  -- The join: a row whose peer is gone is left out.
  abbrev joined : List PeerRow → List (CollectionPeerRow F) → List (ExportedCollectionPeer F)
  joined peers [] = []
  joined peers (r ∷ rows) =
      let rest = joined peers rows in
      elim (url_of peers r.node_peer_id) [
        | none ↦ rest
        | some url ↦
            (record {
              local_collection = r.local_collection;
              node_peer_url = url;
              remote_collection = r.remote_collection;
              source_weight = r.source_weight;
              enabled = r.enabled;
            })
            ∷ rest
      ]

  -- `ORDER BY local_collection, url`: stable sorts by the second column, then by the first.
  unfoldable pub export_collection_peers :
      List PeerRow → List (CollectionPeerRow F) → List (ExportedCollectionPeer F)
  export_collection_peers peers rows =
      sort_on (λ r. r.local_collection) (sort_on (λ r. r.node_peer_url) (joined peers rows))

  unfoldable pub export_collection :
      Tables F → List IndexedDocument → CollectionRow → ExportedCollection F
  export_collection db docs h = record {
    name = h.name;
    description = h.description;
    created_at = h.created_at;
    updated_at = h.updated_at;
    crawl_targets = export_crawl_targets db.crawl_targets db.crawled_pages h.id;
    ranking_config = export_ranking_config db.ranking_config h.rowid;
    documents = documents_of docs h.name;
    outlink_host_suggestions = export_outlinks db.outlink_hosts h.id;
  }

  unfoldable pub build_envelope : Tables F → List IndexedDocument → Text → Text → ExportEnvelope F
  build_envelope db docs self_url exported_at = record {
    format_version = format_version;
    exported_at = exported_at;
    self_url = self_url;
    collections = map (export_collection db docs) (sort_on (λ h. h.name) db.collections);
    node_peers = export_node_peers db.node_peers;
    collection_peers = export_collection_peers db.node_peers db.collection_peers;
  }
