-- ===== src/Transfer.antt =====
-- src/api/admin/export_import.rs: the dump of a node's contents, and its merge into another's. This
-- file has the tables and the wire types.
--
-- An `f64` is a value of a type `F`. A table is the list of its rows in the order of insertion, so
-- that `ORDER BY id` is the order of the list. The columns that neither side reads or writes are left
-- out. Numbers and times are natural numbers.
pub mod Export
pub mod Import
pub mod Handler
use community_search.Base.{ℕ, Bool, Option, List, [], ◌∷◌, Text}

pub record CrawledPage : Type 0 where
  pub url : Text
  pub etag : Option Text
  pub last_modified : Option Text
  pub content_hash : Option Text
  pub last_status : Option ℕ
  pub last_crawled_at : ℕ
  pub indexed_content_hash : Option Text

pub record ExportedCrawlTarget : Type 0 where
  pub url_prefix : Text
  pub recrawl_interval_s : ℕ
  pub recrawl_interval_secs : ℕ
  pub enabled : ℕ
  pub crawl_delay_secs : Option ℕ
  pub created_at : Text
  pub crawled_pages : List CrawledPage

pub record ExportedDocument : Type 0 where
  pub url : Text
  pub title : Text
  pub body : Text
  pub indexed_at : ℕ

pub record ExportedOutlinkHostSuggestion : Type 0 where
  pub host : Text
  pub link_count : ℕ
  pub examples_json : Text
  pub first_seen_at : ℕ
  pub last_seen_at : ℕ
  pub status : Text

pub record ExportedNodePeer : Type 0 where
  pub url : Text
  pub name : Option Text
  pub enabled : ℕ

pub record ExportedRankingConfig (F : Type 0) : Type 0 where
  pub freshness_half_life_days : F
  pub source_weights_json : Text
  pub domain_boosts_json : Text
  pub config_json : Option Text

pub record ExportedCollection (F : Type 0) : Type 0 where
  pub name : Text
  pub description : Text
  pub created_at : Text
  pub updated_at : Text
  pub crawl_targets : List ExportedCrawlTarget
  pub ranking_config : Option (ExportedRankingConfig F)
  pub documents : List ExportedDocument
  pub outlink_host_suggestions : List ExportedOutlinkHostSuggestion

pub record ExportedCollectionPeer (F : Type 0) : Type 0 where
  pub local_collection : Text
  pub node_peer_url : Text
  pub remote_collection : Text
  pub source_weight : F
  pub enabled : ℕ

pub record ExportEnvelope (F : Type 0) : Type 0 where
  pub format_version : ℕ
  pub exported_at : Text
  pub self_url : Text
  pub collections : List (ExportedCollection F)
  pub node_peers : List ExportedNodePeer
  pub collection_peers : List (ExportedCollectionPeer F)

-- FORMAT_VERSION
abbrev pub format_version : ℕ
format_version = 1

-- Rows of the tables. Those of the crawl targets and pages have the exported columns.
pub record CollectionRow : Type 0 where
  pub rowid : ℕ
  pub id : Text
  pub name : Text
  pub description : Text
  pub created_at : Text
  pub updated_at : Text

pub record TargetRow : Type 0 where
  pub id : Text
  pub collection_id : Text
  pub url_prefix : Text
  pub recrawl_interval_s : ℕ
  pub recrawl_interval_secs : ℕ
  pub enabled : ℕ
  pub crawl_delay_secs : Option ℕ
  pub created_at : Text

pub record PageRow : Type 0 where
  pub collection_id : Text
  pub crawl_target_id : Text
  pub page : CrawledPage

pub record ConfigRow (F : Type 0) : Type 0 where
  pub collection_id : ℕ
  pub config : ExportedRankingConfig F

pub record HostRow : Type 0 where
  pub collection_id : Text
  pub suggestion : ExportedOutlinkHostSuggestion

pub record PeerRow : Type 0 where
  pub id : ℕ
  pub url : Text
  pub name : Option Text
  pub enabled : ℕ
  pub created_at : ℕ

pub record CollectionPeerRow (F : Type 0) : Type 0 where
  pub local_collection : Text
  pub node_peer_id : ℕ
  pub remote_collection : Text
  pub source_weight : F
  pub enabled : ℕ
  pub created_at : ℕ

pub record Tables (F : Type 0) : Type 0 where
  pub collections : List CollectionRow
  pub crawl_targets : List TargetRow
  pub crawled_pages : List PageRow
  pub ranking_config : List (ConfigRow F)
  pub outlink_hosts : List HostRow
  pub node_peers : List PeerRow
  pub collection_peers : List (CollectionPeerRow F)
