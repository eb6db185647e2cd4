-- ===== src/Transfer/Import.antt =====
-- src/api/admin/export_import.rs: `apply_envelope`, the merge of a dump into the tables.
--
-- `failed` is an error, a constraint of a table that does not hold, after what was written. UUIDs, which are new, are
-- taken in turn from a supply; the clock is an argument.
use community_search.Base.{
  ℕ, ◌+◌, ◌==◌, Bool, false, ◌&&◌, ◌||◌, Option, none, some, Attempt, done, failed, ◌>>=◌, List, [],
  ◌∷◌, ◌++◌, Text, eq_text, is_empty, if◌then◌else◌,
}
use community_search.Base.Table.{next_id}
use community_search.Crawler.Page.{IndexJob}
use community_search.Transfer.{
  CrawledPage, ExportedCrawlTarget, ExportedDocument, ExportedOutlinkHostSuggestion,
  ExportedNodePeer, ExportedRankingConfig, ExportedCollection, CollectionRow, TargetRow, PageRow,
  ConfigRow, HostRow, PeerRow, Tables,
}

pub record ImportReport : Type 0 where
  pub collections_imported : ℕ
  pub collections_skipped : ℕ
  pub crawl_targets_imported : ℕ
  pub crawled_pages_imported : ℕ
  pub documents_queued : ℕ
  pub outlink_host_suggestions_imported : ℕ
  pub node_peers_imported : ℕ
  pub node_peers_skipped : ℕ
  pub collection_peers_imported : ℕ
  pub collection_peers_skipped : ℕ

-- `ImportReport::default()`
abbrev pub no_report : ImportReport
no_report = record {
  collections_imported = 0;
  collections_skipped = 0;
  crawl_targets_imported = 0;
  crawled_pages_imported = 0;
  documents_queued = 0;
  outlink_host_suggestions_imported = 0;
  node_peers_imported = 0;
  node_peers_skipped = 0;
  collection_peers_imported = 0;
  collection_peers_skipped = 0;
}

-- The variables of the merge, with the UUIDs handed out so far.
pub record Merge (F : Type 0) : Type 0 where
  pub tables : Tables F
  pub known_collection_names : List Text
  pub known_peer_urls : List Text
  pub report : ImportReport
  pub jobs : List IndexJob
  pub next : ℕ

-- Whether a row has a value in a column.
unfoldable pub any_row : {A : Type 0} → (A → Bool) → List A → Bool
any_row p [] = false
any_row p (a ∷ rows) = p a || any_row p rows

abbrev pub contains : List Text → Text → Bool
contains names name = any_row (λ n. eq_text n name) names

-- A timestamp, or now where it is empty.
abbrev or_now : Text → Text → Text
or_now now stamp = if is_empty stamp then now else stamp

-- The clock, in both forms, and the supply of UUIDs; and SHA-256.
pub record World : Type 0 where
  pub now_rfc3339 : Text
  pub now_unix : ℕ
  pub new_uuid : ℕ → Text
  pub sha256_hex : Text → Text

-- Over the body alone.
unfoldable pub doc_content_hash : World → ExportedDocument → Text
doc_content_hash world d = world.sha256_hex d.body

module _ {F : Type 0} (world : World) where
  -- UNIQUE (collection_id, url). The journal column is NULL.
  unfoldable pub import_page : Text → Text → CrawledPage → Merge F → Attempt (Merge F)
  import_page collection_id target_id p m =
      let db = m.tables in
      let counts = m.report in
      if any_row
        (λ (r : PageRow). eq_text r.collection_id collection_id && eq_text r.page.url p.url)
        db.crawled_pages
      then failed m
      else done (record m {
        tables = record db {
          crawled_pages =
              db.crawled_pages
              ++ record {
                collection_id = collection_id;
                crawl_target_id = target_id;
                page = record p { indexed_content_hash = none };
              }
                ∷ [];
        };
        report = record counts { crawled_pages_imported = counts.crawled_pages_imported + 1 };
      })

  unfoldable pub import_pages : Text → Text → List CrawledPage → Merge F → Attempt (Merge F)
  import_pages collection_id target_id [] m = done m
  import_pages collection_id target_id (p ∷ pages) m =
      import_page collection_id target_id p m >>= import_pages collection_id target_id pages

  -- The row of a crawl target: UNIQUE (collection_id, url_prefix).
  unfoldable pub insert_target : Text → ExportedCrawlTarget → Merge F → Attempt (Merge F)
  insert_target collection_id t m =
      let db = m.tables in
      let counts = m.report in
      if any_row
        (λ (r : TargetRow).
          eq_text r.collection_id collection_id && eq_text r.url_prefix t.url_prefix)
        db.crawl_targets
      then failed m
      else done (record m {
        tables = record db {
          crawl_targets =
              db.crawl_targets
              ++ record {
                id = world.new_uuid m.next;
                collection_id = collection_id;
                url_prefix = t.url_prefix;
                recrawl_interval_s = t.recrawl_interval_s;
                recrawl_interval_secs = t.recrawl_interval_secs;
                enabled = t.enabled;
                crawl_delay_secs = t.crawl_delay_secs;
                created_at = or_now world.now_rfc3339 t.created_at;
              }
                ∷ [];
        };
        report = record counts { crawl_targets_imported = counts.crawl_targets_imported + 1 };
        next = m.next + 1;
      })

  unfoldable pub import_targets : Text → List ExportedCrawlTarget → Merge F → Attempt (Merge F)
  import_targets collection_id [] m = done m
  import_targets collection_id (t ∷ targets) m = do
    with_row ← insert_target collection_id t m
    with_pages ← import_pages collection_id (world.new_uuid m.next) t.crawled_pages with_row
    import_targets collection_id targets with_pages

  -- The key is the collection's rowid.
  unfoldable pub import_config : ℕ → Option (ExportedRankingConfig F) → Merge F → Attempt (Merge F)
  import_config rowid none m = done m
  import_config rowid (some config) m =
      let db = m.tables in
      if any_row (λ (r : ConfigRow F). r.collection_id == rowid) db.ranking_config
      then failed m
      else done (record m {
        tables = record db {
          ranking_config =
              db.ranking_config ++ record { collection_id = rowid; config = config } ∷ [];
        };
      })

  -- UNIQUE (collection_id, host). The row takes a UUID of its own, which nothing reads.
  unfoldable pub import_host : Text → ExportedOutlinkHostSuggestion → Merge F → Attempt (Merge F)
  import_host collection_id o m =
      let db = m.tables in
      let counts = m.report in
      if any_row
        (λ (r : HostRow). eq_text r.collection_id collection_id && eq_text r.suggestion.host o.host)
        db.outlink_hosts
      then failed m
      else done (record m {
        tables = record db {
          outlink_hosts =
              db.outlink_hosts ++ record { collection_id = collection_id; suggestion = o } ∷ [];
        };
        report = record counts {
          outlink_host_suggestions_imported = counts.outlink_host_suggestions_imported + 1;
        };
        next = m.next + 1;
      })

  unfoldable pub import_hosts :
      Text → List ExportedOutlinkHostSuggestion → Merge F → Attempt (Merge F)
  import_hosts collection_id [] m = done m
  import_hosts collection_id (o ∷ hosts) m =
      import_host collection_id o m >>= import_hosts collection_id hosts

  -- The jobs that are sent after the commit.
  unfoldable pub queue_documents : Text → Text → List ExportedDocument → Merge F → Merge F
  queue_documents collection_id name [] m = m
  queue_documents collection_id name (d ∷ documents) m =
      let counts = m.report in
      queue_documents collection_id name documents (record m {
        jobs =
            m.jobs
            ++ record {
              collection_name = name;
              url = d.url;
              title = d.title;
              body = d.body;
              indexed_at = d.indexed_at;
              collection_id = collection_id;
              content_hash = doc_content_hash world d;
            }
              ∷ [];
        report = record counts { documents_queued = counts.documents_queued + 1 };
      })

  -- The row of a collection. Its name is new, so that UNIQUE (name) holds.
  unfoldable pub insert_collection : ExportedCollection F → Merge F → Merge F
  insert_collection c m =
      let db = m.tables in
      let counts = m.report in
      record m {
        tables = record db {
          collections =
              db.collections
              ++ record {
                rowid = next_id (λ (r : CollectionRow). r.rowid) db.collections;
                id = world.new_uuid m.next;
                name = c.name;
                description = c.description;
                created_at = or_now world.now_rfc3339 c.created_at;
                updated_at = or_now world.now_rfc3339 c.updated_at;
              }
                ∷ [];
        };
        known_collection_names = m.known_collection_names ++ c.name ∷ [];
        report = record counts { collections_imported = counts.collections_imported + 1 };
        next = m.next + 1;
      }

  -- What is nested under a collection, given its UUID and its rowid.
  unfoldable pub import_nested : Text → ℕ → ExportedCollection F → Merge F → Attempt (Merge F)
  import_nested collection_id rowid c m = do
    with_targets ← import_targets collection_id c.crawl_targets m
    with_config ← import_config rowid c.ranking_config with_targets
    with_hosts ← import_hosts collection_id c.outlink_host_suggestions with_config
    done (queue_documents collection_id c.name c.documents with_hosts)

  unfoldable pub import_collection : ExportedCollection F → Merge F → Attempt (Merge F)
  import_collection c m =
      let db = m.tables in
      let counts = m.report in
      if contains m.known_collection_names c.name
      then done (record m {
        report = record counts { collections_skipped = counts.collections_skipped + 1 };
      })
      else import_nested (world.new_uuid m.next)
          (next_id (λ (r : CollectionRow). r.rowid) db.collections) c (insert_collection c m)

  unfoldable pub import_collections : List (ExportedCollection F) → Merge F → Attempt (Merge F)
  import_collections [] m = done m
  import_collections (c ∷ cs) m = import_collection c m >>= import_collections cs

  unfoldable pub import_node_peer : ExportedNodePeer → Merge F → Merge F
  import_node_peer p m =
      let db = m.tables in
      let counts = m.report in
      if contains m.known_peer_urls p.url
      then record m {
        report = record counts { node_peers_skipped = counts.node_peers_skipped + 1 };
      }
      else record m {
        tables = record db {
          node_peers =
              db.node_peers
              ++ record {
                id = next_id (λ (r : PeerRow). r.id) db.node_peers;
                url = p.url;
                name = p.name;
                enabled = p.enabled;
                created_at = world.now_unix;
              }
                ∷ [];
        };
        known_peer_urls = m.known_peer_urls ++ p.url ∷ [];
        report = record counts { node_peers_imported = counts.node_peers_imported + 1 };
      }

  unfoldable pub import_node_peers : List ExportedNodePeer → Merge F → Merge F
  import_node_peers [] m = m
  import_node_peers (p ∷ ps) m = import_node_peers ps (import_node_peer p m)
