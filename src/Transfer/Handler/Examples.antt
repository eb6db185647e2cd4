-- ===== src/Transfer/Handler/Examples.antt =====
-- src/api/admin/export_import.rs: a dump of one collection with a page and a document, a node peer and
-- a mapping, imported into an empty node. Weights are natural numbers.
use community_search.Base.{
  ℕ, ◌≡◌, refl, true, false, none, some, List, [], ◌∷◌, text, eq_text, is_empty, Attempt, done,
  failed,
}
use community_search.Base.Table.{next_id}
use community_search.Transfer.{
  CrawledPage, ExportedCrawlTarget, ExportedDocument, ExportedCollection, ExportEnvelope,
  format_version,
}
use community_search.Transfer.Import.{
  ImportReport, Merge, World, import_collections, import_collection, any_row, insert_collection,
  import_nested, import_targets, insert_target, import_pages, import_page, import_config,
  import_hosts, queue_documents, doc_content_hash, import_node_peers, import_node_peer,
}
use community_search.Transfer.Handler.{
  Node, ok_json, internal_error, start, merge_envelope, apply_envelope_inner, settle, handle_import,
  existing_collection_names, existing_node_peer_urls, import_collection_peers,
  import_collection_peer, insert_collection_peer, node_peer_id, apply_envelope, respond, send_jobs,
}
use community_search.Transfer.Handler.Failure.{healthy, IsAtomic, handle_import-IsAtomic}
use community_search.Transfer.Handler.Report.{IsReported, handle_import-IsReported}
use community_search.Transfer.Handler.Twice.{all_skipped, handle_import-repeats}

abbrev world : World
world = record {
  now_rfc3339 = text "2026-01-01T00:00:00Z";
  now_unix = 1000;
  new_uuid = λ n. n ∷ [];
  sha256_hex = λ body. body;
}

abbrev empty_node : Node ℕ
empty_node = record {
  tables = record {
    collections = [];
    crawl_targets = [];
    crawled_pages = [];
    ranking_config = [];
    outlink_hosts = [];
    node_peers = [];
    collection_peers = [];
  };
  foreign_keys = true;
  indexing_inflight = 3;
  sent = [];
}

abbrev page : CrawledPage
page = record {
  url = text "u/a";
  etag = none;
  last_modified = none;
  content_hash = none;
  last_status = some 200;
  last_crawled_at = 7;
  indexed_content_hash = none;
}

abbrev target : ExportedCrawlTarget
target = record {
  url_prefix = text "u";
  recrawl_interval_s = 60;
  recrawl_interval_secs = 60;
  enabled = 1;
  crawl_delay_secs = none;
  created_at = [];
  crawled_pages = page ∷ [];
}

abbrev document : ExportedDocument
document = record { url = text "u/a"; title = text "A"; body = text "b"; indexed_at = 9 }

abbrev collection_with : List ExportedCrawlTarget → ExportedCollection ℕ
collection_with targets = record {
  name = text "c";
  description = [];
  created_at = [];
  updated_at = [];
  crawl_targets = targets;
  ranking_config = none;
  documents = document ∷ [];
  outlink_host_suggestions = [];
}

abbrev dump : List ExportedCrawlTarget → ExportEnvelope ℕ
dump targets = record {
  format_version = format_version;
  exported_at = [];
  self_url = [];
  collections = collection_with targets ∷ [];
  node_peers = record { url = text "p"; name = none; enabled = 1 } ∷ [];
  collection_peers =
      (record {
        local_collection = text "c";
        node_peer_url = text "p";
        remote_collection = text "d";
        source_weight = 2;
        enabled = 1;
      })
      ∷ [];
}

abbrev one_each : ImportReport
one_each = record {
  collections_imported = 1;
  collections_skipped = 0;
  crawl_targets_imported = 1;
  crawled_pages_imported = 1;
  documents_queued = 1;
  outlink_host_suggestions_imported = 0;
  node_peers_imported = 1;
  node_peers_skipped = 0;
  collection_peers_imported = 1;
  collection_peers_skipped = 0;
}

abbrev unwrap_or : Merge ℕ → Attempt (Merge ℕ) → Merge ℕ
unwrap_or m (failed m1) = m
unwrap_or m (done m1) = m1

abbrev left_of : Attempt (Merge ℕ) → Merge ℕ
left_of (failed m) = m
left_of (done m) = m

abbrev merged : Merge ℕ
merged =
    unwrap_or (start empty_node.tables 0)
      (merge_envelope world (dump (target ∷ [])) (start empty_node.tables 0))

merges : merge_envelope world (dump (target ∷ [])) (start empty_node.tables 0) ≡ done merged
unfolding merge_envelope start existing_collection_names existing_node_peer_urls import_collections
    import_collection any_row insert_collection import_nested import_targets insert_target
    import_pages import_page import_config import_hosts queue_documents doc_content_hash
    import_node_peers import_node_peer import_collection_peers import_collection_peer
    insert_collection_peer node_peer_id next_id eq_text is_empty
merges = refl

abbrev broken : Merge ℕ
broken = left_of (merge_envelope world (dump (target ∷ target ∷ [])) (start empty_node.tables 0))

fails :
    merge_envelope world (dump (target ∷ target ∷ [])) (start empty_node.tables 0) ≡ failed broken
unfolding merge_envelope start existing_collection_names existing_node_peer_urls import_collections
    import_collection any_row insert_collection import_nested import_targets insert_target
    import_pages import_page import_config import_hosts queue_documents doc_content_hash
    import_node_peers import_node_peer import_collection_peers import_collection_peer
    insert_collection_peer node_peer_id next_id eq_text is_empty
fails = refl

imports : handle_import world healthy (λ n. true) (some (dump (target ∷ []))) 0 empty_node ≡ (
  (handle_import world healthy (λ n. true) (some (dump (target ∷ []))) 0 empty_node).0,
  ok_json one_each,
)
unfolding merge_envelope start existing_collection_names existing_node_peer_urls import_collections
    import_collection any_row insert_collection import_nested import_targets insert_target
    import_pages import_page import_config import_hosts queue_documents doc_content_hash
    import_node_peers import_node_peer import_collection_peers import_collection_peer
    insert_collection_peer node_peer_id next_id eq_text is_empty handle_import apply_envelope
    apply_envelope_inner settle respond send_jobs
imports = refl

handle_import-IsReported_example :
    IsReported healthy
      (dump (target ∷ []))
      empty_node
      (handle_import world healthy (λ n. true) (some (dump (target ∷ []))) 0 empty_node).0
      one_each
handle_import-IsReported_example =
    handle_import-IsReported world healthy (λ n. true) (dump (target ∷ [])) 0 empty_node _ one_each
      imports

-- The constraint fails after rows were written; SQLite refuses COMMIT; the channel is closed.
rolls_back :
    (let r =
        handle_import world healthy (λ n. true) (some (dump (target ∷ target ∷ []))) 0 empty_node in
      r ≡ (empty_node, internal_error))
    × (let io = record healthy { commits = false } in
        let r = handle_import world io (λ n. true) (some (dump (target ∷ []))) 0 empty_node in
        r ≡ (empty_node, internal_error))
unfolding merge_envelope start existing_collection_names existing_node_peer_urls import_collections
    import_collection any_row insert_collection import_nested import_targets insert_target
    import_pages import_page import_config import_hosts queue_documents doc_content_hash
    import_node_peers import_node_peer import_collection_peers import_collection_peer
    insert_collection_peer node_peer_id next_id eq_text is_empty handle_import apply_envelope
    apply_envelope_inner settle respond send_jobs
rolls_back = (refl, refl)

handle_import-IsAtomic_example :
    IsAtomic world
      (dump (target ∷ target ∷ []))
      0
      empty_node
      (handle_import world healthy (λ n. false) (some (dump (target ∷ target ∷ []))) 0 empty_node)
handle_import-IsAtomic_example =
    handle_import-IsAtomic world healthy (λ n. false) (dump (target ∷ target ∷ [])) 0 empty_node
      refl refl

-- The channel was closed at first: the document is not sent later either.
handle_import-repeats_example :
    (let after =
        handle_import world healthy (λ n. false) (some (dump (target ∷ []))) 0 empty_node in
      handle_import world healthy (λ n. true) (some (dump (target ∷ []))) 1 after.0
      ≡ (after.0, ok_json (all_skipped (dump (target ∷ [])))))
handle_import-repeats_example =
    handle_import-repeats world (λ n. false) (λ n. true) (dump (target ∷ [])) 0 1 empty_node merged
      refl merges
