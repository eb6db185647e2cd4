-- ===== src/Transfer/Handler/Framed.antt =====
-- src/api/admin/export_import.rs: that what is nested under a collection leaves the collections, the
-- peers and the mappings alone.
use community_search.Base.{
  ℕ, ◌≡◌, Option, none, some, Holds, Holds-chain, Holds-guard, List, [], ◌∷◌, Text,
}
use community_search.Transfer.{
  CrawledPage, ExportedCrawlTarget, ExportedDocument, ExportedOutlinkHostSuggestion,
  ExportedRankingConfig, ExportedCollection, CollectionRow, PeerRow, CollectionPeerRow,
}
use community_search.Transfer.Import.{
  Merge, World, import_page, import_pages, insert_target, import_targets, import_config,
  import_host, import_hosts, queue_documents, import_nested,
}

-- The part of the merge that is not nested under a collection.
pub record Frame (F : Type 0) : Type 0 where
  pub collections : List CollectionRow
  pub names : List Text
  pub node_peers : List PeerRow
  pub urls : List Text
  pub mappings : List (CollectionPeerRow F)

module _ {F : Type 0} where
  abbrev pub frame : Merge F → Frame F
  frame m = record {
    collections = m.tables.collections;
    names = m.known_collection_names;
    node_peers = m.tables.node_peers;
    urls = m.known_peer_urls;
    mappings = m.tables.collection_peers;
  }

  module _ (world : World) (f : Frame F) where
    abbrev IsFramed : Merge F → Type 0
    IsFramed m = frame m ≡ f

    import_page-IsFramed :
        (collection_id target_id : Text) (p : CrawledPage) (m : Merge F)
        → IsFramed m
        → Holds IsFramed (import_page world collection_id target_id p m)
    unfolding import_page
    import_page-IsFramed collection_id target_id p m h = Holds-guard IsFramed _ _ _ h

    import_pages-IsFramed :
        (collection_id target_id : Text) (ps : List CrawledPage) (m : Merge F)
        → IsFramed m
        → Holds IsFramed (import_pages world collection_id target_id ps m)
    unfolding import_pages
    import_pages-IsFramed collection_id target_id [] m h = h
    import_pages-IsFramed collection_id target_id (p ∷ ps) m h =
        Holds-chain IsFramed _ _ (import_page-IsFramed collection_id target_id p m h)
          (import_pages-IsFramed collection_id target_id ps)

    insert_target-IsFramed :
        (collection_id : Text) (t : ExportedCrawlTarget) (m : Merge F)
        → IsFramed m
        → Holds IsFramed (insert_target world collection_id t m)
    unfolding insert_target
    insert_target-IsFramed collection_id t m h = Holds-guard IsFramed _ _ _ h

    import_targets-IsFramed :
        (collection_id : Text) (ts : List ExportedCrawlTarget) (m : Merge F)
        → IsFramed m
        → Holds IsFramed (import_targets world collection_id ts m)
    unfolding import_targets
    import_targets-IsFramed collection_id [] m h = h
    import_targets-IsFramed collection_id (t ∷ ts) m h =
        Holds-chain IsFramed _ _ (insert_target-IsFramed collection_id t m h) (λ m1 h1.
          Holds-chain IsFramed _ _ (import_pages-IsFramed collection_id _ t.crawled_pages m1 h1)
            (import_targets-IsFramed collection_id ts))

    import_config-IsFramed :
        (rowid : ℕ) (config : Option (ExportedRankingConfig F)) (m : Merge F)
        → IsFramed m
        → Holds IsFramed (import_config world rowid config m)
    unfolding import_config
    import_config-IsFramed rowid none m h = h
    import_config-IsFramed rowid (some config) m h = Holds-guard IsFramed _ _ _ h

    import_host-IsFramed :
        (collection_id : Text) (o : ExportedOutlinkHostSuggestion) (m : Merge F)
        → IsFramed m
        → Holds IsFramed (import_host world collection_id o m)
    unfolding import_host
    import_host-IsFramed collection_id o m h = Holds-guard IsFramed _ _ _ h

    import_hosts-IsFramed :
        (collection_id : Text) (os : List ExportedOutlinkHostSuggestion) (m : Merge F)
        → IsFramed m
        → Holds IsFramed (import_hosts world collection_id os m)
    unfolding import_hosts
    import_hosts-IsFramed collection_id [] m h = h
    import_hosts-IsFramed collection_id (o ∷ os) m h =
        Holds-chain IsFramed _ _ (import_host-IsFramed collection_id o m h)
          (import_hosts-IsFramed collection_id os)

    queue_documents-IsFramed :
        (collection_id name : Text) (ds : List ExportedDocument) (m : Merge F)
        → IsFramed m
        → IsFramed (queue_documents world collection_id name ds m)
    unfolding queue_documents
    queue_documents-IsFramed collection_id name [] m h = h
    queue_documents-IsFramed collection_id name (d ∷ ds) m h =
        queue_documents-IsFramed collection_id name ds _ h

    pub import_nested-IsFramed :
        (collection_id : Text) (rowid : ℕ) (e : ExportedCollection F) (m : Merge F)
        → IsFramed m
        → Holds IsFramed (import_nested world collection_id rowid e m)
    unfolding import_nested
    import_nested-IsFramed collection_id rowid e m h =
        Holds-chain IsFramed _ _ (import_targets-IsFramed collection_id e.crawl_targets m h)
          (λ m1 h1.
            Holds-chain IsFramed _ _ (import_config-IsFramed rowid e.ranking_config m1 h1) (λ m2 h2.
              Holds-chain IsFramed _ _
                (import_hosts-IsFramed collection_id e.outlink_host_suggestions m2 h2)
                (queue_documents-IsFramed collection_id e.name e.documents)))
