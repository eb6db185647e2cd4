-- ===== src/Transfer/Handler/Counted.antt =====
-- src/api/admin/export_import.rs: that the merge only adds rows, and that its report counts them.
use community_search.Base.{
  ℕ, ◌+◌, ◌≡◌, refl, sym, ap, ◌∙◌, Option, none, some, Holds, Holds-chain, Holds-guard, List, [],
  ◌∷◌, ◌++◌, length, length-append, Text, arith,
}
use community_search.Crawler.Page.{IndexJob}
use community_search.Transfer.{
  CrawledPage, ExportedCrawlTarget, ExportedDocument, ExportedOutlinkHostSuggestion,
  ExportedRankingConfig, ExportedCollection, TargetRow, PageRow, ConfigRow, HostRow, Tables,
}
use community_search.Transfer.Import.{
  Merge, World, import_page, import_pages, insert_target, import_targets, import_config,
  import_host, import_hosts, queue_documents, import_nested,
}
use mathlib.Core.List.{append-nil, append_assoc}

-- `ys` is `xs` and `n` more rows after it.
abbrev pub Grows : {A : Type 0} → List A → List A → ℕ → Type 0
Grows {A} xs ys n = (rest : List A) × (ys ≡ xs ++ rest) × (length rest ≡ n)

pub Grows-self : {A : Type 0} (xs : List A) → Grows xs xs 0
Grows-self xs = ([], sym (append-nil xs), refl)

Grows-snoc :
    {A : Type 0} (xs ys : List A) (n : ℕ) (a : A) → Grows xs ys n → Grows xs (ys ++ a ∷ []) (n + 1)
Grows-snoc xs ys n a (rest, e, k) = (
  rest ++ a ∷ [],
  ap (λ ys. ys ++ a ∷ []) e ∙ append_assoc xs rest (a ∷ []),
  omega (arith, length-append rest (a ∷ []), k),
)

-- A table that has grown by the rows imported, when `n` were met.
abbrev pub Counted : {A : Type 0} → List A → ℕ → List A → ℕ → ℕ → Type 0
Counted base n rows imported skipped = Grows base rows imported × (imported + skipped ≡ n)

pub Counted-snoc :
    {A : Type 0} (base : List A) (n : ℕ) (rows : List A) (imported skipped : ℕ) (a : A)
    → Counted base n rows imported skipped
    → Counted base (n + 1) (rows ++ a ∷ []) (imported + 1) skipped
Counted-snoc base n rows imported skipped a h =
    (Grows-snoc base rows imported a h.0, omega (arith, h.1))

pub Counted-skip :
    {A : Type 0} (base : List A) (n : ℕ) (rows : List A) (imported skipped : ℕ)
    → Counted base n rows imported skipped
    → Counted base (n + 1) rows imported (skipped + 1)
Counted-skip base n rows imported skipped h = (h.0, omega (arith, h.1))

module _ {F : Type 0} where
  -- Of what is nested under the collections.
  pub record NestedCounted (db : Tables F) (targets : List TargetRow) (targets_imported : ℕ)
      (pages : List PageRow) (pages_imported : ℕ) (configs : List (ConfigRow F))
      (hosts : List HostRow) (hosts_imported : ℕ) (jobs : List IndexJob) (queued : ℕ) : Type 0 where
    pub of_targets : Grows db.crawl_targets targets targets_imported
    pub of_pages : Grows db.crawled_pages pages pages_imported
    pub of_configs : (n : ℕ) × Grows db.ranking_config configs n
    pub of_hosts : Grows db.outlink_hosts hosts hosts_imported
    pub of_jobs : length jobs ≡ queued

  -- From the tables `db` on, when so many collections, node peers and collection peers were met.
  pub record IsCounted (db : Tables F) (collections peers mappings : ℕ) (m : Merge F) : Type 0 where
    pub of_collections :
        Counted db.collections collections m.tables.collections m.report.collections_imported
          m.report.collections_skipped
    pub of_peers :
        Counted db.node_peers peers m.tables.node_peers m.report.node_peers_imported
          m.report.node_peers_skipped
    pub of_mappings :
        Counted db.collection_peers mappings m.tables.collection_peers
          m.report.collection_peers_imported m.report.collection_peers_skipped
    pub nested :
        NestedCounted db m.tables.crawl_targets m.report.crawl_targets_imported
          m.tables.crawled_pages m.report.crawled_pages_imported m.tables.ranking_config
          m.tables.outlink_hosts m.report.outlink_host_suggestions_imported m.jobs
          m.report.documents_queued

  module _ (world : World) (db : Tables F) (a b c : ℕ) where
    import_page-IsCounted :
        (collection_id target_id : Text) (p : CrawledPage) (m : Merge F)
        → IsCounted db a b c m
        → Holds (IsCounted db a b c) (import_page world collection_id target_id p m)
    unfolding import_page
    import_page-IsCounted collection_id target_id p m h =
        Holds-guard (IsCounted db a b c) _ _ _ (record {
          of_collections = h.of_collections;
          of_peers = h.of_peers;
          of_mappings = h.of_mappings;
          nested = record {
            of_targets = h.nested.of_targets;
            of_pages = Grows-snoc _ _ _ _ h.nested.of_pages;
            of_configs = h.nested.of_configs;
            of_hosts = h.nested.of_hosts;
            of_jobs = h.nested.of_jobs;
          };
        })

    import_pages-IsCounted :
        (collection_id target_id : Text) (ps : List CrawledPage) (m : Merge F)
        → IsCounted db a b c m
        → Holds (IsCounted db a b c) (import_pages world collection_id target_id ps m)
    unfolding import_pages
    import_pages-IsCounted collection_id target_id [] m h = h
    import_pages-IsCounted collection_id target_id (p ∷ ps) m h =
        Holds-chain (IsCounted db a b c) _ _ (import_page-IsCounted collection_id target_id p m h)
          (import_pages-IsCounted collection_id target_id ps)

    insert_target-IsCounted :
        (collection_id : Text) (t : ExportedCrawlTarget) (m : Merge F)
        → IsCounted db a b c m
        → Holds (IsCounted db a b c) (insert_target world collection_id t m)
    unfolding insert_target
    insert_target-IsCounted collection_id t m h = Holds-guard (IsCounted db a b c) _ _ _ (record {
      of_collections = h.of_collections;
      of_peers = h.of_peers;
      of_mappings = h.of_mappings;
      nested = record {
        of_targets = Grows-snoc _ _ _ _ h.nested.of_targets;
        of_pages = h.nested.of_pages;
        of_configs = h.nested.of_configs;
        of_hosts = h.nested.of_hosts;
        of_jobs = h.nested.of_jobs;
      };
    })

    import_targets-IsCounted :
        (collection_id : Text) (ts : List ExportedCrawlTarget) (m : Merge F)
        → IsCounted db a b c m
        → Holds (IsCounted db a b c) (import_targets world collection_id ts m)
    unfolding import_targets
    import_targets-IsCounted collection_id [] m h = h
    import_targets-IsCounted collection_id (t ∷ ts) m h =
        Holds-chain (IsCounted db a b c) _ _ (insert_target-IsCounted collection_id t m h) (λ m1 h1.
          Holds-chain (IsCounted db a b c) _ _
            (import_pages-IsCounted collection_id _ t.crawled_pages m1 h1)
            (import_targets-IsCounted collection_id ts))

    import_config-IsCounted :
        (rowid : ℕ) (config : Option (ExportedRankingConfig F)) (m : Merge F)
        → IsCounted db a b c m
        → Holds (IsCounted db a b c) (import_config world rowid config m)
    unfolding import_config
    import_config-IsCounted rowid none m h = h
    import_config-IsCounted rowid (some config) m h =
        Holds-guard (IsCounted db a b c) _ _ _ (record {
          of_collections = h.of_collections;
          of_peers = h.of_peers;
          of_mappings = h.of_mappings;
          nested = record {
            of_targets = h.nested.of_targets;
            of_pages = h.nested.of_pages;
            of_configs = (h.nested.of_configs.0 + 1, Grows-snoc _ _ _ _ h.nested.of_configs.1);
            of_hosts = h.nested.of_hosts;
            of_jobs = h.nested.of_jobs;
          };
        })

    import_host-IsCounted :
        (collection_id : Text) (o : ExportedOutlinkHostSuggestion) (m : Merge F)
        → IsCounted db a b c m
        → Holds (IsCounted db a b c) (import_host world collection_id o m)
    unfolding import_host
    import_host-IsCounted collection_id o m h = Holds-guard (IsCounted db a b c) _ _ _ (record {
      of_collections = h.of_collections;
      of_peers = h.of_peers;
      of_mappings = h.of_mappings;
      nested = record {
        of_targets = h.nested.of_targets;
        of_pages = h.nested.of_pages;
        of_configs = h.nested.of_configs;
        of_hosts = Grows-snoc _ _ _ _ h.nested.of_hosts;
        of_jobs = h.nested.of_jobs;
      };
    })

    import_hosts-IsCounted :
        (collection_id : Text) (os : List ExportedOutlinkHostSuggestion) (m : Merge F)
        → IsCounted db a b c m
        → Holds (IsCounted db a b c) (import_hosts world collection_id os m)
    unfolding import_hosts
    import_hosts-IsCounted collection_id [] m h = h
    import_hosts-IsCounted collection_id (o ∷ os) m h =
        Holds-chain (IsCounted db a b c) _ _ (import_host-IsCounted collection_id o m h)
          (import_hosts-IsCounted collection_id os)

    queue_documents-IsCounted :
        (collection_id name : Text) (ds : List ExportedDocument) (m : Merge F)
        → IsCounted db a b c m
        → IsCounted db a b c (queue_documents world collection_id name ds m)
    unfolding queue_documents
    queue_documents-IsCounted collection_id name [] m h = h
    queue_documents-IsCounted collection_id name (d ∷ ds) m h =
        queue_documents-IsCounted collection_id name ds _ (record {
          of_collections = h.of_collections;
          of_peers = h.of_peers;
          of_mappings = h.of_mappings;
          nested = record {
            of_targets = h.nested.of_targets;
            of_pages = h.nested.of_pages;
            of_configs = h.nested.of_configs;
            of_hosts = h.nested.of_hosts;
            of_jobs = omega (arith, length-append m.jobs (_ ∷ []), h.nested.of_jobs);
          };
        })

    pub import_nested-IsCounted :
        (collection_id : Text) (rowid : ℕ) (e : ExportedCollection F) (m : Merge F)
        → IsCounted db a b c m
        → Holds (IsCounted db a b c) (import_nested world collection_id rowid e m)
    unfolding import_nested
    import_nested-IsCounted collection_id rowid e m h =
        Holds-chain (IsCounted db a b c) _ _
          (import_targets-IsCounted collection_id e.crawl_targets m h)
          (λ m1 h1.
            Holds-chain (IsCounted db a b c) _ _
              (import_config-IsCounted rowid e.ranking_config m1 h1)
              (λ m2 h2.
                Holds-chain (IsCounted db a b c) _ _
                  (import_hosts-IsCounted collection_id e.outlink_host_suggestions m2 h2)
                  (queue_documents-IsCounted collection_id e.name e.documents)))
