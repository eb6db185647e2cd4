-- ===== src/Transfer/Handler/Report.antt =====
-- src/api/admin/export_import.rs: that a successful import reports what it did.
use community_search.Base.{
  ℕ, ◌+◌, ◌%◌, ◌≡◌, refl, sym, ap, subst, ◌∙◌, Bool, true, some, done, Holds-done, List, [], ◌∷◌,
  ◌++◌, length, if-cases, arith,
}
use community_search.Crawler.Page.{IndexJob, fetch_add}
use community_search.Transfer.{ExportEnvelope}
use community_search.Transfer.Import.{ImportReport, Merge, World}
use community_search.Transfer.Handler.{
  Node, Io, Response, ok_json, start, merge_envelope, send_jobs, handle_import,
}
use community_search.Transfer.Handler.Tally.{merge_envelope-IsCounted}
use community_search.Transfer.Handler.Failure.{committed, handle_import-cases}
use community_search.Transfer.Handler.Counted.{Grows, Counted, IsCounted}
use mathlib.Core.List.{append-nil, append_assoc}

-- The counter after some jobs are sent.
counted_up : ℕ → List IndexJob → ℕ
counted_up n [] = n
counted_up n (job ∷ jobs) = counted_up (fetch_add n 1) jobs

counted_up_lem :
    (n : ℕ) (jobs : List IndexJob)
    → counted_up n jobs % 18446744073709551616 ≡ (n + length jobs) % 18446744073709551616
unfolding counted_up
counted_up_lem n [] = omega arith
counted_up_lem n (job ∷ jobs) = omega (arith, counted_up_lem (fetch_add n 1) jobs)

module _ {F : Type 0} where
  abbrev with_sent : Node F → ℕ → List IndexJob → Node F
  with_sent s n jobs = record s { indexing_inflight = n; sent = jobs }

  with_sent_congr :
      (s : Node F) (a b : ℕ) (xs ys : List IndexJob)
      → a ≡ b
      → xs ≡ ys
      → with_sent s a xs ≡ with_sent s b ys
  with_sent_congr s a b xs ys e f = ap (λ n. with_sent s n xs) e ∙ ap (λ jobs. with_sent s b jobs) f

  -- What was sent, where the channel took everything.
  send_jobs_lem :
      (accepts : ℕ → Bool) (jobs : List IndexJob) (s : Node F)
      → (send_jobs accepts jobs s).1 ≡ true
      → (send_jobs accepts jobs s).0
        ≡ with_sent s (counted_up s.indexing_inflight jobs) (s.sent ++ jobs)
  unfolding send_jobs counted_up
  send_jobs_lem accepts [] s h = with_sent_congr s _ _ _ _ refl (sym (append-nil s.sent))
  send_jobs_lem accepts (job ∷ jobs) s h =
      if-cases
        (λ (r : Node F × Bool).
          r.1 ≡ true
          → r.0 ≡ with_sent s (counted_up s.indexing_inflight (job ∷ jobs)) (s.sent ++ job ∷ jobs))
        (accepts (length s.sent))
        (λ _ k.
          send_jobs_lem accepts jobs _ k
          ∙ with_sent_congr s _ _ _ _ refl (append_assoc s.sent (job ∷ []) jobs))
        (λ _ k. cc) h

  -- That all tables have grown by the rows that the report counts, which adds up to the envelope, and
  -- that the documents it counts were sent, and are in flight.
  pub record IsReported (io : Io) (env : ExportEnvelope F) (s s' : Node F) (report : ImportReport)
      : Type 0 where
    pub of_collections :
        Counted s.tables.collections
          (length env.collections)
          s'.tables.collections
          report.collections_imported
          report.collections_skipped
    pub of_peers :
        Counted s.tables.node_peers
          (length env.node_peers)
          s'.tables.node_peers
          report.node_peers_imported
          report.node_peers_skipped
    pub of_mappings :
        Counted s.tables.collection_peers
          (length env.collection_peers)
          s'.tables.collection_peers
          report.collection_peers_imported
          report.collection_peers_skipped
    pub of_targets :
        Grows s.tables.crawl_targets s'.tables.crawl_targets report.crawl_targets_imported
    pub of_pages :
        Grows s.tables.crawled_pages s'.tables.crawled_pages report.crawled_pages_imported
    pub of_hosts :
        Grows s.tables.outlink_hosts s'.tables.outlink_hosts
          report.outlink_host_suggestions_imported
    pub of_jobs : Grows s.sent s'.sent report.documents_queued
    pub in_flight :
        s'.indexing_inflight % 18446744073709551616
        ≡ (s.indexing_inflight + report.documents_queued) % 18446744073709551616
    pub enforced : s'.foreign_keys ≡ io.pragma_on

  sent-IsReported :
      (world : World) (io : Io) (env : ExportEnvelope F) (next : ℕ) (s : Node F) (m : Merge F)
      → merge_envelope world env (start s.tables next) ≡ done m
      → IsReported io env s
          (with_sent (committed io s m) (counted_up s.indexing_inflight m.jobs) (s.sent ++ m.jobs))
          m.report
  sent-IsReported world io env next s m e =
      let h =
        Holds-done
          (IsCounted s.tables (0 + length env.collections) (0 + length env.node_peers)
            (0 + length env.collection_peers))
          _ m e (merge_envelope-IsCounted world s.tables env next) in
      record {
        of_collections = (h.of_collections.0, omega (arith, h.of_collections.1));
        of_peers = (h.of_peers.0, omega (arith, h.of_peers.1));
        of_mappings = (h.of_mappings.0, omega (arith, h.of_mappings.1));
        of_targets = h.nested.of_targets;
        of_pages = h.nested.of_pages;
        of_hosts = h.nested.of_hosts;
        of_jobs = (m.jobs, refl, h.nested.of_jobs);
        in_flight = omega (arith, counted_up_lem s.indexing_inflight m.jobs, h.nested.of_jobs);
        enforced = refl;
      }

  -- A successful import did what its report says: each table has grown, after the rows that it had,
  -- by as many rows as are reported for it; the collections, node peers and collection peers imported
  -- and skipped add up to those of the envelope; the documents reported as queued were sent, and the
  -- counter of jobs in flight has gone up by their number, modulo 2^64; and foreign keys are enforced
  -- exactly if SQLite answered the second pragma.
  pub handle_import-IsReported :
      (world : World) (io : Io) (accepts : ℕ → Bool) (env : ExportEnvelope F) (next : ℕ)
      (s s' : Node F) (report : ImportReport)
      → handle_import world io accepts (some env) next s ≡ (s', ok_json report)
      → IsReported io env s s' report
  handle_import-IsReported world io accepts env next s s' report h =
      subst (λ t. IsReported io env s t report) (ap (λ (r : Node F × Response). r.0) h)
        (handle_import-cases world io accepts env next s
          (λ (r : Node F × Response). r.1 ≡ ok_json report → IsReported io env s r.0 report)
          (λ k. cc) (λ k. cc) (λ k. cc)
          (λ m e.
            if-cases
              (λ (r : Response).
                r ≡ ok_json report
                → IsReported io env s (send_jobs accepts m.jobs (committed io s m)).0 report)
              _
              (λ sent k.
                subst (λ c. IsReported io env s (send_jobs accepts m.jobs (committed io s m)).0 c)
                  (let same : m.report ≡ report = cc in same)
                  (subst (λ t. IsReported io env s t m.report)
                    (sym (send_jobs_lem accepts m.jobs (committed io s m) sent))
                    (sent-IsReported world io env next s m e)))
              (λ _ k. cc))
          (ap (λ (r : Node F × Response). r.1) h))
