-- ===== src/Index/Turns.antt =====
-- src/index/indexer.rs: the counter of jobs in flight, over one turn of the indexer.
use community_search.Base.{
  ℕ, ◌+◌, ◌%◌, ◌<◌, ◌≡◌, refl, sym, ap, ◌∙◌, Bool, true, false, Option, none, some, List, [], ◌∷◌,
  ◌++◌, Text, length, length-append, arith, ltb, leb, if◌then◌else◌, if-cases, some-cases,
}
use community_search.Crawler.{CrawlResult, ok, err, tantivy}
use community_search.Crawler.UrlClass.{UrlApi}
use community_search.Crawler.Pages.{IndexedEntry}
use community_search.Crawler.Page.{IndexJob}
use community_search.Index.{
  Tantivy, Writer, Indexer, Message, upsert_received, upserts_closed, deletes_received,
  deletes_closed, deadline_reached, Outcome, running, ended, upsert, delete_url, delete_urls,
  commit, settle, flush, restart, on_upsert, finish, turn, batch_size, document_of, entry_of,
}

abbrev pub IsNoUpsert : Message → Type 0
IsNoUpsert (upsert_received job) = ⊥
IsNoUpsert _ = Unit

module _ {I : Type 0} where
  -- `ahead` jobs are counted that the writer does not have.
  pub record IsCounted (ahead : ℕ) (st : Indexer I) : Type 0 where
    pub inflight : st.inflight ≡ (ahead + st.pending) % 18446744073709551616
    pub pending : st.pending ≡ length st.writer.journal

  -- What a turn leaves: one that goes on has less than a batch, and one that ends well has nothing.
  abbrev pub Leaves : ℕ → Outcome (Indexer I) → Type 0
  Leaves ahead (running st) = IsCounted ahead st × (st.pending < batch_size)
  Leaves ahead (ended (ok u) st) =
      (st.inflight ≡ ahead % 18446744073709551616) × (length st.writer.journal ≡ 0)
  Leaves ahead (ended (err e) st) = Unit

  abbrev Settles : ℕ → CrawlResult Unit × Indexer I → Type 0
  Settles ahead (ok u, st) =
      (st.inflight ≡ ahead % 18446744073709551616) × (length st.writer.journal ≡ 0)
  Settles ahead (err e, st) = Unit

module _ {I Url : Type 0} (api : UrlApi Url) (engine : Tantivy I) where
  settle-Settles :
      (db_answers : Bool) (journal : List IndexedEntry) (ahead : ℕ) (st : Indexer I)
      → st.inflight ≡ (ahead + st.pending) % 18446744073709551616
      → st.pending ≡ length journal
      → st.pending < 51
      → length st.writer.journal ≡ 0
      → Settles ahead (settle api engine db_answers journal st)
  unfolding settle
  settle-Settles db_answers [] ahead st counted h small empty = (omega (arith, counted, h), empty)
  settle-Settles true (e ∷ es) ahead st counted h small empty = (omega (arith, counted, h), empty)
  settle-Settles false (e ∷ es) ahead st counted h small empty = tt

  flush-Settles :
      (db_answers : Bool) (ahead : ℕ) (st : Indexer I)
      → IsCounted ahead st
      → st.pending < 51
      → Settles ahead (flush api engine db_answers st)
  unfolding flush commit
  flush-Settles db_answers ahead st v small =
      some-cases
        (λ (c : Option (List IndexedEntry) × Writer I). Settles {I = I} ahead (elim c.0 [
          | none ↦ (err tantivy, st)
          | some journal ↦ settle api engine db_answers journal (record st { writer = c.1 })
        ]))
        (engine.commit st.writer.index) (λ fails. tt)
        (λ index commits.
          settle-Settles db_answers st.writer.journal ahead
            (record st { writer = record { index = index; journal = [] } }) v.inflight v.pending
            small refl)

  restart-Leaves :
      (now ahead : ℕ) (r : CrawlResult Unit × Indexer I)
      → Settles ahead r
      → Leaves ahead (restart api engine now r)
  restart-Leaves now ahead (ok u, st) h =
      (record { inflight = omega (arith, h.0); pending = sym h.1 }, omega arith)
  restart-Leaves now ahead (err e, st) h = tt

  finish-Leaves :
      (ahead : ℕ) (r : CrawlResult Unit × Indexer I)
      → Settles ahead r
      → Leaves ahead (finish api engine r)
  finish-Leaves ahead (ok u, st) h = h
  finish-Leaves ahead (err e, st) h = tt

  journal-delete_urls :
      (urls : List Text) (w : Writer I) → (delete_urls api engine urls w).journal ≡ w.journal
  unfolding delete_urls delete_url
  journal-delete_urls [] w = refl
  journal-delete_urls (u ∷ urls) w = journal-delete_urls urls _

  pub on_upsert-Leaves :
      (db_answers : Bool) (now ahead : ℕ) (job : IndexJob) (st : Indexer I)
      → IsCounted (ahead + 1) st
      → st.pending < batch_size
      → Leaves ahead (on_upsert api engine db_answers now job st)
  unfolding on_upsert upsert
  on_upsert-Leaves db_answers now ahead job st v small =
      some-cases
        (λ (u : CrawlResult Unit × Writer I). Leaves ahead (elim u.0 [
          | err e ↦ ended (err e) (record st { writer = u.1 })
          | ok _ ↦ after_upsert (record st { writer = u.1; pending = st.pending + 1 })
        ]))
        (engine.add_document (document_of api engine job)
          (engine.delete_term job.url st.writer.index))
        (λ fails. tt)
        (λ index adds.
          after_upsert-Leaves
            (record st {
              writer = record {
                index = index;
                journal = st.writer.journal ++ entry_of api engine job ∷ [];
              };
              pending = st.pending + 1;
            })
            (record {
              inflight = omega (arith, v.inflight);
              pending = omega (
                arith,
                v.pending,
                length-append st.writer.journal (entry_of api engine job ∷ []),
              );
            })
            (omega (arith)))
    where
      after_upsert : Indexer I → Outcome (Indexer I)
      after_upsert taken =
          if leb batch_size taken.pending
          then restart api engine now (flush api engine db_answers taken)
          else running taken

      after_upsert-Leaves :
          (taken : Indexer I)
          → IsCounted ahead taken
          → taken.pending < 51
          → Leaves ahead (after_upsert taken)
      after_upsert-Leaves taken counted small' =
          if-cases (Leaves ahead) (leb batch_size taken.pending)
            (λ full.
              restart-Leaves now ahead _ (flush-Settles db_answers ahead taken counted small'))
            (λ room. (counted, ground arith))

  pub other-Leaves :
      (message : Message) (db_answers : Bool) (now ahead : ℕ) (st : Indexer I)
      → IsNoUpsert message
      → IsCounted ahead st
      → st.pending < batch_size
      → Leaves ahead (turn api engine db_answers now message st)
  unfolding turn
  other-Leaves (upsert_received job) db_answers now ahead st quiet v small = absurd quiet
  other-Leaves upserts_closed db_answers now ahead st quiet v small =
      finish-Leaves ahead _ (flush-Settles db_answers ahead st v (omega arith))
  other-Leaves (deletes_received urls) db_answers now ahead st quiet v small =
      if-cases (Leaves ahead) st.delete_open
        (λ live. restart-Leaves now ahead _ (
          flush-Settles db_answers ahead
            (record st { writer = delete_urls api engine urls st.writer })
            (record {
              inflight = v.inflight;
              pending = v.pending ∙ ap length (sym (journal-delete_urls urls st.writer));
            })
            (omega arith)))
        (λ closed. (v, small))
  other-Leaves deletes_closed db_answers now ahead st quiet v small =
      (record { inflight = v.inflight; pending = v.pending }, small)
  other-Leaves deadline_reached db_answers now ahead st quiet v small =
      if-cases (Leaves ahead) (ltb 0 st.pending)
        (λ some. restart-Leaves now ahead _ (flush-Settles db_answers ahead st v (omega arith)))
        (λ nothing. (record { inflight = v.inflight; pending = v.pending }, small))
