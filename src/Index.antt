-- ===== src/Index.antt =====
-- src/index/writer.rs and src/index/indexer.rs: the index writer and the task that drives it.
--
-- tantivy is a parameter: the operations of its writer that the source uses. `select!` is an event,
-- with the time at which its arm ends. An indexer that has ended keeps its last state.
pub mod Inflight
pub mod Turns
mod Examples
use community_search.Base.{
  ℕ, ◌+◌, ◌-◌, ◌%◌, Bool, true, false, Option, none, some, List, [], ◌∷◌, ◌++◌, map, Text, length,
  ltb, leb, if◌then◌else◌,
}
use community_search.Crawler.{CrawlError, CrawlResult, ok, err, other, tantivy, from_secs}
use community_search.Crawler.UrlClass.{UrlApi, to_ascii_lowercase}
use community_search.Crawler.Pages.{PagesTable, IndexedEntry, mark_indexed_batch}
use community_search.Crawler.Page.{IndexJob, fetch_add, fetch_sub}

-- CHANNEL_CAPACITY
abbrev pub channel_capacity : ℕ
channel_capacity = 256

-- BATCH_SIZE
abbrev pub batch_size : ℕ
batch_size = 50

-- MAX_AGE
abbrev pub max_age : ℕ
max_age = from_secs 5

-- What `add_document` is given.
pub record TantivyDoc : Type 0 where
  pub collection : Text
  pub url : Text
  pub host : Text
  pub title : Text
  pub body : Text
  pub indexed_at : ℕ

-- What the source uses of `tantivy::IndexWriter`, on a state `I`; `none` is an error.
pub record Tantivy (I : Type 0) : Type 0 where
  pub delete_term : Text → I → I
  pub add_document : TantivyDoc → I → Option I
  pub commit : I → Option I

-- `IndexWriter`; its journal entries are what the batch update of the database takes.
pub record Writer (I : Type 0) : Type 0 where
  pub index : I
  pub journal : List IndexedEntry

-- The variables of `run`, the database, and the shared counter.
pub record Indexer (I : Type 0) : Type 0 where
  pub writer : Writer I
  pub pending : ℕ
  pub deadline : ℕ
  pub delete_open : Bool
  pub pages : PagesTable
  pub inflight : ℕ

-- What `select!` may see.
pub data Message : Type 0 where
  upsert_received : IndexJob → Message
  upserts_closed : Message
  deletes_received : List Text → Message
  deletes_closed : Message
  deadline_reached : Message

-- A turn of the loop goes on, or the task ends.
pub data Outcome (S : Type 0) : Type 0 where
  running : S → Outcome S
  ended : CrawlResult Unit → S → Outcome S

module _ {I Url : Type 0} (api : UrlApi Url) (engine : Tantivy I) where
  -- The lower-case host of the URL, or the empty text.
  unfoldable pub document_host : Text → Text
  document_host url = elim (api.parse url) [
    | none ↦ []
    | some u ↦ elim (api.host_str u) [ none ↦ [] | some host ↦ to_ascii_lowercase host ]
  ]

  abbrev pub document_of : IndexJob → TantivyDoc
  document_of job = record {
    collection = job.collection_name;
    url = job.url;
    host = document_host job.url;
    title = job.title;
    body = job.body;
    indexed_at = job.indexed_at;
  }

  abbrev pub entry_of : IndexJob → IndexedEntry
  entry_of job = record {
    collection_id = job.collection_id;
    url = job.url;
    content_hash = job.content_hash;
  }

  unfoldable pub upsert : IndexJob → Writer I → CrawlResult Unit × Writer I
  upsert job w =
      let deleted = engine.delete_term job.url w.index in
      elim (engine.add_document (document_of job) deleted) [
        | none ↦ (err tantivy, record w { index = deleted })
        | some index ↦ (ok tt, record { index = index; journal = w.journal ++ entry_of job ∷ [] })
      ]

  unfoldable pub delete_url : Text → Writer I → Writer I
  delete_url url w = record w { index = engine.delete_term url w.index }

  unfoldable pub delete_urls : List Text → Writer I → Writer I
  delete_urls [] w = w
  delete_urls (u ∷ urls) w = delete_urls urls (delete_url u w)

  -- On an error the journal is kept.
  unfoldable pub commit : Writer I → Option (List IndexedEntry) × Writer I
  commit w = elim (engine.commit w.index) [
    | none ↦ (none, w)
    | some index ↦ (some w.journal, record { index = index; journal = [] })
  ]

  -- The journal of a commit goes to the database, if it answers.
  unfoldable pub settle : Bool → List IndexedEntry → Indexer I → CrawlResult Unit × Indexer I
  settle db_answers [] st = (ok tt, st)
  settle db_answers (e ∷ es) st =
      let counted : Indexer I = record st { inflight = fetch_sub st.inflight (length (e ∷ es)) } in
      if db_answers
      then (ok tt, record counted { pages = mark_indexed_batch st.pages (e ∷ es) })
      else (err other, counted)

  unfoldable pub flush : Bool → Indexer I → CrawlResult Unit × Indexer I
  flush db_answers st =
      let committed = commit st.writer in
      elim committed.0 [
        | none ↦ (err tantivy, st)
        | some journal ↦ settle db_answers journal (record st { writer = committed.1 })
      ]

  -- `flush(…)?`, then the reset of `pending` and of the deadline.
  abbrev pub restart : ℕ → CrawlResult Unit × Indexer I → Outcome (Indexer I)
  restart now (ok u, st) = running (record st { pending = 0; deadline = now + max_age })
  restart now (err e, st) = ended (err e) st

  unfoldable pub on_upsert : Bool → ℕ → IndexJob → Indexer I → Outcome (Indexer I)
  on_upsert db_answers now job st =
      let written = upsert job st.writer in
      elim written.0 [
        | err e ↦ ended (err e) (record st { writer = written.1 })
        | ok u ↦
            let taken : Indexer I = record st { writer = written.1; pending = st.pending + 1 } in
            if leb batch_size taken.pending
            then restart now (flush db_answers taken)
            else running taken
      ]

  abbrev pub finish : CrawlResult Unit × Indexer I → Outcome (Indexer I)
  finish (ok u, st) = ended (ok tt) st
  finish (err e, st) = ended (err e) st

  -- One turn of the loop. The arm for deletes is off once their channel is closed.
  unfoldable pub turn : Bool → ℕ → Message → Indexer I → Outcome (Indexer I)
  turn db_answers now (upsert_received job) st = on_upsert db_answers now job st
  turn db_answers now upserts_closed st = finish (flush db_answers st)
  turn db_answers now (deletes_received urls) st =
      if st.delete_open
      then restart now (flush db_answers (record st { writer = delete_urls urls st.writer }))
      else running st
  turn db_answers now deletes_closed st = running (record st { delete_open = false })
  turn db_answers now deadline_reached st =
      if ltb 0 st.pending
      then restart now (flush db_answers st)
      else running (record st { deadline = now + max_age })
