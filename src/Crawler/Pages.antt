-- ===== src/Crawler/Pages.antt =====
-- src/db/crawled_pages.rs: what is known of each page that was crawled.
--
-- The table has one row for each pair of a collection and a URL; the `id` of a row is left out,
-- since nothing reads it. Whether SQLite answers is for the callers to say.
pub mod Journal
use community_search.Base.{ℕ, Option, none, some, List, [], ◌∷◌, Text, eq_text, if◌then◌else◌}
use community_search.Base.Table.{Table, lookup, insert, text_pair_key}

pub record CrawledPageRow : Type 0 where
  pub collection_id : Text
  pub crawl_target_id : Text
  pub url : Text
  pub etag : Option Text
  pub last_modified : Option Text
  pub content_hash : Option Text
  pub last_status : Option ℕ
  pub last_crawled_at : ℕ
  pub indexed_content_hash : Option Text

abbrev pub PagesTable : Type 0
PagesTable = Table (Text × Text) CrawledPageRow

unfoldable pub get_by_url : PagesTable → Text → Text → Option CrawledPageRow
get_by_url t collection_id url = lookup (collection_id, url) t

-- An INSERT does not name the column `indexed_content_hash`; the UPDATE keeps it.
abbrev pub journaled : Option CrawledPageRow → Option Text
journaled none = none
journaled (some old) = old.indexed_content_hash

unfoldable pub upsert : PagesTable → CrawledPageRow → PagesTable
upsert t row =
    insert (row.collection_id, row.url)
      (record row { indexed_content_hash = journaled (lookup (row.collection_id, row.url) t) }) t

pub record IndexedEntry : Type 0 where
  pub collection_id : Text
  pub url : Text
  pub content_hash : Text

-- The UPDATE of one entry: no row, no change.
unfoldable pub mark_indexed : PagesTable → IndexedEntry → PagesTable
mark_indexed t e = elim (lookup (e.collection_id, e.url) t) [
  | none ↦ t
  | some row ↦
      insert (e.collection_id, e.url) (record row { indexed_content_hash = some e.content_hash }) t
]

unfoldable pub mark_indexed_batch : PagesTable → List IndexedEntry → PagesTable
mark_indexed_batch t [] = t
mark_indexed_batch t (e ∷ entries) = mark_indexed_batch (mark_indexed t e) entries

-- `ORDER BY id` is the order of the table.
unfoldable pub list_by_target : PagesTable → Text → List CrawledPageRow
list_by_target [] crawl_target_id = []
list_by_target ((k, row) ∷ t) crawl_target_id =
    let rest = list_by_target t crawl_target_id in
    if eq_text row.crawl_target_id crawl_target_id then row ∷ rest else rest
