-- ===== src/Crawler/Page/Recrawl.antt =====
-- src/crawler/page.rs and src/db/crawled_pages.rs: when a page is indexed again.
use community_search.Base.{◌≡◌, ◌∙◌, true, some, Text, arith, eq_text_self}
use community_search.Base.Table.{lookup, lookup-insert, text_pair_key}
use community_search.Crawler.{CrawlResult, ok, PageResult}
use community_search.Crawler.UrlClass.{UrlApi}
use community_search.Crawler.Pages.{
  CrawledPageRow, PagesTable, IndexedEntry, journaled, get_by_url, upsert,
}
use community_search.Crawler.Outlinks.{ExamplesJson}
use community_search.Crawler.Page.{
  PageContext, FetchRequest, FreshPage, fresh, Web, World, index_url, content_hash,
}

pub get-upsert :
    (t : PagesTable) (row : CrawledPageRow)
    → (row' : CrawledPageRow) × (get_by_url (upsert t row) row.collection_id row.url ≡ some row')
unfolding get_by_url upsert
get-upsert t row = (
  record row { indexed_content_hash = journaled (lookup (row.collection_id, row.url) t) },
  lookup-insert (row.collection_id, row.url) (row.collection_id, row.url)
        (record row { indexed_content_hash = journaled (lookup (row.collection_id, row.url) t) }) t
      ∙ ground (arith, eq_text_self row.collection_id, eq_text_self row.url),
)

-- The server answers any request for the URL with one page, and robots.txt allows the URL.
pub record Serves (web : Web) (url : Text) (page : FreshPage) : Type 0 where
  pub allowed : web.is_allowed url ≡ ok true
  pub answers : (r : FetchRequest) → web.fetch r ≡ ok (fresh page)

module _ {Url : Type 0} (api : UrlApi Url) (json : ExamplesJson) (web : Web) (ctx : PageContext)
    (url : Text) (page : FreshPage) (serves : Serves web url page) where
  abbrev Known : CrawlResult PageResult × World → Type 0
  Known r = (row : CrawledPageRow) × (get_by_url r.1.pages ctx.collection_id url ≡ some row)

  abbrev pub entry_of : IndexedEntry
  entry_of = record {
    collection_id = ctx.collection_id;
    url = index_url api json web ctx url page;
    content_hash = content_hash api json web page;
  }
