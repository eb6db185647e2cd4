-- ===== src/Crawler.antt =====
-- src/crawler: the crawl of one target. This file has the errors and outcomes that its parts share.
--
-- A `Duration` is a number of milliseconds; a `u16` status and a Unix time are numbers.
pub mod UrlClass
pub mod Pages
pub mod Outlinks
pub mod Page
pub mod Driver
mod Examples
use community_search.Base.{ℕ, ◌*◌, Bool, Option, List, Text}

-- `CrawlError` of src/crawler/error.rs. Errors of other crates carry nothing that the crawler reads.
pub data CrawlError : Type 0 where
  http url_parse db tantivy io other : CrawlError
  robots_disallowed : Text → CrawlError
  not_html : Text → CrawlError
  index_full : ℕ → ℕ → CrawlError
  rate_limited : Option ℕ → CrawlError

pub data CrawlResult (A : Type 0) : Type 0 where
  ok : A → CrawlResult A
  err : CrawlError → CrawlResult A

-- `Duration::from_secs`
abbrev pub from_secs : ℕ → ℕ
from_secs n = n * 1000

-- `PageResult` of src/crawler/page.rs.
pub record PageResult : Type 0 where
  pub in_prefix_links : List Text
  pub indexed : Bool
  pub not_modified : Bool
