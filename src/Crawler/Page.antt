-- ===== src/Crawler/Page.antt =====
-- src/crawler/page.rs: the crawl of one page.
--
-- The robots check, the fetch, the parser and SHA-256 are parameters (`Web`), as are the url crate and
-- serde_json. `Io` says which statements SQLite answers: the hits are numbered by the links left. A
-- world holds the two tables, the jobs sent to the indexer (latest first), whether its channel is
-- open, and the counter of jobs in flight, a 64-bit word.
pub mod Links
pub mod Frame
pub mod Recrawl
use community_search.Base.{
  ℕ, ◌+◌, ◌-◌, ◌%◌, ◌^◌, Bool, true, false, not, ◌&&◌, Option, none, some, List, [], ◌∷◌, ◌++◌,
  Text, text, eq_text, if◌then◌else◌, length,
}
use community_search.Crawler.{
  CrawlError, robots_disallowed, rate_limited, other, CrawlResult, ok, err, PageResult,
}
use community_search.Crawler.UrlClass.{
  UrlApi, normalize_url, is_in_prefix, host_of, is_blacklisted_outlink_host,
}
use community_search.Crawler.Pages.{CrawledPageRow, PagesTable, get_by_url, upsert}
use community_search.Crawler.Outlinks.{ExamplesJson, OutlinkExample, HostsTable, record_hit}

pub record PageContext : Type 0 where
  pub collection_id : Text
  pub crawl_target_id : Text
  pub url_prefix : Text
  pub collection_name : Text

pub record FetchRequest : Type 0 where
  pub url : Text
  pub etag : Option Text
  pub last_modified : Option Text

pub record FreshPage : Type 0 where
  pub status : ℕ
  pub body : Text
  pub etag : Option Text
  pub last_modified : Option Text
  pub final_url : Text

pub data FetchOutcome : Type 0 where
  limited : Option ℕ → FetchOutcome
  unmodified : FetchOutcome
  other_status : ℕ → FetchOutcome
  fresh : FreshPage → FetchOutcome

pub record Link : Type 0 where
  pub url : Text
  pub text : Text

pub record ParsedText : Type 0 where
  pub title : Text
  pub text : Text

-- What the page's crawl asks of the robots checker, the fetcher, the parser and SHA-256.
pub record Web : Type 0 where
  pub is_allowed : Text → CrawlResult Bool
  pub fetch : FetchRequest → CrawlResult FetchOutcome
  pub parse_text : Text → ParsedText
  pub extract_links : Text → Text → List Link
  pub extract_canonical : Text → Text → Option Text
  pub sha256_hex : Text → Text

-- `IndexJob` of src/index/indexer.rs.
pub record IndexJob : Type 0 where
  pub collection_name : Text
  pub url : Text
  pub title : Text
  pub body : Text
  pub indexed_at : ℕ
  pub collection_id : Text
  pub content_hash : Text

pub record Io : Type 0 where
  pub reads : Bool
  pub upserts : Bool
  pub hits : ℕ → Bool

pub record World : Type 0 where
  pub pages : PagesTable
  pub hosts : HostsTable
  pub sent : List IndexJob
  pub channel_open : Bool
  pub inflight : ℕ

-- `fetch_add` and `fetch_sub` on an AtomicI64 wrap around.
abbrev pub fetch_add : ℕ → ℕ → ℕ
fetch_add v n = (v + n) % 18446744073709551616

abbrev pub fetch_sub : ℕ → ℕ → ℕ
fetch_sub v n = (v + (18446744073709551616 - n)) % 18446744073709551616

abbrev pub etag_of : Option CrawledPageRow → Option Text
etag_of none = none
etag_of (some p) = p.etag

abbrev pub last_modified_of : Option CrawledPageRow → Option Text
last_modified_of none = none
last_modified_of (some p) = p.last_modified

abbrev pub content_hash_of : Option CrawledPageRow → Option Text
content_hash_of none = none
content_hash_of (some p) = p.content_hash

abbrev pub indexed_hash_of : Option CrawledPageRow → Option Text
indexed_hash_of none = none
indexed_hash_of (some p) = p.indexed_content_hash

-- Equality of optional texts.
abbrev pub eq_option : Option Text → Option Text → Bool
eq_option none none = true
eq_option none (some t) = false
eq_option (some s) none = false
eq_option (some s) (some t) = eq_text s t

abbrev pub filter_option : (Text → Bool) → Option Text → Option Text
filter_option p none = none
filter_option p (some t) = if p t then some t else none

abbrev pub or_else : Option Text → Option Text → Option Text
or_else none o = o
or_else (some t) o = some t

abbrev pub unwrap_or : Option Text → Text → Text
unwrap_or none d = d
unwrap_or (some t) d = t

abbrev pub to_list : Option Text → List Text
to_list none = []
to_list (some t) = t ∷ []

-- `and_then(|c| normalize_url(&c))`
abbrev pub bind_text : Option Text → (Text → Option Text) → Option Text
bind_text none f = none
bind_text (some t) f = f t

module _ {Url : Type 0} (api : UrlApi Url) (json : ExamplesJson) (web : Web) where
  unfoldable pub redirect_url : PageContext → Text → FreshPage → Option Text
  redirect_url ctx url page =
      filter_option (λ c. is_in_prefix api c ctx.url_prefix)
        (filter_option (λ c. not (eq_option (some c) (normalize_url api url)))
          (normalize_url api page.final_url))

  unfoldable pub canonical_url : PageContext → Text → FreshPage → Option Text
  canonical_url ctx url page =
      filter_option (λ c. is_in_prefix api c ctx.url_prefix)
        (filter_option (λ c. not (eq_option (redirect_url ctx url page) (some c)))
          (filter_option (λ c. not (eq_option (some c) (normalize_url api url)))
            (bind_text (web.extract_canonical page.body page.final_url) (normalize_url api))))

  unfoldable pub index_url : PageContext → Text → FreshPage → Text
  index_url ctx url page =
      unwrap_or (or_else (redirect_url ctx url page) (canonical_url ctx url page)) url

  -- Title, NUL, text.
  unfoldable pub content_hash : FreshPage → Text
  content_hash page =
      let parsed = web.parse_text page.body in web.sha256_hex (parsed.title ++ 0 ∷ parsed.text)

  abbrev pub job_of : PageContext → Text → ℕ → FreshPage → IndexJob
  job_of ctx url now page = record {
    collection_name = ctx.collection_name;
    url = index_url ctx url page;
    title = (web.parse_text page.body).title;
    body = (web.parse_text page.body).text;
    indexed_at = now;
    collection_id = ctx.collection_id;
    content_hash = content_hash page;
  }

  -- The hand-over to the indexer: whether it took the job, and the world after it.
  unfoldable pub send : IndexJob → World → Bool × World
  send job w =
      let counted = fetch_add w.inflight 1 in
      if w.channel_open
      then (true, record w { inflight = counted; sent = job ∷ w.sent })
      else (false, record w { inflight = fetch_sub counted 1 })

  -- One link: in the prefix it is kept; else its host is counted. `none` is an error of the database.
  unfoldable pub classify_link :
      Io → PageContext → Text → ℕ → Link → ℕ → HostsTable → Option (List Text × HostsTable)
  classify_link io ctx url now link left hosts = elim (normalize_url api link.url) [
    | none ↦ some ([], hosts)
    | some normalized ↦
        if is_in_prefix api normalized ctx.url_prefix
        then some (normalized ∷ [], hosts)
        else if is_blacklisted_outlink_host api normalized
        then some ([], hosts)
        else elim (host_of api normalized) [
          | none ↦ some ([], hosts)
          | some host ↦
              if io.hits left
              then elim (record_hit json hosts ctx.collection_id host
                  (record { source_url = url; target_url = normalized; link_text = link.text })
                  now) [ none ↦ none | some hosts' ↦ some ([], hosts') ]
              else none
        ]
  ]

  -- All links in order. On an error the hosts are those written up to it.
  unfoldable pub classify_links :
      Io → PageContext → Text → ℕ → List Link → HostsTable → Option (List Text) × HostsTable
  classify_links io ctx url now [] hosts = (some [], hosts)
  classify_links io ctx url now (link ∷ links) hosts =
      elim (classify_link io ctx url now link (length links) hosts) [
        | none ↦ (none, hosts)
        | some (found, hosts') ↦
            let rest = classify_links io ctx url now links hosts' in
            (elim rest.0 [ none ↦ none | some more ↦ some (found ++ more) ], rest.1)
      ]

  abbrev pub row_of : PageContext → Text → ℕ → Option CrawledPageRow → ℕ → CrawledPageRow
  row_of ctx url now prior status = record {
    collection_id = ctx.collection_id;
    crawl_target_id = ctx.crawl_target_id;
    url = url;
    etag = etag_of prior;
    last_modified = last_modified_of prior;
    content_hash = content_hash_of prior;
    last_status = some status;
    last_crawled_at = now;
    indexed_content_hash = indexed_hash_of prior;
  }

  -- The arms for 304 and for other statuses.
  unfoldable pub on_status :
      Io
      → PageContext
      → Text
      → ℕ
      → Option CrawledPageRow
      → ℕ
      → Bool
      → World
      → CrawlResult PageResult × World
  on_status io ctx url now prior status not_modified w =
      if io.upserts
      then (
        ok (record { in_prefix_links = []; indexed = false; not_modified = not_modified }),
        record w { pages = upsert w.pages (row_of ctx url now prior status) },
      )
      else (err other, w)

  -- The database writes of a fresh page, and its outcome.
  unfoldable pub store_fresh :
      Io
      → PageContext
      → Text
      → ℕ
      → Option CrawledPageRow
      → FreshPage
      → Bool
      → World
      → CrawlResult PageResult × World
  store_fresh io ctx url now prior page indexed w =
      let row : CrawledPageRow = record (row_of ctx url now prior page.status) {
        etag = page.etag;
        last_modified = page.last_modified;
        content_hash = some (content_hash page);
      } in
      if io.upserts
      then (let classified =
            classify_links io ctx url now (web.extract_links page.body page.final_url) w.hosts in
          let stored : World = record w { pages = upsert w.pages row; hosts = classified.1 } in
          (
            elim classified.0 [
              | none ↦ err other
              | some found ↦ ok (record {
                in_prefix_links =
                    to_list (redirect_url ctx url page)
                    ++ to_list (canonical_url ctx url page)
                    ++ found;
                indexed = indexed;
                not_modified = false;
              })
            ],
            stored,
          ))
      else (err other, w)

  unfoldable pub already_indexed : Option CrawledPageRow → FreshPage → Bool
  already_indexed prior page = eq_option (indexed_hash_of prior) (some (content_hash page))

  unfoldable pub on_fresh :
      Io
      → PageContext
      → Text
      → ℕ
      → Option CrawledPageRow
      → FreshPage
      → World
      → CrawlResult PageResult × World
  on_fresh io ctx url now prior page w =
      if already_indexed prior page
      then store_fresh io ctx url now prior page false w
      else (let handed = send (job_of ctx url now page) w in
          if handed.0
          then store_fresh io ctx url now prior page true handed.1
          else (err other, handed.1))

  unfoldable pub on_outcome :
      Io
      → PageContext
      → Text
      → ℕ
      → Option CrawledPageRow
      → CrawlResult FetchOutcome
      → World
      → CrawlResult PageResult × World
  on_outcome io ctx url now prior (err e) w = (err e, w)
  on_outcome io ctx url now prior (ok (limited retry_after)) w = (err (rate_limited retry_after), w)
  on_outcome io ctx url now prior (ok unmodified) w = on_status io ctx url now prior 304 true w
  on_outcome io ctx url now prior (ok (other_status status)) w =
      on_status io ctx url now prior status false w
  on_outcome io ctx url now prior (ok (fresh page)) w = on_fresh io ctx url now prior page w

  abbrev pub request_of : Text → Option CrawledPageRow → FetchRequest
  request_of url prior = record {
    url = url;
    etag = etag_of prior;
    last_modified = last_modified_of prior;
  }

  -- The outcome for each answer of the robots check.
  unfoldable pub when_allowed :
      Io → PageContext → Text → ℕ → CrawlResult Bool → World → CrawlResult PageResult × World
  when_allowed io ctx url now (err e) w = (err e, w)
  when_allowed io ctx url now (ok false) w = (err (robots_disallowed url), w)
  when_allowed io ctx url now (ok true) w =
      if io.reads
      then (let prior = get_by_url w.pages ctx.collection_id url in
          on_outcome io ctx url now prior (web.fetch (request_of url prior)) w)
      else (err other, w)

  unfoldable pub crawl_page : Io → PageContext → ℕ → Text → World → CrawlResult PageResult × World
  crawl_page io ctx now url w = when_allowed io ctx url now (web.is_allowed url) w
