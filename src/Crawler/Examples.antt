-- ===== src/Crawler/Examples.antt =====
-- src/crawler and the tables that it writes: runs, and the theorems at concrete inputs.
use community_search.Base.{
  ℕ, ◌+◌, ◌≤◌, ◌≡◌, ◌↔◌, refl, true, false, none, some, List, [], ◌∷◌, ◌++◌, Text, text, eq_text,
  arith, if◌then◌else◌, All, drop, ◌==◌,
}
use community_search.Base.Table.{lookup, insert, text_pair_key}
use community_search.Crawler.{rate_limited, CrawlResult, ok, err, PageResult}
use community_search.Crawler.Driver.{
  fetched, refused, slept, DriverConfig, Run, crawl_seed, crawl_target, Seeding, crawl_loop,
  turn_on, pass, on_success, on_error, on_rate_limited, enqueue_links, polite_sleep, start_run,
  visited_contains, effective_delay_for_run, sleep_duration, rate_limit_backoff,
}
use community_search.Crawler.Driver.Ends.{IsErr, crawl_target-ends}
use community_search.Crawler.Driver.Once.{times_fetched, all_fetched, crawl_target_fetches_once}
use community_search.Crawler.UrlClass.{
  UrlApi, is_tracking_param, kept_params, is_in_prefix, sort_params, insert_param, leb_text,
  normalize_url, host_of, is_blacklisted_outlink_host, is_blacklisted_host, drop_default_port,
  rewrite_query, strip_leading_www, replace_first, strip_prefix, to_ascii_lowercase, ends_with,
}
use community_search.Auth.Bearer.{eq_ignore_ascii_case}
use community_search.Crawler.UrlClass.Query.{IsOrdered, kept_params_canonical}
use community_search.Crawler.Pages.{
  CrawledPageRow, IndexedEntry, get_by_url, upsert, mark_indexed_batch,
}
use community_search.Crawler.Pages.Journal.{journal_of, last_entry, journal-mark_indexed_batch}
use community_search.Crawler.Outlinks.{record_hit}
use community_search.Crawler.Outlinks.Examples.{json}
use community_search.Crawler.Page.{
  PageContext, FreshPage, fresh, Web, Io, World, crawl_page, index_url, content_hash, redirect_url,
  canonical_url, on_fresh, on_outcome, when_allowed, send, already_indexed, store_fresh,
  classify_links, classify_link,
}
use community_search.Crawler.Page.Frame.{Sends, crawl_page-Sends}
use community_search.Crawler.Page.Links.{InPrefix, crawl_page-InPrefix}
use community_search.Crawler.Page.Recrawl.{Serves, entry_of}

-- The driver on two pages that link to each other, the second of which is busy at first.
abbrev home : Text
home = text "http://a/"

abbrev about : Text
about = text "http://a/b"

abbrev linking : List Text → CrawlResult PageResult
linking links = ok (record { in_prefix_links = links; indexed = true; not_modified = false })

abbrev two_pages : Text → ℕ → CrawlResult PageResult × ℕ
two_pages url w =
    if eq_text url home
    then (linking (home ∷ about ∷ []), w + 1)
    else if w == 1
    then (err (rate_limited (some 3000)), 2)
    else (linking (home ∷ []), w + 1)

abbrev config : DriverConfig
config = record { politeness_delay = 1000; max_pages_per_run = 10 }

abbrev final_run : Run
final_run = record {
  stats = record {
    pages_fetched = 2;
    pages_indexed = 2;
    pages_not_modified = 0;
    pages_errored = 0;
  };
  visited = about ∷ home ∷ [];
  queue = [];
  consecutive_429s = 0;
  trace = fetched about ∷ slept 3000 ∷ refused about ∷ slept 1000 ∷ fetched home ∷ [];
}

-- A URL is its own text here, and its host is what follows `http://`.
abbrev api : UrlApi Text
api = record {
  parse = λ t. some t;
  to_string = λ t. t;
  scheme = λ t. text "http";
  host_str = λ t. some (drop 7 t);
  port = λ t. none;
  query_pairs = λ t. none;
  clear_fragment = λ t. t;
  clear_username = λ t. t;
  clear_password = λ t. t;
  clear_port = λ t. t;
  clear_query = λ t. t;
  write_query = λ ps t. t;
}

abbrev seeding : Seeding
seeding = record { crawl_delay_for = λ seed. some 500; discover_urls = λ seed. home ∷ [] }

two_pages_run : crawl_target two_pages api seeding 4 config home 0 ≡ some (ok final_run, 3)
unfolding crawl_target crawl_seed crawl_loop turn_on pass on_success on_error on_rate_limited
    enqueue_links polite_sleep start_run visited_contains effective_delay_for_run sleep_duration
    rate_limit_backoff normalize_url drop_default_port rewrite_query eq_text
two_pages_run = refl

crawl_target-ends_example :
    (fuel : ℕ) × (res : CrawlResult Run × ℕ) × (crawl_target two_pages api seeding fuel config home
        0
      ≡ some res)
    × (IsErr res.0 ↔ (normalize_url api home ≡ none))
crawl_target-ends_example = crawl_target-ends two_pages api seeding config home 0

crawl_target_fetches_once_example :
    ((u : Text) → times_fetched u final_run.trace ≤ 1)
    × (all_fetched final_run.trace ≡ final_run.stats.pages_fetched)
    × (final_run.stats.pages_fetched ≤ config.max_pages_per_run)
crawl_target_fetches_once_example =
    crawl_target_fetches_once config two_pages api seeding 4 home 0 3 final_run two_pages_run

-- A query.
abbrev query : List (Text × Text)
query = (text "b", text "2") ∷ (text "UTM_Source", text "x") ∷ (text "a", text "1") ∷ []

query_run : kept_params query ≡ (text "a", text "1") ∷ (text "b", text "2") ∷ []
unfolding kept_params sort_params insert_param leb_text is_tracking_param eq_ignore_ascii_case
query_run = refl

ref_is_tracking : is_tracking_param (text "Ref") ≡ true
unfolding is_tracking_param eq_ignore_ascii_case
ref_is_tracking = refl

kept_params_canonical_example :
    IsOrdered (kept_params query)
    × All (λ p. is_tracking_param p.0 ≡ false) (kept_params query)
    × (kept_params (kept_params query) ≡ kept_params query)
    × (kept_params (query ++ (text "Ref", []) ∷ query) ≡ kept_params (query ++ query))
kept_params_canonical_example =
    kept_params_canonical query query query (text "Ref") [] ref_is_tracking

-- A page of the collection.
abbrev page_row : CrawledPageRow
page_row = record {
  collection_id = text "c";
  crawl_target_id = text "t";
  url = home;
  etag = none;
  last_modified = none;
  content_hash = none;
  last_status = some 200;
  last_crawled_at = 5;
  indexed_content_hash = none;
}

abbrev entry : Text → IndexedEntry
entry hash = record { collection_id = text "c"; url = home; content_hash = hash }

found_page : get_by_url (((text "c", home), page_row) ∷ []) (text "c") home ≡ some page_row
unfolding get_by_url lookup eq_text
found_page = refl

journal-mark_indexed_batch_example :
    journal_of
      (mark_indexed_batch
        (((text "c", home), page_row) ∷ [])
        (entry (text "x") ∷ entry (text "y") ∷ []))
      (text "c")
      home
    ≡ last_entry (text "c") home none (entry (text "x") ∷ entry (text "y") ∷ [])
journal-mark_indexed_batch_example =
    journal-mark_indexed_batch (((text "c", home), page_row) ∷ [])
      (entry (text "x") ∷ entry (text "y") ∷ []) (text "c") home page_row found_page

abbrev page : FreshPage
page = record {
  status = 200;
  body = text "hello";
  etag = none;
  last_modified = none;
  final_url = home;
}

abbrev web : Web
web = record {
  is_allowed = λ url. ok true;
  fetch = λ r. ok (fresh page);
  parse_text = λ body. record { title = []; text = body };
  extract_links = λ body base.
      record { url = about; text = [] } ∷ record { url = text "http://x.org"; text = [] } ∷ [];
  extract_canonical = λ body base. none;
  sha256_hex = λ t. t;
}

abbrev ctx : PageContext
ctx = record {
  collection_id = text "c";
  crawl_target_id = text "t";
  url_prefix = home;
  collection_name = text "C";
}

abbrev healthy : Io
healthy = record { reads = true; upserts = true; hits = λ left. true }

abbrev world : World
world = record { pages = []; hosts = []; sent = []; channel_open = true; inflight = 0 }

-- One link is in the prefix, the other is counted.
abbrev page_result : PageResult
page_result = record { in_prefix_links = about ∷ []; indexed = true; not_modified = false }

page_run : (crawl_page api json web healthy ctx 100 home world).0 ≡ ok page_result
unfolding crawl_page when_allowed on_outcome on_fresh already_indexed send store_fresh
    classify_links classify_link record_hit redirect_url canonical_url content_hash index_url
    normalize_url is_in_prefix host_of is_blacklisted_outlink_host is_blacklisted_host
    drop_default_port rewrite_query strip_leading_www replace_first strip_prefix to_ascii_lowercase
    ends_with get_by_url upsert lookup insert eq_text
page_run = refl

crawl_page-Sends_example :
    Sends api ctx home world (crawl_page api json web healthy ctx 100 home world).1
crawl_page-Sends_example = crawl_page-Sends api json web healthy ctx 100 home world (omega arith)

crawl_page-InPrefix_example :
    All (InPrefix api json web healthy ctx home 100) page_result.in_prefix_links
crawl_page-InPrefix_example =
    crawl_page-InPrefix api json web healthy ctx home 100 world page_result page_run

serves : Serves web home page
serves = record { allowed = refl; answers = λ r. refl }

abbrev first : World
first = (crawl_page api json web healthy ctx 100 home world).1

abbrev journaled_world : World
journaled_world = record first {
  channel_open = true;
  pages =
      mark_indexed_batch first.pages
        (entry (text "z") ∷ entry_of api json web ctx home page serves ∷ []);
}

abbrev crashed_world : World
crashed_world = record first { channel_open = true }
