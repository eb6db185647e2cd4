-- ===== src/Crawler/Driver.antt =====
-- src/crawler/driver.rs: the breadth-first crawl of a target.
--
-- `crawl_page` is a parameter that works on any world `W`. Sleeps and fetches are effects: `trace`
-- records them, latest first. The `while` loop takes fuel; `none` means that the fuel ran out.
pub mod Loop
pub mod Ends
pub mod Once
use community_search.Base.{
  ℕ, zero, suc, ◌+◌, ◌-◌, ◌^◌, min, max, Bool, true, false, ◌||◌, ◌&&◌, not, Option, none, some,
  List, [], ◌∷◌, ◌++◌, Text, eq_text, leb, ltb, if◌then◌else◌,
}
use community_search.Crawler.UrlClass.{UrlApi, normalize_url}
use community_search.Crawler.{
  CrawlError, other, rate_limited, CrawlResult, ok, err, PageResult, from_secs,
}

pub record DriverConfig : Type 0 where
  pub politeness_delay : ℕ
  pub max_pages_per_run : ℕ

pub record DriverStats : Type 0 where
  pub pages_fetched : ℕ
  pub pages_indexed : ℕ
  pub pages_not_modified : ℕ
  pub pages_errored : ℕ

abbrev pub no_stats : DriverStats
no_stats = record {
  pages_fetched = 0;
  pages_indexed = 0;
  pages_not_modified = 0;
  pages_errored = 0;
}

unfoldable pub effective_delay_for_run : ℕ → Option ℕ → ℕ
effective_delay_for_run configured none = configured
effective_delay_for_run configured (some d) = max d configured

-- 1 s, 2 s, 4 s, 8 s, then none. `1 << (consecutive - 1)`; it is not called at 0.
unfoldable pub rate_limit_backoff : ℕ → Option ℕ
rate_limit_backoff consecutive =
    if leb 5 consecutive then none else some (from_secs (2 ^ (consecutive - 1)))

unfoldable pub visited_contains : Text → List Text → Bool
visited_contains url [] = false
visited_contains url (v ∷ vs) = eq_text v url || visited_contains url vs

-- What the run does to the outside, page by page.
pub data Event : Type 0 where
  fetched : Text → Event
  refused : Text → Event
  failed : Text → Event
  slept : ℕ → Event

-- The variables of `crawl_target` that its loop changes.
pub record Run : Type 0 where
  pub stats : DriverStats
  pub visited : List Text
  pub queue : List Text
  pub consecutive_429s : ℕ
  pub trace : List Event

-- `visited.insert` and `queue.push_back` of each link that is new.
unfoldable pub enqueue_links : List Text → Run → Run
enqueue_links [] st = st
enqueue_links (link ∷ links) st = enqueue_links links (
    if visited_contains link st.visited
    then st
    else record st { visited = link ∷ st.visited; queue = st.queue ++ link ∷ [] })

abbrev bump : Bool → ℕ → ℕ
bump b n = if b then n + 1 else n

-- The arm `Ok(result)`.
unfoldable pub on_success : Text → PageResult → Run → Run
on_success url result st = enqueue_links result.in_prefix_links (record st {
  consecutive_429s = 0;
  stats = record st.stats {
    pages_fetched = st.stats.pages_fetched + 1;
    pages_indexed = bump result.indexed st.stats.pages_indexed;
    pages_not_modified = bump result.not_modified st.stats.pages_not_modified;
  };
  trace = fetched url ∷ st.trace;
})

-- The arm for any other error.
unfoldable pub on_error : Text → Run → Run
on_error url st = record st {
  stats = record st.stats { pages_errored = st.stats.pages_errored + 1 };
  trace = failed url ∷ st.trace;
}

abbrev backoff_or_32s : Option ℕ → ℕ
backoff_or_32s none = from_secs 32
backoff_or_32s (some d) = d

-- How long a 429 puts the run to sleep.
unfoldable pub sleep_duration : Option ℕ → ℕ → ℕ
sleep_duration none consecutive =
    min (backoff_or_32s (rate_limit_backoff consecutive)) (from_secs 120)
sleep_duration (some d) consecutive = min d (from_secs 120)

-- One pass of the loop ends in a state to go on from, or breaks off.
pub data Pass : Type 0 where
  goes_on : Run → Pass
  breaks : Run → Pass

-- The arm `RateLimited`: the URL goes back to the front of the queue.
unfoldable pub on_rate_limited : Text → Option ℕ → Run → Pass
on_rate_limited url retry_after st =
    let n = st.consecutive_429s + 1 in
    if leb 5 n
    then breaks (record st { consecutive_429s = n; trace = refused url ∷ st.trace })
    else goes_on (record st {
      consecutive_429s = n;
      queue = url ∷ st.queue;
      trace = slept (sleep_duration retry_after n) ∷ refused url ∷ st.trace;
    })

abbrev has_next : DriverConfig → Run → Bool
has_next config st =
    (elim st.queue [ [] ↦ false | url ∷ rest ↦ true ])
    && ltb st.stats.pages_fetched config.max_pages_per_run

-- The politeness delay at the end of a pass, unless it was the last.
unfoldable pub polite_sleep : DriverConfig → ℕ → Run → Run
polite_sleep config effective_delay st =
    if has_next config st then record st { trace = slept effective_delay ∷ st.trace } else st

-- What a pass makes of the outcome of `crawl_page`; `st` has the URL popped already.
unfoldable pub pass : DriverConfig → ℕ → Text → CrawlResult PageResult → Run → Pass
pass config delay url (ok result) st =
    goes_on (polite_sleep config delay (on_success url result st))
pass config delay url (err (rate_limited retry_after)) st = on_rate_limited url retry_after st
pass config delay url (err e) st = goes_on (polite_sleep config delay (on_error url st))

-- The seed, then the sitemap URLs that are new.
unfoldable pub start_run : Text → List Text → Run
start_run seed_url seeds = enqueue_links seeds (record {
  stats = no_stats;
  visited = seed_url ∷ [];
  queue = seed_url ∷ [];
  consecutive_429s = 0;
  trace = [];
})

-- A turn of the loop ends the run, or leads to the next turn.
pub data Turn (W : Type 0) : Type 0 where
  finished : Run → W → Turn W
  again : Run → W → Turn W

abbrev pub after_pass : {W : Type 0} → Pass → W → Turn W
after_pass (goes_on st) w = again st w
after_pass (breaks st) w = finished st w

abbrev pub proceed : {W : Type 0} → (Run → W → Option (Run × W)) → Turn W → Option (Run × W)
proceed next (finished st w) = some (st, w)
proceed next (again st w) = next st w

module _ {W : Type 0} (crawl_page : Text → W → CrawlResult PageResult × W) where
  -- One turn over the queue: the loop's condition, the pop and the body.
  unfoldable pub turn_on : DriverConfig → ℕ → List Text → Run → W → Turn W
  turn_on config delay [] st w = finished st w
  turn_on config delay (url ∷ rest) st w =
      if ltb st.stats.pages_fetched config.max_pages_per_run
      then after_pass (pass config delay url (crawl_page url w).0 (record st { queue = rest }))
          (crawl_page url w).1
      else finished st w

  -- The `while` loop, a turn for each unit of fuel.
  unfoldable pub crawl_loop : ℕ → DriverConfig → ℕ → Run → W → Option (Run × W)
  crawl_loop zero config delay st w = none
  crawl_loop (suc fuel) config delay st w =
      proceed (crawl_loop fuel config delay) (turn_on config delay st.queue st w)

  -- The run on a seed that has been normalized.
  unfoldable pub crawl_seed : ℕ → DriverConfig → Text → Option ℕ → List Text → W → Option (Run × W)
  crawl_seed fuel config seed_url robots_delay seeds w =
      crawl_loop fuel config (effective_delay_for_run config.politeness_delay robots_delay)
        (start_run seed_url seeds) w

-- What `crawl_target` asks of robots.txt and of the sitemaps, for a seed.
pub record Seeding : Type 0 where
  pub crawl_delay_for : Text → Option ℕ
  pub discover_urls : Text → List Text

abbrev pub finish : {W : Type 0} → Option (Run × W) → Option (CrawlResult Run × W)
finish none = none
finish (some (st, w)) = some (ok st, w)

-- The statistics of a run that ends are in its state.
unfoldable pub crawl_target :
    {W Url : Type 0}
    → (Text → W → CrawlResult PageResult × W)
    → UrlApi Url
    → Seeding
    → ℕ
    → DriverConfig
    → Text
    → W
    → Option (CrawlResult Run × W)
crawl_target crawl_page api seeding fuel config seed_url w = elim (normalize_url api seed_url) [
  | none ↦ some (err other, w)
  | some url ↦ finish (
      crawl_seed crawl_page fuel config url (seeding.crawl_delay_for url)
        (seeding.discover_urls url) w)
]
