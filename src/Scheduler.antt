-- ===== src/Scheduler.antt =====
-- src/crawler/scheduler.rs: which targets are due, the run of one target, the tick of the scheduler,
-- and its tasks; and `check_capacity` of src/index/size.rs.
--
-- `crawl_page` is a parameter, as in Crawler.Driver. The tasks run on one thread, interleaved: a tick
-- and the end of a task are steps, and the admin handlers may change the tables between them. SQLite
-- is taken to answer.
pub mod Exclusive
pub mod Dispatch
pub mod Spacing
mod Examples
use community_search.Base.{
  ℕ, ◌+◌, ◌*◌, ◌≡◌, Bool, true, false, not, ◌&&◌, Option, none, some, List, [], ◌∷◌, ◌++◌, Text,
  eq_text, ltb, leb, retain, if◌then◌else◌,
}
use community_search.Crawler.{CrawlResult, ok, err, index_full, PageResult, from_secs}
use community_search.Crawler.UrlClass.{UrlApi}
use community_search.Crawler.Page.{PageContext}
use community_search.Crawler.Driver.{DriverConfig, Run, Seeding, visited_contains, crawl_target}

-- A row of `crawl_targets`, and of `collections`.
pub record CrawlTarget : Type 0 where
  pub id : Text
  pub collection_id : Text
  pub url_prefix : Text
  pub recrawl_interval_s : ℕ
  pub enabled : Bool
  pub crawl_delay_secs : Option ℕ
  pub last_crawled_at : Option ℕ

pub record Collection : Type 0 where
  pub id : Text
  pub name : Text

pub record DueTarget : Type 0 where
  pub id : Text
  pub collection_id : Text
  pub collection_name : Text
  pub url_prefix : Text
  pub recrawl_interval_secs : ℕ
  pub crawl_delay_secs : Option ℕ

-- The join on the collection's key.
unfoldable pub name_of : List Collection → Text → Option Text
name_of [] id = none
name_of (c ∷ cs) id = let rest = name_of cs id in if eq_text c.id id then some c.name else rest

abbrev elapsed : ℕ → ℕ → Option ℕ → Bool
elapsed now interval none = true
elapsed now interval (some t) = leb (t + interval) now

-- The condition of the query.
unfoldable pub is_due : ℕ → CrawlTarget → Bool
is_due now ct = ct.enabled && elapsed now ct.recrawl_interval_s ct.last_crawled_at

abbrev pub due_target : CrawlTarget → Text → DueTarget
due_target ct name = record {
  id = ct.id;
  collection_id = ct.collection_id;
  collection_name = name;
  url_prefix = ct.url_prefix;
  recrawl_interval_secs = ct.recrawl_interval_s;
  crawl_delay_secs = ct.crawl_delay_secs;
}

-- The rows of the query for one target.
abbrev pub joined : CrawlTarget → Option Text → List DueTarget → List DueTarget
joined ct none rest = rest
joined ct (some name) rest = due_target ct name ∷ rest

unfoldable pub list_due_targets : ℕ → List Collection → List CrawlTarget → List DueTarget
list_due_targets now cs [] = []
list_due_targets now cs (ct ∷ cts) =
    let rest = list_due_targets now cs cts in
    if is_due now ct then joined ct (name_of cs ct.collection_id) rest else rest

-- A delay of the target's own takes the place of the configured one.
unfoldable pub driver_config_for : DriverConfig → Option ℕ → DriverConfig
driver_config_for config none = config
driver_config_for config (some secs) =
    if ltb 0 secs then record config { politeness_delay = from_secs secs } else config

-- `UPDATE crawl_targets SET last_crawled_at = ?1 WHERE id = ?2`
unfoldable pub mark_crawled : ℕ → Text → List CrawlTarget → List CrawlTarget
mark_crawled now id [] = []
mark_crawled now id (ct ∷ cts) =
    let rest = mark_crawled now id cts in
    (if eq_text ct.id id then record ct { last_crawled_at = some now } else ct) ∷ rest

abbrev pub page_context : DueTarget → PageContext
page_context t = record {
  collection_id = t.collection_id;
  crawl_target_id = t.id;
  url_prefix = t.url_prefix;
  collection_name = t.collection_name;
}

-- How a run ends: its result, the table of targets, and the world of the crawl.
pub record Ended (W : Type 0) : Type 0 where
  pub outcome : CrawlResult Run
  pub targets : List CrawlTarget
  pub world : W

-- The table is marked where the crawl succeeds; `?` returns before that.
abbrev pub marked : {W : Type 0} → ℕ → Text → List CrawlTarget → CrawlResult Run × W → Ended W
marked now id cts (ok stats, w) = record {
  outcome = ok stats;
  targets = mark_crawled now id cts;
  world = w;
}
marked now id cts (err e, w) = record { outcome = err e; targets = cts; world = w }

abbrev pub map_ended :
    {W : Type 0} → ℕ → Text → List CrawlTarget → Option (CrawlResult Run × W) → Option (Ended W)
map_ended now id cts none = none
map_ended now id cts (some r) = some (marked now id cts r)

-- `cts` is the table when the crawl ends. `none`: the fuel of `crawl_target` ran out.
unfoldable pub run_one_target :
    {W Url : Type 0}
    → (PageContext → ℕ → Text → W → CrawlResult PageResult × W)
    → UrlApi Url
    → Seeding
    → ℕ
    → DriverConfig
    → DueTarget
    → ℕ
    → List CrawlTarget
    → W
    → Option (Ended W)
run_one_target crawl_page api seeding fuel config t now cts w = map_ended now t.id cts (
    crawl_target (crawl_page (page_context t) now) api seeding fuel
      (driver_config_for config t.crawl_delay_secs) t.url_prefix w)

unfoldable pub check_capacity : ℕ → ℕ → CrawlResult Unit
check_capacity used max = if leb max used then err (index_full used max) else ok tt

-- A task: its target, and the time of the tick that started it.
pub record Task : Type 0 where
  pub target : DueTarget
  pub now_unix : ℕ

pub record Scheduler : Type 0 where
  pub collections : List Collection
  pub targets : List CrawlTarget
  pub running : List Text
  pub tasks : List Task

unfoldable pub start_task : ℕ → DueTarget → Scheduler → Scheduler
start_task now t s = if visited_contains t.id s.running then s else record s {
  running = t.id ∷ s.running;
  tasks = s.tasks ++ record { target = t; now_unix = now } ∷ [];
}

unfoldable pub dispatch : ℕ → List DueTarget → Scheduler → Scheduler
dispatch now [] s = s
dispatch now (t ∷ ts) s = dispatch now ts (start_task now t s)

abbrev when_ok : CrawlResult Unit → Scheduler → Scheduler → Scheduler
when_ok (ok _) s t = t
when_ok (err e) s t = s

-- `used` is 0 where the size of the index cannot be read.
unfoldable pub tick_once : Bool → ℕ → ℕ → ℕ → Scheduler → Scheduler
tick_once paused used max_index_bytes now s =
    let dispatched = dispatch now (list_due_targets now s.collections s.targets) s in
    if paused then s else when_ok (check_capacity used max_index_bytes) s dispatched

-- The end of a task, with the tables it leaves: it is not running any more, whether it succeeded,
-- failed or panicked.
unfoldable pub end_task : Text → List CrawlTarget → List Task → Scheduler → Scheduler
end_task id targets tasks s = record s {
  targets = targets;
  running = retain (λ r. not (eq_text r id)) s.running;
  tasks = tasks;
}

-- A run that succeeded marks the table; one that failed or panicked does not.
pub data Step : Scheduler → Scheduler → Type 0 where
  ticks :
      (paused : Bool) (used max_index_bytes now : ℕ) (s : Scheduler)
      → Step s (tick_once paused used max_index_bytes now s)
  succeeds :
      (s : Scheduler) (before after : List Task) (t : Task)
      → s.tasks ≡ before ++ t ∷ after
      → Step s
          (end_task t.target.id (mark_crawled t.now_unix t.target.id s.targets) (before ++ after) s)
  fails :
      (s : Scheduler) (before after : List Task) (t : Task)
      → s.tasks ≡ before ++ t ∷ after
      → Step s (end_task t.target.id s.targets (before ++ after) s)
  edits :
      (s : Scheduler) (collections : List Collection) (targets : List CrawlTarget)
      → Step s (record s { collections = collections; targets = targets })

pub data Steps : Scheduler → Scheduler → Type 0 where
  none_yet : (s : Scheduler) → Steps s s
  then_step : (s t u : Scheduler) → Steps s t → Step t u → Steps s u

-- At the start, nothing runs.
abbrev pub fresh_scheduler : List Collection → List CrawlTarget → Scheduler
fresh_scheduler collections targets = record {
  collections = collections;
  targets = targets;
  running = [];
  tasks = [];
}
