-- ===== src/Scheduler/Examples.antt =====
-- src/crawler/scheduler.rs: one due target, its tick and its run.
use community_search.Base.{
  ℕ, ◌+◌, ◌≡◌, ◌↔◌, refl, true, false, none, some, List, [], ◌∷◌, All, Text, text, arith, drop,
}
use community_search.Crawler.{CrawlResult, http, err, PageResult}
use community_search.Crawler.UrlClass.{UrlApi, normalize_url}
use community_search.Crawler.Page.{PageContext}
use community_search.Crawler.Driver.Ends.{IsErr}
use community_search.Scheduler.{
  CrawlTarget, Collection, DueTarget, Scheduler, Steps, none_yet, then_step, ticks, tick_once,
  list_due_targets, fresh_scheduler, run_one_target, Ended, due_target, is_due,
}
use community_search.Scheduler.Exclusive.{tasks_of, IsExclusive, reachable-IsExclusive}
use community_search.Scheduler.Dispatch.{tick-dispatches}
use community_search.Scheduler.Spacing.{IsPaced, run_one_target-ends}

abbrev target : CrawlTarget
target = record {
  id = text "t";
  collection_id = text "c";
  url_prefix = text "http://a";
  recrawl_interval_s = 60;
  enabled = true;
  crawl_delay_secs = some 2;
  last_crawled_at = some 10;
}

abbrev collections : List Collection
collections = record { id = text "c"; name = text "C" } ∷ []

abbrev before : Scheduler
before = fresh_scheduler collections (target ∷ [])

abbrev after : Scheduler
after = tick_once false 5 9 70 before

after_tick : Steps before after
after_tick = then_step before before after (none_yet before) (ticks false 5 9 70 before)

-- Due at 70 and not before.
is_due_at_70 : (is_due 70 target ≡ true) × (is_due 69 target ≡ false)
unfolding is_due
is_due_at_70 = (refl, refl)

reachable-IsExclusive_example : IsExclusive after (text "t")
reachable-IsExclusive_example =
    reachable-IsExclusive collections (target ∷ []) after (text "t") after_tick

tick-dispatches_example :
    All
      (λ (t : DueTarget). tasks_of t.id (tick_once false 5 9 80 after).tasks ≡ 1)
      (list_due_targets 80 after.collections after.targets)
tick-dispatches_example =
    tick-dispatches collections (target ∷ []) after 5 9 80 after_tick (omega arith)

abbrev api : UrlApi Text
api = record {
  parse = λ t. some t;
  to_string = λ t. t;
  scheme = λ t. text "http";
  host_str = λ t. some (drop 7 t);
  port = λ t. none;
  query_pairs = λ t. none;
  clear_fragment = λ t. t;
  clear_username = λ t. t;
  clear_password = λ t. t;
  clear_port = λ t. t;
  clear_query = λ t. t;
  write_query = λ ps t. t;
}

-- No page can be fetched.
abbrev offline : PageContext → ℕ → Text → ℕ → CrawlResult PageResult × ℕ
offline ctx now url w = (err http, w + 1)

run_one_target-ends_example :
    (fuel : ℕ) × (ended : Ended ℕ) × (run_one_target offline api
        (record { crawl_delay_for = λ seed. none; discover_urls = λ seed. [] })
        fuel
        (record { politeness_delay = 1000; max_pages_per_run = 1000 })
        (due_target target (text "C"))
        70
        (target ∷ [])
        0
      ≡ some ended)
    × IsPaced (due_target target (text "C")) 70 100 collections (target ∷ []) ended
    × (IsErr ended.outcome ↔ (normalize_url api (text "http://a") ≡ none))
run_one_target-ends_example =
    run_one_target-ends offline api
      (record { crawl_delay_for = λ seed. none; discover_urls = λ seed. [] })
      (record { politeness_delay = 1000; max_pages_per_run = 1000 }) (due_target target (text "C"))
      70 100 collections (target ∷ []) 0
