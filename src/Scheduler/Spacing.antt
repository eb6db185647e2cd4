-- ===== src/Scheduler/Spacing.antt =====
-- src/crawler/scheduler.rs: when a target is crawled again.
use community_search.Base.{
  ℕ, ◌+◌, ◌≤◌, ◌≡◌, ◌↔◌, refl, sym, subst, ap, true, Option, none, some, List, [], ◌∷◌, All, Text,
  eq_text, if-cases, if◌then◌else◌, arith,
}
use community_search.Crawler.{CrawlResult, ok, err, PageResult}
use community_search.Crawler.UrlClass.{UrlApi, normalize_url}
use community_search.Crawler.Page.{PageContext}
use community_search.Crawler.Driver.{DriverConfig, Run, Seeding}
use community_search.Crawler.Driver.Ends.{crawl_target-ends, IsErr}
use community_search.Scheduler.{
  CrawlTarget, Collection, DueTarget, list_due_targets, is_due, name_of, mark_crawled,
  run_one_target, Ended, driver_config_for, joined, due_target, marked, map_ended, page_context,
}

-- That each target of the list with an id was not due before a time of its own.
abbrev pub IsSpaced : Text → ℕ → ℕ → DueTarget → Type 0
IsSpaced id now later t = (if eq_text t.id id then now + t.recrawl_interval_secs else 0) ≤ later

All-joined :
    (P : DueTarget → Type 0) (ct : CrawlTarget) (name : Option Text) (ts : List DueTarget)
    → ((n : Text) → P (due_target ct n))
    → All P ts
    → All P (joined ct name ts)
All-joined P ct none ts f h = h
All-joined P ct (some n) ts f h = (f n, h)

abbrev IsDueLate : Text → ℕ → ℕ → CrawlTarget → Type 0
IsDueLate id now later ct =
    is_due later ct ≡ true → (if eq_text ct.id id then now + ct.recrawl_interval_s else 0) ≤ later

row-IsSpaced :
    (now later : ℕ) (id : Text) (cs : List Collection) (ct : CrawlTarget) (rest : List DueTarget)
    → IsDueLate id now later ct
    → All (IsSpaced id now later) rest
    → All
        (IsSpaced id now later)
        (if is_due later ct then joined ct (name_of cs ct.collection_id) rest else rest)
row-IsSpaced now later id cs ct rest late h =
    if-cases (All (IsSpaced id now later)) (is_due later ct)
      (λ due. All-joined (IsSpaced id now later) ct _ rest (λ n. late due) h) (λ _. h)

marked-IsDueLate :
    (now later : ℕ) (id : Text) (ct : CrawlTarget)
    → IsDueLate id now later
        (if eq_text ct.id id then record ct { last_crawled_at = some now } else ct)
unfolding is_due
marked-IsDueLate now later id ct =
    if-cases (IsDueLate id now later) (eq_text ct.id id) (λ e due. ground (arith, e, due))
      (λ other due. ground (arith, other))

mark_crawled-IsSpaced :
    (now later : ℕ) (id : Text) (cs : List Collection) (cts : List CrawlTarget)
    → All (IsSpaced id now later) (list_due_targets later cs (mark_crawled now id cts))
unfolding mark_crawled list_due_targets
mark_crawled-IsSpaced now later id cs [] = _
mark_crawled-IsSpaced now later id cs (ct ∷ cts) =
    row-IsSpaced now later id cs _ (list_due_targets later cs (mark_crawled now id cts))
      (marked-IsDueLate now later id ct) (mark_crawled-IsSpaced now later id cs cts)

-- What a run of a target leaves in the table: after a success, the target is not due before its
-- interval has passed since the tick that started it; after an error, the table is as it was.
abbrev pub IsPaced :
    {W : Type 0} → DueTarget → ℕ → ℕ → List Collection → List CrawlTarget → Ended W → Type 0
IsPaced t now later cs cts ended = elim ended.outcome [
  | ok stats ↦ All (IsSpaced t.id now later) (list_due_targets later cs ended.targets)
  | err e ↦ ended.targets ≡ cts
]

marked-IsPaced :
    {W : Type 0} (t : DueTarget) (now later : ℕ) (cs : List Collection) (cts : List CrawlTarget)
    (r : CrawlResult Run × W)
    → IsPaced t now later cs cts (marked now t.id cts r)
marked-IsPaced t now later cs cts (ok stats, w) = mark_crawled-IsSpaced now later t.id cs cts
marked-IsPaced t now later cs cts (err e, w) = refl

marked-outcome :
    {W : Type 0} (t : DueTarget) (now : ℕ) (cts : List CrawlTarget) (r : CrawlResult Run × W)
    → (marked now t.id cts r).outcome ≡ r.0
marked-outcome t now cts (ok stats, w) = refl
marked-outcome t now cts (err e, w) = refl

-- The run of a due target ends, whatever its pages answer: there is an amount of fuel with which it
-- gives a result. It is an error exactly if the prefix is no URL, and then the table is as it was;
-- else the table is marked, and the target is in no later list of due targets before its interval has
-- passed since the tick that started the run.
pub run_one_target-ends :
    {W Url : Type 0} (crawl_page : PageContext → ℕ → Text → W → CrawlResult PageResult × W)
    (api : UrlApi Url) (seeding : Seeding) (config : DriverConfig) (t : DueTarget) (now later : ℕ)
    (cs : List Collection) (cts : List CrawlTarget) (w : W)
    → (fuel : ℕ) × (ended : Ended W) × (run_one_target crawl_page api seeding fuel config t now cts
          w
        ≡ some ended)
      × IsPaced t now later cs cts ended
      × (IsErr ended.outcome ↔ (normalize_url api t.url_prefix ≡ none))
unfolding run_one_target
run_one_target-ends crawl_page api seeding config t now later cs cts w =
    let ends =
      crawl_target-ends (crawl_page (page_context t) now) api seeding
        (driver_config_for config t.crawl_delay_secs) t.url_prefix w in
    let res = ends.1 in
    (
      ends.0,
      marked now t.id cts res,
      ap (map_ended now t.id cts) ends.2,
      marked-IsPaced t now later cs cts res,
      subst (λ o. IsErr o ↔ (normalize_url api t.url_prefix ≡ none))
          (sym (marked-outcome t now cts res)) ends.3,
    )
