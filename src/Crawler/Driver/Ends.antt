-- ===== src/Crawler/Driver/Ends.antt =====
-- src/crawler/driver.rs: the end of the loop.
use community_search.Base.{
  ℕ, zero, suc, ◌+◌, ◌≤◌, ◌<◌, ◌≡◌, ◌≢◌, ◌↔◌, sym, refl, ap, ◌∙◌, inl, inr, Bool-cases, Option,
  none, Option-cases, some, List, [], ◌∷◌, Text, arith, length, subst, ltb,
}
use community_search.Crawler.{other, CrawlResult, ok, err, PageResult}
use community_search.Crawler.UrlClass.{UrlApi, normalize_url}
use community_search.Crawler.Driver.{
  DriverConfig, Run, Pass, goes_on, breaks, Turn, finished, again, after_pass, turn_on, crawl_loop,
  effective_delay_for_run, start_run, crawl_seed, crawl_target, Seeding, finish,
}
use community_search.Crawler.Driver.Loop.{Forward, Advances, pass-Advances}

abbrev pub IsErr : CrawlResult Run → Type 0
IsErr (ok st) = ⊥
IsErr (err e) = Unit

some-ne-none : (t : Text) → some t ≢ none
some-ne-none t e = cc

module _ {W : Type 0} (crawl_page : Text → W → CrawlResult PageResult × W) where
  abbrev Ends : DriverConfig → ℕ → Run → W → Type 0
  Ends config delay st w =
      (fuel : ℕ) × (res : Run × W) × (crawl_loop crawl_page fuel config delay st w ≡ some res)

  -- What the turn's outcome says of the run before it, whose queue is the list.
  abbrev Moves : DriverConfig → List Text → Run → Turn W → Type 0
  Moves config queue st (finished s v) = Unit
  Moves config [] st (again s v) = ⊥
  Moves config (url ∷ rest) st (again s v) =
      (st.stats.pages_fetched < config.max_pages_per_run) × Forward (record st { queue = rest }) s

  after_pass-Moves :
      (config : DriverConfig) (url : Text) (rest : List Text) (st : Run) (p : Pass) (w : W)
      → st.stats.pages_fetched < config.max_pages_per_run
      → Advances (record st { queue = rest }) p
      → Moves config (url ∷ rest) st (after_pass p w)
  after_pass-Moves config url rest st (goes_on s) w room h = (room, h)
  after_pass-Moves config url rest st (breaks s) w room h = tt

  turn_on-Moves :
      (config : DriverConfig) (delay : ℕ) (queue : List Text) (st : Run) (w : W)
      → Moves config queue st (turn_on crawl_page config delay queue st w)
  unfolding turn_on
  turn_on-Moves config delay [] st w = tt
  turn_on-Moves config delay (url ∷ rest) st w =
      elim (Bool-cases (ltb st.stats.pages_fetched config.max_pages_per_run)) [
        | inl room ↦ rw room (
            after_pass-Moves config url rest st _ _ (ground arith)
              (pass-Advances config delay url _ _))
        | inr full ↦ rw full tt
      ]

  module _ (config : DriverConfig) (delay : ℕ) where
    Ends-again :
        (t : Turn W) (st : Run) (w : W)
        → turn_on crawl_page config delay st.queue st w ≡ t
        → ((s : Run) (v : W) → t ≡ again s v → Ends config delay s v)
        → Ends config delay st w
    unfolding crawl_loop
    Ends-again (finished s v) st w e rest = (1, (s, v), rw e)
    Ends-again (again s v) st w e rest = let r = rest s v refl in (suc r.0, r.1, rw e r.2)

    Ends-step :
        (st : Run) (w : W)
        → ((s : Run) (v : W)
            → st.stats.pages_fetched < config.max_pages_per_run
            → s.stats.pages_fetched ≡ st.stats.pages_fetched + 1
            → Ends config delay s v)
        → ((s : Run) (v : W)
            → st.stats.pages_fetched < config.max_pages_per_run
            → s.stats.pages_fetched ≡ st.stats.pages_fetched
            → length s.queue < length st.queue
            → Ends config delay s v)
        → ((s : Run) (v : W)
            → st.stats.pages_fetched < config.max_pages_per_run
            → s.stats.pages_fetched ≡ st.stats.pages_fetched
            → length s.queue ≡ length st.queue
            → s.consecutive_429s ≡ st.consecutive_429s + 1
            → s.consecutive_429s < 5
            → Ends config delay s v)
        → Ends config delay st w
    Ends-step st w more fewer again_429 =
        Ends-again (turn_on crawl_page config delay st.queue st w) st w refl (λ s v e.
          go st.queue s v refl
            (subst (Moves config st.queue st) e (turn_on-Moves config delay st.queue st w)))
      where
        go :
            (queue : List Text) (s : Run) (v : W)
            → st.queue ≡ queue
            → Moves config queue st (again s v)
            → Ends config delay s v
        go [] s v e m = absurd m
        go (url ∷ rest) s v e (room, inl f) = more s v room f
        go (url ∷ rest) s v e (room, inr (inl f)) =
            fewer s v room f.0 (omega (arith, ap length e, ap length f.2))
        go (url ∷ rest) s v e (room, inr (inr f)) =
            again_429 s v room f.0 (omega (arith, ap length e)) f.1 f.2

    -- Fewer chances to see a 429, then fewer URLs, then fewer pages to fetch.
    Ends-chances :
        (pages urls chances : ℕ)
        → ((s : Run) (v : W)
            → config.max_pages_per_run < s.stats.pages_fetched + pages
            → Ends config delay s v)
        → ((s : Run) (v : W)
            → config.max_pages_per_run ≤ s.stats.pages_fetched + pages
            → length s.queue < urls
            → Ends config delay s v)
        → (st : Run) (w : W) → config.max_pages_per_run ≤ st.stats.pages_fetched + pages
        → length st.queue ≤ urls
        → 5 ≤ st.consecutive_429s + chances
        → Ends config delay st w
    Ends-chances pages urls zero more fewer st w hp hu hc =
        Ends-step st w (λ s v room f. more s v (omega arith))
          (λ s v room f q. fewer s v (omega arith) (omega arith))
          (λ s v room f q c l. absurd (omega arith))
    Ends-chances pages urls (suc chances) more fewer st w hp hu hc =
        Ends-step st w (λ s v room f. more s v (omega arith))
          (λ s v room f q. fewer s v (omega arith) (omega arith))
          (λ s v room f q c l.
            Ends-chances pages urls chances more fewer s v (omega arith) (omega arith)
              (omega arith))

    Ends-urls :
        (pages urls : ℕ)
        → ((s : Run) (v : W)
            → config.max_pages_per_run < s.stats.pages_fetched + pages
            → Ends config delay s v)
        → (st : Run) (w : W) → config.max_pages_per_run ≤ st.stats.pages_fetched + pages
        → length st.queue ≤ urls
        → Ends config delay st w
    Ends-urls pages zero more st w hp hu =
        Ends-chances pages zero 5 more (λ s v p q. absurd (omega arith)) st w hp hu (omega arith)
    Ends-urls pages (suc urls) more st w hp hu =
        Ends-chances pages (suc urls) 5 more
          (λ s v p q. Ends-urls pages urls more s v p (omega arith)) st w hp hu (omega arith)

    Ends-pages :
        (pages : ℕ) (st : Run) (w : W)
        → config.max_pages_per_run ≤ st.stats.pages_fetched + pages
        → Ends config delay st w
    Ends-pages zero st w hp =
        Ends-step st w (λ s v room f. absurd (omega arith)) (λ s v room f q. absurd (omega arith))
          (λ s v room f q c l. absurd (omega arith))
    Ends-pages (suc pages) st w hp =
        Ends-urls (suc pages) (length st.queue) (λ s v p. Ends-pages pages s v (omega arith)) st w
          hp (omega arith)

  crawl_seed-ends :
      (config : DriverConfig) (seed_url : Text) (robots_delay : Option ℕ) (seeds : List Text)
      (w : W)
      → (fuel : ℕ) × (res : Run × W) × (crawl_seed crawl_page fuel config seed_url robots_delay
            seeds w
          ≡ some res)
  unfolding crawl_seed
  crawl_seed-ends config seed_url robots_delay seeds w =
      Ends-pages config (effective_delay_for_run config.politeness_delay robots_delay)
        config.max_pages_per_run (start_run seed_url seeds) w (omega arith)

  -- The run of a target ends whatever `crawl_page` answers: for every page function, configuration,
  -- seed, robots delay and sitemap there is an amount of fuel with which it comes to its end, with an
  -- error if the seed is no URL, else with a result.
  pub crawl_target-ends :
      {Url : Type 0} (api : UrlApi Url) (seeding : Seeding) (config : DriverConfig)
      (seed_url : Text) (w : W)
      → (fuel : ℕ) × (res : CrawlResult Run × W) × (crawl_target crawl_page api seeding fuel config
            seed_url w
          ≡ some res)
        × (IsErr res.0 ↔ (normalize_url api seed_url ≡ none))
  unfolding crawl_target
  crawl_target-ends api seeding config seed_url w =
      elim (Option-cases (normalize_url api seed_url)) [
        | inl unparseable ↦
            (0, (err other, w), rw (crawl_target, unparseable) refl, ((λ e. unparseable), λ e. tt))
        | inr (url, parses) ↦
            let run =
              crawl_seed-ends config url (seeding.crawl_delay_for url) (seeding.discover_urls url)
                w in
            (
              run.0,
              (ok run.1.0, run.1.1),
              rw (crawl_target, parses) (ap finish run.2),
              ((λ e. absurd e), λ e. absurd (some-ne-none url (sym parses ∙ e))),
            )
      ]
