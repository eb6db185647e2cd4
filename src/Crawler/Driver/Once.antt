-- ===== src/Crawler/Driver/Once.antt =====
-- src/crawler/driver.rs: what a finished run has fetched.
use community_search.Base.{
  ℕ, suc, ◌+◌, ◌≤◌, ◌<◌, ◌≡◌, refl, sym, ◌∙◌, inl, inr, Bool-cases, true, false, Option,
  Option-cases, none, some, List, [], ◌∷◌, ◌++◌, Text, arith, subst, ltb, leb, if◌then◌else◌,
  eq_text, eq_text_iff, count_if, count_if-append,
}
use community_search.Crawler.{rate_limited, other, CrawlResult, ok, err, PageResult}
use community_search.Crawler.UrlClass.{UrlApi, normalize_url}
use community_search.Crawler.Driver.{
  DriverConfig, Run, Event, fetched, refused, failed, slept, after_pass, pass, on_success, on_error,
  on_rate_limited, enqueue_links, polite_sleep, turn_on, effective_delay_for_run, start_run,
  crawl_seed, crawl_target, Seeding, finish, visited_contains, has_next,
}
use community_search.Crawler.Driver.Loop.{TurnsTo, crawl_loop_inv}

-- How often a URL was fetched with success.
abbrev pub times_fetched : Text → List Event → ℕ
times_fetched u [] = 0
times_fetched u (fetched v ∷ events) =
    let rest = times_fetched u events in if eq_text v u then suc rest else rest
times_fetched u (refused v ∷ events) = times_fetched u events
times_fetched u (failed v ∷ events) = times_fetched u events
times_fetched u (slept d ∷ events) = times_fetched u events

-- How many fetches succeeded.
abbrev pub all_fetched : List Event → ℕ
all_fetched [] = 0
all_fetched (fetched v ∷ events) = suc (all_fetched events)
all_fetched (refused v ∷ events) = all_fetched events
all_fetched (failed v ∷ events) = all_fetched events
all_fetched (slept d ∷ events) = all_fetched events

abbrev queued : Text → List Text → ℕ
queued u = count_if (λ v. eq_text v u)

-- A URL that is fetched or waits in the queue does so once and has been visited.
record IsOnce (config : DriverConfig) (st : Run) : Type 0 where
  once :
      (u : Text)
      → times_fetched u st.trace + queued u st.queue
        ≤ (if visited_contains u st.visited then 1 else 0)
  bounded : st.stats.pages_fetched ≤ config.max_pages_per_run
  counted : all_fetched st.trace ≡ st.stats.pages_fetched

module _ (config : DriverConfig) where
  enqueue-IsOnce :
      (link : Text) (st : Run)
      → visited_contains link st.visited ≡ false
      → IsOnce config st
      → IsOnce config (record st { visited = link ∷ st.visited; queue = st.queue ++ link ∷ [] })
  unfolding visited_contains
  enqueue-IsOnce link st new v = record {
    once = λ u.
        let unseen : eq_text link u ≡ true → visited_contains u st.visited ≡ false =
          λ e. subst (λ x. visited_contains x st.visited ≡ false) ((eq_text_iff link u).0 e) new in
        ground (arith, v.once u, unseen, count_if-append (λ v. eq_text v u) st.queue (link ∷ []));
    bounded = v.bounded;
    counted = v.counted;
  }

  enqueue_links-IsOnce :
      (links : List Text) (st : Run) → IsOnce config st → IsOnce config (enqueue_links links st)
  unfolding enqueue_links
  enqueue_links-IsOnce [] st v = v
  enqueue_links-IsOnce (link ∷ links) st v =
      enqueue_links-IsOnce links _ (elim (Bool-cases (visited_contains link st.visited)) [
        | inl old ↦ rw old v
        | inr new ↦ rw new (enqueue-IsOnce link st new v)
      ])

  polite_sleep-IsOnce :
      (delay : ℕ) (st : Run) → IsOnce config st → IsOnce config (polite_sleep config delay st)
  unfolding polite_sleep
  polite_sleep-IsOnce delay st v = elim (Bool-cases (has_next config st)) [
    | inl more ↦ rw more (record { once = v.once; bounded = v.bounded; counted = v.counted })
    | inr last ↦ rw last v
  ]

  module _ (url : Text) (rest : List Text) (st : Run) (here : st.queue ≡ url ∷ rest)
      (v : IsOnce config st) where
    on_success-IsOnce :
        (result : PageResult)
        → st.stats.pages_fetched < config.max_pages_per_run
        → IsOnce config (on_success url result (record st { queue = rest }))
    unfolding on_success
    on_success-IsOnce result room = enqueue_links-IsOnce result.in_prefix_links _ (record {
      once = λ u. ground (arith, v.once u);
      bounded = omega arith;
      counted = omega (arith, v.counted);
    })

    on_error-IsOnce : IsOnce config (on_error url (record st { queue = rest }))
    unfolding on_error
    on_error-IsOnce = record {
      once = λ u. ground (arith, v.once u);
      bounded = v.bounded;
      counted = v.counted;
    }

    on_rate_limited-IsOnce :
        {W : Type 0} (o : Option ℕ) (w : W)
        → TurnsTo
            (λ s _. IsOnce config s)
            (after_pass (on_rate_limited url o (record st { queue = rest })) w)
    unfolding on_rate_limited
    on_rate_limited-IsOnce o w = elim (Bool-cases (leb 5 (st.consecutive_429s + 1))) [
      | inl many ↦ rw many (record {
        once = λ u. ground (arith, v.once u);
        bounded = v.bounded;
        counted = v.counted;
      })
      | inr few ↦ rw few (record {
        once = λ u. ground (arith, v.once u);
        bounded = v.bounded;
        counted = v.counted;
      })
    ]

    pass-IsOnce :
        {W : Type 0} (delay : ℕ) (r : CrawlResult PageResult) (w : W)
        → st.stats.pages_fetched < config.max_pages_per_run
        → TurnsTo
            (λ s _. IsOnce config s)
            (after_pass (pass config delay url r (record st { queue = rest })) w)
    unfolding pass
    pass-IsOnce delay (ok result) w room =
        polite_sleep-IsOnce delay _ (on_success-IsOnce result room)
    pass-IsOnce delay (err (rate_limited o)) w room = on_rate_limited-IsOnce o w
    pass-IsOnce delay (err _) w room = polite_sleep-IsOnce delay _ on_error-IsOnce

  module _ {W : Type 0} (crawl_page : Text → W → CrawlResult PageResult × W) where
    turn_on-IsOnce :
        (delay : ℕ) (queue : List Text) (st : Run) (w : W)
        → st.queue ≡ queue
        → IsOnce config st
        → TurnsTo (λ s _. IsOnce config s) (turn_on crawl_page config delay queue st w)
    unfolding turn_on
    turn_on-IsOnce delay [] st w here v = v
    turn_on-IsOnce delay (url ∷ rest) st w here v =
        elim (Bool-cases (ltb st.stats.pages_fetched config.max_pages_per_run)) [
          | inl room ↦ rw room (pass-IsOnce url rest st here v delay _ _ (ground arith))
          | inr full ↦ rw full v
        ]

    start_run-IsOnce :
        (seed_url : Text) (seeds : List Text) → IsOnce config (start_run seed_url seeds)
    unfolding start_run visited_contains
    start_run-IsOnce seed_url seeds =
        enqueue_links-IsOnce seeds _
          (record { once = λ u. ground arith; bounded = omega arith; counted = omega arith })

    crawl_seed-IsOnce :
        (fuel : ℕ) (seed_url : Text) (robots_delay : Option ℕ) (seeds : List Text) (w w' : W)
        (st : Run)
        → crawl_seed crawl_page fuel config seed_url robots_delay seeds w ≡ some (st, w')
        → IsOnce config st
    unfolding crawl_seed
    crawl_seed-IsOnce fuel seed_url robots_delay seeds w w' st e =
        crawl_loop_inv crawl_page config
          (effective_delay_for_run config.politeness_delay robots_delay) (λ s _. IsOnce config s)
          (λ s x h. turn_on-IsOnce _ s.queue s x refl h) fuel (start_run seed_url seeds) st w w'
          (start_run-IsOnce seed_url seeds) e

    finish-some :
        (o : Option (Run × W)) (st : Run) (w' : W) → finish o ≡ some (ok st, w') → o ≡ some (st, w')
    finish-some none st w' e = cc
    finish-some (some (s, v)) st w' e = cc

    refused_seed :
        (o : Option (CrawlResult Run × W)) (w w' : W) (st : Run)
        → o ≡ some (err other, w)
        → o ≡ some (ok st, w')
        → ⊥
    refused_seed o w w' st h e = cc

    -- When the run of a target ends with a result, no URL has been fetched with success more than
    -- once, and the pages fetched are as many as the statistics say, at most `max_pages_per_run`:
    -- whatever `crawl_page` answers, and however often its pages link to one another.
    pub crawl_target_fetches_once :
        {Url : Type 0} (api : UrlApi Url) (seeding : Seeding) (fuel : ℕ) (seed_url : Text)
        (w w' : W) (st : Run)
        → crawl_target crawl_page api seeding fuel config seed_url w ≡ some (ok st, w')
        → ((u : Text) → times_fetched u st.trace ≤ 1)
          × (all_fetched st.trace ≡ st.stats.pages_fetched)
          × (st.stats.pages_fetched ≤ config.max_pages_per_run)
    unfolding crawl_target
    crawl_target_fetches_once api seeding fuel seed_url w w' st e =
        let v : IsOnce config st = elim (Option-cases (normalize_url api seed_url)) [
          | inl unparseable ↦ absurd (
              refused_seed (crawl_target crawl_page api seeding fuel config seed_url w) w w' st
                (rw (crawl_target, unparseable) refl) e)
          | inr (url, parses) ↦
              let delay : Option ℕ = seeding.crawl_delay_for url in
              let seeds : List Text = seeding.discover_urls url in
              let run : Option (Run × W) = crawl_seed crawl_page fuel config url delay seeds w in
              let ends : crawl_target crawl_page api seeding fuel config seed_url w ≡ finish run =
                rw (crawl_target, parses) refl in
              crawl_seed-IsOnce fuel url delay seeds w w' st (finish-some run st w' (sym ends ∙ e))
        ] in
        (λ u. ground (arith, v.once u), v.counted, v.bounded)
