-- ===== src/Crawler/Driver/Loop.antt =====
-- src/crawler/driver.rs: how a pass brings the run forward, and invariants of the turns.
use community_search.Base.{
  ℕ, zero, suc, ◌+◌, ◌<◌, ◌≡◌, refl, ap, ◌∙◌, ◌⊎◌, inl, inr, Bool-cases, Option, some, List, [],
  ◌∷◌, Text, arith, length, subst, leb,
}
use mathlib.Core.Option.{some-injective}
use community_search.Crawler.{
  rate_limited, http, url_parse, db, tantivy, io, other, robots_disallowed, not_html, index_full,
  CrawlResult, ok, err, PageResult,
}
use community_search.Crawler.Driver.{
  DriverConfig, DriverStats, Run, Pass, goes_on, breaks, Turn, finished, again, proceed, pass,
  on_success, on_error, on_rate_limited, enqueue_links, polite_sleep, turn_on, crawl_loop,
}

-- How a pass that goes on has brought the run forward, from a queue of `before + 1` URLs.
abbrev pub Forward : Run → Run → Type 0
Forward st st' =
    (st'.stats.pages_fetched ≡ st.stats.pages_fetched + 1)
    ⊎ (st'.stats.pages_fetched ≡ st.stats.pages_fetched)
      × (st'.consecutive_429s ≡ st.consecutive_429s)
      × (st'.queue ≡ st.queue)
    ⊎ (st'.stats.pages_fetched ≡ st.stats.pages_fetched)
      × (st'.consecutive_429s ≡ st.consecutive_429s + 1)
      × (st'.consecutive_429s < 5)
      × (length st'.queue ≡ length st.queue + 1)

abbrev pub Advances : Run → Pass → Type 0
Advances st (goes_on st') = Forward st st'
Advances st (breaks st') = Unit

enqueue_links-stats : (links : List Text) (st : Run) → (enqueue_links links st).stats ≡ st.stats
unfolding enqueue_links
enqueue_links-stats [] st = refl
enqueue_links-stats (link ∷ links) st = enqueue_links-stats links _ ∙ ground arith

polite_sleep-stats :
    (config : DriverConfig) (delay : ℕ) (st : Run) → (polite_sleep config delay st).stats ≡ st.stats
unfolding polite_sleep
polite_sleep-stats config delay st = ground arith

module _ (config : DriverConfig) (delay : ℕ) (url : Text) (st : Run) where
  success-Advances :
      (result : PageResult)
      → Advances st (goes_on (polite_sleep config delay (on_success url result st)))
  unfolding on_success
  success-Advances result = inl (
      ap (λ (t : DriverStats). t.pages_fetched)
        (polite_sleep-stats config delay (on_success url result st)
          ∙ enqueue_links-stats result.in_prefix_links _))

  error-Advances : Advances st (goes_on (polite_sleep config delay (on_error url st)))
  unfolding on_error polite_sleep
  error-Advances = inr (inl (ground arith))

  rate_limited-Advances : (o : Option ℕ) → Advances st (on_rate_limited url o st)
  unfolding on_rate_limited
  rate_limited-Advances o = elim (Bool-cases (leb 5 (st.consecutive_429s + 1))) [
    | inl many ↦ rw many tt
    | inr few ↦ rw few (inr (inr (ground arith)))
  ]

  pub pass-Advances : (r : CrawlResult PageResult) → Advances st (pass config delay url r st)
  unfolding pass
  pass-Advances (ok result) = success-Advances result
  pass-Advances (err (rate_limited o)) = rate_limited-Advances o
  pass-Advances (err http) = error-Advances
  pass-Advances (err url_parse) = error-Advances
  pass-Advances (err db) = error-Advances
  pass-Advances (err tantivy) = error-Advances
  pass-Advances (err io) = error-Advances
  pass-Advances (err other) = error-Advances
  pass-Advances (err (robots_disallowed u)) = error-Advances
  pass-Advances (err (not_html c)) = error-Advances
  pass-Advances (err (index_full used max)) = error-Advances

-- What a turn must show of the run that it leads to.
abbrev pub TurnsTo : {W : Type 0} → (Run → W → Type 0) → Turn W → Type 0
TurnsTo P (finished st w) = P st w
TurnsTo P (again st w) = P st w

module _ {W : Type 0} (crawl_page : Text → W → CrawlResult PageResult × W) where
  proceed_inv :
      (P : Run → W → Type 0) (next : Run → W → Option (Run × W)) (st' : Run) (w' : W)
      → ((s : Run) (v : W) → P s v → next s v ≡ some (st', w') → P st' w')
      → (t : Turn W) → TurnsTo P t
      → proceed next t ≡ some (st', w')
      → P st' w'
  proceed_inv P next st' w' rest (finished s v) h e =
      subst (λ (r : Run × W). P r.0 r.1) (some-injective (s, v) (st', w') e) h
  proceed_inv P next st' w' rest (again s v) h e = rest s v h e

  -- An invariant of the turns holds when the loop ends.
  pub crawl_loop_inv :
      (config : DriverConfig) (delay : ℕ) (P : Run → W → Type 0)
      → ((st : Run) (w : W) → P st w → TurnsTo P (turn_on crawl_page config delay st.queue st w))
      → (fuel : ℕ) (st st' : Run) (w w' : W) → P st w
      → crawl_loop crawl_page fuel config delay st w ≡ some (st', w')
      → P st' w'
  unfolding crawl_loop
  crawl_loop_inv config delay P keep zero st st' w w' h e = cc
  crawl_loop_inv config delay P keep (suc fuel) st st' w w' h e =
      proceed_inv P (crawl_loop crawl_page fuel config delay) st' w'
        (λ s v k q. crawl_loop_inv config delay P keep fuel s st' v w' k q)
        (turn_on crawl_page config delay st.queue st w) (keep st w h) e
