-- ===== src/Crawler/Page/Frame.antt =====
-- src/crawler/page.rs: what the crawl of a page leaves as it was.
use community_search.Base.{
  ℕ, ◌+◌, ◌<◌, ◌≡◌, refl, ◌∙◌, ◌⊎◌, inl, inr, Bool, Bool-cases, true, false, Option, none, some,
  ◌∷◌, Text, arith, if◌then◌else◌, if-cases,
}
use community_search.Crawler.{CrawlResult, ok, err, other, PageResult}
use community_search.Crawler.UrlClass.{UrlApi, is_in_prefix}
use community_search.Crawler.Pages.{CrawledPageRow, get_by_url}
use community_search.Crawler.Pages.Journal.{journal_of, journal-upsert}
use community_search.Crawler.Outlinks.{ExamplesJson}
use community_search.Crawler.Page.{
  PageContext, FreshPage, FetchOutcome, limited, unmodified, other_status, fresh, Web, IndexJob, Io,
  World, filter_option, or_else, unwrap_or, redirect_url, canonical_url, index_url, job_of, send,
  on_status, store_fresh, already_indexed, on_fresh, on_outcome, when_allowed, crawl_page,
}

-- Between two worlds the journal of every page is the same, and no job was sent.
pub record Stays (w w' : World) : Type 0 where
  pub journal : (c u : Text) → journal_of w'.pages c u ≡ journal_of w.pages c u
  pub sent : w'.sent ≡ w.sent
  pub inflight : w'.inflight ≡ w.inflight

-- The same, but that a job may have been sent, for the URL itself or one in the prefix.
pub record Sends {Url : Type 0} (api : UrlApi Url) (ctx : PageContext) (url : Text) (w w' : World)
    : Type 0 where
  pub journal : (c u : Text) → journal_of w'.pages c u ≡ journal_of w.pages c u
  pub jobs :
      (w'.sent ≡ w.sent) × (w'.inflight ≡ w.inflight)
      ⊎ (job : IndexJob) × (w'.sent ≡ job ∷ w.sent)
        × (w'.inflight ≡ w.inflight + 1)
        × ((job.url ≡ url) ⊎ (is_in_prefix api job.url ctx.url_prefix ≡ true))
        × (job.collection_id ≡ ctx.collection_id)

Stays-same : (w : World) → Stays w w
Stays-same w = record { journal = λ c u. refl; sent = refl; inflight = refl }

Stays-Sends :
    {Url : Type 0} (api : UrlApi Url) (ctx : PageContext) (url : Text) (w w' : World)
    → Stays w w'
    → Sends api ctx url w w'
Stays-Sends api ctx url w w' s = record { journal = s.journal; jobs = inl (s.sent, s.inflight) }

filter_option-holds :
    (p : Text → Bool) (o : Option Text) (t : Text) → filter_option p o ≡ some t → p t ≡ true
filter_option-holds p none t h = cc
filter_option-holds p (some s) t h = ground (arith, h)

unwrap-or_else :
    (P : Text → Type 0) (a b : Option Text) (d : Text)
    → ((t : Text) → a ≡ some t → P t)
    → ((t : Text) → b ≡ some t → P t)
    → (unwrap_or (or_else a b) d ≡ d) ⊎ P (unwrap_or (or_else a b) d)
unwrap-or_else P none none d f g = inl refl
unwrap-or_else P none (some t) d f g = inr (g t refl)
unwrap-or_else P (some t) b d f g = inr (f t refl)

module _ {Url : Type 0} (api : UrlApi Url) (json : ExamplesJson) (web : Web) where
  -- The URL that a page is indexed under is the URL crawled, or one in the prefix.
  index_url-prefix :
      (ctx : PageContext) (url : Text) (page : FreshPage)
      → (index_url api json web ctx url page ≡ url)
        ⊎ (is_in_prefix api (index_url api json web ctx url page) ctx.url_prefix ≡ true)
  unfolding index_url redirect_url canonical_url
  index_url-prefix ctx url page =
      unwrap-or_else (λ t. is_in_prefix api t ctx.url_prefix ≡ true) _ _ url
        (filter_option-holds _ _) (filter_option-holds _ _)

  on_status-Stays :
      (io : Io) (ctx : PageContext) (url : Text) (now : ℕ) (prior : Option CrawledPageRow)
      (status : ℕ) (b : Bool) (w : World)
      → Stays w (on_status api json web io ctx url now prior status b w).1
  unfolding on_status
  on_status-Stays io ctx url now prior status b w = elim (Bool-cases io.upserts) [
    | inl writes ↦
        rw writes (record { journal = journal-upsert w.pages _; sent = refl; inflight = refl })
    | inr fails ↦ rw fails (Stays-same w)
  ]

  pub store_fresh-Stays :
      (io : Io) (ctx : PageContext) (url : Text) (now : ℕ) (prior : Option CrawledPageRow)
      (page : FreshPage) (b : Bool) (w : World)
      → Stays w (store_fresh api json web io ctx url now prior page b w).1
  unfolding store_fresh
  store_fresh-Stays io ctx url now prior page b w = elim (Bool-cases io.upserts) [
    | inl writes ↦
        rw writes (record { journal = journal-upsert w.pages _; sent = refl; inflight = refl })
    | inr fails ↦ rw fails (Stays-same w)
  ]

  module _ (io : Io) (ctx : PageContext) (url : Text) (now : ℕ) (w : World)
      (room : w.inflight < 9223372036854775808) where
    on_fresh-Sends :
        (prior : Option CrawledPageRow) (page : FreshPage)
        → Sends api ctx url w (on_fresh api json web io ctx url now prior page w).1
    unfolding on_fresh send
    on_fresh-Sends prior page =
        if-cases (λ (r : CrawlResult PageResult × World). Sends api ctx url w r.1)
          (already_indexed api json web prior page)
          (λ known.
            Stays-Sends api ctx url w _ (store_fresh-Stays io ctx url now prior page false w))
          (λ stale.
            if-cases
              (λ (h : Bool × World).
                Sends api ctx url w
                  (if h.0
                    then store_fresh api json web io ctx url now prior page true h.1
                    else (err other, h.1)).1)
              w.channel_open
              (λ live.
                let s = store_fresh-Stays io ctx url now prior page true _ in
                record {
                  journal = s.journal;
                  jobs = inr (
                    job_of api json web ctx url now page,
                    s.sent,
                    s.inflight ∙ omega (arith, room),
                    index_url-prefix ctx url page,
                    refl,
                  );
                })
              (λ closed. record { journal = λ c u. refl; jobs = inl (refl, omega (arith, room)) }))

    on_outcome-Sends :
        (prior : Option CrawledPageRow) (r : CrawlResult FetchOutcome)
        → Sends api ctx url w (on_outcome api json web io ctx url now prior r w).1
    unfolding on_outcome
    on_outcome-Sends prior (err e) = Stays-Sends api ctx url w w (Stays-same w)
    on_outcome-Sends prior (ok (limited o)) = Stays-Sends api ctx url w w (Stays-same w)
    on_outcome-Sends prior (ok unmodified) =
        Stays-Sends api ctx url w _ (on_status-Stays io ctx url now prior 304 true w)
    on_outcome-Sends prior (ok (other_status status)) =
        Stays-Sends api ctx url w _ (on_status-Stays io ctx url now prior status false w)
    on_outcome-Sends prior (ok (fresh page)) = on_fresh-Sends prior page

    when_allowed-Sends :
        (allowed : CrawlResult Bool)
        → Sends api ctx url w (when_allowed api json web io ctx url now allowed w).1
    unfolding when_allowed
    when_allowed-Sends (err e) = Stays-Sends api ctx url w w (Stays-same w)
    when_allowed-Sends (ok false) = Stays-Sends api ctx url w w (Stays-same w)
    when_allowed-Sends (ok true) =
        if-cases (λ (r : CrawlResult PageResult × World). Sends api ctx url w r.1) io.reads
          (λ reads. on_outcome-Sends (get_by_url w.pages ctx.collection_id url) _)
          (λ fails. Stays-Sends api ctx url w w (Stays-same w))

  -- However a page answers and whichever statements SQLite refuses, its crawl moves the journal of no
  -- page, and sends at most one job: for the URL crawled or a URL in the prefix, in the collection of
  -- the target. The counter of jobs in flight grows by the jobs sent. The counter is below 2^63.
  pub crawl_page-Sends :
      (io : Io) (ctx : PageContext) (now : ℕ) (url : Text) (w : World)
      → w.inflight < 9223372036854775808
      → Sends api ctx url w (crawl_page api json web io ctx now url w).1
  unfolding crawl_page
  crawl_page-Sends io ctx now url w room =
      when_allowed-Sends io ctx url now w room (web.is_allowed url)
