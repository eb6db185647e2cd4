-- ===== src/Crawler/Page/Links.antt =====
-- src/crawler/page.rs: the links that a page hands to the driver.
use community_search.Base.{
  ℕ, ◌≡◌, Bool, Bool-cases, not, true, false, Option, none, some, List, [], ◌∷◌, Text, if-cases,
  some-cases, subst, All, All-append, length, inl, inr,
}
use community_search.Crawler.{CrawlResult, ok, err, PageResult}
use community_search.Crawler.UrlClass.{
  UrlApi, is_in_prefix, normalize_url, is_blacklisted_outlink_host, host_of,
}
use community_search.Crawler.Pages.{CrawledPageRow}
use community_search.Crawler.Outlinks.{ExamplesJson, HostsTable, record_hit}
use community_search.Crawler.Page.{
  PageContext, FreshPage, FetchOutcome, limited, unmodified, other_status, fresh, Web, Link, Io,
  World, filter_option, eq_option, bind_text, redirect_url, canonical_url, job_of, send, on_status,
  store_fresh, already_indexed, on_fresh, on_outcome, when_allowed, crawl_page, classify_link,
  classify_links, to_list,
}

-- What a result says, if there is one.
abbrev pub OnOk : (PageResult → Type 0) → CrawlResult PageResult → Type 0
OnOk P (ok result) = P result
OnOk P (err e) = Unit

abbrev OnSome {ℓ} : {A : Type ℓ} → (A → Type 0) → Option A → Type 0
OnSome P none = Unit
OnSome P (some a) = P a

module _ {Url : Type 0} (api : UrlApi Url) (json : ExamplesJson) (web : Web) (io : Io)
    (ctx : PageContext) (url : Text) (now : ℕ) where
  abbrev pub InPrefix : Text → Type 0
  InPrefix l = is_in_prefix api l ctx.url_prefix ≡ true

  to_list-filter :
      (o : Option Text)
      → All InPrefix (to_list (filter_option (λ c. is_in_prefix api c ctx.url_prefix) o))
  to_list-filter none = tt
  to_list-filter (some t) = elim (Bool-cases (is_in_prefix api t ctx.url_prefix)) [
    | inl within ↦ rw within (within, tt)
    | inr without ↦ rw without tt
  ]

  redirect_url-InPrefix :
      (page : FreshPage) → All InPrefix (to_list (redirect_url api json web ctx url page))
  unfolding redirect_url
  redirect_url-InPrefix page = to_list-filter (
      filter_option (λ c. not (eq_option (some c) (normalize_url api url)))
        (normalize_url api page.final_url))

  canonical_url-InPrefix :
      (page : FreshPage) → All InPrefix (to_list (canonical_url api json web ctx url page))
  unfolding canonical_url
  canonical_url-InPrefix page = to_list-filter (
      filter_option (λ c. not (eq_option (redirect_url api json web ctx url page) (some c)))
        (filter_option (λ c. not (eq_option (some c) (normalize_url api url)))
          (bind_text (web.extract_canonical page.body page.final_url) (normalize_url api))))

  abbrev FoundInPrefix : Option (List Text × HostsTable) → Type 0
  FoundInPrefix o = OnSome (λ (r : List Text × HostsTable). All InPrefix r.0) o

  classify_link-InPrefix :
      (link : Link) (left : ℕ) (hosts : HostsTable)
      → FoundInPrefix (classify_link api json web io ctx url now link left hosts)
  unfolding classify_link
  classify_link-InPrefix link left hosts =
      some-cases FoundInPrefix (normalize_url api link.url) (λ unknown. tt)
        (λ normalized n.
          if-cases FoundInPrefix (is_in_prefix api normalized ctx.url_prefix)
            (λ within. (within, tt))
            (λ without.
              if-cases FoundInPrefix (is_blacklisted_outlink_host api normalized) (λ black. tt)
                (λ fine.
                  some-cases FoundInPrefix (host_of api normalized) (λ hostless. tt)
                    (λ host h.
                      if-cases FoundInPrefix (io.hits left)
                        (λ answered.
                          some-cases FoundInPrefix
                            (record_hit json hosts ctx.collection_id host _ now) (λ e. tt)
                            (λ hosts' e. tt))
                        (λ refused. tt)))))

  classify_links-InPrefix :
      (links : List Link) (hosts : HostsTable)
      → OnSome (All InPrefix) (classify_links api json web io ctx url now links hosts).0
  unfolding classify_links
  classify_links-InPrefix [] hosts = tt
  classify_links-InPrefix (link ∷ links) hosts =
      some-cases (λ (r : Option (List Text) × HostsTable). OnSome (All InPrefix) r.0)
        (classify_link api json web io ctx url now link (length links) hosts) (λ broke. tt)
        (λ one e.
          some-cases (OnSome (All InPrefix))
            (classify_links api json web io ctx url now links one.1).0 (λ broke. tt)
            (λ more f.
              All-append InPrefix one.0 more
                (subst FoundInPrefix e (classify_link-InPrefix link (length links) hosts))
                (subst (OnSome (All InPrefix)) f (classify_links-InPrefix links one.1))))

  store_fresh-InPrefix :
      (prior : Option CrawledPageRow) (page : FreshPage) (b : Bool) (w : World)
      → OnOk
          (λ r. All InPrefix r.in_prefix_links)
          (store_fresh api json web io ctx url now prior page b w).0
  unfolding store_fresh
  store_fresh-InPrefix prior page b w =
      if-cases
        (λ (r : CrawlResult PageResult × World). OnOk (λ r. All InPrefix r.in_prefix_links) r.0)
        io.upserts
        (λ writes.
          some-cases (OnOk (λ r. All InPrefix r.in_prefix_links))
            (classify_links api json web io ctx url now (web.extract_links page.body page.final_url)
              w.hosts).0
            (λ broke. tt)
            (λ found f.
              All-append InPrefix _ found
                (All-append InPrefix (to_list (redirect_url api json web ctx url page)) _
                  (redirect_url-InPrefix page) (canonical_url-InPrefix page))
                (subst (OnSome (All InPrefix)) f (classify_links-InPrefix _ w.hosts))))
        (λ fails. tt)

  on_outcome-InPrefix :
      (prior : Option CrawledPageRow) (r : CrawlResult FetchOutcome) (w : World)
      → OnOk
          (λ r. All InPrefix r.in_prefix_links)
          (on_outcome api json web io ctx url now prior r w).0
  unfolding on_outcome on_status on_fresh
  on_outcome-InPrefix prior (err e) w = tt
  on_outcome-InPrefix prior (ok (limited o)) w = tt
  on_outcome-InPrefix prior (ok unmodified) w =
      if-cases
        (λ (r : CrawlResult PageResult × World). OnOk (λ r. All InPrefix r.in_prefix_links) r.0)
        io.upserts (λ writes. tt) (λ fails. tt)
  on_outcome-InPrefix prior (ok (other_status status)) w =
      if-cases
        (λ (r : CrawlResult PageResult × World). OnOk (λ r. All InPrefix r.in_prefix_links) r.0)
        io.upserts (λ writes. tt) (λ fails. tt)
  on_outcome-InPrefix prior (ok (fresh page)) w =
      if-cases
        (λ (r : CrawlResult PageResult × World). OnOk (λ r. All InPrefix r.in_prefix_links) r.0)
        (already_indexed api json web prior page) (λ known. store_fresh-InPrefix prior page false w)
        (λ stale.
          if-cases
            (λ (r : CrawlResult PageResult × World). OnOk (λ r. All InPrefix r.in_prefix_links) r.0)
            (send api json web (job_of api json web ctx url now page) w).0
            (λ taken. store_fresh-InPrefix prior page true _) (λ closed. tt))

  when_allowed-InPrefix :
      (allowed : CrawlResult Bool) (w : World)
      → OnOk
          (λ r. All InPrefix r.in_prefix_links)
          (when_allowed api json web io ctx url now allowed w).0
  unfolding when_allowed
  when_allowed-InPrefix (err e) w = tt
  when_allowed-InPrefix (ok false) w = tt
  when_allowed-InPrefix (ok true) w =
      if-cases
        (λ (r : CrawlResult PageResult × World). OnOk (λ r. All InPrefix r.in_prefix_links) r.0)
        io.reads (λ reads. on_outcome-InPrefix _ _ w) (λ fails. tt)

  -- Every link that the crawl of a page hands on is in the prefix of the target, be it from the page,
  -- from a redirect or from `rel="canonical"`.
  pub crawl_page-InPrefix :
      (w : World) (result : PageResult)
      → (crawl_page api json web io ctx now url w).0 ≡ ok result
      → All InPrefix result.in_prefix_links
  unfolding crawl_page
  crawl_page-InPrefix w result e =
      subst (OnOk (λ r. All InPrefix r.in_prefix_links)) e
        (when_allowed-InPrefix (web.is_allowed url) w)
