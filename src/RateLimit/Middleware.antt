-- ===== src/RateLimit/Middleware.antt =====
-- src/api/rate_limit.rs, `require_rate_limit`: the two buckets and the responses.
use community_search.Base.{
  ◌∙◌, List, [], ◌∷◌, All, arith, ℕ, ◌+◌, ◌-◌, ap, ◌≡◌, Bool, Option, Text, if◌then◌else◌, ◌<◌,
}
use community_search.Base.Table.{Table}
use community_search.ClientIp.{Origin, client_ip}
use community_search.RateLimit.{
  RateLimitConfig, ip, Decision, allow, cooloff, Outcome, ok, storage_error, panic, Row, Io,
  check_and_record,
}
use community_search.RateLimit.PeerCache.{PeerIpCache, PeerRows, is_peer_ip}
use community_search.RateLimit.Cooloff.{
  healthy, cooloff_end, check_active, check-until, check-keeps_end,
}

-- What the middleware answers: the next handler's response, 429 with its `Retry-After` seconds, 500,
-- or a panic of the handler.
pub data Response : Type 0 where
  forwarded : Response
  too_many_requests : ℕ → Response
  internal_server_error : Response
  aborted : Response

-- The parts of `AppState` that the middleware reads and writes.
pub record AppState : Type 0 where
  pub db : Table Text Row
  pub node_peers : PeerRows
  pub rate_limit_config : RateLimitConfig
  pub peer_rate_limit_config : RateLimitConfig
  pub peer_ip_cache : PeerIpCache

-- The two clocks that one request reads.
pub record Moment : Type 0 where
  pub unix_now : ℕ
  pub instant : ℕ

abbrev respond : Outcome Decision → Response
respond (ok allow) = forwarded
respond (ok (cooloff seconds_remaining)) = too_many_requests seconds_remaining
respond storage_error = internal_server_error
respond panic = aborted

module _ (host_of_url : Text → Option Text) where
  -- The read and the write lock of the cache are taken at one instant, with no other task between.
  abbrev looked_up : AppState → Moment → Text → Bool × PeerIpCache
  looked_up state m client =
      let cache = state.peer_ip_cache in
      is_peer_ip host_of_url state.node_peers client cache m.instant cache m.instant

  abbrev bucket : AppState → Moment → Text → RateLimitConfig
  bucket state m client =
      if (looked_up state m client).0 then state.peer_rate_limit_config else state.rate_limit_config

  unfoldable pub require_rate_limit : AppState → Io → Moment → Origin → Response × AppState
  require_rate_limit state io m origin =
      let client = client_ip origin in
      let checked = check_and_record io state.db client m.unix_now (bucket state m client) in
      (
        respond checked.0,
        record state { db = checked.1; peer_ip_cache = (looked_up state m client).1 },
      )

respond-cooloff :
    (o : Outcome Decision) (d : ℕ) → respond o ≡ too_many_requests d → o ≡ ok (cooloff d)
respond-cooloff (ok allow) d e = cc
respond-cooloff (ok (cooloff x)) d e = cc
respond-cooloff storage_error d e = cc
respond-cooloff panic d e = cc

-- A request, with what SQLite answers it, and the peers and the limits of its time.
pub record Visit : Type 0 where
  pub io : Io
  pub moment : Moment
  pub origin : Origin
  pub node_peers : PeerRows
  pub anonymous : RateLimitConfig
  pub peers : RateLimitConfig

module _ (host_of_url : Text → Option Text) where
  -- The request is served under the peers and limits of its time.
  abbrev pub visit : Visit → AppState → Response × AppState
  visit v state =
      require_rate_limit host_of_url
        (record state {
          node_peers = v.node_peers;
          rate_limit_config = v.anonymous;
          peer_rate_limit_config = v.peers;
        })
        v.io v.moment v.origin

  unfoldable pub visits : List Visit → AppState → AppState
  visits [] state = state
  visits (v ∷ vs) state = visits vs (visit v state).1

  abbrev end_of : AppState → Text → ℕ
  end_of state client = cooloff_end state.db (ip client)

  visits-keep_end :
      (client : Text) (until : ℕ) (vs : List Visit) (state : AppState)
      → end_of state client ≡ until
      → All (λ v. v.moment.unix_now < until) vs
      → end_of (visits vs state) client ≡ until
  unfolding visits require_rate_limit check_and_record
  visits-keep_end client until [] state h soon = h
  visits-keep_end client until (v ∷ vs) state h soon =
      visits-keep_end client until vs _
        (check-keeps_end v.io state.db (ip (client_ip v.origin)) (ip client) v.moment.unix_now _
            (omega (arith, h, soon.0))
          ∙ h)
        soon.1

  -- A client that is told to retry after `d` seconds is refused until then, with the seconds that are
  -- left: whatever requests of any addresses come in between, before that time, whichever statements
  -- SQLite refuses for them, and whatever becomes of the table of node peers and of the limits, a
  -- request that counts against the same address gets 429. For it and for the first, SQLite answers
  -- and the mutex is sound.
  pub refusal_holds :
      (state : AppState) (m : Moment) (first : Origin) (d : ℕ) (between : List Visit) (last : Visit)
      → (require_rate_limit host_of_url state healthy m first).0 ≡ too_many_requests d
      → All (λ v. v.moment.unix_now < m.unix_now + d) between
      → last.io ≡ healthy
      → client_ip last.origin ≡ client_ip first
      → last.moment.unix_now < m.unix_now + d
      → (visit last (visits between (require_rate_limit host_of_url state healthy m first).1)).0
        ≡ too_many_requests (m.unix_now + d - last.moment.unix_now)
  unfolding require_rate_limit check_and_record
  refusal_holds state m first d between last e before answers same soon =
      let after = (require_rate_limit host_of_url state healthy m first).1 in
      let kept : end_of (visits between after) (client_ip first) ≡ m.unix_now + d =
        visits-keep_end (client_ip first) (m.unix_now + d) between after
          (check-until state.db (ip (client_ip first)) m.unix_now _ (respond-cooloff _ d e))
          before in
      rw (answers, same)
        (ap respond (
            check_active (visits between after).db (ip (client_ip first)) last.moment.unix_now _
              (omega (arith, kept, soon)))
          ∙ ap (λ (t : ℕ). too_many_requests (t - last.moment.unix_now)) kept)
