-- ===== src/RateLimit/PeerCache.antt =====
-- src/api/rate_limit.rs: the cached set of peer hosts, and `is_peer_ip`.
--
-- Instants are nanoseconds of the monotonic clock. The `url` crate is the parameter `host_of_url`:
-- `Url::parse` followed by `host_str`, `none` where either fails.
use community_search.Base.{
  ℕ, ◌+◌, ◌*◌, ◌^◌, ◌≡◌, ◌⊎◌, Bool, true, false, ◌||◌, ◌&&◌, any_some, Option, none, some, List, [],
  ◌∷◌, arith, Text, eq_text, ltb, if◌then◌else◌,
}

-- PEER_IP_CACHE_TTL, 300 seconds
abbrev pub peer_ip_cache_ttl : ℕ
peer_ip_cache_ttl = 300 * 10 ^ 9

pub record PeerIpCache : Type 0 where
  pub hosts : List Text
  pub last_refreshed_at : Option ℕ

-- The columns of `node_peers` that the query reads.
pub record PeerUrl : Type 0 where
  pub url : Text
  pub enabled : Bool

-- `node_peers`, or `none` if SQLite does not answer the query.
abbrev pub PeerRows : Type 0
PeerRows = Option (List PeerUrl)

unfoldable pub new_cache : PeerIpCache
new_cache = record { hosts = []; last_refreshed_at = none }

abbrev stale_since : Option ℕ → ℕ → Bool
stale_since none now = true
stale_since (some t) now = ltb (t + peer_ip_cache_ttl) now

unfoldable pub is_stale : PeerIpCache → ℕ → Bool
is_stale c now = stale_since c.last_refreshed_at now

unfoldable pub contains : List Text → Text → Bool
contains [] client = false
contains (h ∷ hs) client = eq_text h client || contains hs client

module _ (host_of_url : Text → Option Text) where
  -- `WHERE enabled = 1`, and the host of each URL that parses.
  unfoldable pub peer_hosts : List PeerUrl → List Text
  peer_hosts [] = []
  peer_hosts (p ∷ ps) =
      let rest = peer_hosts ps in
      if p.enabled then (elim (host_of_url p.url) [ none ↦ rest | some h ↦ h ∷ rest ]) else rest

  unfoldable pub load_peer_hosts_from_db : PeerRows → List Text
  load_peer_hosts_from_db none = []
  load_peer_hosts_from_db (some rows) = peer_hosts rows

  unfoldable pub refresh : PeerRows → ℕ → PeerIpCache
  refresh rows now = record { hosts = load_peer_hosts_from_db rows; last_refreshed_at = some now }

  -- `seen` is the cache under the read lock at time `now`. If it is stale the write lock is taken at
  -- time `later`, when the cache is `held`: another task may have refreshed it in between. The
  -- result is the answer and the cache that is left.
  unfoldable pub is_peer_ip :
      PeerRows → Text → PeerIpCache → ℕ → PeerIpCache → ℕ → Bool × PeerIpCache
  is_peer_ip rows client seen now held later =
      if is_stale seen now
      then (let c = if is_stale held later then refresh rows later else held in
          (contains c.hosts client, c))
      else (contains seen.hosts client, seen)

  is_stale-refresh : (rows : PeerRows) (now : ℕ) → is_stale (refresh rows now) now ≡ false
  unfolding is_stale refresh
  is_stale-refresh rows now = ground arith

  -- The cache that answers was not stale when it was asked, and the answer is whether it holds the
  -- client. It is the cache of the read lock, or that of the write lock, or one read from the
  -- database, and the last only if both were stale.
  pub is_peer_ip-current :
      (rows : PeerRows) (client : Text) (seen held : PeerIpCache) (now later : ℕ)
      → let res = is_peer_ip rows client seen now held later in
        (res.0 ≡ contains res.1.hosts client)
        × ((is_stale seen now ≡ false) × (res.1 ≡ seen)
            ⊎ (is_stale seen now ≡ true) × (is_stale held later ≡ false) × (res.1 ≡ held)
            ⊎ (is_stale seen now ≡ true)
              × (is_stale held later ≡ true)
              × (is_stale res.1 later ≡ false)
              × (res.1 ≡ refresh rows later))
  unfolding is_peer_ip
  is_peer_ip-current rows client seen held now later = ground (arith, is_stale-refresh rows later)

  -- Whether an enabled peer's URL names the client as its host.
  abbrev pub names : Text → PeerUrl → Bool
  names client p = p.enabled && any_some (λ h. eq_text h client) (host_of_url p.url)

  abbrev pub any_names : Text → List PeerUrl → Bool
  any_names client [] = false
  any_names client (p ∷ ps) = names client p || any_names client ps
