-- ===== src/RateLimit/Keys.antt =====
-- src/api/rate_limit.rs: the keys of IPs and of peers in one table.
use community_search.Base.{
  ap, ℕ, ◌≡◌, ◌≢◌, refl, inl, inr, false, [], ◌∷◌, arith, Bool-cases, Text, eq_text, eq_text_iff,
}
use community_search.Base.Table.{Table}
use community_search.RateLimit.{
  RateLimitConfig, RateLimitKey, ip, peer, Row, Io, load_state, storage_key, check_and_record_key,
  persist, decide, Outcome, Decision, RateLimitState, ok, storage_error, panic,
}
use community_search.RateLimit.Store.{load-check_ne}

abbrev first_byte : Text → ℕ
first_byte [] = 0
first_byte (x ∷ xs) = x

storage_key-injective : (k j : RateLimitKey) → storage_key k ≡ storage_key j → k ≡ j
unfolding storage_key
storage_key-injective (ip s) (ip t) e = cc
storage_key-injective (ip s) (peer t) e = absurd (omega (arith, ap first_byte e))
storage_key-injective (peer s) (ip t) e = absurd (omega (arith, ap first_byte e))
storage_key-injective (peer s) (peer t) e = cc

storage_key-ne : (k j : RateLimitKey) → k ≢ j → eq_text (storage_key k) (storage_key j) ≡ false
storage_key-ne k j ne = elim (Bool-cases (eq_text (storage_key k) (storage_key j))) [
  | inl same ↦
      absurd (ne (storage_key-injective k j ((eq_text_iff (storage_key k) (storage_key j)).0 same)))
  | inr other ↦ other
]

module _ (io : Io) (j : RateLimitKey) (now : ℕ) (cfg : RateLimitConfig) (a b : Table Text Row) where
  persist-same :
      (o : Outcome (Decision × RateLimitState))
      → (persist io a (storage_key j) now o).0 ≡ (persist io b (storage_key j) now o).0
  persist-same (ok (d, s)) = ground arith
  persist-same storage_error = refl
  persist-same panic = refl

  decision-same :
      load_state a (storage_key j) ≡ load_state b (storage_key j)
      → (check_and_record_key io a j now cfg).0 ≡ (check_and_record_key io b j now cfg).0
  unfolding check_and_record_key
  decision-same e = ground (arith, persist-same (decide cfg now (load_state b (storage_key j))))

-- A call for one key does not change what a later call for another key answers, be they an IP and a
-- peer of the same name, and whether or not SQLite answers either call.
pub keys_independent :
    (io io' : Io) (db : Table Text Row) (k j : RateLimitKey) (now later : ℕ)
    (cfg cfg' : RateLimitConfig)
    → k ≢ j
    → (check_and_record_key io' (check_and_record_key io db k now cfg).1 j later cfg').0
      ≡ (check_and_record_key io' db j later cfg').0
keys_independent io io' db k j now later cfg cfg' ne =
    decision-same io' j later cfg' (check_and_record_key io db k now cfg).1 db
      (load-check_ne io db k now cfg (storage_key j) (storage_key-ne k j ne))
