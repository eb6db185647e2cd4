-- ===== src/RateLimit/Store.antt =====
-- src/api/rate_limit.rs: rows written and read back.
use community_search.Base.{ℕ, ◌≡◌, refl, false, arith, if◌then◌else◌, Text, eq_text, eq_text_self}
use community_search.Base.Table.{Table, lookup-insert, text_key}
use community_search.RateLimit.{
  RateLimitConfig, RateLimitKey, RateLimitState, Decision, Outcome, ok, storage_error, panic, Row,
  Io, to_row, decide, persist, load_state, save_state, storage_key, check_and_record_key,
}

pub load-save :
    (db : Table Text Row) (i j : Text) (now : ℕ) (s : RateLimitState)
    → load_state (save_state db i now s) j ≡ (if eq_text i j then s else load_state db j)
unfolding load_state save_state
load-save db i j now s = ground (arith, lookup-insert i j (to_row now s) db)

module _ (io : Io) (db : Table Text Row) (i j : Text) (now : ℕ) (ne : eq_text i j ≡ false) where
  load-persist_ne :
      (o : Outcome (Decision × RateLimitState))
      → load_state (persist io db i now o).1 j ≡ load_state db j
  load-persist_ne (ok (d, s)) = ground (arith, load-save db i j now s)
  load-persist_ne storage_error = refl
  load-persist_ne panic = refl

-- A call for one storage key leaves the state of every other as it was.
pub load-check_ne :
    (io : Io) (db : Table Text Row) (key : RateLimitKey) (now : ℕ) (cfg : RateLimitConfig)
    (j : Text)
    → eq_text (storage_key key) j ≡ false
    → load_state (check_and_record_key io db key now cfg).1 j ≡ load_state db j
unfolding check_and_record_key
load-check_ne io db key now cfg j ne = ground (
  arith,
  load-persist_ne io db (storage_key key) j now ne
      (decide cfg now (load_state db (storage_key key))),
)

pub load-save_self :
    (db : Table Text Row) (i : Text) (now : ℕ) (s : RateLimitState)
    → load_state (save_state db i now s) i ≡ s
load-save_self db i now s = ground (arith, load-save db i i now s, eq_text_self i)
