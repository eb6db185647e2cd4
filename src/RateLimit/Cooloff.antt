-- ===== src/RateLimit/Cooloff.antt =====
-- src/api/rate_limit.rs: the cooloff of a key, and its end.
use community_search.Base.{
  ap, subst, eq_text, eq_text_iff, ℕ, ◌+◌, ◌-◌, ◌≤◌, ◌<◌, ◌≡◌, refl, inl, inr, true, List, [], ◌∷◌,
  arith, ltb, leb, Bool-cases, length, retain, All, Text, Option, some, none,
}
use community_search.Base.Table.{Table}
use community_search.RateLimit.{
  RateLimitConfig, RateLimitKey, RateLimitState, Decision, allow, cooloff, Outcome, ok,
  storage_error, panic, Row, Io, clean_reset, prune, rate_check, decide, violate, rung, escalate,
  load_state, storage_key, check_and_record_key, persist,
}
use community_search.RateLimit.Store.{load-save_self, load-check_ne}

-- The mutex is sound, and SQLite answers the read and the write.
abbrev pub healthy : Io
healthy = record { locks = true; reads = true; writes = true }

-- When the cooloff of a key ends.
abbrev pub cooloff_end : Table Text Row → RateLimitKey → ℕ
cooloff_end db key = (load_state db (storage_key key)).cooloff_until

clean_reset-until :
    (cfg : RateLimitConfig) (now : ℕ) (s : RateLimitState)
    → (clean_reset cfg now s).cooloff_until ≡ s.cooloff_until
unfolding clean_reset
clean_reset-until cfg now s = ground arith

-- How long a decision cools the key down, from the state that it saves.
abbrev Cools : ℕ → Outcome (Decision × RateLimitState) → Type 0
Cools now (ok (cooloff d, s)) = s.cooloff_until ≡ now + d
Cools now _ = Unit

violate-Cools : (o : Option ℕ) (now : ℕ) (s : RateLimitState) → Cools now (violate o now s)
unfolding escalate
violate-Cools none now s = tt
violate-Cools (some d) now s = refl

rate_check-Cools :
    (cfg : RateLimitConfig) (now : ℕ) (s : RateLimitState) → Cools now (rate_check cfg now s)
unfolding rate_check
rate_check-Cools cfg now s = elim (Bool-cases (leb cfg.limit (length s.request_log))) [
  | inl full ↦ rw full (violate-Cools (rung cfg s) now s)
  | inr room ↦ rw room tt
]

decide-Cools : (cfg : RateLimitConfig) (now : ℕ) (s : RateLimitState) → Cools now (decide cfg now s)
unfolding decide
decide-Cools cfg now s = elim (Bool-cases (ltb now (clean_reset cfg now s).cooloff_until)) [
  | inl cold ↦ rw cold (ground arith)
  | inr warm ↦ rw warm (rate_check-Cools cfg now _)
]

decide_active :
    (cfg : RateLimitConfig) (now : ℕ) (s : RateLimitState)
    → now < s.cooloff_until
    → decide cfg now s ≡ ok (cooloff (s.cooloff_until - now), s)
unfolding decide clean_reset
decide_active cfg now s h = ground arith

module _ (db : Table Text Row) (key : RateLimitKey) (now : ℕ) where
  persist-until :
      {d : ℕ} (o : Outcome (Decision × RateLimitState))
      → Cools now o
      → (persist healthy db (storage_key key) now o).0 ≡ ok (cooloff d)
      → cooloff_end (persist healthy db (storage_key key) now o).1 key ≡ now + d
  persist-until (ok (allow, s)) c q = cc
  persist-until (ok (cooloff x, s)) c q = ground (
    arith,
    ap (λ (t : RateLimitState). t.cooloff_until) (load-save_self db (storage_key key) now s),
  )
  persist-until storage_error c q = cc
  persist-until panic c q = cc

  pub check_active :
      (cfg : RateLimitConfig)
      → now < cooloff_end db key
      → (check_and_record_key healthy db key now cfg).0 ≡ ok (cooloff (cooloff_end db key - now))
  unfolding check_and_record_key
  check_active cfg h = rw (decide_active cfg now (load_state db (storage_key key)) h)

  pub check-until :
      (cfg : RateLimitConfig) {d : ℕ}
      → (check_and_record_key healthy db key now cfg).0 ≡ ok (cooloff d)
      → cooloff_end (check_and_record_key healthy db key now cfg).1 key ≡ now + d
  unfolding check_and_record_key
  check-until cfg e =
      persist-until (decide cfg now (load_state db (storage_key key)))
        (decide-Cools cfg now (load_state db (storage_key key))) e

-- A call that answers `cooloff d` shuts its key out for those `d` seconds: a later call for the key
-- before they are over answers with the seconds that are left, and not with `allow`, whatever
-- configuration it brings. SQLite answers both calls.
pub cooloff_holds :
    (db : Table Text Row) (key : RateLimitKey) (now d later : ℕ) (cfg cfg' : RateLimitConfig)
    → (check_and_record_key healthy db key now cfg).0 ≡ ok (cooloff d)
    → later < now + d
    → (check_and_record_key healthy
        (check_and_record_key healthy db key now cfg).1
        key
        later
        cfg').0
      ≡ ok (cooloff (now + d - later))
cooloff_holds db key now d later cfg cfg' e h =
    let u = check-until db key now cfg e in
    let after = (check_and_record_key healthy db key now cfg).1 in
    rw (check_active after key later cfg' (omega (arith, u)), u)

active-kept :
    (io : Io) (db : Table Text Row) (j : RateLimitKey) (now : ℕ) (cfg : RateLimitConfig)
    → now < cooloff_end db j
    → cooloff_end (check_and_record_key io db j now cfg).1 j ≡ cooloff_end db j
unfolding check_and_record_key
active-kept io db j now cfg h = elim (Bool-cases io.locks) [
  | inl sound ↦ elim (Bool-cases io.reads) [
    | inl up ↦ elim (Bool-cases io.writes) [
      | inl saved ↦
          rw (sound, up, decide_active cfg now (load_state db (storage_key j)) h, saved)
            (ap (λ (s : RateLimitState). s.cooloff_until)
              (load-save_self db (storage_key j) now (load_state db (storage_key j))))
      | inr lost ↦
          rw (sound, up, decide_active cfg now (load_state db (storage_key j)) h, lost) refl
    ]
    | inr down ↦ rw (sound, down) refl
  ]
  | inr poisoned ↦ rw poisoned refl
]

-- A call for any key, whichever statements SQLite refuses, moves no cooloff that is not yet over.
pub check-keeps_end :
    (io : Io) (db : Table Text Row) (j k : RateLimitKey) (now : ℕ) (cfg : RateLimitConfig)
    → now < cooloff_end db k
    → cooloff_end (check_and_record_key io db j now cfg).1 k ≡ cooloff_end db k
check-keeps_end io db j k now cfg h = elim (Bool-cases (eq_text (storage_key j) (storage_key k))) [
  | inl same ↦
      subst
        (λ t.
          now < (load_state db t).cooloff_until
          → (load_state (check_and_record_key io db j now cfg).1 t).cooloff_until
            ≡ (load_state db t).cooloff_until)
        ((eq_text_iff (storage_key j) (storage_key k)).0 same) (active-kept io db j now cfg) h
  | inr other ↦
      ap (λ (s : RateLimitState). s.cooloff_until)
        (load-check_ne io db j now cfg (storage_key k) other)
]

retain-All :
    (w now : ℕ) (log : List ℕ) → All (λ t. t + w ≤ now) log → retain (λ t. ltb now (t + w)) log ≡ []
retain-All w now [] h = refl
retain-All w now (x ∷ xs) h = ground (arith, retain-All w now xs h.1)

-- A key is let in again: with a limit above 0, once its cooloff is over and every request in its log
-- has left the window, the call answers `allow`, where SQLite answers the read and the write and the
-- mutex is sound.
pub allows_again :
    (db : Table Text Row) (key : RateLimitKey) (now : ℕ) (cfg : RateLimitConfig)
    → 0 < cfg.limit
    → cooloff_end db key ≤ now
    → All (λ t. t + cfg.window_seconds ≤ now) (load_state db (storage_key key)).request_log
    → (check_and_record_key healthy db key now cfg).0 ≡ ok allow
unfolding check_and_record_key decide rate_check clean_reset prune
allows_again db key now cfg pos over old =
    ground
      (arith, retain-All cfg.window_seconds now (load_state db (storage_key key)).request_log old)
