-- ===== src/RateLimit/Ladder.antt =====
-- src/api/rate_limit.rs: the rungs of the cooloff ladder.
use community_search.Base.{
  ap, ◌↔◌, Bool-cases, inl, inr, false, Option, ℕ, zero, suc, ◌+◌, ◌-◌, ◌≤◌, ◌<◌, ◌≡◌, ◌≢◌, refl,
  List, [], ◌∷◌, arith, min, length, Text, some, get_elem?,
}
use community_search.Base.Table.{Table}
use community_search.RateLimit.{
  RateLimitConfig, RateLimitKey, RateLimitState, Decision, allow, cooloff, Outcome, ok,
  storage_error, panic, Row, Io, clean_reset, prune, rate_check, decide, rung, record_request,
  escalate, load_state, storage_key, check_and_record_key, persist,
}

get_elem?-in_range :
    {A : Type 0} (xs : List A) (i : ℕ) → i < length xs → (x : A) × (get_elem? xs i ≡ some x)
get_elem?-in_range [] i h = elim h [ ]
get_elem?-in_range (x ∷ xs) zero h = (x, refl)
get_elem?-in_range (x ∷ xs) (suc i) h = get_elem?-in_range xs i (omega arith)

module _ (cfg : RateLimitConfig) (now : ℕ) where
  rate_check-ne-panic :
      (s : RateLimitState) → 0 < length cfg.cooloff_ladder → rate_check cfg now s ≢ panic
  unfolding rate_check
  rate_check-ne-panic s h e = ground (
    arith,
    get_elem?-in_range cfg.cooloff_ladder (min s.violations (length cfg.cooloff_ladder - 1)),
  )

  decide-ne-panic : (s : RateLimitState) → 0 < length cfg.cooloff_ladder → decide cfg now s ≢ panic
  unfolding decide
  decide-ne-panic s h e =
      ground (arith, rate_check-ne-panic (prune cfg now (clean_reset cfg now s)) h)

persist-ne-panic :
    (io : Io) (db : Table Text Row) (k : Text) (now : ℕ) (o : Outcome (Decision × RateLimitState))
    → o ≢ panic
    → (persist io db k now o).0 ≢ panic
persist-ne-panic io db k now (ok (d, s)) ne e = ground arith
persist-ne-panic io db k now storage_error ne e = cc
persist-ne-panic io db k now panic ne e = ne refl

-- With at least one rung on the ladder a call panics exactly when the mutex of the database is
-- poisoned, whatever the table holds and whichever statements SQLite refuses, where `limit * 2` wraps
-- as in a release build.
pub check_panics_iff :
    (io : Io) (db : Table Text Row) (key : RateLimitKey) (now : ℕ) (cfg : RateLimitConfig)
    → 0 < length cfg.cooloff_ladder
    → ((check_and_record_key io db key now cfg).0 ≡ panic) ↔ (io.locks ≡ false)
unfolding check_and_record_key
check_panics_iff io db key now cfg h = elim (Bool-cases io.locks) [
  | inl sound ↦ rw sound (
    (λ e. ground (
      arith,
      persist-ne-panic io db (storage_key key) now _
          (decide-ne-panic cfg now (load_state db (storage_key key)) h),
    )),
    (λ e. cc),
  )
  | inr poisoned ↦ rw poisoned ((λ e. refl), (λ e. refl))
]

module _ (cfg : RateLimitConfig) (now : ℕ) where
  rate_check-violation :
      (s t : RateLimitState) (d : ℕ)
      → rate_check cfg now s ≡ ok (cooloff d, t)
      → (rung cfg s ≡ some d) × (t ≡ escalate now d s)
  unfolding rate_check
  rate_check-violation s t d e = ground arith

  clean_reset-until : (s : RateLimitState) → (clean_reset cfg now s).cooloff_until ≡ s.cooloff_until
  unfolding clean_reset
  clean_reset-until s = ground arith

  -- Within the clean period the violation count stays.
  clean_reset_soon :
      (s : RateLimitState)
      → now ≤ s.last_violation_at + cfg.clean_period_seconds
      → clean_reset cfg now s ≡ s
  unfolding clean_reset
  clean_reset_soon s h = ground arith

  decide-violation :
      (s t : RateLimitState) (d : ℕ)
      → s.cooloff_until ≤ now
      → decide cfg now s ≡ ok (cooloff d, t)
      → let r = clean_reset cfg now s in
        (rung cfg r ≡ some d) × (t ≡ escalate now d (prune cfg now r))
  unfolding decide prune
  decide-violation s t d h e =
      ground (
        arith,
        rate_check-violation (prune cfg now (clean_reset cfg now s)) t d,
        clean_reset-until s,
      )

-- The state after some calls that are all allowed, at times up to `bound`.
pub data Allowed (cfg : RateLimitConfig) (bound : ℕ) (s : RateLimitState)
    : RateLimitState → Type 0 where
  start : Allowed cfg bound s s
  more :
      {t u : RateLimitState} (now : ℕ)
      → Allowed cfg bound s t
      → now ≤ bound
      → decide cfg now t ≡ ok (allow, u)
      → Allowed cfg bound s u

-- The fields of a state that allowed calls leave alone.
record Keeps (s t : RateLimitState) : Type 0 where
  violations : t.violations ≡ s.violations
  cooloff_until : t.cooloff_until ≡ s.cooloff_until
  last_violation_at : t.last_violation_at ≡ s.last_violation_at

rate_check-Keeps :
    (cfg : RateLimitConfig) (now : ℕ) (s t : RateLimitState)
    → rate_check cfg now s ≡ ok (allow, t)
    → Keeps s t
unfolding rate_check record_request
rate_check-Keeps cfg now s t e = ground arith

decide-Keeps :
    (cfg : RateLimitConfig) (now : ℕ) (s t : RateLimitState)
    → now ≤ s.last_violation_at + cfg.clean_period_seconds
    → decide cfg now s ≡ ok (allow, t)
    → Keeps s t
unfolding decide prune
decide-Keeps cfg now s t h e =
    ground (arith, clean_reset_soon cfg now s h, rate_check-Keeps cfg now (prune cfg now s) t)

Allowed-Keeps :
    {cfg : RateLimitConfig} {bound : ℕ} {s t : RateLimitState}
    → bound ≤ s.last_violation_at + cfg.clean_period_seconds
    → Allowed cfg bound s t
    → Keeps s t
Allowed-Keeps h start = record { violations = refl; cooloff_until = refl; last_violation_at = refl }
Allowed-Keeps {cfg} h (more {t = t} {u = u} now before soon e) =
    let k = Allowed-Keeps h before in
    let k' = decide-Keeps cfg now t u (omega (arith, k.last_violation_at)) e in omega arith

-- The rung for a number of violations before: the ladder's last, once they are as many as its rungs.
abbrev pub rung_at : RateLimitConfig → ℕ → Option ℕ
rung_at cfg n = get_elem? cfg.cooloff_ladder (min n (length cfg.cooloff_ladder - 1))

-- Escalation: take a violation, which costs `d` seconds, allowed calls after it, and a second violation
-- once the cooloff of the first is over and before its clean period is. The second costs the rung
-- after that of the first, or the last one again, and the state then counts both violations.
pub second_violation-IsNext :
    (cfg : RateLimitConfig) (now later d d' : ℕ) (s t u v : RateLimitState)
    → s.cooloff_until ≤ now
    → decide cfg now s ≡ ok (cooloff d, t)
    → Allowed cfg later t u
    → now + d ≤ later
    → later ≤ now + cfg.clean_period_seconds
    → decide cfg later u ≡ ok (cooloff d', v)
    → let before = (clean_reset cfg now s).violations in
      (rung_at cfg before ≡ some d)
      × (rung_at cfg (before + 1) ≡ some d')
      × (v.violations ≡ before + 2)
unfolding escalate prune
second_violation-IsNext cfg now later d d' s t u v over e between after soon e' =
    let first = decide-violation cfg now s t d over e in
    let count = ap (λ (x : RateLimitState). x.violations) first.1 in
    let until = ap (λ (x : RateLimitState). x.cooloff_until) first.1 in
    let last = ap (λ (x : RateLimitState). x.last_violation_at) first.1 in
    let k = Allowed-Keeps (omega arith) between in
    let second = decide-violation cfg later u v d' (omega (arith, k.cooloff_until)) e' in
    let same = clean_reset_soon cfg later u (omega (arith, k.last_violation_at)) in
    let carried : u.violations ≡ (clean_reset cfg now s).violations + 1 =
      omega (arith, k.violations, count) in
    let counted = ap (λ (x : RateLimitState). x.violations) second.1 in
    let reset = ap (λ (x : RateLimitState). x.violations) same in
    (first.0, rw (← carried) (rw same at second.0), omega (arith, counted, reset, carried))
