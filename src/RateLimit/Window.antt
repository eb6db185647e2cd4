-- ===== src/RateLimit/Window.antt =====
-- src/api/rate_limit.rs: the calls of a whole history of requests.
use community_search.Base.{
  ℕ, ◌+◌, ◌^◌, ◌≤◌, ◌<◌, ◌≡◌, refl, inl, inr, Bool, true, false, ◌&&◌, List, [], ◌∷◌, ◌++◌, arith,
  ltb, leb, Bool-cases, length, retain, count_if, length-append, count_if-append,
  count_if-le-length, length-retain-le, some, none, Option, Text, eq_text, eq_text_iff, subst, sym,
}
use community_search.Base.Table.{Table, lookup, text_key}
use community_search.RateLimit.Store.{load-save_self, load-check_ne}
use community_search.RateLimit.{
  persist, RateLimitConfig, RateLimitKey, RateLimitState, Decision, allow, cooloff, Outcome, ok,
  storage_error, panic, Row, Io, clean_reset, prune, rate_check, decide, violate, rung,
  record_request, escalate, load_state, storage_key, check_and_record_key,
}

-- Whether `t` lies in the window of `window_seconds` that opens after `a`.
abbrev pub inside : RateLimitConfig → ℕ → ℕ → Bool
inside cfg a t = ltb a t && leb t (a + cfg.window_seconds)

count_if-retain :
    (p keep : ℕ → Bool)
    → ((t : ℕ) → p t ≡ true → keep t ≡ true)
    → (xs : List ℕ) → count_if p (retain keep xs) ≡ count_if p xs
count_if-retain p keep h [] = refl
count_if-retain p keep h (x ∷ xs) = ground (arith, h x, count_if-retain p keep h xs)

-- The log of a key against the times at which its requests were allowed so far.
record Logged (cfg : RateLimitConfig) (now : ℕ) (s : RateLimitState) (past : List ℕ) : Type 0 where
  capped : length s.request_log ≤ cfg.limit
  recent :
      (a : ℕ)
      → now ≤ a + cfg.window_seconds
      → count_if (inside cfg a) past ≤ count_if (inside cfg a) s.request_log
  bounded : (a : ℕ) → count_if (inside cfg a) past ≤ cfg.limit

module _ (cfg : RateLimitConfig) (now : ℕ) (s : RateLimitState) (past : List ℕ) where
  prune-Logged : {n : ℕ} → n ≤ now → Logged cfg n s past → Logged cfg now (prune cfg now s) past
  unfolding prune
  prune-Logged h v = record {
    capped =
        omega
          (arith, v.capped, length-retain-le (λ t. ltb now (t + cfg.window_seconds)) s.request_log);
    recent = λ a w.
        rw
          (count_if-retain (inside cfg a) (λ t. ltb now (t + cfg.window_seconds))
            (λ t i. ground arith) s.request_log)
          (v.recent a (omega arith));
    bounded = v.bounded;
  }

  record_request-undrained :
      cfg.limit < 2 ^ 31
      → length s.request_log < cfg.limit
      → record_request cfg now s ≡ record s { request_log = s.request_log ++ now ∷ [] }
  unfolding record_request
  record_request-undrained fits room = ground (arith, length-append s.request_log (now ∷ []))

  record_request-Logged :
      cfg.limit < 2 ^ 31
      → length s.request_log < cfg.limit
      → Logged cfg now s past
      → Logged cfg now (record_request cfg now s) (now ∷ past)
  record_request-Logged fits room v = rw (record_request-undrained fits room) (record {
    capped = omega (arith, length-append s.request_log (now ∷ []));
    recent = λ a w.
        ground (arith, v.recent a w, count_if-append (inside cfg a) s.request_log (now ∷ []));
    bounded = λ a.
        ground (arith, v.recent a, v.bounded a, count_if-le-length (inside cfg a) s.request_log);
  })

-- The cases of a decision that keep the log's relation to the history.
abbrev Follows : RateLimitConfig → ℕ → List ℕ → Outcome (Decision × RateLimitState) → Type 0
Follows cfg now past (ok (allow, s)) = Logged cfg now s (now ∷ past)
Follows cfg now past (ok (cooloff d, s)) = Logged cfg now s past
Follows cfg now past storage_error = Unit
Follows cfg now past panic = Unit

Logged-same_log :
    {cfg : RateLimitConfig} {n : ℕ} {s : RateLimitState} {past : List ℕ} (now : ℕ)
    (t : RateLimitState)
    → n ≤ now
    → t.request_log ≡ s.request_log
    → Logged cfg n s past
    → Logged cfg now t past
Logged-same_log now t h e v = record {
  capped = rw e v.capped;
  recent = λ a w. rw e (v.recent a (omega arith));
  bounded = v.bounded;
}

module _ (cfg : RateLimitConfig) (fits : cfg.limit < 2 ^ 31) where
  violate-Follows :
      (o : Option ℕ) (now : ℕ) (s : RateLimitState) (past : List ℕ)
      → Logged cfg now s past
      → Follows cfg now past (violate o now s)
  unfolding escalate
  violate-Follows none now s past v = tt
  violate-Follows (some d) now s past v = record {
    capped = v.capped;
    recent = v.recent;
    bounded = v.bounded;
  }

  rate_check-Follows :
      (now : ℕ) (s : RateLimitState) (past : List ℕ)
      → Logged cfg now s past
      → Follows cfg now past (rate_check cfg now s)
  unfolding rate_check
  rate_check-Follows now s past v = elim (Bool-cases (leb cfg.limit (length s.request_log))) [
    | inl full ↦ rw full (violate-Follows (rung cfg s) now s past v)
    | inr room ↦ rw room (record_request-Logged cfg now s past fits (ground arith) v)
  ]

  clean_reset-log :
      (now : ℕ) (s : RateLimitState) → (clean_reset cfg now s).request_log ≡ s.request_log
  unfolding clean_reset
  clean_reset-log now s = ground arith

  decide-Follows :
      (n now : ℕ) (s : RateLimitState) (past : List ℕ)
      → n ≤ now
      → Logged cfg n s past
      → Follows cfg now past (decide cfg now s)
  unfolding decide
  decide-Follows n now s past h v = elim (Bool-cases (ltb now r.cooloff_until)) [
    | inl cold ↦ rw (cold, decide) w
    | inr warm ↦
        rw (warm, decide)
          (rate_check-Follows now _ past (prune-Logged cfg now r past (omega arith) w))
  ]
    where
      r : RateLimitState
      r = clean_reset cfg now s

      w : Logged cfg now r past
      w = Logged-same_log now r h (clean_reset-log now s) v

-- One call of the limiter by some client, and whether SQLite answers it.
pub record Request : Type 0 where
  pub io : Io
  pub key : RateLimitKey
  pub now : ℕ

-- The clock of the calls does not go back.
abbrev pub Ascending : ℕ → List Request → Type 0
Ascending n [] = Unit
Ascending n (r ∷ rs) = (n ≤ r.now) × Ascending r.now rs

abbrev granted : Bool → Outcome Decision → ℕ → List ℕ → List ℕ
granted true (ok allow) now past = now ∷ past
granted true _ now past = past
granted false _ now past = past

-- The times at which calls for `k` are allowed, latest first, while calls for any keys come in.
unfoldable pub history :
    RateLimitConfig → RateLimitKey → Table Text Row → List ℕ → List Request → List ℕ
history cfg k db past [] = past
history cfg k db past (r ∷ rs) =
    let res = check_and_record_key r.io db r.key r.now cfg in
    history cfg k res.1 (granted (eq_text (storage_key r.key) (storage_key k)) res.0 r.now past) rs

module _ (cfg : RateLimitConfig) (fits : cfg.limit < 2 ^ 31) (k : Text) where
  persist-Logged :
      (io : Io) (db : Table Text Row) (n now : ℕ) (past : List ℕ)
      (o : Outcome (Decision × RateLimitState))
      → n ≤ now
      → Logged cfg n (load_state db k) past
      → Follows cfg now past o
      → let res = persist io db k now o in
        Logged cfg now (load_state res.1 k) (granted true res.0 now past)
  persist-Logged io db n now past (ok (allow, s)) h v f = elim (Bool-cases io.writes) [
    | inl up ↦ rw (up, load-save_self) f
    | inr down ↦ rw down (Logged-same_log now _ h refl v)
  ]
  persist-Logged io db n now past (ok (cooloff d, s)) h v f = elim (Bool-cases io.writes) [
    | inl up ↦ rw (up, load-save_self) f
    | inr down ↦ rw down (Logged-same_log now _ h refl v)
  ]
  persist-Logged io db n now past storage_error h v f = Logged-same_log now _ h refl v
  persist-Logged io db n now past panic h v f = Logged-same_log now _ h refl v

module _ (cfg : RateLimitConfig) (fits : cfg.limit < 2 ^ 31) where
  check-Logged_self :
      (io : Io) (db : Table Text Row) (key : RateLimitKey) (n now : ℕ) (past : List ℕ)
      → n ≤ now
      → Logged cfg n (load_state db (storage_key key)) past
      → let res = check_and_record_key io db key now cfg in
        Logged cfg now (load_state res.1 (storage_key key)) (granted true res.0 now past)
  unfolding check_and_record_key
  check-Logged_self io db key n now past h v = elim (Bool-cases io.locks) [
    | inl sound ↦ elim (Bool-cases io.reads) [
      | inl up ↦
          rw (sound, up)
            (persist-Logged cfg fits (storage_key key) io db n now past _ h v
              (decide-Follows cfg fits n now _ past h v))
      | inr down ↦ rw (sound, down) (Logged-same_log now _ h refl v)
    ]
    | inr poisoned ↦ rw poisoned (Logged-same_log now _ h refl v)
  ]

  check-Logged :
      (k : Text) (db : Table Text Row) (n : ℕ) (past : List ℕ) (r : Request)
      → n ≤ r.now
      → Logged cfg n (load_state db k) past
      → let res = check_and_record_key r.io db r.key r.now cfg in
        Logged cfg r.now
          (load_state res.1 k)
          (granted (eq_text (storage_key r.key) k) res.0 r.now past)
  check-Logged k db n past r h v = elim (Bool-cases (eq_text (storage_key r.key) k)) [
    | inl mine ↦
        let e = (eq_text_iff (storage_key r.key) k).0 mine in
        rw mine (
          subst
            (λ j.
              let res = check_and_record_key r.io db r.key r.now cfg in
              Logged cfg r.now (load_state res.1 j) (granted true res.0 r.now past))
            e
            (check-Logged_self r.io db r.key n r.now past h
              (subst (λ j. Logged cfg n (load_state db j) past) (sym e) v)))
    | inr other ↦
        rw (other, load-check_ne r.io db r.key r.now cfg k other) (Logged-same_log r.now _ h refl v)
  ]

  history-bounded :
      (k : RateLimitKey) (n : ℕ) (db : Table Text Row) (past : List ℕ) (rs : List Request) (a : ℕ)
      → Ascending n rs
      → Logged cfg n (load_state db (storage_key k)) past
      → count_if (inside cfg a) (history cfg k db past rs) ≤ cfg.limit
  unfolding history
  history-bounded k n db past [] a asc v = v.bounded a
  history-bounded k n db past (r ∷ rs) a asc v =
      history-bounded k r.now _ _ rs a asc.1 (check-Logged (storage_key k) db n past r asc.0 v)

  -- However the calls of a history are spread over keys and time, and whichever of them SQLite
  -- refuses, the calls for one key that are allowed in any window of `window_seconds` number at most
  -- `limit`: from an empty table, for a limit below 2^31, as long as the clock does not go back.
  pub history-le-limit :
      (k : RateLimitKey) (rs : List Request) (a : ℕ)
      → Ascending 0 rs
      → count_if (inside cfg a) (history cfg k [] [] rs) ≤ cfg.limit
  history-le-limit k rs a asc = history-bounded k 0 [] [] rs a asc (
      unfold load_state lookup in
      record { capped = omega arith; recent = λ b w. omega arith; bounded = λ b. omega arith })
