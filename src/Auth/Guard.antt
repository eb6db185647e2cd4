-- ===== src/Auth/Guard.antt =====
-- src/api/auth.rs: who is let through, and how a lockout begins and holds.
use community_search.Base.{
  ℕ, ◌+◌, ◌-◌, ◌≤◌, ◌<◌, ◌≡◌, ◌↔◌, refl, Bool, true, false, Option, none, some, arith, Text, List,
  [], ◌∷◌, All, Bool-cases, inl, inr, eq_text, eq_text_iff, eq_text_self, if◌then◌else◌, sym, ap,
  ◌∙◌,
}
use community_search.Base.Table.{Table, lookup, lookup-remove, text_key}
use community_search.ClientIp.{client_ip}
use community_search.Auth.{
  Io, Row, Request, AttemptState, unauthorized, too_many_requests, forwarded, max_failures,
  lockout_seconds, no_attempts, state_of, current_state, failed_row, record_failure, record_success,
  authorized, require_admin_token, bearer_of, presents,
}
use community_search.Auth.Bearer.{IsBytes, constant_time_eq-eq_text}
use community_search.Auth.Lockout.{healthy, current_state-failure, current_state_lem}

abbrev pub AllBytes : Option Text → Type 0
AllBytes none = Unit
AllBytes (some token) = IsBytes token

-- SQLite answers the read; `writes` says whether it takes the write.
abbrev pub reading : Bool → Io
reading writes = record { reads = true; writes = writes }

presents-some :
    (admin_token : Text) (o : Option Text)
    → IsBytes admin_token
    → AllBytes o
    → (presents admin_token o ≡ true) ↔ (o ≡ some admin_token)
presents-some admin_token none ha hb = (λ e. cc, λ e. cc)
presents-some admin_token (some t) ha hb =
    let e = constant_time_eq-eq_text t admin_token hb ha in
    (
      λ h. ap some ((eq_text_iff t admin_token).0 (sym e ∙ h)),
      λ h. e ∙ (eq_text_iff t admin_token).1 (cc),
    )

-- A request is forwarded to the admin routes exactly when its address is not locked out and its
-- `Authorization` header carries the admin token itself. The attempts can be read, and tokens are
-- byte strings.
pub forwarded_iff :
    (writes : Bool) (admin_token : Text) (db : Table Text Row) (req : Request)
    → IsBytes admin_token
    → AllBytes (bearer_of req.authorization)
    → let io = reading writes in
      ((require_admin_token io admin_token db req).0 ≡ forwarded) ↔ (
        ((current_state db (client_ip req.origin)).lockout_until ≤ req.now)
        × (bearer_of req.authorization ≡ some admin_token))
unfolding require_admin_token authorized
forwarded_iff writes admin_token db req ha hb =
    let both = presents-some admin_token (bearer_of req.authorization) ha hb in
    (λ e. ground (arith, both.0), λ e. ground (arith, both.1 e.1))

-- While an address is locked out every request from it gets 429 with the seconds that are left, and
-- nothing is recorded: also a request with the right token.
pub locked_out :
    (writes : Bool) (admin_token : Text) (db : Table Text Row) (req : Request)
    → req.now < (current_state db (client_ip req.origin)).lockout_until
    → require_admin_token (reading writes) admin_token db req
      ≡ (too_many_requests ((current_state db (client_ip req.origin)).lockout_until - req.now), db)
unfolding require_admin_token
locked_out writes admin_token db req h = ground arith

failed_row-locks :
    (o : Option Row) (now : ℕ)
    → max_failures ≤ (state_of o).failed_count + 1
    → (failed_row o now).state.lockout_until ≡ now + lockout_seconds
failed_row-locks none now h = absurd (omega arith)
failed_row-locks (some r) now h = ground arith

rejects :
    (admin_token : Text) (db : Table Text Row) (req : Request)
    → (current_state db (client_ip req.origin)).lockout_until ≤ req.now
    → authorized admin_token req.authorization ≡ false
    → require_admin_token healthy admin_token db req
      ≡ (unauthorized, record_failure db (client_ip req.origin) req.now)
unfolding require_admin_token
rejects admin_token db req free wrong = ground arith

current_state-success :
    (db : Table Text Row) (ip j : Text)
    → current_state (record_success db ip) j
      ≡ (if eq_text ip j then no_attempts else current_state db j)
unfolding current_state record_success
current_state-success db ip j = ground (arith, lookup-remove ip j db)

-- A request whose attempts SQLite can read; `writes` says whether it takes the write.
pub record Arrival : Type 0 where
  pub writes : Bool
  pub request : Request

unfoldable pub arrivals : Text → List Arrival → Table Text Row → Table Text Row
arrivals admin_token [] db = db
arrivals admin_token (a ∷ rest) db =
    arrivals admin_token rest (require_admin_token (reading a.writes) admin_token db a.request).1

module _ (writes : Bool) (admin_token : Text) (db : Table Text Row) (req : Request) where
  other-keeps_lockout :
      (ip : Text)
      → eq_text (client_ip req.origin) ip ≡ false
      → current_state (require_admin_token (reading writes) admin_token db req).1 ip
        ≡ current_state db ip
  unfolding require_admin_token
  other-keeps_lockout ip other = ground (
    arith,
    other,
    current_state-failure db (client_ip req.origin) ip req.now,
    current_state-success db (client_ip req.origin) ip,
  )

  keeps_lockout :
      (ip : Text)
      → req.now < (current_state db ip).lockout_until
      → current_state (require_admin_token (reading writes) admin_token db req).1 ip
        ≡ current_state db ip
  keeps_lockout ip h = elim (Bool-cases (eq_text (client_ip req.origin) ip)) [
    | inl mine ↦
        let e = (eq_text_iff (client_ip req.origin) ip).0 mine in
        rw (locked_out writes admin_token db req (rw e h)) refl
    | inr other ↦ other-keeps_lockout ip other
  ]

arrivals-keep_lockout :
    (admin_token ip : Text) (until : ℕ) (visits : List Arrival) (db : Table Text Row)
    → (current_state db ip).lockout_until ≡ until
    → All (λ a. a.request.now < until) visits
    → (current_state (arrivals admin_token visits db) ip).lockout_until ≡ until
unfolding arrivals
arrivals-keep_lockout admin_token ip until [] db h soon = h
arrivals-keep_lockout admin_token ip until (a ∷ rest) db h soon =
    let kept = keeps_lockout a.writes admin_token db a.request ip (omega (arith, h, soon.0)) in
    arrivals-keep_lockout admin_token ip until rest _
      (ap (λ (s : AttemptState). s.lockout_until) kept ∙ h) soon.1

-- The fifth failure in a row, and each failure after it, locks the address out for 900 seconds from
-- then on, where SQLite answers its read and its write: it answers 401, and a request from the same
-- address in that time gets 429 with what is left, whatever its header, and records nothing. So it is
-- whatever requests of any addresses come in between, in that time, where SQLite answers the reads
-- for all of them.
pub fifth_failure_locks :
    (admin_token : Text) (db : Table Text Row) (req : Request) (between : List Arrival)
    (later : Arrival)
    → max_failures ≤ (current_state db (client_ip req.origin)).failed_count + 1
    → (current_state db (client_ip req.origin)).lockout_until ≤ req.now
    → authorized admin_token req.authorization ≡ false
    → All (λ a. a.request.now < req.now + lockout_seconds) between
    → client_ip later.request.origin ≡ client_ip req.origin
    → later.request.now < req.now + lockout_seconds
    → let failed = require_admin_token healthy admin_token db req in
      let after = arrivals admin_token between failed.1 in
      (failed.0 ≡ unauthorized)
      × (require_admin_token (reading later.writes) admin_token after later.request
          ≡ (too_many_requests (req.now + lockout_seconds - later.request.now), after))
fifth_failure_locks admin_token db req between later many free wrong before same soon =
    let ip = client_ip req.origin in
    let begun : (current_state (record_failure db ip req.now) ip).lockout_until
        ≡ req.now + lockout_seconds =
      rw (current_state-failure, eq_text_self)
        (failed_row-locks (lookup ip db) req.now (rw current_state_lem at many)) in
    let after = arrivals admin_token between (record_failure db ip req.now) in
    let until : (current_state after ip).lockout_until ≡ req.now + lockout_seconds =
      arrivals-keep_lockout admin_token ip (req.now + lockout_seconds) between _ begun before in
    rw (rejects admin_token db req free wrong) (
      refl,
      locked_out later.writes admin_token after later.request (rw (same, until) soon)
          ∙ ap (λ (t : ℕ). (too_many_requests (t - later.request.now), after)) (rw same until),
    )

-- A right token wipes the record of the address: after a request that is forwarded its attempts are
-- those of an address that has never failed, and those of any other address are as they were.
pub success_resets :
    (admin_token : Text) (db : Table Text Row) (req : Request) (ip : Text)
    → (require_admin_token healthy admin_token db req).0 ≡ forwarded
    → current_state (require_admin_token healthy admin_token db req).1 ip
      ≡ (if eq_text (client_ip req.origin) ip then no_attempts else current_state db ip)
unfolding require_admin_token
success_resets admin_token db req ip e =
    ground (arith, current_state-success db (client_ip req.origin) ip)
