-- ===== src/Transfer/Handler/Failure.antt =====
-- src/api/admin/export_import.rs: what an import leaves behind, whether it succeeds or not.
use community_search.Base.{
  ℕ, ◌+◌, ◌%◌, ◌==◌, ◌≡◌, refl, ◌∙◌, ◌⊎◌, inl, inr, Bool, true, Bool-cases, Attempt-cases, Attempt,
  done, Option, none, some, List, [], ◌∷◌, ◌++◌, length, length-append, if◌then◌else◌, if-cases,
  arith,
}
use community_search.Crawler.Page.{IndexJob, fetch_add}
use community_search.Transfer.{ExportEnvelope, format_version}
use community_search.Transfer.Import.{ImportReport, Merge, World}
use community_search.Transfer.Handler.{
  Connection, connect, release, set_foreign_keys, Node, Io, Response, bad_request, ok_json,
  internal_error, start, merge_envelope, settle, apply_envelope_inner, apply_envelope, send_jobs,
  respond, handle_import,
}

-- The mutex is sound, and SQLite answers all four statements.
abbrev pub healthy : Io
healthy = record {
  locks = true;
  pragma_off = true;
  begins = true;
  commits = true;
  pragma_on = true;
}

module _ {F : Type 0} where
  -- The node after the merge was committed, before any job is sent.
  abbrev pub committed : Io → Node F → Merge F → Node F
  committed io s m = record s { foreign_keys = io.pragma_on; tables = m.tables }

  -- The node after an import that failed in its transaction.
  abbrev pub unmerged : Io → Node F → Node F
  unmerged io s = record s { foreign_keys = io.pragma_on }

  module _ (world : World) (io : Io) (accepts : ℕ → Bool) (env : ExportEnvelope F) (next : ℕ)
      (s : Node F) where
    abbrev pub merged : Attempt (Merge F)
    merged = merge_envelope world env (start s.tables next)

    apply_envelope-cases {κ} :
        (P : Connection F × Option (ImportReport × List IndexJob) → Type κ)
        → P (connect s, none)
        → P (connect (unmerged io s), none)
        → ((m : Merge F)
            → merged ≡ done m
            → P (connect (committed io s m), some (m.report, m.jobs)))
        → P (apply_envelope world io env next (connect s))
    unfolding apply_envelope apply_envelope_inner settle
    apply_envelope-cases P shut back whole =
        if-cases P io.pragma_off
          (λ off.
            if-cases
              (λ (r : Connection F × Option (ImportReport × List IndexJob)).
                P (if io.pragma_on then set_foreign_keys true r.0 else r.0, r.1))
              io.begins
              (λ begun. elim (Attempt-cases merged) [
                | inl (m, e) ↦ elim (Bool-cases io.commits) [
                  | inl commits ↦ elim (Bool-cases io.pragma_on) [
                    | inl on ↦ rw (e, commits, on) (rw on at whole m e)
                    | inr stays_off ↦ rw (e, commits, stays_off) (rw stays_off at whole m e)
                  ]
                  | inr fails ↦ elim (Bool-cases io.pragma_on) [
                    | inl on ↦ rw (e, fails, on) (rw on at back)
                    | inr stays_off ↦ rw (e, fails, stays_off) (rw stays_off at back)
                  ]
                ]
                | inr (m, e) ↦ elim (Bool-cases io.pragma_on) [
                  | inl on ↦ rw (e, on) (rw on at back)
                  | inr stays_off ↦ rw (e, stays_off) (rw stays_off at back)
                ]
              ])
              (λ idle. elim (Bool-cases io.pragma_on) [
                | inl on ↦ rw on (rw on at back)
                | inr stays_off ↦ rw stays_off (rw stays_off at back)
              ]))
          (λ on. shut)

    -- The ways in which an import of a decoded envelope goes.
    pub handle_import-cases {κ} :
        (P : Node F × Response → Type κ)
        → P (s, bad_request)
        → P (s, internal_error)
        → P (unmerged io s, internal_error)
        → ((m : Merge F)
            → merged ≡ done m
            → P (
                let sent = send_jobs accepts m.jobs (committed io s m) in
                (sent.0, if sent.1 then ok_json m.report else internal_error)))
        → P (handle_import world io accepts (some env) next s)
    unfolding handle_import respond
    handle_import-cases P refused shut back sent =
        if-cases P (env.format_version == format_version)
          (λ known.
            if-cases P io.locks
              (λ sound.
                apply_envelope-cases
                  (λ (r : Connection F × Option (ImportReport × List IndexJob)).
                    P (respond accepts (release r.0 s, r.1)))
                  shut back sent)
              (λ poisoned. shut))
          (λ unknown. refused)

  pub sent_after :
      (world : World) (accepts : ℕ → Bool) (env : ExportEnvelope F) (next : ℕ) (s : Node F)
      (m : Merge F)
      → (env.format_version == format_version) ≡ true
      → merge_envelope world env (start s.tables next) ≡ done m
      → handle_import world healthy accepts (some env) next s ≡ (
          let sent = send_jobs accepts m.jobs (committed healthy s m) in
          (sent.0, if sent.1 then ok_json m.report else internal_error))
  unfolding handle_import apply_envelope apply_envelope_inner settle respond
  sent_after world accepts env next s m e k = rw (e, k) refl

  -- The counter has moved by as much as the list of the jobs sent, modulo 2^64.
  abbrev pub MovesWithSent : Node F → Node F → Type 0
  MovesWithSent s s' =
      (s'.indexing_inflight + length s.sent) % 18446744073709551616
      ≡ (s.indexing_inflight + length s'.sent) % 18446744073709551616

  send_jobs-MovesWithSent :
      (accepts : ℕ → Bool) (jobs : List IndexJob) (s : Node F)
      → MovesWithSent s (send_jobs accepts jobs s).0
  unfolding send_jobs
  send_jobs-MovesWithSent accepts [] s = refl
  send_jobs-MovesWithSent accepts (job ∷ jobs) s =
      let counted = fetch_add s.indexing_inflight 1 in
      if-cases (λ (r : Node F × Bool). MovesWithSent s r.0) (accepts (length s.sent))
        (λ _. omega (
          arith,
          send_jobs-MovesWithSent accepts jobs
              (record s { indexing_inflight = counted; sent = s.sent ++ job ∷ [] }),
          length-append s.sent (job ∷ []),
        ))
        (λ _. omega arith)

  pub send_jobs-tables :
      (accepts : ℕ → Bool) (jobs : List IndexJob) (s : Node F)
      → ((send_jobs accepts jobs s).0.tables ≡ s.tables)
        × ((send_jobs accepts jobs s).0.foreign_keys ≡ s.foreign_keys)
  unfolding send_jobs
  send_jobs-tables accepts [] s = (refl, refl)
  send_jobs-tables accepts (job ∷ jobs) s =
      if-cases
        (λ (r : Node F × Bool). (r.0.tables ≡ s.tables) × (r.0.foreign_keys ≡ s.foreign_keys))
        (accepts (length s.sent)) (λ _. send_jobs-tables accepts jobs _) (λ _. (refl, refl))

  -- That the merge is applied whole, or not at all and then no job is sent and the answer is an error;
  -- that foreign keys are enforced; and that the counter has moved by the jobs sent.
  pub record IsAtomic (world : World) (env : ExportEnvelope F) (next : ℕ) (s : Node F)
      (r : Node F × Response) : Type 0 where
    pub whole :
        ((r.0.tables ≡ s.tables)
          × (r.0.sent ≡ s.sent)
          × ((r.1 ≡ bad_request) ⊎ (r.1 ≡ internal_error)))
        ⊎ ((m : Merge F) × (merge_envelope world env (start s.tables next) ≡ done m)
            × (r.0.tables ≡ m.tables))
    pub enforced : r.0.foreign_keys ≡ true
    pub counted : MovesWithSent s r.0

  -- However an import of a decoded envelope goes, on a constraint that fails after some writes, on a
  -- BEGIN, COMMIT or first pragma that SQLite refuses, on a poisoned mutex, and where the channel is
  -- closed before all jobs are sent: the tables are those of the complete merge, or they are those
  -- before it, and then no job is sent and the answer is a 400 or a 500. Foreign keys are enforced
  -- after it, where they were before and SQLite answers the second pragma; and the counter of jobs in
  -- flight has gone up, modulo 2^64, by the number of jobs sent.
  pub handle_import-IsAtomic :
      (world : World) (io : Io) (accepts : ℕ → Bool) (env : ExportEnvelope F) (next : ℕ)
      (s : Node F)
      → s.foreign_keys ≡ true
      → io.pragma_on ≡ true
      → IsAtomic world env next s (handle_import world io accepts (some env) next s)
  handle_import-IsAtomic world io accepts env next s h on =
      handle_import-cases world io accepts env next s
        (λ (r : Node F × Response). IsAtomic world env next s r)
        (record { whole = inl (refl, refl, inl refl); enforced = h; counted = refl })
        (record { whole = inl (refl, refl, inr refl); enforced = h; counted = refl })
        (record { whole = inl (refl, refl, inr refl); enforced = on; counted = refl })
        (λ m k. record {
          whole = inr (m, k, (send_jobs-tables accepts m.jobs (committed io s m)).0);
          enforced = (send_jobs-tables accepts m.jobs (committed io s m)).1 ∙ on;
          counted = send_jobs-MovesWithSent accepts m.jobs (committed io s m);
        })
