-- ===== src/Index/Inflight.antt =====
-- src/index/indexer.rs: the counter of jobs in flight, under any interleaving of the crawlers that send
-- and the indexer that receives.
use community_search.Base.{
  ℕ, ◌+◌, ◌%◌, ◌<◌, ◌≤◌, ◌≡◌, sym, ap, ◌∙◌, Bool, List, [], ◌∷◌, ◌++◌, length, length-append, arith,
  subst,
}
use community_search.Crawler.{ok}
use community_search.Crawler.UrlClass.{UrlApi}
use community_search.Crawler.Page.{IndexJob, fetch_add}
use community_search.Index.{
  Tantivy, Indexer, Message, upsert_received, upserts_closed, running, ended, turn, batch_size,
  channel_capacity,
}
use community_search.Index.Turns.{IsNoUpsert, IsCounted, Leaves, on_upsert-Leaves, other-Leaves}

-- The jobs that are counted and wait for room in the channel, the jobs in it, oldest first, the
-- indexer, and how many senders were dropped while they waited.
pub record System (I : Type 0) : Type 0 where
  pub waiting : List IndexJob
  pub channel : List IndexJob
  pub indexer : Indexer I
  pub dropped : ℕ

-- No job waits, the channel is empty, and no sender was dropped.
abbrev pub at_rest : {I : Type 0} → Indexer I → System I
at_rest st = record { waiting = []; channel = []; indexer = st; dropped = 0 }

module _ {I Url : Type 0} (api : UrlApi Url) (engine : Tantivy I) where
  -- A sender counts a job; it hands over a job that waits, when there is room; it is dropped while it
  -- waits, as the handler of a request is when the client goes away; or the indexer goes on by a turn.
  pub data Step : System I → System I → Type 0 where
    counts :
        {waiting jobs : List IndexJob} {st : Indexer I} {dropped : ℕ} (job : IndexJob)
        → Step
            (record { waiting = waiting; channel = jobs; indexer = st; dropped = dropped })
            (record {
              waiting = job ∷ waiting;
              channel = jobs;
              indexer = record st { inflight = fetch_add st.inflight 1 };
              dropped = dropped;
            })
    sends :
        {jobs : List IndexJob} {st : Indexer I} {dropped : ℕ} (before after : List IndexJob)
        (job : IndexJob)
        → length jobs < channel_capacity
        → Step
            (record {
              waiting = before ++ job ∷ after;
              channel = jobs;
              indexer = st;
              dropped = dropped;
            })
            (record {
              waiting = before ++ after;
              channel = jobs ++ job ∷ [];
              indexer = st;
              dropped = dropped;
            })
    drops :
        {jobs : List IndexJob} {st : Indexer I} {dropped : ℕ} (before after : List IndexJob)
        (job : IndexJob)
        → Step
            (record {
              waiting = before ++ job ∷ after;
              channel = jobs;
              indexer = st;
              dropped = dropped;
            })
            (record {
              waiting = before ++ after;
              channel = jobs;
              indexer = st;
              dropped = dropped + 1;
            })
    receives :
        {waiting jobs : List IndexJob} {st st' : Indexer I} {job : IndexJob} {dropped : ℕ}
        (db_answers : Bool) (now : ℕ)
        → turn api engine db_answers now (upsert_received job) st ≡ running st'
        → Step
            (record { waiting = waiting; channel = job ∷ jobs; indexer = st; dropped = dropped })
            (record { waiting = waiting; channel = jobs; indexer = st'; dropped = dropped })
    turns :
        {waiting jobs : List IndexJob} {st st' : Indexer I} {dropped : ℕ} (message : Message)
        (db_answers : Bool) (now : ℕ)
        → IsNoUpsert message
        → turn api engine db_answers now message st ≡ running st'
        → Step
            (record { waiting = waiting; channel = jobs; indexer = st; dropped = dropped })
            (record { waiting = waiting; channel = jobs; indexer = st'; dropped = dropped })

  pub data Steps : System I → System I → Type 0 where
    none_more : {s : System I} → Steps s s
    one_more : {s t u : System I} → Steps s t → Step t u → Steps s u

  abbrev ahead_of : System I → ℕ
  ahead_of s = length s.waiting + length s.channel + s.dropped

  record Goes (s : System I) : Type 0 where
    counted : IsCounted (ahead_of s) s.indexer
    small : s.indexer.pending < batch_size
    room : length s.channel < channel_capacity + 1

  Step-Goes : {s t : System I} → Step s t → Goes s → Goes t
  unfolding turn
  Step-Goes (counts {waiting} {jobs} {st} job) v = record {
    counted = record { inflight = omega (arith, v.counted.inflight); pending = v.counted.pending };
    small = v.small;
    room = v.room;
  }
  Step-Goes (sends {jobs} {st} before after job free) v = record {
    counted = record {
      inflight = omega (
        arith,
        v.counted.inflight,
        length-append before (job ∷ after),
        length-append before after,
        length-append jobs (job ∷ []),
      );
      pending = v.counted.pending;
    };
    small = v.small;
    room = omega (arith, free, length-append jobs (job ∷ []));
  }
  Step-Goes (drops {jobs} {st} before after job) v = record {
    counted = record {
      inflight = omega (
        arith,
        v.counted.inflight,
        length-append before (job ∷ after),
        length-append before after,
      );
      pending = v.counted.pending;
    };
    small = v.small;
    room = v.room;
  }
  Step-Goes (receives {waiting} {jobs} {st} {st'} {job} {dropped} db_answers now e) v =
      let after : IsCounted (length waiting + length jobs + dropped) st'
          × (st'.pending < batch_size) =
        subst (Leaves (length waiting + length jobs + dropped)) e (
          on_upsert-Leaves api engine db_answers now (length waiting + length jobs + dropped) job st
            (record { inflight = omega (arith, v.counted.inflight); pending = v.counted.pending })
            v.small) in
      record { counted = after.0; small = after.1; room = omega (arith, v.room) }
  Step-Goes (turns {waiting} {jobs} {st} {st'} {dropped} message db_answers now quiet e) v =
      let after : IsCounted (length waiting + length jobs + dropped) st'
          × (st'.pending < batch_size) =
        subst (Leaves (length waiting + length jobs + dropped)) e (
          other-Leaves api engine message db_answers now (length waiting + length jobs + dropped) st
            quiet v.counted v.small) in
      record { counted = after.0; small = after.1; room = v.room }

  Steps-Goes : {s t : System I} → Steps s t → Goes s → Goes t
  Steps-Goes none_more v = v
  Steps-Goes (one_more steps step) v = Step-Goes step (Steps-Goes steps v)

  start-Goes :
      (start : Indexer I)
      → start.inflight ≡ 0
      → start.pending ≡ 0
      → start.writer.journal ≡ []
      → Goes (at_rest start)
  start-Goes start zero_inflight zero_pending no_journal = record {
    counted = record {
      inflight = omega (arith, zero_inflight, zero_pending);
      pending = zero_pending ∙ sym (ap length no_journal);
    };
    small = omega (arith, zero_pending);
    room = omega arith;
  }

  -- However senders and the indexer interleave, from an idle indexer, an empty channel and no job
  -- waiting: the counter is, modulo 2^64, the number of jobs that wait for room in the channel, of jobs
  -- in it, of jobs that the writer has taken and not committed, and of senders that were dropped while
  -- they waited; the indexer's own count of the jobs that the writer has is right; they are fewer than
  -- a batch; and the channel holds no more than its capacity.
  pub Steps-counted :
      (start : Indexer I) (s : System I)
      → start.inflight ≡ 0
      → start.pending ≡ 0
      → start.writer.journal ≡ []
      → Steps (at_rest start) s
      → (s.indexer.inflight
          ≡ (length s.waiting + length s.channel + length s.indexer.writer.journal + s.dropped)
            % 18446744073709551616)
        × (s.indexer.pending ≡ length s.indexer.writer.journal)
        × (length s.indexer.writer.journal < batch_size)
        × (length s.channel ≤ channel_capacity)
  Steps-counted start s zero_inflight zero_pending no_journal steps =
      let v = Steps-Goes steps (start-Goes start zero_inflight zero_pending no_journal) in
      let c = v.counted in
      (
        omega (arith, c.inflight, c.pending),
        c.pending,
        omega (arith, c.pending, v.small),
        omega (arith, v.room),
      )

  -- A shutdown that ends well leaves nothing behind: after any such run in which no sender was dropped
  -- while it waited, when no job waits, the channel is empty and its senders are gone, the indexer ends with no job uncommitted and the counter at 0.
  pub shutdown_drains :
      (start : Indexer I) (st end : Indexer I) (db_answers : Bool) (now : ℕ)
      → start.inflight ≡ 0
      → start.pending ≡ 0
      → start.writer.journal ≡ []
      → Steps (at_rest start) (at_rest st)
      → turn api engine db_answers now upserts_closed st ≡ ended (ok tt) end
      → (end.inflight ≡ 0) × (length end.writer.journal ≡ 0)
  shutdown_drains start st end db_answers now zero_inflight zero_pending no_journal steps e =
      let v = Steps-Goes steps (start-Goes start zero_inflight zero_pending no_journal) in
      let left : Leaves 0 (ended (ok tt) end) =
        subst (Leaves 0) e
          (other-Leaves api engine upserts_closed db_answers now 0 st tt v.counted v.small) in
      (omega (arith, left.0), left.1)
