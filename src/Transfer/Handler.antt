-- ===== src/Transfer/Handler.antt =====
-- src/api/admin/export_import.rs: `apply_envelope` in its transaction, and `handle_import`.
--
-- The decoding of the body and the closing of the channel are arguments: the channel takes its n-th
-- job where `accepts n`. Statements of the merge fail on the constraints of the tables only.
pub mod Failure
pub mod Counted
pub mod Tally
pub mod Report
pub mod Framed
pub mod Settled
pub mod Mapped
pub mod Twice
mod Examples
use community_search.Base.{
  ℕ, ◌+◌, ◌==◌, Bool, true, false, not, ◌&&◌, ◌||◌, Option, none, some, Attempt, done, failed,
  ◌>>=◌, List, [], ◌∷◌, ◌++◌, map, Text, eq_text, if◌then◌else◌, length,
}
use community_search.Crawler.Page.{IndexJob, fetch_add, fetch_sub}
use community_search.Transfer.{
  ExportedCollectionPeer, ExportEnvelope, CollectionRow, PeerRow, CollectionPeerRow, Tables,
  format_version,
}
use community_search.Transfer.Import.{
  ImportReport, no_report, Merge, any_row, contains, World, import_collections, import_node_peers,
}

unfoldable pub existing_collection_names : {F : Type 0} → Tables F → List Text
existing_collection_names db = map (λ (r : CollectionRow). r.name) db.collections

unfoldable pub existing_node_peer_urls : {F : Type 0} → Tables F → List Text
existing_node_peer_urls db = map (λ (r : PeerRow). r.url) db.node_peers

-- `SELECT id FROM node_peers WHERE url = ?1`
unfoldable pub node_peer_id : List PeerRow → Text → Option ℕ
node_peer_id [] url = none
node_peer_id (p ∷ peers) url =
    let rest = node_peer_id peers url in if eq_text p.url url then some p.id else rest

-- The database between requests, the counter of jobs in flight, and the jobs sent on the channel.
pub record Node (F : Type 0) : Type 0 where
  pub tables : Tables F
  pub foreign_keys : Bool
  pub indexing_inflight : ℕ
  pub sent : List IndexJob

-- The connection while the mutex is held: what is committed, the tables of an open transaction, and
-- whether foreign keys are enforced.
pub record Connection (F : Type 0) : Type 0 where
  pub tables : Tables F
  pub transaction : Option (Tables F)
  pub foreign_keys : Bool

-- Whether the mutex is sound, and which statements SQLite answers: the two pragmas, BEGIN and COMMIT.
pub record Io : Type 0 where
  pub locks : Bool
  pub pragma_off : Bool
  pub begins : Bool
  pub commits : Bool
  pub pragma_on : Bool

-- Of the handler: a report, a 400 or a 500.
pub data Response : Type 0 where
  ok_json : ImportReport → Response
  bad_request : Response
  internal_error : Response

-- UNIQUE (local_collection, node_peer_id, remote_collection)
abbrev pub is_mapped :
    {F : Type 0} → ExportedCollectionPeer F → ℕ → List (CollectionPeerRow F) → Bool
is_mapped {F} cp id = any_row (λ (r : CollectionPeerRow F).
    eq_text r.local_collection cp.local_collection
    && (r.node_peer_id == id && eq_text r.remote_collection cp.remote_collection))

-- Whether the local collection or the node peer is missing.
abbrev pub lacks_parent : {F : Type 0} → ExportedCollectionPeer F → Merge F → Bool
lacks_parent cp m =
    not (contains m.known_collection_names cp.local_collection)
    || not (contains m.known_peer_urls cp.node_peer_url)

module _ {F : Type 0} where
  -- Before the merge; the supply of UUIDs starts at `next`.
  unfoldable pub start : Tables F → ℕ → Merge F
  start db next = record {
    tables = db;
    known_collection_names = existing_collection_names db;
    known_peer_urls = existing_node_peer_urls db;
    report = no_report;
    jobs = [];
    next = next;
  }

  -- The counter goes up before each send, and down again where the channel is closed.
  unfoldable pub send_jobs : (ℕ → Bool) → List IndexJob → Node F → Node F × Bool
  send_jobs accepts [] s = (s, true)
  send_jobs accepts (job ∷ jobs) s =
      let counted = fetch_add s.indexing_inflight 1 in
      let rest =
        send_jobs accepts jobs
          (record s { indexing_inflight = counted; sent = s.sent ++ job ∷ [] }) in
      if accepts (length s.sent)
      then rest
      else (record s { indexing_inflight = fetch_sub counted 1 }, false)

  -- The jobs are sent after the commit.
  unfoldable pub respond :
      (ℕ → Bool) → Node F × Option (ImportReport × List IndexJob) → Node F × Response
  respond accepts (s, none) = (s, internal_error)
  respond accepts (s, some (report, jobs)) =
      let after = send_jobs accepts jobs s in
      (after.0, if after.1 then ok_json report else internal_error)

-- Statements of SQLite. Outside a transaction each write is committed by itself.
module _ {F : Type 0} where
  abbrev pub connect : Node F → Connection F
  connect s = record { tables = s.tables; transaction = none; foreign_keys = s.foreign_keys }

  abbrev pub release : Connection F → Node F → Node F
  release conn s = record s { tables = conn.tables; foreign_keys = conn.foreign_keys }

  -- `PRAGMA foreign_keys` does nothing while a transaction is open.
  abbrev pub set_foreign_keys : Bool → Connection F → Connection F
  set_foreign_keys b conn = elim conn.transaction [
    | none ↦ record conn { foreign_keys = b }
    | some db ↦ conn
  ]

  abbrev pub begin : Connection F → Connection F
  begin conn = record conn { transaction = some conn.tables }

  abbrev pub write : Tables F → Connection F → Connection F
  write written conn = elim conn.transaction [
    | none ↦ record conn { tables = written }
    | some db ↦ record conn { transaction = some written }
  ]

  abbrev pub commit : Connection F → Connection F
  commit conn = elim conn.transaction [
    | none ↦ conn
    | some db ↦ record conn { tables = db; transaction = none }
  ]

  -- A `Transaction` that is dropped without a commit.
  abbrev pub roll_back : Connection F → Connection F
  roll_back conn = record conn { transaction = none }

module _ {F : Type 0} (world : World) where
  -- `INSERT OR IGNORE` of the mapping's row.
  unfoldable pub insert_collection_peer : ExportedCollectionPeer F → ℕ → Merge F → Merge F
  insert_collection_peer cp id m =
      let db = m.tables in
      let counts = m.report in
      if is_mapped cp id db.collection_peers
      then record m {
        report = record counts { collection_peers_skipped = counts.collection_peers_skipped + 1 };
      }
      else record m {
        tables = record db {
          collection_peers =
              db.collection_peers
              ++ record {
                local_collection = cp.local_collection;
                node_peer_id = id;
                remote_collection = cp.remote_collection;
                source_weight = cp.source_weight;
                enabled = cp.enabled;
                created_at = world.now_unix;
              }
                ∷ [];
        };
        report = record counts { collection_peers_imported = counts.collection_peers_imported + 1 };
      }

  unfoldable pub import_collection_peer : ExportedCollectionPeer F → Merge F → Attempt (Merge F)
  import_collection_peer cp m =
      let db = m.tables in
      let counts = m.report in
      if lacks_parent cp m
      then done (record m {
        report = record counts { collection_peers_skipped = counts.collection_peers_skipped + 1 };
      })
      else elim (node_peer_id db.node_peers cp.node_peer_url) [
        | none ↦ failed m
        | some id ↦ done (insert_collection_peer cp id m)
      ]

  unfoldable pub import_collection_peers :
      List (ExportedCollectionPeer F) → Merge F → Attempt (Merge F)
  import_collection_peers [] m = done m
  import_collection_peers (cp ∷ cps) m = import_collection_peer cp m >>= import_collection_peers cps

  -- The statements between BEGIN and COMMIT.
  unfoldable pub merge_envelope : ExportEnvelope F → Merge F → Attempt (Merge F)
  merge_envelope env m = do
    with_collections ← import_collections world env.collections m
    let with_node_peers = import_node_peers world env.node_peers with_collections
    import_collection_peers env.collection_peers with_node_peers

  -- The end of a merge that wrote what it has made of the tables, up to a failure.
  unfoldable pub settle :
      Bool → Attempt (Merge F) → Connection F → Connection F × Option (ImportReport × List IndexJob)
  settle commits (failed m) conn = (roll_back (write m.tables conn), none)
  settle commits (done m) conn =
      if commits
      then (commit (write m.tables conn), some (m.report, m.jobs))
      else (roll_back (write m.tables conn), none)

  unfoldable pub apply_envelope_inner :
      Io
      → ExportEnvelope F
      → ℕ
      → Connection F
      → Connection F × Option (ImportReport × List IndexJob)
  apply_envelope_inner io env next conn =
      if io.begins
      then settle io.commits (merge_envelope env (start conn.tables next)) (begin conn)
      else (conn, none)

  -- The result of the second pragma is dropped.
  unfoldable pub apply_envelope :
      Io
      → ExportEnvelope F
      → ℕ
      → Connection F
      → Connection F × Option (ImportReport × List IndexJob)
  apply_envelope io env next conn =
      let result = apply_envelope_inner io env next (set_foreign_keys false conn) in
      if io.pragma_off
      then (if io.pragma_on then set_foreign_keys true result.0 else result.0, result.1)
      else (conn, none)

  -- `body`: the envelope that the bytes decode to, if they do.
  unfoldable pub handle_import :
      Io → (ℕ → Bool) → Option (ExportEnvelope F) → ℕ → Node F → Node F × Response
  handle_import io accepts none next s = (s, bad_request)
  handle_import io accepts (some env) next s =
      let applied = apply_envelope io env next (connect s) in
      let after = respond accepts (release applied.0 s, applied.1) in
      if env.format_version == format_version
      then (if io.locks then after else (s, internal_error))
      else (s, bad_request)
