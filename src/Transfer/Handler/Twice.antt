-- ===== src/Transfer/Handler/Twice.antt =====
-- src/api/admin/export_import.rs: an import of what is already there, and an import that is repeated.
use community_search.Base.{
  ℕ, ◌+◌, ◌==◌, ◌≡◌, refl, sym, ap, subst, ◌∙◌, inl, inr, Bool, true, some, ◌>>=◌, Holds, Holds->>=,
  done, Holds-done, Holds-mono, List, [], ◌∷◌, length, map, All, if-cases, arith, Attempt,
}
use community_search.Transfer.{
  ExportedNodePeer, ExportedCollection, ExportedCollectionPeer, ExportEnvelope, Tables, PeerRow,
  format_version,
}
use community_search.Transfer.Import.{
  ImportReport, no_report, Merge, World, contains, import_collection, import_collections,
  import_node_peer, import_node_peers,
}
use community_search.Transfer.Handler.{
  Node, ok_json, lacks_parent, insert_collection_peer, import_collection_peer,
  import_collection_peers, start, merge_envelope, send_jobs, handle_import,
  existing_collection_names, existing_node_peer_urls,
}
use community_search.Transfer.Handler.Failure.{healthy, committed, sent_after, send_jobs-tables}
use community_search.Transfer.Handler.Framed.{Frame, frame}
use community_search.Transfer.Handler.Settled.{IsNamed, IsMet, import_collections-IsMet}
use community_search.Transfer.Handler.Mapped.{
  IsLinked, import_node_peers-IsLinked, IsSettled, IsSettling, import_collection_peers-IsSettling,
}

-- The report of an import in which all is skipped.
abbrev pub all_skipped : {F : Type 0} → ExportEnvelope F → ImportReport
all_skipped env = record no_report {
  collections_skipped = length env.collections;
  node_peers_skipped = length env.node_peers;
  collection_peers_skipped = length env.collection_peers;
}

module _ {F : Type 0} (world : World) where
  -- The merge with other numbers of what it skipped.
  abbrev skips : Merge F → ℕ → ℕ → ℕ → Merge F
  skips m a b c =
      let counts = m.report in
      record m {
        report = record counts {
          collections_skipped = a;
          node_peers_skipped = b;
          collection_peers_skipped = c;
        };
      }

  abbrev skipped : Merge F → ℕ → ℕ → ℕ → Merge F
  skipped m a b c =
      let counts = m.report in
      skips m (counts.collections_skipped + a) (counts.node_peers_skipped + b)
        (counts.collection_peers_skipped + c)

  skips_congr :
      (m : Merge F) (a b c x y z : ℕ) → a ≡ x → b ≡ y → c ≡ z → skips m a b c ≡ skips m x y z
  skips_congr m a b c x y z e f g =
      ap (λ n. skips m n b c) e ∙ ap (λ n. skips m x n c) f ∙ ap (λ n. skips m x y n) g

  import_collections_known :
      (cs : List (ExportedCollection F)) (m : Merge F)
      → All (λ (c : ExportedCollection F). contains m.known_collection_names c.name ≡ true) cs
      → import_collections world cs m ≡ done (skipped m (length cs) 0 0)
  unfolding import_collections import_collection
  import_collections_known [] m h =
      ap done (skips_congr m _ _ _ _ _ _ (omega arith) (omega arith) (omega arith))
  import_collections_known (c ∷ cs) m h = rw h.0 (
      import_collections_known cs _ h.1
      ∙ ap done (skips_congr m _ _ _ _ _ _ (omega arith) (omega arith) (omega arith)))

  import_node_peers_known :
      (ps : List ExportedNodePeer) (m : Merge F)
      → All (λ (p : ExportedNodePeer). contains m.known_peer_urls p.url ≡ true) ps
      → import_node_peers world ps m ≡ skipped m 0 (length ps) 0
  unfolding import_node_peers import_node_peer
  import_node_peers_known [] m h =
      skips_congr m _ _ _ _ _ _ (omega arith) (omega arith) (omega arith)
  import_node_peers_known (p ∷ ps) m h = rw h.0 (
      import_node_peers_known ps _ h.1
      ∙ skips_congr m _ _ _ _ _ _ (omega arith) (omega arith) (omega arith))

  import_collection_peer_settled :
      (cp : ExportedCollectionPeer F) (m : Merge F)
      → IsSettled (frame m) cp
      → import_collection_peer world cp m
        ≡ done (
            skips m m.report.collections_skipped m.report.node_peers_skipped
              (m.report.collection_peers_skipped + 1))
  unfolding import_collection_peer insert_collection_peer
  import_collection_peer_settled cp m (inl e) = rw e
  import_collection_peer_settled cp m (inr (id, e, k)) =
      if-cases
        (λ (o : Attempt (Merge F)).
          o
          ≡ done (
              skips m m.report.collections_skipped m.report.node_peers_skipped
                (m.report.collection_peers_skipped + 1)))
        (lacks_parent cp m) (λ _. refl) (λ _. rw (e, k))

  import_collection_peers_settled :
      (cps : List (ExportedCollectionPeer F)) (m : Merge F)
      → All (IsSettled (frame m)) cps
      → import_collection_peers world cps m ≡ done (skipped m 0 0 (length cps))
  unfolding import_collection_peers
  import_collection_peers_settled [] m h =
      ap done (skips_congr m _ _ _ _ _ _ (omega arith) (omega arith) (omega arith))
  import_collection_peers_settled (cp ∷ cps) m h = rw (import_collection_peer_settled cp m h.0) (
      import_collection_peers_settled cps _ h.1
      ∙ ap done (skips_congr m _ _ _ _ _ _ (omega arith) (omega arith) (omega arith)))

  -- What holds of a frame after a merge: the envelope has nothing new for it.
  record IsDone (env : ExportEnvelope F) (f : Frame F) : Type 0 where
    named : IsNamed f
    collections : All (λ (c : ExportedCollection F). contains f.names c.name ≡ true) env.collections
    node_peers : All (λ (p : ExportedNodePeer). contains f.urls p.url ≡ true) env.node_peers
    mappings : All (IsSettled f) env.collection_peers

  merge_envelope_done :
      (env : ExportEnvelope F) (m : Merge F)
      → IsDone env (frame m)
      → merge_envelope world env m
        ≡ done (
            skipped m
              (length env.collections)
              (length env.node_peers)
              (length env.collection_peers))
  unfolding merge_envelope
  merge_envelope_done env m h =
      ap
        (λ (o : Attempt (Merge F)). o >>= (λ m1.
          import_collection_peers world env.collection_peers
            (import_node_peers world env.node_peers m1)))
        (import_collections_known env.collections m h.collections)
      ∙ ap (import_collection_peers world env.collection_peers)
          (import_node_peers_known env.node_peers _ h.node_peers)
      ∙ import_collection_peers_settled env.collection_peers _ h.mappings
      ∙ ap done (skips_congr m _ _ _ _ _ _ (omega arith) (omega arith) (omega arith))

  start-IsNamed : (db : Tables F) (next : ℕ) → IsNamed (frame (start db next))
  unfolding start existing_collection_names existing_node_peer_urls
  start-IsNamed db next = record { of_names = refl; of_urls = refl }

  IsSettling-IsDone :
      (env : ExportEnvelope F) (f g k t : Frame F)
      → IsMet env.collections f g
      → IsLinked env.node_peers g k
      → IsSettling env.collection_peers k t
      → IsDone env t
  IsSettling-IsDone env f g k t met linked settling =
      let e = sym settling.grows.1 in
      record {
        named =
            subst IsNamed e
              (record { of_names = linked.named.of_names; of_urls = linked.named.of_urls });
        collections =
            subst
              (λ (t : Frame F).
                All (λ (c : ExportedCollection F). contains t.names c.name ≡ true) env.collections)
              e
              (subst
                (λ names.
                  All (λ (c : ExportedCollection F). contains names c.name ≡ true) env.collections)
                (sym linked.same_names) met.knows);
        node_peers =
            subst
              (λ (t : Frame F).
                All (λ (p : ExportedNodePeer). contains t.urls p.url ≡ true) env.node_peers)
              e linked.knows;
        mappings = settling.settled;
      }

  merge_envelope-IsDone :
      (env : ExportEnvelope F) (m : Merge F)
      → IsNamed (frame m)
      → Holds (λ m1. IsDone env (frame m1)) (merge_envelope world env m)
  unfolding merge_envelope
  merge_envelope-IsDone env m h =
      Holds->>= (λ m1. IsMet env.collections (frame m) (frame m1)) (λ m1. IsDone env (frame m1)) _ _
        (import_collections-IsMet world env.collections m h)
        (λ m1 met.
          let linked = import_node_peers-IsLinked world env.node_peers m1 met.named in
          let m2 = import_node_peers world env.node_peers m1 in
          Holds-mono (λ m3. IsSettling env.collection_peers (frame m2) (frame m3))
            (λ m3. IsDone env (frame m3)) (import_collection_peers world env.collection_peers m2)
            (λ m3. IsSettling-IsDone env (frame m) (frame m1) (frame m2) (frame m3) met linked)
            (import_collection_peers-IsSettling world env.collection_peers m2))

  -- A later import starts from the frame that the first ended in.
  frame-start : (m : Merge F) (next : ℕ) → IsNamed (frame m) → frame (start m.tables next) ≡ frame m
  unfolding start existing_collection_names existing_node_peer_urls
  frame-start m next h =
      ap
        (λ names. record (frame m) {
          names = names;
          urls = map (λ (r : PeerRow). r.url) m.tables.node_peers;
        })
        h.of_names
      ∙ ap (λ urls. record (frame m) { urls = urls }) h.of_urls

  repeated :
      (accepts : ℕ → Bool) (env : ExportEnvelope F) (next : ℕ) (t : Node F)
      → (env.format_version == format_version) ≡ true
      → IsDone env (frame (start t.tables next))
      → t.foreign_keys ≡ true
      → handle_import world healthy accepts (some env) next t ≡ (t, ok_json (all_skipped env))
  unfolding start send_jobs
  repeated accepts env next t e finished h =
      sent_after world accepts env next t _ e
        (merge_envelope_done env (start t.tables next) finished)
      ∙ ap
          (λ b.
            let m =
              skips (start t.tables next) (0 + length env.collections) (0 + length env.node_peers)
                (0 + length env.collection_peers) in
            (record t { foreign_keys = b }, ok_json m.report))
          (sym h)
      ∙ ap (λ (m : Merge F). (t, ok_json m.report))
          (skips_congr (start t.tables next) _ _ _ (length env.collections) (length env.node_peers)
            (length env.collection_peers) (omega arith) (omega arith) (omega arith))

  -- An import whose merge succeeds, repeated on the node that it leaves, changes nothing and sends
  -- nothing: it answers that all collections, node peers and mappings were skipped. That is so however
  -- much of the first import was sent when the channel closed. The mutex is sound and SQLite answers
  -- the pragmas, BEGIN and COMMIT of both.
  pub handle_import-repeats :
      (accepts accepts' : ℕ → Bool) (env : ExportEnvelope F) (next next' : ℕ) (s : Node F)
      (m : Merge F)
      → env.format_version ≡ format_version
      → merge_envelope world env (start s.tables next) ≡ done m
      → (let after = handle_import world healthy accepts (some env) next s in
          handle_import world healthy accepts' (some env) next' after.0
          ≡ (after.0, ok_json (all_skipped env)))
  handle_import-repeats accepts accepts' env next next' s m v e =
      let version : (env.format_version == format_version) ≡ true = ground (arith, v) in
      let finished =
        Holds-done (λ m1. IsDone env (frame m1)) _ m e
          (merge_envelope-IsDone env (start s.tables next) (start-IsNamed s.tables next)) in
      let again = subst (IsDone env) (sym (frame-start m next' finished.named)) finished in
      let kept = send_jobs-tables accepts m.jobs (committed healthy s m) in
      rw (sent_after world accepts env next s m version e) (
        repeated accepts' env next' (send_jobs accepts m.jobs (committed healthy s m)).0 version
          (subst (λ db. IsDone env (frame (start db next'))) (sym kept.0) again) kept.1)
