-- ===== src/Transfer/Handler/Tally.antt =====
-- src/api/admin/export_import.rs: that each step of the merge keeps the count of what it met.
use community_search.Base.{
  ℕ, ◌+◌, ◌≡◌, refl, subst, ◌>>=◌, Holds, Holds->>=, List, [], ◌∷◌, length, if-cases, some-cases,
  arith, Attempt,
}
use community_search.Transfer.{
  ExportedNodePeer, ExportedCollection, ExportedCollectionPeer, ExportEnvelope, Tables,
}
use community_search.Transfer.Import.{
  Merge, World, insert_collection, import_collection, import_collections, import_node_peer,
  import_node_peers, contains,
}
use community_search.Transfer.Handler.{
  is_mapped, lacks_parent, node_peer_id, insert_collection_peer, import_collection_peer,
  import_collection_peers, start, merge_envelope,
}
use community_search.Transfer.Handler.Counted.{
  Grows-self, Counted-snoc, Counted-skip, IsCounted, import_nested-IsCounted,
}

succ_length : {A : Type 0} (x : A) (a : ℕ) (xs : List A) → a + 1 + length xs ≡ a + length (x ∷ xs)
succ_length x a xs = omega arith

start-IsCounted : {F : Type 0} (db : Tables F) (next : ℕ) → IsCounted db 0 0 0 (start db next)
unfolding start
start-IsCounted db next = record {
  of_collections = (Grows-self db.collections, refl);
  of_peers = (Grows-self db.node_peers, refl);
  of_mappings = (Grows-self db.collection_peers, refl);
  nested = record {
    of_targets = Grows-self db.crawl_targets;
    of_pages = Grows-self db.crawled_pages;
    of_configs = (0, Grows-self db.ranking_config);
    of_hosts = Grows-self db.outlink_hosts;
    of_jobs = refl;
  };
}

module _ {F : Type 0} (world : World) (db : Tables F) where
  import_collection-IsCounted :
      (a b c : ℕ) (e : ExportedCollection F) (m : Merge F)
      → IsCounted db a b c m
      → Holds (IsCounted db (a + 1) b c) (import_collection world e m)
  unfolding import_collection insert_collection
  import_collection-IsCounted a b c e m h =
      if-cases (λ (o : Attempt (Merge F)). Holds (IsCounted db (a + 1) b c) o)
        (contains m.known_collection_names e.name)
        (λ _.
          let counted : IsCounted db (a + 1) b c _ = record {
            of_collections = Counted-skip _ _ _ _ _ h.of_collections;
            of_peers = h.of_peers;
            of_mappings = h.of_mappings;
            nested = h.nested;
          } in
          counted)
        (λ _. import_nested-IsCounted world db (a + 1) b c _ _ e _ (record {
          of_collections = Counted-snoc _ _ _ _ _ _ h.of_collections;
          of_peers = h.of_peers;
          of_mappings = h.of_mappings;
          nested = h.nested;
        }))

  import_collections-IsCounted :
      (a b c : ℕ) (es : List (ExportedCollection F)) (m : Merge F)
      → IsCounted db a b c m
      → Holds (IsCounted db (a + length es) b c) (import_collections world es m)
  unfolding import_collections
  import_collections-IsCounted a b c [] m h = subst (λ n. IsCounted db n b c m) (omega arith) h
  import_collections-IsCounted a b c (e ∷ es) m h =
      subst
        (λ n.
          Holds (IsCounted db n b c) (import_collection world e m >>= import_collections world es))
        (succ_length e a es)
        (Holds->>= (IsCounted db (a + 1) b c) (IsCounted db (a + 1 + length es) b c) _ _
          (import_collection-IsCounted a b c e m h) (import_collections-IsCounted (a + 1) b c es))

  import_node_peer-IsCounted :
      (a b c : ℕ) (p : ExportedNodePeer) (m : Merge F)
      → IsCounted db a b c m
      → IsCounted db a (b + 1) c (import_node_peer world p m)
  unfolding import_node_peer
  import_node_peer-IsCounted a b c p m h =
      if-cases (λ (o : Merge F). IsCounted db a (b + 1) c o) (contains m.known_peer_urls p.url)
        (λ _.
          let counted : IsCounted db a (b + 1) c _ = record {
            of_collections = h.of_collections;
            of_peers = Counted-skip _ _ _ _ _ h.of_peers;
            of_mappings = h.of_mappings;
            nested = h.nested;
          } in
          counted)
        (λ _.
          let counted : IsCounted db a (b + 1) c _ = record {
            of_collections = h.of_collections;
            of_peers = Counted-snoc _ _ _ _ _ _ h.of_peers;
            of_mappings = h.of_mappings;
            nested = h.nested;
          } in
          counted)

  import_node_peers-IsCounted :
      (a b c : ℕ) (ps : List ExportedNodePeer) (m : Merge F)
      → IsCounted db a b c m
      → IsCounted db a (b + length ps) c (import_node_peers world ps m)
  unfolding import_node_peers
  import_node_peers-IsCounted a b c [] m h = subst (λ n. IsCounted db a n c m) (omega arith) h
  import_node_peers-IsCounted a b c (p ∷ ps) m h =
      subst (λ n. IsCounted db a n c (import_node_peers world ps (import_node_peer world p m)))
        (succ_length p b ps)
        (import_node_peers-IsCounted a (b + 1) c ps _ (import_node_peer-IsCounted a b c p m h))

  skip-IsCounted :
      (a b c : ℕ) (m : Merge F)
      → IsCounted db a b c m
      → IsCounted db a b (c + 1) (
          let counts = m.report in
          record m {
            report = record counts {
              collection_peers_skipped = counts.collection_peers_skipped + 1;
            };
          })
  skip-IsCounted a b c m h = record {
    of_collections = h.of_collections;
    of_peers = h.of_peers;
    of_mappings = Counted-skip _ _ _ _ _ h.of_mappings;
    nested = h.nested;
  }

  insert_collection_peer-IsCounted :
      (a b c : ℕ) (cp : ExportedCollectionPeer F) (id : ℕ) (m : Merge F)
      → IsCounted db a b c m
      → IsCounted db a b (c + 1) (insert_collection_peer world cp id m)
  unfolding insert_collection_peer
  insert_collection_peer-IsCounted a b c cp id m h =
      if-cases (λ (o : Merge F). IsCounted db a b (c + 1) o)
        (is_mapped cp id m.tables.collection_peers) (λ _. skip-IsCounted a b c m h)
        (λ _.
          let counted : IsCounted db a b (c + 1) _ = record {
            of_collections = h.of_collections;
            of_peers = h.of_peers;
            of_mappings = Counted-snoc _ _ _ _ _ _ h.of_mappings;
            nested = h.nested;
          } in
          counted)

  import_collection_peer-IsCounted :
      (a b c : ℕ) (cp : ExportedCollectionPeer F) (m : Merge F)
      → IsCounted db a b c m
      → Holds (IsCounted db a b (c + 1)) (import_collection_peer world cp m)
  unfolding import_collection_peer
  import_collection_peer-IsCounted a b c cp m h =
      if-cases (λ (o : Attempt (Merge F)). Holds (IsCounted db a b (c + 1)) o) (lacks_parent cp m)
        (λ _. skip-IsCounted a b c m h)
        (λ _.
          some-cases (λ (o : Attempt (Merge F)). Holds (IsCounted db a b (c + 1)) o)
            (node_peer_id m.tables.node_peers cp.node_peer_url) (λ _. _)
            (λ id _. insert_collection_peer-IsCounted a b c cp id m h))

  import_collection_peers-IsCounted :
      (a b c : ℕ) (cps : List (ExportedCollectionPeer F)) (m : Merge F)
      → IsCounted db a b c m
      → Holds (IsCounted db a b (c + length cps)) (import_collection_peers world cps m)
  unfolding import_collection_peers
  import_collection_peers-IsCounted a b c [] m h = subst (λ n. IsCounted db a b n m) (omega arith) h
  import_collection_peers-IsCounted a b c (p ∷ ps) m h =
      subst
        (λ n.
          Holds (IsCounted db a b n)
            (import_collection_peer world p m >>= import_collection_peers world ps))
        (succ_length p c ps)
        (Holds->>= (IsCounted db a b (c + 1)) (IsCounted db a b (c + 1 + length ps)) _ _
          (import_collection_peer-IsCounted a b c p m h)
          (import_collection_peers-IsCounted a b (c + 1) ps))

  pub merge_envelope-IsCounted :
      (env : ExportEnvelope F) (next : ℕ)
      → Holds
          (IsCounted db
            (0 + length env.collections)
            (0 + length env.node_peers)
            (0 + length env.collection_peers))
          (merge_envelope world env (start db next))
  unfolding merge_envelope
  merge_envelope-IsCounted env next =
      Holds->>= (IsCounted db (0 + length env.collections) 0 0)
        (IsCounted db (0 + length env.collections) (0 + length env.node_peers)
          (0 + length env.collection_peers))
        _ _ (import_collections-IsCounted 0 0 0 env.collections _ (start-IsCounted db next))
        (λ m h.
          import_collection_peers-IsCounted (0 + length env.collections) (0 + length env.node_peers)
            0 env.collection_peers _
            (import_node_peers-IsCounted (0 + length env.collections) 0 0 env.node_peers m h))
