-- ===== src/Transfer/Handler/Mapped.antt =====
-- src/api/admin/export_import.rs: that after a merge, all node peers of the envelope are known, and
-- all its mappings are in the table or lack a parent.
use community_search.Base.{
  ℕ, ◌≡◌, refl, sym, ap, subst, ◌∙◌, ◌⊎◌, inl, inr, true, not, ◌||◌, some, Holds, Holds->>=,
  Holds-mono, List, [], ◌∷◌, ◌++◌, All, Text, eq_text_self, if-cases, some-cases, arith, Attempt,
}
use community_search.Transfer.{ExportedNodePeer, ExportedCollectionPeer, CollectionPeerRow}
use community_search.Transfer.Import.{Merge, World, contains, import_node_peer, import_node_peers}
use community_search.Transfer.Handler.{
  node_peer_id, is_mapped, lacks_parent, insert_collection_peer, import_collection_peer,
  import_collection_peers,
}
use community_search.Transfer.Handler.Framed.{Frame, frame}
use community_search.Transfer.Handler.Settled.{any_row-append, any_row-snoc, IsNamed}
use mathlib.Core.List.{append-nil, append_assoc, map-append}

module _ {F : Type 0} where
  -- What is known after some node peers, from a frame on.
  pub record IsLinked (ps : List ExportedNodePeer) (f f' : Frame F) : Type 0 where
    pub named : IsNamed f'
    pub same_names : f'.names ≡ f.names
    pub keeps : (url : Text) → contains f.urls url ≡ true → contains f'.urls url ≡ true
    pub knows : All (λ (p : ExportedNodePeer). contains f'.urls p.url ≡ true) ps

  -- A mapping that another merge skips: it lacks a parent, or is in the table.
  abbrev pub IsSettled : Frame F → ExportedCollectionPeer F → Type 0
  IsSettled f cp =
      ((not (contains f.names cp.local_collection) || not (contains f.urls cp.node_peer_url))
        ≡ true)
      ⊎ ((id : ℕ) × (node_peer_id f.node_peers cp.node_peer_url ≡ some id)
          × (is_mapped cp id f.mappings ≡ true))

  -- The frame after some mappings: only their table has grown.
  pub record IsSettling (cps : List (ExportedCollectionPeer F)) (f f' : Frame F) : Type 0 where
    pub grows :
        (rest : List (CollectionPeerRow F)) × (f' ≡ record f { mappings = f.mappings ++ rest })
    pub settled : All (IsSettled f') cps

  module _ (world : World) where
    import_node_peer-IsLinked :
        (p : ExportedNodePeer) (m : Merge F)
        → IsNamed (frame m)
        → IsLinked (p ∷ []) (frame m) (frame (import_node_peer world p m))
    unfolding import_node_peer
    import_node_peer-IsLinked p m h =
        if-cases (λ (m1 : Merge F). IsLinked (p ∷ []) (frame m) (frame m1))
          (contains m.known_peer_urls p.url)
          (λ e.
            let linked : IsLinked (p ∷ []) (frame m) (frame m) = record {
              named = h;
              same_names = refl;
              keeps = λ n k. k;
              knows = (e, _);
            } in
            linked)
          (λ _. record {
            named = record {
              of_names = h.of_names;
              of_urls =
                  map-append _ m.tables.node_peers _ ∙ ap (λ urls. urls ++ p.url ∷ []) h.of_urls;
            };
            same_names = refl;
            keeps = λ n k. any_row-append _ m.known_peer_urls _ k;
            knows = (any_row-snoc _ m.known_peer_urls _ (eq_text_self p.url), _);
          })

    pub import_node_peers-IsLinked :
        (ps : List ExportedNodePeer) (m : Merge F)
        → IsNamed (frame m)
        → IsLinked ps (frame m) (frame (import_node_peers world ps m))
    unfolding import_node_peers
    import_node_peers-IsLinked [] m h = record {
      named = h;
      same_names = refl;
      keeps = λ n k. k;
      knows = _;
    }
    import_node_peers-IsLinked (p ∷ ps) m h =
        let h1 = import_node_peer-IsLinked p m h in
        let h2 = import_node_peers-IsLinked ps (import_node_peer world p m) h1.named in
        record {
          named = h2.named;
          same_names = h2.same_names ∙ h1.same_names;
          keeps = λ n k. h2.keeps n (h1.keeps n k);
          knows = (h2.keeps p.url h1.knows.0, h2.knows);
        }

    skip-IsSettling :
        (cp : ExportedCollectionPeer F) (f : Frame F) → IsSettled f cp → IsSettling (cp ∷ []) f f
    skip-IsSettling cp f h = record {
      grows = ([], ap (λ rows. record f { mappings = rows }) (sym (append-nil f.mappings)));
      settled = (h, _);
    }

    insert_collection_peer-IsSettling :
        (cp : ExportedCollectionPeer F) (id : ℕ) (m : Merge F)
        → node_peer_id m.tables.node_peers cp.node_peer_url ≡ some id
        → IsSettling (cp ∷ []) (frame m) (frame (insert_collection_peer world cp id m))
    unfolding insert_collection_peer
    insert_collection_peer-IsSettling cp id m h =
        if-cases (λ (m1 : Merge F). IsSettling (cp ∷ []) (frame m) (frame m1))
          (is_mapped cp id m.tables.collection_peers)
          (λ e. skip-IsSettling cp (frame m) (inr (id, h, e)))
          (λ _. record {
            grows = (_ ∷ [], refl);
            settled = (
              inr (
                id,
                h,
                any_row-snoc _ m.tables.collection_peers _ (
                    ground
                      (arith, eq_text_self cp.local_collection, eq_text_self cp.remote_collection)),
              ),
              _,
            );
          })

    import_collection_peer-IsSettling :
        (cp : ExportedCollectionPeer F) (m : Merge F)
        → Holds
            (λ m1. IsSettling (cp ∷ []) (frame m) (frame m1))
            (import_collection_peer world cp m)
    unfolding import_collection_peer
    import_collection_peer-IsSettling cp m =
        if-cases
          (λ (o : Attempt (Merge F)). Holds (λ m1. IsSettling (cp ∷ []) (frame m) (frame m1)) o)
          (lacks_parent cp m) (λ e. skip-IsSettling cp (frame m) (inl e))
          (λ _.
            some-cases
              (λ (o : Attempt (Merge F)). Holds (λ m1. IsSettling (cp ∷ []) (frame m) (frame m1)) o)
              (node_peer_id m.tables.node_peers cp.node_peer_url) (λ _. _)
              (λ id e. insert_collection_peer-IsSettling cp id m e))

  -- A settled mapping stays so while the table grows.
  IsSettled-grows :
      (cp : ExportedCollectionPeer F) (f : Frame F) (rest : List (CollectionPeerRow F))
      → IsSettled f cp
      → IsSettled (record f { mappings = f.mappings ++ rest }) cp
  IsSettled-grows cp f rest (inl e) = inl e
  IsSettled-grows cp f rest (inr (id, e, k)) = inr (id, e, any_row-append _ f.mappings rest k)

  IsSettling-chain :
      (cp : ExportedCollectionPeer F) (cps : List (ExportedCollectionPeer F)) (f g k : Frame F)
      → IsSettling (cp ∷ []) f g
      → IsSettling cps g k
      → IsSettling (cp ∷ cps) f k
  IsSettling-chain cp cps f g k h j = record {
    grows = (
      h.grows.0 ++ j.grows.0,
      j.grows.1
          ∙ ap (λ (t : Frame F). record t { mappings = t.mappings ++ j.grows.0 }) h.grows.1
          ∙ ap (λ rows. record f { mappings = rows }) (append_assoc f.mappings h.grows.0 j.grows.0),
    );
    settled = (
      subst (λ t. IsSettled t cp) (sym j.grows.1) (IsSettled-grows cp g j.grows.0 h.settled.0),
      j.settled,
    );
  }

  pub import_collection_peers-IsSettling :
      (world : World) (cps : List (ExportedCollectionPeer F)) (m : Merge F)
      → Holds (λ m1. IsSettling cps (frame m) (frame m1)) (import_collection_peers world cps m)
  unfolding import_collection_peers
  import_collection_peers-IsSettling world [] m = record {
    grows = (
      [],
      ap (λ rows. record (frame m) { mappings = rows })
          (sym (append-nil m.tables.collection_peers)),
    );
    settled = _;
  }
  import_collection_peers-IsSettling world (cp ∷ cps) m =
      Holds->>= (λ m1. IsSettling (cp ∷ []) (frame m) (frame m1))
        (λ m2. IsSettling (cp ∷ cps) (frame m) (frame m2)) _ _
        (import_collection_peer-IsSettling world cp m)
        (λ m1 h1.
          Holds-mono (λ m2. IsSettling cps (frame m1) (frame m2))
            (λ m2. IsSettling (cp ∷ cps) (frame m) (frame m2))
            (import_collection_peers world cps m1)
            (λ m2 h2. IsSettling-chain cp cps (frame m) (frame m1) (frame m2) h1 h2)
            (import_collection_peers-IsSettling world cps m1))
