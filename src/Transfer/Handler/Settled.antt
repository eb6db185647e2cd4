-- ===== src/Transfer/Handler/Settled.antt =====
-- src/api/admin/export_import.rs: that after a merge, all that the envelope names is known.
use community_search.Base.{
  ◌≡◌, refl, sym, ap, subst, ◌∙◌, Bool, true, Holds, Holds->>=, Holds-mono, List, [], ◌∷◌, ◌++◌,
  map, All, Text, eq_text_self, if-cases, arith, Attempt,
}
use community_search.Base.Table.{next_id}
use community_search.Transfer.{ExportedCollection, CollectionRow, PeerRow}
use community_search.Transfer.Import.{
  Merge, World, any_row, contains, insert_collection, import_nested, import_collection,
  import_collections,
}
use community_search.Transfer.Handler.Framed.{Frame, frame, import_nested-IsFramed}
use mathlib.Core.List.{map-append}

pub any_row-append :
    {A : Type 0} (p : A → Bool) (xs ys : List A) → any_row p xs ≡ true → any_row p (xs ++ ys) ≡ true
unfolding any_row
any_row-append p [] ys h = cc
any_row-append p (x ∷ xs) ys h = ground (arith, h, any_row-append p xs ys)

pub any_row-snoc :
    {A : Type 0} (p : A → Bool) (xs : List A) (a : A) → p a ≡ true → any_row p (xs ++ a ∷ []) ≡ true
unfolding any_row
any_row-snoc p [] a h = ground (arith, h)
any_row-snoc p (x ∷ xs) a h = ground (arith, any_row-snoc p xs a h)

module _ {F : Type 0} where
  -- That the names and URLs known are those of the tables.
  pub record IsNamed (f : Frame F) : Type 0 where
    pub of_names : map (λ (r : CollectionRow). r.name) f.collections ≡ f.names
    pub of_urls : map (λ (r : PeerRow). r.url) f.node_peers ≡ f.urls

  -- What is known after some collections, from a frame on.
  pub record IsMet (cs : List (ExportedCollection F)) (f f' : Frame F) : Type 0 where
    pub named : IsNamed f'
    pub keeps : (n : Text) → contains f.names n ≡ true → contains f'.names n ≡ true
    pub knows : All (λ (c : ExportedCollection F). contains f'.names c.name ≡ true) cs

  module _ (world : World) where
    insert_collection-IsMet :
        (c : ExportedCollection F) (m : Merge F)
        → IsNamed (frame m)
        → IsMet (c ∷ []) (frame m) (frame (insert_collection world c m))
    unfolding insert_collection
    insert_collection-IsMet c m h = record {
      named = record {
        of_names =
            map-append _ m.tables.collections _ ∙ ap (λ names. names ++ c.name ∷ []) h.of_names;
        of_urls = h.of_urls;
      };
      keeps = λ n k. any_row-append _ m.known_collection_names _ k;
      knows = (any_row-snoc _ m.known_collection_names _ (eq_text_self c.name), _);
    }

    abbrev imported_nested : ExportedCollection F → Merge F → Attempt (Merge F)
    imported_nested c m =
        import_nested world (world.new_uuid m.next)
          (next_id (λ (r : CollectionRow). r.rowid) m.tables.collections) c
          (insert_collection world c m)

    import_collection-IsMet :
        (c : ExportedCollection F) (m : Merge F)
        → IsNamed (frame m)
        → Holds (λ m1. IsMet (c ∷ []) (frame m) (frame m1)) (import_collection world c m)
    unfolding import_collection
    import_collection-IsMet c m h =
        if-cases (λ (o : Attempt (Merge F)). Holds (λ m1. IsMet (c ∷ []) (frame m) (frame m1)) o)
          (contains m.known_collection_names c.name)
          (λ e.
            let met : IsMet (c ∷ []) (frame m) (frame m) = record {
              named = h;
              keeps = λ n k. k;
              knows = (e, _);
            } in
            met)
          (λ _.
            Holds-mono (λ m1. frame m1 ≡ frame (insert_collection world c m))
              (λ m1. IsMet (c ∷ []) (frame m) (frame m1)) (imported_nested c m)
              (λ m1 e. subst (IsMet (c ∷ []) (frame m)) (sym e) (insert_collection-IsMet c m h))
              (import_nested-IsFramed world (frame (insert_collection world c m)) _ _ c _ refl))

    pub import_collections-IsMet :
        (cs : List (ExportedCollection F)) (m : Merge F)
        → IsNamed (frame m)
        → Holds (λ m1. IsMet cs (frame m) (frame m1)) (import_collections world cs m)
    unfolding import_collections
    import_collections-IsMet [] m h = record { named = h; keeps = λ n k. k; knows = _ }
    import_collections-IsMet (c ∷ cs) m h =
        Holds->>= (λ m1. IsMet (c ∷ []) (frame m) (frame m1))
          (λ m2. IsMet (c ∷ cs) (frame m) (frame m2)) _ _ (import_collection-IsMet c m h)
          (λ m1 h1.
            Holds-mono (λ m2. IsMet cs (frame m1) (frame m2))
              (λ m2. IsMet (c ∷ cs) (frame m) (frame m2)) (import_collections world cs m1)
              (λ m2 h2. record {
                named = h2.named;
                keeps = λ n k. h2.keeps n (h1.keeps n k);
                knows = (h2.keeps c.name h1.knows.0, h2.knows);
              })
              (import_collections-IsMet cs m1 h1.named))
