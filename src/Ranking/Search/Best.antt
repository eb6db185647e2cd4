-- ===== src/Ranking/Search/Best.antt =====
-- src/search/service.rs: that the results are the best of what the index finds.
use community_search.Base.{
  ℕ, ◌*◌, ◌≡◌, refl, sym, subst, ap, ◌∙◌, Bool, true, false, Option, some, List, [], ◌∷◌, ◌++◌, suc,
  map, length, min, take, drop, take-append-drop, length-take, count_if, Text,
}
use community_search.Base.Table.{Table}
use community_search.Peers.Fanout.{SearchResult}
use community_search.Peers.Search.{sort_by_score}
use community_search.Peers.Search.Same.{count_if-sort, sort-IsRanked, IsRanked}
use community_search.Ranking.{Codec, ConfigRow, Numbers}
use community_search.Ranking.Search.{RawHit, Searcher, config_of, ranked_hit, best_of, local_search}

count_all : {A : Type 0} (xs : List A) → count_if (λ x. true) xs ≡ length xs
count_all [] = refl
count_all (x ∷ xs) = ap suc (count_all xs)

module _ {D F M : Type 0} (codec : Codec D M) (num : Numbers D F M) (index : Searcher F) where
  -- That results are the best of some scored hits: `others` are those left out, and as many of all of
  -- them as of the hits pass a test.
  pub record IsBest (q : SearchResult F → Bool) (limit : ℕ) (scored results : List (SearchResult F))
      : Type 0 where
    pub others : List (SearchResult F)
    pub same : count_if q (results ++ others) ≡ count_if q scored
    pub ranked : IsRanked num.ge (results ++ others)
    pub bounded : length results ≡ min limit (length scored)

  -- A local search that the index answers gives as many results as there are hits, up to the limit.
  -- They are the hits with their scores under the configuration of the collection, each score at least
  -- the next, and the hits that are left out follow in that order, where of two scores one is at least
  -- the other. The index is asked for four times the limit.
  pub local_search-IsBest :
      (q : SearchResult F → Bool) (query : Text) (collection : Option Text)
      (collection_id : Option ℕ) (limit now : ℕ) (t : Table ℕ (ConfigRow D))
      (hits : List (RawHit F))
      → ((a b : F) → num.ge a b ≡ false → num.ge b a ≡ true)
      → index.search_with_snippets query collection (limit * 4) ≡ some hits
      → (results : List (SearchResult F)) × (local_search codec num index query collection
            collection_id limit now t
          ≡ some results)
        × IsBest q limit
            (map (ranked_hit codec num index (config_of codec collection_id t) now) hits)
            results
  unfolding local_search best_of
  local_search-IsBest q query collection collection_id limit now t hits total e =
      let scored = map (ranked_hit codec num index (config_of codec collection_id t) now) hits in
      let sorted = sort_by_score num.ge scored in
      (
        take limit sorted,
        ap (best_of codec num index (config_of codec collection_id t) limit now) e,
        record {
          others = drop limit sorted;
          same = ap (count_if q) (take-append-drop limit sorted) ∙ count_if-sort q num.ge scored;
          ranked =
              subst (IsRanked num.ge) (sym (take-append-drop limit sorted))
                (sort-IsRanked num.ge scored total);
          bounded =
              length-take limit sorted
              ∙ ap (min limit) (
                  sym (count_all sorted)
                  ∙ count_if-sort (λ r. true) num.ge scored
                  ∙ count_all scored);
        },
      )
