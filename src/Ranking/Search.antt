-- ===== src/Ranking/Search.antt =====
-- src/search/service.rs: `local_search`, the query, the scores and the best results.
--
-- The searcher over the index, and `to_lowercase`, are parameters; `none` is an error of the searcher.
pub mod Best
use community_search.Base.{
  ℕ, ◌*◌, ◌==◌, Bool, Option, none, some, List, [], ◌∷◌, map, Text, text, take, drop, if◌then◌else◌,
}
use community_search.Base.Table.{Table}
use community_search.Crawler.UrlClass.{starts_with}
use community_search.Peers.Fanout.{SearchResult}
use community_search.Peers.Search.{sort_by_score}
use community_search.Ranking.{RankingConfig, Codec, ConfigRow, default_for, load, Numbers, score}

pub record RawHit (F : Type 0) : Type 0 where
  pub title : Text
  pub url : Text
  pub snippet_html : Text
  pub timestamp : ℕ
  pub bm25 : F

pub record Searcher (F : Type 0) : Type 0 where
  pub search_with_snippets : Text → Option Text → ℕ → Option (List (RawHit F))
  pub to_lowercase : Text → Text

-- The rest after the first "://", or all.
abbrev after_marker : Text → Option Text
after_marker [] = none
after_marker (c ∷ s) =
    let rest = after_marker s in
    if starts_with (c ∷ s) (text "://") then some (drop 3 (c ∷ s)) else rest

abbrev or_all : Text → Option Text → Text
or_all url none = url
or_all url (some rest) = rest

-- Up to the first slash.
abbrev before_slash : Text → Text
before_slash [] = []
before_slash (c ∷ s) = let rest = before_slash s in if c == 47 then [] else c ∷ rest

-- After the last `@`, if there is one.
abbrev or_after_at : ℕ → Text → Option Text → Option Text
or_after_at c s (some rest) = some rest
or_after_at c s none = if c == 64 then some s else none

abbrev after_at : Text → Option Text
after_at [] = none
after_at (c ∷ s) = or_after_at c s (after_at s)

unfoldable pub extract_domain : (Text → Text) → Text → Text
extract_domain to_lowercase url =
    let host_and_port = before_slash (or_all url (after_marker url)) in
    to_lowercase (or_all host_and_port (after_at host_and_port))

-- The configuration of the collection, or the default one.
abbrev pub config_of :
    {D M : Type 0} → Codec D M → Option ℕ → Table ℕ (ConfigRow D) → RankingConfig D M
config_of codec none t = default_for codec 0
config_of codec (some id) t = load codec id t

module _ {D F M : Type 0} (codec : Codec D M) (num : Numbers D F M) (index : Searcher F) where
  abbrev pub ranked_hit : RankingConfig D M → ℕ → RawHit F → SearchResult F
  ranked_hit cfg now h = record {
    title = h.title;
    url = h.url;
    snippet_html = h.snippet_html;
    source = text "local";
    timestamp = h.timestamp;
    score =
        score num
          (record {
            base_relevance = h.bm25;
            source = text "local";
            domain = extract_domain index.to_lowercase h.url;
            doc_timestamp_secs = h.timestamp;
            now_secs = now;
          })
          cfg;
  }

  unfoldable pub best_of :
      RankingConfig D M → ℕ → ℕ → Option (List (RawHit F)) → Option (List (SearchResult F))
  best_of cfg limit now none = none
  best_of cfg limit now (some hits) =
      some (take limit (sort_by_score num.ge (map (ranked_hit cfg now) hits)))

  unfoldable pub local_search :
      Text → Option Text → Option ℕ → ℕ → ℕ → Table ℕ (ConfigRow D) → Option (List (SearchResult F))
  local_search query collection collection_id limit now t =
      best_of (config_of codec collection_id t) limit now
        (index.search_with_snippets query collection (limit * 4))
