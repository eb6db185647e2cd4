-- ===== src/Ranking/Examples.antt =====
-- src/db/ranking_config.rs and src/search: a stored configuration and a search with it. Numbers are
-- natural numbers, and a map of weights is a text.
use community_search.Base.{
  ℕ, ◌*◌, ◌≡◌, refl, none, some, List, [], ◌∷◌, map, Text, text, leb, arith,
}
use community_search.Base.Table.{Table, nat_key}
use community_search.Crawler.UrlClass.{strip_prefix}
use community_search.Peers.Fanout.{SearchResult}
use community_search.Ranking.{RankingConfig, Codec, ConfigRow, Numbers, upsert}
use community_search.Ranking.Stored.{IsStored, upsert-IsStored}
use community_search.Ranking.Search.{
  RawHit, Searcher, config_of, ranked_hit, local_search, extract_domain,
}
use community_search.Ranking.Search.Best.{IsBest, local_search-IsBest}

abbrev codec : Codec ℕ Text
codec = record {
  map_to_json = λ m. m;
  map_from_json = λ t. some t;
  config_from_json = λ t. some (record {
    collection_id = 9;
    freshness_half_life_days = 30;
    source_weights = t;
    domain_boosts = [];
  });
  ninety = 90;
  local_one = text "local";
  empty = [];
}

abbrev config : RankingConfig ℕ Text
config = record {
  collection_id = 1;
  freshness_half_life_days = 30;
  source_weights = text "w";
  domain_boosts = text "b";
}

-- The id of the payload is not the one that it is put under.
upsert-IsStored_example :
    (after : Table ℕ (ConfigRow ℕ)) × (upsert codec 4 (text "p") [] ≡ some after)
    × IsStored codec 4 4
        (record {
          collection_id = 9;
          freshness_half_life_days = 30;
          source_weights = text "p";
          domain_boosts = [];
        })
        (some (text "p"))
        []
        after
upsert-IsStored_example =
    upsert-IsStored codec 4 4 (text "p")
      (record {
        collection_id = 9;
        freshness_half_life_days = 30;
        source_weights = text "p";
        domain_boosts = [];
      })
      [] refl refl refl

abbrev num : Numbers ℕ ℕ Text
num = record {
  get_weight = λ key m. none;
  one_weight = 1;
  narrow = λ d. d;
  is_at_most_zero = λ d. leb d 0;
  one = 1;
  half_to = λ age days. 1;
  mul = λ a b. a * b;
  ge = λ a b. leb b a;
}

abbrev hit : ℕ → RawHit ℕ
hit bm25 = record {
  title = text "t";
  url = text "https://me@a.org/x";
  snippet_html = [];
  timestamp = 5;
  bm25 = bm25;
}

abbrev index : Searcher ℕ
index = record {
  search_with_snippets = λ query collection limit. some (hit 2 ∷ hit 7 ∷ hit 4 ∷ []);
  to_lowercase = λ t. t;
}

domain_of_hit : extract_domain (λ t. t) (hit 2).url ≡ text "a.org"
unfolding extract_domain strip_prefix
domain_of_hit = refl

local_search-IsBest_example :
    (results : List (SearchResult ℕ)) × (local_search codec num index (text "q") none none 2 10 []
      ≡ some results)
    × IsBest codec num index
        (λ r. leb 3 r.score)
        2
        (map (ranked_hit codec num index (config_of codec none []) 10) (hit 2 ∷ hit 7 ∷ hit 4 ∷ []))
        results
local_search-IsBest_example =
    local_search-IsBest codec num index (λ r. leb 3 r.score) (text "q") none none 2 10 []
      (hit 2 ∷ hit 7 ∷ hit 4 ∷ []) (λ a b h. ground (arith, h)) refl
