-- ===== src/Ranking.antt =====
-- src/db/ranking_config.rs and src/search/ranking.rs: the ranking configuration of a collection, its
-- table, and the score of a document.
--
-- `D` is f64, `F` is f32, and `M` a map from texts to f64. Their operations, and the JSON of serde, are
-- parameters. Foreign keys on the table are taken not to be enforced, as `upsert` arranges; SQLite is
-- taken to answer.
pub mod Stored
pub mod Search
mod Examples
use community_search.Base.{ℕ, ◌-◌, Bool, Option, none, some, Text, text, if◌then◌else◌}
use community_search.Base.Table.{Table, lookup, insert, nat_key}

pub record RankingConfig (D M : Type 0) : Type 0 where
  pub collection_id : ℕ
  pub freshness_half_life_days : D
  pub source_weights : M
  pub domain_boosts : M

-- The JSON of maps and of configurations, and the default values.
pub record Codec (D M : Type 0) : Type 0 where
  pub map_to_json : M → Text
  pub map_from_json : Text → Option M
  pub config_from_json : Text → Option (RankingConfig D M)
  pub ninety : D
  pub local_one : M
  pub empty : M

-- A row of `ranking_config`; its key is `collection_id`.
pub record ConfigRow (D : Type 0) : Type 0 where
  pub freshness_half_life_days : D
  pub source_weights_json : Text
  pub domain_boosts_json : Text
  pub config_json : Option Text

abbrev unwrap_or : {A : Type 0} → A → Option A → A
unwrap_or a none = a
unwrap_or a (some b) = b

abbrev config_json_of : {D : Type 0} → Option (ConfigRow D) → Option Text
config_json_of none = none
config_json_of (some row) = row.config_json

module _ {D M : Type 0} (codec : Codec D M) where
  abbrev pub default_for : ℕ → RankingConfig D M
  default_for collection_id = record {
    collection_id = collection_id;
    freshness_half_life_days = codec.ninety;
    source_weights = codec.local_one;
    domain_boosts = codec.empty;
  }

  abbrev pub from_row : ℕ → Option (ConfigRow D) → RankingConfig D M
  from_row collection_id none = default_for collection_id
  from_row collection_id (some row) = record {
    collection_id = collection_id;
    freshness_half_life_days = row.freshness_half_life_days;
    source_weights = unwrap_or codec.empty (codec.map_from_json row.source_weights_json);
    domain_boosts = unwrap_or codec.empty (codec.map_from_json row.domain_boosts_json);
  }

  unfoldable pub load : ℕ → Table ℕ (ConfigRow D) → RankingConfig D M
  load collection_id t = from_row collection_id (lookup collection_id t)

  abbrev pub row_of : RankingConfig D M → Option Text → ConfigRow D
  row_of cfg config_json = record {
    freshness_half_life_days = cfg.freshness_half_life_days;
    source_weights_json = codec.map_to_json cfg.source_weights;
    domain_boosts_json = codec.map_to_json cfg.domain_boosts;
    config_json = config_json;
  }

  -- The blob of a row that is there already is kept.
  unfoldable pub save : RankingConfig D M → Table ℕ (ConfigRow D) → Table ℕ (ConfigRow D)
  save cfg t = insert cfg.collection_id (row_of cfg (config_json_of (lookup cfg.collection_id t))) t

  -- `none`: the payload is no configuration.
  unfoldable pub upsert : ℕ → Text → Table ℕ (ConfigRow D) → Option (Table ℕ (ConfigRow D))
  upsert collection_id payload_json t = elim (codec.config_from_json payload_json) [
    | none ↦ none
    | some cfg ↦ some (insert collection_id (row_of cfg (some payload_json)) t)
  ]

unfoldable pub get : {D : Type 0} → ℕ → Table ℕ (ConfigRow D) → Option Text
get collection_id t = config_json_of (lookup collection_id t)

-- The operations of the numbers.
pub record Numbers (D F M : Type 0) : Type 0 where
  pub get_weight : Text → M → Option D
  pub one_weight : D
  pub narrow : D → F
  pub is_at_most_zero : D → Bool
  pub one : F
  pub half_to : ℕ → D → F
  pub mul : F → F → F
  pub ge : F → F → Bool

pub record ScoreInputs (F : Type 0) : Type 0 where
  pub base_relevance : F
  pub source : Text
  pub domain : Text
  pub doc_timestamp_secs : ℕ
  pub now_secs : ℕ

module _ {D F M : Type 0} (num : Numbers D F M) where
  -- A document of the future has age 0.
  unfoldable pub freshness_factor : ℕ → ℕ → D → F
  freshness_factor doc_ts now half_life_days =
      if num.is_at_most_zero half_life_days
      then num.one
      else num.half_to (now - doc_ts) half_life_days

  abbrev weight_of : Text → M → F
  weight_of key m = num.narrow (unwrap_or num.one_weight (num.get_weight key m))

  unfoldable pub score : ScoreInputs F → RankingConfig D M → F
  score inputs cfg =
      let source_weight = weight_of inputs.source cfg.source_weights in
      let domain_boost = weight_of inputs.domain cfg.domain_boosts in
      let freshness =
        freshness_factor inputs.doc_timestamp_secs inputs.now_secs cfg.freshness_half_life_days in
      num.mul (num.mul (num.mul inputs.base_relevance source_weight) freshness) domain_boost
