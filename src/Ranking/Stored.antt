-- ===== src/Ranking/Stored.antt =====
-- src/db/ranking_config.rs: that a configuration that is stored is read back.
use community_search.Base.{ℕ, ◌==◌, ◌≡◌, Bool-cases, inl, inr, Option, some, Text, if◌then◌else◌}
use community_search.Base.Table.{Table, insert, lookup-insert, nat_key}
use community_search.Ranking.{
  RankingConfig, Codec, ConfigRow, from_row, load, row_of, save, upsert, get,
}

module _ {D M : Type 0} (codec : Codec D M) where
  -- A row that was made of a configuration.
  from_row-row_of :
      (id : ℕ) (cfg : RankingConfig D M) (blob : Option Text)
      → (codec.map_from_json (codec.map_to_json cfg.source_weights) ≡ some cfg.source_weights)
      → (codec.map_from_json (codec.map_to_json cfg.domain_boosts) ≡ some cfg.domain_boosts)
      → from_row codec id (some (row_of codec cfg blob)) ≡ record cfg { collection_id = id }
  from_row-row_of id cfg blob weights boosts = rw (weights, boosts)

  -- What is read of a collection, when a configuration was written for `id`: its configuration and its
  -- blob. Those of other collections are the ones before.
  pub record IsStored (id other : ℕ) (cfg : RankingConfig D M) (blob : Option Text)
      (before after : Table ℕ (ConfigRow D)) : Type 0 where
    pub loads :
        load codec other after
        ≡ (if id == other then record cfg { collection_id = other } else load codec other before)
    pub gets : get other after ≡ (if id == other then blob else get other before)

  insert-IsStored :
      (id other : ℕ) (cfg : RankingConfig D M) (blob : Option Text) (t : Table ℕ (ConfigRow D))
      → (codec.map_from_json (codec.map_to_json cfg.source_weights) ≡ some cfg.source_weights)
      → (codec.map_from_json (codec.map_to_json cfg.domain_boosts) ≡ some cfg.domain_boosts)
      → IsStored id other cfg blob t (insert id (row_of codec cfg blob) t)
  unfolding load get
  insert-IsStored id other cfg blob t weights boosts =
      let found = lookup-insert id other (row_of codec cfg blob) t in
      elim (Bool-cases (id == other)) [
        | inl e ↦ record {
          loads = rw (found, e) (from_row-row_of other cfg blob weights boosts);
          gets = rw (found, e);
        }
        | inr e ↦ record { loads = rw (found, e); gets = rw (found, e) }
      ]

  -- A configuration that is saved is loaded again as it was, and the blob of the collection and all
  -- that is read of the others stay, where the JSON of its two maps reads back as them.
  pub save-IsStored :
      (cfg : RankingConfig D M) (other : ℕ) (t : Table ℕ (ConfigRow D))
      → (codec.map_from_json (codec.map_to_json cfg.source_weights) ≡ some cfg.source_weights)
      → (codec.map_from_json (codec.map_to_json cfg.domain_boosts) ≡ some cfg.domain_boosts)
      → IsStored cfg.collection_id other cfg (get cfg.collection_id t) t (save codec cfg t)
  unfolding save get
  save-IsStored cfg other t weights boosts =
      insert-IsStored cfg.collection_id other cfg _ t weights boosts

  -- A payload that is a configuration is accepted: it is got again word for word, `load` of the id that
  -- it was put under gives the configuration that it is, with that id, and what is read of other
  -- collections stays. The JSON of the configuration's own two maps reads back as them.
  pub upsert-IsStored :
      (id other : ℕ) (payload : Text) (cfg : RankingConfig D M) (t : Table ℕ (ConfigRow D))
      → (codec.map_from_json (codec.map_to_json cfg.source_weights) ≡ some cfg.source_weights)
      → (codec.map_from_json (codec.map_to_json cfg.domain_boosts) ≡ some cfg.domain_boosts)
      → codec.config_from_json payload ≡ some cfg
      → (after : Table ℕ (ConfigRow D)) × (upsert codec id payload t ≡ some after)
        × IsStored id other cfg (some payload) t after
  unfolding upsert
  upsert-IsStored id other payload cfg t weights boosts e = (
    insert id (row_of codec cfg (some payload)) t,
    rw (upsert, e),
    insert-IsStored id other cfg _ t weights boosts,
  )
