-- ===== src/Crawler/Outlinks.antt =====
-- src/db/outlink_hosts.rs: the hosts that the pages of a collection link to.
--
-- The table has one row for each pair of a collection and a host. serde_json is a parameter, as are
-- the readings of SQLite; a row's UUID is left out, since nothing reads it.
pub mod Hits
pub mod Cap
pub mod Pending
pub mod Examples
use community_search.Base.{
  ℕ, ◌+◌, max, Bool, true, false, ◌&&◌, ◌||◌, Option, none, some, List, [], ◌∷◌, ◌++◌, Text, text,
  eq_text, leb, ◌==◌, length, if◌then◌else◌,
}
use community_search.Base.Table.{Table, lookup, insert, text_pair_key}

-- MAX_EXAMPLES
abbrev pub max_examples : ℕ
max_examples = 5

pub record OutlinkExample : Type 0 where
  pub source_url : Text
  pub target_url : Text
  pub link_text : Text

-- What serde_json does with a list of examples; printing may fail.
pub record ExamplesJson : Type 0 where
  pub from_str : Text → Option (List OutlinkExample)
  pub to_string : List OutlinkExample → Option Text

-- The column `status`.
pub data Status : Type 0 where
  pending promoted dismissed : Status

-- A row of `outlink_host_suggestions`.
pub record Row : Type 0 where
  pub rowid : ℕ
  pub link_count : ℕ
  pub examples_json : Text
  pub first_seen_at : ℕ
  pub last_seen_at : ℕ
  pub status : Status
  pub promoted_target_id : Option ℕ

abbrev pub HostsTable : Type 0
HostsTable = Table (Text × Text) Row

-- The rowid that SQLite gives to a new row: one more than the largest.
unfoldable pub next_rowid : HostsTable → ℕ
next_rowid [] = 1
next_rowid ((k, r) ∷ t) = max (r.rowid + 1) (next_rowid t)

abbrev pub or_empty : Option (List OutlinkExample) → List OutlinkExample
or_empty none = []
or_empty (some examples) = examples

unfoldable pub is_known_example : OutlinkExample → List OutlinkExample → Bool
is_known_example new [] = false
is_known_example new (e ∷ es) =
    eq_text e.source_url new.source_url && eq_text e.target_url new.target_url
    || is_known_example new es

module _ (json : ExamplesJson) where
  unfoldable pub merge_example : Text → OutlinkExample → Text
  merge_example existing_json new =
      let examples = or_empty (json.from_str existing_json) in
      if leb max_examples (length examples)
      then existing_json
      else if is_known_example new examples
      then existing_json
      else elim (json.to_string (examples ++ new ∷ [])) [
        | none ↦ existing_json
        | some merged ↦ merged
      ]

  abbrev pub hit_row : OutlinkExample → ℕ → Row → Row
  hit_row example now row = record row {
    link_count = row.link_count + 1;
    last_seen_at = now;
    examples_json = merge_example row.examples_json example;
  }

  -- What is done with a row that is there.
  unfoldable pub update_hit : OutlinkExample → ℕ → Row → Row
  update_hit example now row = elim row.status [
    | pending ↦ hit_row example now row
    | promoted ↦ row
    | dismissed ↦ row
  ]

  -- `none` is the error of `serde_json::to_string`; SQLite's are for the caller to say.
  unfoldable pub record_hit : HostsTable → Text → Text → OutlinkExample → ℕ → Option HostsTable
  record_hit t collection_id host example now = elim (lookup (collection_id, host) t) [
    | some row ↦ some (insert (collection_id, host) (update_hit example now row) t)
    | none ↦ elim (json.to_string (example ∷ [])) [
      | none ↦ none
      | some examples_json ↦ some (
          insert (collection_id, host)
            (record {
              rowid = next_rowid t;
              link_count = 1;
              examples_json = examples_json;
              first_seen_at = now;
              last_seen_at = now;
              status = pending;
              promoted_target_id = none;
            })
            t)
    ]
  ]

-- `UPDATE … WHERE rowid = id`: the table, and whether there was such a row.
unfoldable pub update_rowid : (Row → Row) → ℕ → HostsTable → HostsTable × Bool
update_rowid f id [] = ([], false)
update_rowid f id ((k, row) ∷ t) =
    let rest = update_rowid f id t in
    if row.rowid == id then ((k, f row) ∷ rest.0, true) else ((k, row) ∷ rest.0, rest.1)

unfoldable pub mark_promoted : HostsTable → ℕ → ℕ → HostsTable × Bool
mark_promoted t id target_id =
    update_rowid (λ row. record row { status = promoted; promoted_target_id = some target_id }) id t

unfoldable pub mark_dismissed : HostsTable → ℕ → HostsTable × Bool
mark_dismissed t id = update_rowid (λ row. record row { status = dismissed }) id t
