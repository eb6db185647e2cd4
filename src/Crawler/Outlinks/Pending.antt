-- ===== src/Crawler/Outlinks/Pending.antt =====
-- src/db/outlink_hosts.rs: the reads, `list_pending`, `find` and `count_for_collection`.
--
-- A negative limit or offset is what 0 is.
use community_search.Base.{
  ℕ, ◌+◌, ◌==◌, max, min, Bool, true, false, ◌&&◌, ◌||◌, Option, none, some, List, [], ◌∷◌, take,
  drop, Text, eq_text, ltb, leb, if◌then◌else◌,
}
use community_search.Crawler.Outlinks.{
  OutlinkExample, ExamplesJson, Status, pending, promoted, dismissed, Row, HostsTable, or_empty,
}

pub record OutlinkHostRow : Type 0 where
  pub id : ℕ
  pub host : Text
  pub link_count : ℕ
  pub examples : List OutlinkExample
  pub first_seen_at : ℕ
  pub last_seen_at : ℕ

pub record OutlinkHostRecord : Type 0 where
  pub rowid : ℕ
  pub collection_id : Text
  pub host : Text

unfoldable pub count_for_collection : HostsTable → Text → ℕ
count_for_collection [] id = 0
count_for_collection (((collection_id, host), row) ∷ t) id =
    let rest = count_for_collection t id in if eq_text collection_id id then rest + 1 else rest

unfoldable pub find : HostsTable → ℕ → Option OutlinkHostRecord
find [] id = none
find (((collection_id, host), row) ∷ t) id =
    let rest = find t id in
    if row.rowid == id
    then some (record { rowid = row.rowid; collection_id = collection_id; host = host })
    else rest

abbrev pub is_pending : Status → Bool
is_pending pending = true
is_pending promoted = false
is_pending dismissed = false

-- `ORDER BY link_count DESC, last_seen_at DESC`
abbrev pub precedes : OutlinkHostRow → OutlinkHostRow → Bool
precedes a b =
    ltb b.link_count a.link_count
    || (a.link_count == b.link_count && leb b.last_seen_at a.last_seen_at)

unfoldable pub insert_pending : OutlinkHostRow → List OutlinkHostRow → List OutlinkHostRow
insert_pending a [] = a ∷ []
insert_pending a (b ∷ rows) =
    let rest = insert_pending a rows in if precedes a b then a ∷ b ∷ rows else b ∷ rest

module _ (json : ExamplesJson) where
  abbrev listed : Text → Row → OutlinkHostRow
  listed host row = record {
    id = row.rowid;
    host = host;
    link_count = row.link_count;
    examples = or_empty (json.from_str row.examples_json);
    first_seen_at = row.first_seen_at;
    last_seen_at = row.last_seen_at;
  }

  unfoldable pub pending_rows : HostsTable → Text → List OutlinkHostRow
  pending_rows [] id = []
  pending_rows (((collection_id, host), row) ∷ t) id =
      let rest = pending_rows t id in
      if eq_text collection_id id && is_pending row.status
      then insert_pending (listed host row) rest
      else rest

  abbrev or_default : ℕ → Option ℕ → ℕ
  or_default n none = n
  or_default n (some m) = m

  -- `collection_uuid` is the answer to the query for the collection of the rowid.
  unfoldable pub list_pending :
      HostsTable
      → (collection_uuid : Option Text) → Option ℕ
      → Option ℕ
      → Option (List OutlinkHostRow)
  list_pending t none limit offset = none
  list_pending t (some id) limit offset = some (
      take (max 1 (min 500 (or_default 50 limit))) (drop (or_default 0 offset) (pending_rows t id)))
