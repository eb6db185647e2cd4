-- ===== src/Gossip.antt =====
-- src/federation/discovered.rs, src/federation/gossip.rs, src/api/gossip.rs and src/protocol.rs: the
-- engines that a node knows of, and the exchange of lists between nodes.
--
-- `discovered_engines` is a table keyed by URL; rows that were seen at one time are listed in the
-- order of the table. The semver crate is a parameter. Times are Unix seconds from 0.
pub mod Keeps
pub mod Merge
pub mod Outbound
pub mod Learns
pub mod Admin
mod Examples
use community_search.Base.{
  ℕ, ◌+◌, min, max, Bool, true, false, ◌&&◌, ◌||◌, Option, none, some, List, [], ◌∷◌, ◌++◌, map,
  Text, text, ltb, leb, ◌==◌, if◌then◌else◌, length, count_if,
}
use community_search.Base.Table.{Table, lookup, insert, remove, text_key}
use community_search.Crawler.UrlClass.{leb_text}

pub record DiscoveredEngine : Type 0 where
  pub url : Text
  pub name : Text
  pub description : Text
  pub first_seen : ℕ
  pub last_seen : ℕ

abbrev pub EnginesTable : Type 0
EnginesTable = Table Text DiscoveredEngine

-- The row that the UPSERT leaves over the one that it finds.
abbrev pub upserted : Option DiscoveredEngine → DiscoveredEngine → DiscoveredEngine
upserted none e = e
upserted (some old) e = record e {
  first_seen = old.first_seen;
  last_seen = max old.last_seen e.last_seen;
}

unfoldable pub upsert : EnginesTable → DiscoveredEngine → EnginesTable
upsert t e = insert e.url (upserted (lookup e.url t) e) t

unfoldable pub ensure_self_entry : EnginesTable → Text → Text → Text → ℕ → EnginesTable
ensure_self_entry t self_url name description now = upsert t (record {
  url = self_url;
  name = name;
  description = description;
  first_seen = now;
  last_seen = now;
})

abbrev pub values : EnginesTable → List DiscoveredEngine
values [] = []
values ((k, e) ∷ t) = e ∷ values t

-- A stable sort, by insertion from the right.
abbrev pub insert_by :
    (DiscoveredEngine → DiscoveredEngine → Bool)
    → DiscoveredEngine
    → List DiscoveredEngine
    → List DiscoveredEngine
insert_by before e [] = e ∷ []
insert_by before e (x ∷ xs) =
    let rest = insert_by before e xs in if before e x then e ∷ x ∷ xs else x ∷ rest

abbrev pub sort_by :
    (DiscoveredEngine → DiscoveredEngine → Bool) → List DiscoveredEngine → List DiscoveredEngine
sort_by before [] = []
sort_by before (e ∷ es) = insert_by before e (sort_by before es)

-- `ORDER BY last_seen DESC`
unfoldable pub list : EnginesTable → List DiscoveredEngine
list t = sort_by (λ a b. leb b.last_seen a.last_seen) (values t)

-- The map of the local list, by URL.
unfoldable pub by_url : List DiscoveredEngine → EnginesTable → EnginesTable
by_url [] m = m
by_url (e ∷ es) m = by_url es (insert e.url e m)

-- An engine that both lists have.
abbrev pub joined : ℕ → DiscoveredEngine → DiscoveredEngine → DiscoveredEngine
joined now existing inc =
    let newer = leb existing.last_seen inc.last_seen in
    record existing {
      first_seen = min existing.first_seen inc.first_seen;
      name = if newer then inc.name else existing.name;
      description = if newer then inc.description else existing.description;
      last_seen = max (if newer then inc.last_seen else existing.last_seen) now;
    }

abbrev pub met : ℕ → Option DiscoveredEngine → DiscoveredEngine → DiscoveredEngine
met now none inc = record inc { last_seen = max inc.last_seen now }
met now (some existing) inc = joined now existing inc

unfoldable pub merge_incoming : ℕ → List DiscoveredEngine → EnginesTable → EnginesTable
merge_incoming now [] m = m
merge_incoming now (inc ∷ incoming) m =
    merge_incoming now incoming (insert inc.url (met now (lookup inc.url m) inc) m)

-- `last_seen` descending, then the URL.
abbrev pub comes_before : DiscoveredEngine → DiscoveredEngine → Bool
comes_before a b = ltb b.last_seen a.last_seen || a.last_seen == b.last_seen && leb_text a.url b.url

unfoldable pub merge_engine_lists :
    List DiscoveredEngine → List DiscoveredEngine → ℕ → List DiscoveredEngine
merge_engine_lists local incoming now =
    sort_by comes_before (values (merge_incoming now incoming (by_url local [])))

-- PROTOCOL_VERSION
abbrev pub protocol_version : Text
protocol_version = text "1.0"

pub data Compatibility : Type 0 where
  compatible minor_mismatch incompatible : Compatibility

-- The version with three components.
unfoldable pub normalize : Text → Text
normalize v =
    let dots = count_if (λ c. c == 46) v in
    if dots == 0 then v ++ text ".0.0" else if dots == 1 then v ++ text ".0" else v

abbrev pub compare_versions : Option (ℕ × ℕ) → Option (ℕ × ℕ) → Compatibility
compare_versions none theirs = incompatible
compare_versions (some ours) none = incompatible
compare_versions (some ours) (some theirs) =
    if ours.0 == theirs.0
    then if ours.1 == theirs.1 then compatible else minor_mismatch
    else incompatible

pub record EngineSummary : Type 0 where
  pub url : Text
  pub name : Text
  pub description : Text

abbrev pub summary_of : DiscoveredEngine → EngineSummary
summary_of e = record { url = e.url; name = e.name; description = e.description }

abbrev pub seen_now : ℕ → EngineSummary → DiscoveredEngine
seen_now now s = record {
  url = s.url;
  name = s.name;
  description = s.description;
  first_seen = now;
  last_seen = now;
}

pub record ExchangeRequest : Type 0 where
  pub protocol_version : Text
  pub engines : List EngineSummary

-- 200 with the engines before the merge, 400, or 500.
pub data Response : Type 0 where
  exchanged : List EngineSummary → Response
  bad_request : Response
  internal_error : Response

-- Which statements SQLite answers; the writes are numbered by the engines left.
pub record Io : Type 0 where
  pub reads : Bool
  pub writes : ℕ → Bool

-- The upserts in order, up to the first that fails; and whether none did.
unfoldable pub upsert_all : Io → List DiscoveredEngine → EnginesTable → Bool × EnginesTable
upsert_all io [] t = (true, t)
upsert_all io (e ∷ es) t =
    let rest = upsert_all io es (upsert t e) in if io.writes (length es) then rest else (false, t)

-- A version that is incompatible is refused before anything is done.
abbrev pub answer : Compatibility → EnginesTable → Response × EnginesTable → Response × EnginesTable
answer incompatible t accepted = (bad_request, t)
answer minor_mismatch t accepted = accepted
answer compatible t accepted = accepted

module _ (parse_version : Text → Option (ℕ × ℕ)) where
  unfoldable pub check_compatibility : Text → Compatibility
  check_compatibility their_version =
      compare_versions (parse_version (normalize protocol_version))
        (parse_version (normalize their_version))

  abbrev pub accept : Io → ℕ → List EngineSummary → EnginesTable → Response × EnginesTable
  accept io now engines t =
      if io.reads
      then (let persisted =
            upsert_all io (merge_engine_lists (list t) (map (seen_now now) engines) now) t in
          if persisted.0
          then (exchanged (map summary_of (list t)), persisted.1)
          else (internal_error, persisted.1))
      else (internal_error, t)

  -- The handler of `POST /api/gossip/exchange`.
  unfoldable pub exchange : Io → ℕ → ExchangeRequest → EnginesTable → Response × EnginesTable
  exchange io now req t =
      answer (check_compatibility req.protocol_version) t (accept io now req.engines t)
