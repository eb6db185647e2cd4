-- ===== src/Gossip/Admin.antt =====
-- src/api/admin/discovered.rs, and `get` and `remove` of src/federation/discovered.rs: how an
-- administrator lists, promotes and removes the engines known.
--
-- `reads` and `writes` say whether SQLite answers; `locks`, whether the mutex is sound.
pub mod Lasting
use community_search.Base.{
  ℕ, ◌+◌, ◌==◌, Bool, Option, none, some, List, [], ◌∷◌, Text, eq_text, if◌then◌else◌,
}
use community_search.Base.Table.{lookup, Table, text_key}
use community_search.Base.Table
use community_search.Gossip.{DiscoveredEngine, EnginesTable, list}
use community_search.Peers.{Federation, insert_node_peer}

abbrev pub get : EnginesTable → Text → Option DiscoveredEngine
get t url = lookup url t

-- The rows of a URL.
unfoldable pub deleted : EnginesTable → Text → ℕ
deleted [] url = 0
deleted ((k, e) ∷ t) url = let rest = deleted t url in if eq_text k url then rest + 1 else rest

-- The table after the DELETE, and the number of rows deleted.
unfoldable pub remove : EnginesTable → Text → EnginesTable × ℕ
remove t url = (Table.remove url t, deleted t url)

pub record Io : Type 0 where
  pub locks : Bool
  pub reads : Bool
  pub writes : Bool

pub data Answer : Type 0 where
  listed : List DiscoveredEngine → Answer
  promoted : Answer
  removed : ℕ → Answer
  bad_request : Answer
  not_found : Answer
  internal_error : Answer

unfoldable pub list_discovered : Io → EnginesTable → Answer
list_discovered io t =
    if io.locks then (if io.reads then listed (list t) else internal_error) else internal_error

module _ {F : Type 0} where
  -- The INSERT fails on a URL that is a peer's.
  abbrev pub inserted : Federation F → Option (Federation F × ℕ) → Federation F × Answer
  inserted fed none = (fed, internal_error)
  inserted fed (some done) = (done.0, promoted)

  abbrev pub promote : Bool → ℕ → Federation F → Option DiscoveredEngine → Federation F × Answer
  promote writes now fed none = (fed, not_found)
  promote writes now fed (some engine) =
      if writes
      then inserted fed (insert_node_peer now engine.url (some engine.name) fed)
      else (fed, internal_error)

  unfoldable pub promote_discovered :
      Io → ℕ → EnginesTable → Text → Federation F → Federation F × Answer
  promote_discovered io now t url fed =
      if io.locks
      then (if io.reads then promote io.writes now fed (get t url) else (fed, internal_error))
      else (fed, internal_error)

unfoldable pub remove_discovered : Text → Io → Text → EnginesTable → EnginesTable × Answer
remove_discovered self_url io url t =
    let done = remove t url in
    if eq_text url self_url
    then (t, bad_request)
    else if io.locks
    then (if io.writes
        then (if done.1 == 0 then (done.0, not_found) else (done.0, removed done.1))
        else (t, internal_error))
    else (t, internal_error)
