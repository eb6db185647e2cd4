-- ===== src/Peers/Search.antt =====
-- src/api/public.rs: the two ways to answer a search, collected into one list and streamed as events.
--
-- The local search, the peers, and `str::trim` are parameters, and so is which outcomes of the peers come in time,
-- and in which order. Times of calls are that of the request.
pub mod Same
use community_search.Base.{
  ℕ, ◌-◌, ◌==◌, min, Bool, true, false, not, ◌&&◌, Option, none, some, List, [], ◌∷◌, ◌++◌, map,
  Text, text, is_empty, ltb, if◌then◌else◌,
}
use community_search.Peers.{Federation}
use community_search.Peers.Health.{record_result}
use community_search.Peers.Fanout.{
  SearchRequest, SearchResult, ActiveCollectionPeer, PeerOutcome, PeerClient,
  active_collection_peers_for, dispatch,
}

-- MAX_FANOUT_DEPTH
abbrev pub max_fanout_depth : ℕ
max_fanout_depth = 2

pub data SseEvent (F : Type 0) : Type 0 where
  result : SearchResult F → SseEvent F
  source_complete : Text → SseEvent F
  done : SseEvent F

pub record Services (F : Type 0) : Type 0 where
  pub local_search : Text → Option Text → Option (List (SearchResult F))
  pub peer_client : PeerClient F
  pub trim : Text → Text
  pub mul : F → F → F
  pub ge : F → F → Bool
  pub arrivals : List (PeerOutcome F) → List (PeerOutcome F)

pub data SearchReply (F : Type 0) : Type 0 where
  bad_request : SearchReply F
  json : List (SearchResult F) → SearchReply F
  sse : List (SseEvent F) → SearchReply F

abbrev unwrap_or_empty : Option Text → Text
unwrap_or_empty none = []
unwrap_or_empty (some t) = t

-- `depth.saturating_sub(1).min(255)`
unfoldable pub outgoing_depth : ℕ → ℕ
outgoing_depth depth = min (depth - 1) 255

module _ {F : Type 0} where
  -- An error of the local search or of a peer counts as no results.
  abbrev pub items : Option (List (SearchResult F)) → List (SearchResult F)
  items none = []
  items (some rs) = rs

  abbrev is_ok : Option (List (SearchResult F)) → Bool
  is_ok none = false
  is_ok (some rs) = true

  -- The health of the peer is recorded whatever came of it; an error of that is logged.
  abbrev pub record_outcome : ℕ → PeerOutcome F → Federation F → Federation F
  record_outcome now o fed =
      (record_result now o.node_peer_id (is_ok o.result) (some o.elapsed_ms) fed).0

  -- The loop of `collect_search`.
  unfoldable pub collect_outcomes :
      ℕ
      → List (PeerOutcome F)
      → Federation F × List (SearchResult F)
      → Federation F × List (SearchResult F)
  collect_outcomes now [] r = r
  collect_outcomes now (o ∷ os) (fed, results) =
      collect_outcomes now os (record_outcome now o fed, results ++ items o.result)

  -- `sort_by` on the score, descending and stable.
  unfoldable pub insert_by_score :
      (F → F → Bool) → SearchResult F → List (SearchResult F) → List (SearchResult F)
  insert_by_score ge r [] = r ∷ []
  insert_by_score ge r (s ∷ rest) =
      let later = insert_by_score ge r rest in
      if ge r.score s.score then r ∷ s ∷ rest else s ∷ later

  unfoldable pub sort_by_score : (F → F → Bool) → List (SearchResult F) → List (SearchResult F)
  sort_by_score ge [] = []
  sort_by_score ge (r ∷ rs) = insert_by_score ge r (sort_by_score ge rs)

  -- The outcomes of the peers that answer in time.
  abbrev pub peer_outcomes : Services F → SearchRequest → Federation F → List (PeerOutcome F)
  peer_outcomes services req fed =
      let peers = active_collection_peers_for fed (unwrap_or_empty req.collection) in
      if ltb 0 req.depth
      then services.arrivals
          (dispatch services.mul services.peer_client peers req (outgoing_depth req.depth))
      else []

  unfoldable pub collect_search :
      Services F → ℕ → SearchRequest → Federation F → Federation F × List (SearchResult F)
  collect_search services now req fed =
      let local = items (services.local_search req.query req.collection) in
      let r = collect_outcomes now (peer_outcomes services req fed) (fed, local) in
      (r.0, sort_by_score services.ge r.1)

  unfoldable pub run_json_search :
      Services F → ℕ → SearchRequest → Federation F → Federation F × List (SearchResult F)
  run_json_search services now req fed =
      collect_search services now (record req { depth = min req.depth max_fanout_depth }) fed

  -- `none` is a 400.
  unfoldable pub search_get :
      Services F → ℕ → SearchRequest → Federation F → Option (Federation F × List (SearchResult F))
  search_get services now params fed =
      let query = services.trim params.query in
      if is_empty query
      then none
      else some (run_json_search services now (record params { query = query }) fed)

  abbrev pub peer_events : PeerOutcome F → Option (List (SearchResult F)) → List (SseEvent F)
  peer_events o none = []
  peer_events o (some rs) = map result rs ++ source_complete o.source_label ∷ []

  -- The loop of the streaming handler.
  unfoldable pub stream_outcomes :
      ℕ → List (PeerOutcome F) → Federation F × List (SseEvent F) → Federation F × List (SseEvent F)
  stream_outcomes now [] r = r
  stream_outcomes now (o ∷ os) (fed, events) =
      stream_outcomes now os (record_outcome now o fed, events ++ peer_events o o.result)

  -- The task that `search_handler` spawns: the events that it sends.
  unfoldable pub stream_search :
      Services F → ℕ → SearchRequest → Federation F → Federation F × List (SseEvent F)
  stream_search services now req fed =
      let local =
        map result (items (services.local_search req.query req.collection))
        ++ source_complete (text "local") ∷ [] in
      let r = stream_outcomes now (peer_outcomes services req fed) (fed, local) in
      (r.0, r.1 ++ done ∷ [])

  -- `wants_json`: of the Accept header.
  unfoldable pub search_handler :
      Services F → ℕ → Bool → SearchRequest → Federation F → Federation F × SearchReply F
  search_handler services now wants_json req fed =
      let collected =
        run_json_search services now (record req { query = services.trim req.query }) fed in
      let streamed = stream_search services now req fed in
      if is_empty (services.trim req.query)
      then (fed, bad_request)
      else if wants_json
      then (collected.0, json collected.1)
      else (streamed.0, sse streamed.1)
