-- ===== src/Peers/Examples.antt =====
-- src/federation and src/api/public.rs: two peers, one of them down, and a search of both. Scores are
-- natural numbers.
use community_search.Base.{
  ℕ, ◌*◌, ◌≡◌, refl, Bool, true, false, none, some, List, [], ◌∷◌, Text, text, eq_text, leb, arith,
}
use community_search.Peers.{NodePeer, Federation, get_node_peer, update_peer}
use community_search.Peers.Health.{
  record_result, run_health_check_once, auto_disable, insert_notification,
}
use community_search.Peers.Health.Streak.{
  Event, record_all, history, Represents, record_all-Represents,
}
use community_search.Peers.Health.Round.{IsRound, run_health_check_once-IsRound}
use community_search.Peers.Fanout.{SearchRequest, SearchResult}
use community_search.Peers.Search.{Services, collect_search, stream_search}
use community_search.Peers.Search.Same.{IsAgreed, searches-IsAgreed}

abbrev peer : ℕ → Text → Bool → NodePeer
peer id url enabled = record {
  id = id;
  url = url;
  name = none;
  enabled = enabled;
  consecutive_failures = 0;
  last_response_ms = none;
  last_checked_at = none;
  disabled_at = none;
  created_at = id;
}

abbrev federation : Federation ℕ
federation = record {
  node_peers = peer 1 (text "a") true ∷ peer 2 (text "b") false ∷ [];
  collection_peers =
      (record {
        id = 1;
        local_collection = text "c";
        node_peer_id = 1;
        remote_collection = text "d";
        source_weight = 2;
        enabled = true;
        created_at = 9;
      })
      ∷ [];
  notifications = [];
}

abbrev call : ℕ → Bool → Event
call id success = record { node_peer_id = id; success = success; response_ms = some 8; now = 100 }

abbrev five_failures : List Event
five_failures =
    call 1 false
    ∷ call 1 false
    ∷ call 2 true
    ∷ call 1 false
    ∷ call 1 false
    ∷ call 3 false
    ∷ call 1 false
    ∷ []

record_all-Represents_example :
    Represents 1 0 (history 1 five_failures []) (record_all five_failures federation)
unfolding get_node_peer
record_all-Represents_example = record_all-Represents 1 0 [] five_failures federation (record {
  peer = peer 1 (text "a") true;
  found = refl;
  counts = refl;
  switches = refl;
  notifies = refl;
})

-- The row of the peer after the calls.
disabled_by_five :
    get_node_peer 1 (record_all five_failures federation).node_peers
    ≡ some (record (peer 1 (text "a") false) {
      consecutive_failures = 5;
      last_checked_at = some 100;
      disabled_at = some 100;
    })
unfolding get_node_peer record_result update_peer auto_disable insert_notification
disabled_by_five = refl

run_health_check_once-IsRound_example :
    IsRound
      (λ url. eq_text url (text "b"))
      7
      federation
      (run_health_check_once (λ url. eq_text url (text "b")) 7 federation)
run_health_check_once-IsRound_example =
    run_health_check_once-IsRound (λ url. eq_text url (text "b")) 7 federation (refl, (refl, _))

abbrev found : ℕ → SearchResult ℕ
found score = record {
  title = text "t";
  url = text "u";
  snippet_html = [];
  source = text "local";
  timestamp = 0;
  score = score;
}

abbrev services : Services ℕ
services = record {
  local_search = λ query collection. some (found 3 ∷ []);
  peer_client = record {
    search = λ url req. some (found 1 ∷ found 2 ∷ []);
    elapsed = λ url req. 5;
  };
  trim = λ query. query;
  mul = λ a b. a * b;
  ge = λ a b. leb b a;
  arrivals = λ os. os;
}

abbrev request : SearchRequest
request = record { query = text "q"; collection = some (text "c"); depth = 1 }

ge_total : (a b : ℕ) → leb b a ≡ false → leb a b ≡ true
ge_total a b h = ground (arith, h)

searches-IsAgreed_example :
    IsAgreed services
      (λ r. leb 4 r.score)
      (collect_search services 50 request federation)
      (stream_search services 50 request federation)
searches-IsAgreed_example =
    searches-IsAgreed services (λ r. leb 4 r.score) 50 request federation ge_total
