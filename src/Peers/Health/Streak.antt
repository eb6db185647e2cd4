-- ===== src/Peers/Health/Streak.antt =====
-- src/federation/health.rs: that a peer is disabled by five failures in a row.
use community_search.Base.{
  ℕ, ◌+◌, ◌==◌, ◌≡◌, refl, sym, subst, ap, ◌∙◌, Bool, true, false, not, ◌&&◌, ◌||◌, Option, some,
  List, [], ◌∷◌, count_if, count_if-append, leb, if-cases, some-cases, if◌then◌else◌, arith,
}
use community_search.Base.Table.{==_iff}
use community_search.Peers.{
  NodePeer, Notification, peer_disabled, peer_re_enabled, Federation, update_peer, get_node_peer,
  disable,
}
use community_search.Peers.Health.{
  succeeded, failed, failure_threshold, insert_notification, auto_disable, record_result,
}

-- The result of a call to a peer.
pub record Event : Type 0 where
  pub node_peer_id : ℕ
  pub success : Bool
  pub response_ms : Option ℕ
  pub now : ℕ

-- The calls in turn; the callers log an error of `record_result` and go on.
abbrev pub record_all : {F : Type 0} → List Event → Federation F → Federation F
record_all [] fed = fed
record_all (e ∷ es) fed =
    record_all es (record_result e.now e.node_peer_id e.success e.response_ms fed).0

-- The specification: the results for one peer, latest first, and what they amount to.
abbrev pub history : ℕ → List Event → List Bool → List Bool
history id [] h = h
history id (e ∷ es) h = history id es (if e.node_peer_id == id then e.success ∷ h else h)

-- How many of the latest results are failures.
abbrev pub streak : List Bool → ℕ
streak [] = 0
streak (true ∷ h) = 0
streak (false ∷ h) = streak h + 1

-- Whether five failures in a row have occurred.
abbrev pub has_tripped : List Bool → Bool
has_tripped [] = false
has_tripped (b ∷ h) = has_tripped h || leb 5 (streak (b ∷ h))

abbrev is_disabling : ℕ → Notification → Bool
is_disabling id (peer_disabled i n t) = i == id
is_disabling id (peer_re_enabled i t) = false

-- That the tables say of a peer what its results amount to, and that it has been notified of, once, if
-- it was disabled, after `before` notifications.
pub record Represents {F : Type 0} (id before : ℕ) (h : List Bool) (fed : Federation F)
    : Type 0 where
  pub peer : NodePeer
  pub found : get_node_peer id fed.node_peers ≡ some peer
  pub counts : peer.consecutive_failures ≡ streak h
  pub switches : peer.enabled ≡ not (has_tripped h)
  pub notifies :
      count_if (is_disabling id) fed.notifications ≡ before + (if has_tripped h then 1 else 0)

get-update_self :
    (id : ℕ) (f : NodePeer → NodePeer) (ps : List NodePeer) (p : NodePeer)
    → ((q : NodePeer) → (f q).id ≡ q.id)
    → get_node_peer id ps ≡ some p
    → get_node_peer id (update_peer id f ps) ≡ some (f p)
unfolding get_node_peer update_peer
get-update_self id f [] p k h = cc
get-update_self id f (q ∷ qs) p k h = ground (arith, h, k q, get-update_self id f qs p k)

get-update_other :
    (id other : ℕ) (f : NodePeer → NodePeer) (ps : List NodePeer)
    → ((q : NodePeer) → (f q).id ≡ q.id)
    → (other == id) ≡ false
    → get_node_peer id (update_peer other f ps) ≡ get_node_peer id ps
unfolding get_node_peer update_peer
get-update_other id other f [] k h = refl
get-update_other id other f (q ∷ qs) k h =
    ground (arith, h, k q, get-update_other id other f qs k h)

module _ {F : Type 0} (id before : ℕ) (h : List Bool) where
  success-Represents :
      (now : ℕ) (ms : Option ℕ) (fed : Federation F)
      → Represents id before h fed
      → Represents id before (true ∷ h) (record_result now id true ms fed).0
  unfolding record_result
  success-Represents now ms fed r = record {
    peer = succeeded ms now r.peer;
    found = get-update_self id (succeeded ms now) fed.node_peers r.peer (λ q. refl) r.found;
    counts = refl;
    switches = r.switches ∙ ground arith;
    notifies = r.notifies ∙ ground arith;
  }

  auto_disable-Represents :
      (now : ℕ) (p : NodePeer) (fed : Federation F)
      → get_node_peer id fed.node_peers ≡ some p
      → p.consecutive_failures ≡ streak (false ∷ h)
      → p.enabled ≡ not (has_tripped h)
      → count_if (is_disabling id) fed.notifications ≡ before + (if has_tripped h then 1 else 0)
      → Represents id before (false ∷ h) (auto_disable now id p fed)
  unfolding auto_disable insert_notification
  auto_disable-Represents now p fed found counts switches notifies =
      if-cases (λ (f : Federation F). Represents id before (false ∷ h) f)
        (leb failure_threshold p.consecutive_failures && p.enabled)
        (λ e. record {
          peer = disable now p;
          found = get-update_self id (disable now) fed.node_peers p (λ q. refl) found;
          counts = counts;
          switches = ground (arith, e, counts, switches);
          notifies =
              count_if-append (is_disabling id) fed.notifications _
              ∙ ground (arith, e, counts, switches, notifies);
        })
        (λ e. record {
          peer = p;
          found = found;
          counts = counts;
          switches = ground (arith, e, counts, switches);
          notifies = ground (arith, e, counts, switches, notifies);
        })

  failure-Represents :
      (now : ℕ) (ms : Option ℕ) (fed : Federation F)
      → Represents id before h fed
      → Represents id before (false ∷ h) (record_result now id false ms fed).0
  unfolding record_result
  failure-Represents now ms fed r =
      let peers = update_peer id (failed now) fed.node_peers in
      let found = get-update_self id (failed now) fed.node_peers r.peer (λ q. refl) r.found in
      let after : Represents id before (false ∷ h)
          (auto_disable now id (failed now r.peer) (record fed { node_peers = peers })) =
        auto_disable-Represents now (failed now r.peer) (record fed { node_peers = peers }) found
          (ap (λ n. n + 1) r.counts) r.switches r.notifies in
      rw (record_result, found) after

  other_auto_disable-Represents :
      (now other : ℕ) (p : NodePeer) (fed : Federation F)
      → (other == id) ≡ false
      → Represents id before h fed
      → Represents id before h (auto_disable now other p fed)
  unfolding auto_disable insert_notification
  other_auto_disable-Represents now other p fed e r =
      if-cases (λ (f : Federation F). Represents id before h f)
        (leb failure_threshold p.consecutive_failures && p.enabled)
        (λ _. record {
          peer = r.peer;
          found = get-update_other id other (disable now) fed.node_peers (λ q. refl) e ∙ r.found;
          counts = r.counts;
          switches = r.switches;
          notifies =
              count_if-append (is_disabling id) fed.notifications _ ∙ ground (arith, e, r.notifies);
        })
        (λ _. r)

  updated-Represents :
      (other : ℕ) (f : NodePeer → NodePeer) (fed : Federation F)
      → ((q : NodePeer) → (f q).id ≡ q.id)
      → (other == id) ≡ false
      → Represents id before h fed
      → Represents id before h (record fed { node_peers = update_peer other f fed.node_peers })
  updated-Represents other f fed k e r = record {
    peer = r.peer;
    found = get-update_other id other f fed.node_peers k e ∙ r.found;
    counts = r.counts;
    switches = r.switches;
    notifies = r.notifies;
  }

  other-Represents :
      (now other : ℕ) (success : Bool) (ms : Option ℕ) (fed : Federation F)
      → (other == id) ≡ false
      → Represents id before h fed
      → Represents id before h (record_result now other success ms fed).0
  unfolding record_result
  other-Represents now other true ms fed e r =
      updated-Represents other (succeeded ms now) fed (λ q. refl) e r
  other-Represents now other false ms fed e r =
      let after = updated-Represents other (failed now) fed (λ q. refl) e r in
      some-cases (λ (o : Federation F × Bool). Represents id before h o.0)
        (get_node_peer other (update_peer other (failed now) fed.node_peers)) (λ _. after)
        (λ p _. other_auto_disable-Represents now other p _ e after)

own-Represents :
    {F : Type 0} (id before : ℕ) (h : List Bool) (now : ℕ) (success : Bool) (ms : Option ℕ)
    (fed : Federation F)
    → Represents id before h fed
    → Represents id before (success ∷ h) (record_result now id success ms fed).0
own-Represents id before h now true ms fed r = success-Represents id before h now ms fed r
own-Represents id before h now false ms fed r = failure-Represents id before h now ms fed r

event-Represents :
    {F : Type 0} (id before : ℕ) (h : List Bool) (e : Event) (fed : Federation F)
    → Represents id before h fed
    → Represents id before
        (if e.node_peer_id == id then e.success ∷ h else h)
        (record_result e.now e.node_peer_id e.success e.response_ms fed).0
event-Represents id before h e fed r =
    if-cases
      (λ g.
        Represents id before g (record_result e.now e.node_peer_id e.success e.response_ms fed).0)
      (e.node_peer_id == id)
      (λ same.
        subst
          (λ n.
            Represents id before (e.success ∷ h)
              (record_result e.now n e.success e.response_ms fed).0)
          (sym ((==_iff e.node_peer_id id).0 same))
          (own-Represents id before h e.now e.success e.response_ms fed r))
      (λ other.
        other-Represents id before h e.now e.node_peer_id e.success e.response_ms fed other r)

-- `record_result` refines the history of a peer: whatever calls are then recorded, of whichever peers
-- and in whatever order, from tables that represent a history of a peer, as those with a new peer
-- represent the empty one, they represent the history that the calls make. So the peer's failures are
-- those since its last success, it is enabled unless five of its calls have failed in a row, and there
-- is one notification of that.
pub record_all-Represents :
    {F : Type 0} (id before : ℕ) (h : List Bool) (es : List Event) (fed : Federation F)
    → Represents id before h fed
    → Represents id before (history id es h) (record_all es fed)
record_all-Represents id before h [] fed r = r
record_all-Represents id before h (e ∷ es) fed r =
    record_all-Represents id before (if e.node_peer_id == id then e.success ∷ h else h) es _
      (event-Represents id before h e fed r)
