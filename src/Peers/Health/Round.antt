-- ===== src/Peers/Health/Round.antt =====
-- src/federation/health.rs: what a round of probes does to the table.
use community_search.Base.{
  ℕ, ◌+◌, ◌==◌, ◌≡◌, refl, sym, ap, ◌∙◌, Bool, true, false, not, ◌&&◌, ◌||◌, List, [], ◌∷◌, map,
  length, length-append, All, All-map, retain, count_if, Text, if-cases, if◌then◌else◌, arith,
}
use community_search.Peers.{
  NodePeer, peer_re_enabled, Federation, update_peer, list_node_peers, insert_by_age,
  set_node_peer_enabled, enable, has_peer,
}
use community_search.Peers.Health.{
  HealthCheckOutcome, insert_notification, check_peer, check_peers, disabled_peers,
  run_health_check_once,
}

-- That no id occurs twice: the primary key.
abbrev pub IsKeyed : List NodePeer → Type 0
IsKeyed [] = Unit
IsKeyed (p ∷ ps) = (has_peer p.id ps ≡ false) × IsKeyed ps

-- Whether a peer of the list with an id passes a test.
abbrev any_with : (NodePeer → Bool) → ℕ → List NodePeer → Bool
any_with q id [] = false
any_with q id (p ∷ ps) = (p.id == id && q p) || any_with q id ps

any_with-insert :
    (q : NodePeer → Bool) (id : ℕ) (p : NodePeer) (ps : List NodePeer)
    → any_with q id (insert_by_age p ps) ≡ any_with q id (p ∷ ps)
unfolding insert_by_age
any_with-insert q id p [] = refl
any_with-insert q id p (r ∷ rs) = ground (arith, any_with-insert q id p rs)

any_with-list :
    (q : NodePeer → Bool) (id : ℕ) (ps : List NodePeer)
    → any_with q id (list_node_peers ps) ≡ any_with q id ps
unfolding list_node_peers
any_with-list q id [] = refl
any_with-list q id (p ∷ ps) =
    any_with-insert q id p (list_node_peers ps) ∙ ground (arith, any_with-list q id ps)

any_with-retain :
    (q keep : NodePeer → Bool) (id : ℕ) (ps : List NodePeer)
    → any_with q id (retain keep ps) ≡ any_with (λ p. keep p && q p) id ps
any_with-retain q keep id [] = refl
any_with-retain q keep id (p ∷ ps) = ground (arith, any_with-retain q keep id ps)

count_if-insert :
    (q : NodePeer → Bool) (p : NodePeer) (ps : List NodePeer)
    → count_if q (insert_by_age p ps) ≡ count_if q (p ∷ ps)
unfolding insert_by_age
count_if-insert q p [] = refl
count_if-insert q p (r ∷ rs) = ground (arith, count_if-insert q p rs)

count_if-list :
    (q : NodePeer → Bool) (ps : List NodePeer) → count_if q (list_node_peers ps) ≡ count_if q ps
unfolding list_node_peers
count_if-list q [] = refl
count_if-list q (p ∷ ps) =
    count_if-insert q p (list_node_peers ps) ∙ ground (arith, count_if-list q ps)

length-retain : (q : NodePeer → Bool) (ps : List NodePeer) → length (retain q ps) ≡ count_if q ps
length-retain q [] = refl
length-retain q (p ∷ ps) = ground (arith, length-retain q ps)

-- An id that is not in the list passes no test, and an id of a keyed list its own.
any_with-absent :
    (q : NodePeer → Bool) (id : ℕ) (ps : List NodePeer)
    → has_peer id ps ≡ false
    → any_with q id ps ≡ false
any_with-absent q id [] h = refl
any_with-absent q id (p ∷ ps) h = ground (arith, h, any_with-absent q id ps)

abbrev Finds : (NodePeer → Bool) → List NodePeer → NodePeer → Type 0
Finds q all p = any_with q p.id all ≡ q p

Finds-cons :
    (q : NodePeer → Bool) (p : NodePeer) (all ps : List NodePeer)
    → has_peer p.id ps ≡ false
    → All (Finds q all) ps
    → All (Finds q (p ∷ all)) ps
Finds-cons q p all [] h k = _
Finds-cons q p all (r ∷ rs) h k =
    (ground (arith, h, k.0), Finds-cons q p all rs (ground (arith, h)) k.1)

Finds-own : (q : NodePeer → Bool) (ps : List NodePeer) → IsKeyed ps → All (Finds q ps) ps
Finds-own q [] h = _
Finds-own q (p ∷ ps) h =
    (ground (arith, any_with-absent q p.id ps h.0), Finds-cons q p ps ps h.0 (Finds-own q ps h.1))

abbrev pub revive_if : Bool → NodePeer → NodePeer
revive_if b p = if b then enable p else p

revive_if-twice : (a b : Bool) (p : NodePeer) → revive_if b (revive_if a p) ≡ revive_if (a || b) p
revive_if-twice true true p = refl
revive_if-twice true false p = refl
revive_if-twice false b p = refl

id-revive_if : (a : Bool) (p : NodePeer) → (revive_if a p).id ≡ p.id
id-revive_if true p = refl
id-revive_if false p = refl

==_comm : (a b : ℕ) → (a == b) ≡ (b == a)
==_comm a b = ground arith

map-update_peer :
    (s : ℕ → Bool) (id : ℕ) (ps : List NodePeer)
    → map (λ (p : NodePeer). revive_if (s p.id) p) (update_peer id enable ps)
      ≡ map (λ (p : NodePeer). revive_if ((id == p.id) || s p.id) p) ps
unfolding update_peer
map-update_peer s id [] = refl
map-update_peer s id (p ∷ ps) =
    ap
      (λ (q : NodePeer).
        q ∷ map (λ (p : NodePeer). revive_if (s p.id) p) (update_peer id enable ps))
      (ap (λ n. revive_if (s n) (revive_if (p.id == id) p)) (id-revive_if (p.id == id) p)
        ∙ revive_if-twice (p.id == id) (s p.id) p
        ∙ ap (λ b. revive_if (b || s p.id) p) (==_comm p.id id))
    ∙ ap (λ rest. revive_if ((id == p.id) || s p.id) p ∷ rest) (map-update_peer s id ps)

map-id : (ps : List NodePeer) → map (λ (p : NodePeer). revive_if false p) ps ≡ ps
map-id [] = refl
map-id (p ∷ ps) = ap (λ rest. p ∷ rest) (map-id ps)

map-congr :
    (f g : NodePeer → Bool) (ps : List NodePeer)
    → All (λ p. f p ≡ g p) ps
    → map (λ (p : NodePeer). revive_if (f p) p) ps ≡ map (λ (p : NodePeer). revive_if (g p) p) ps
map-congr f g [] h = refl
map-congr f g (p ∷ ps) h =
    ap (λ b. revive_if b p ∷ map (λ (p : NodePeer). revive_if (f p) p) ps) h.0
    ∙ ap (λ rest. revive_if (g p) p ∷ rest) (map-congr f g ps h.1)

all_of : {P : NodePeer → Type 0} (ps : List NodePeer) → ((p : NodePeer) → P p) → All P ps
all_of [] f = _
all_of (p ∷ ps) f = (f p, all_of ps f)

-- Whether a peer of a list with an id answers.
abbrev pub is_up : (Text → Bool) → List NodePeer → ℕ → Bool
is_up health_check ds id = any_with (λ (p : NodePeer). health_check p.url) id ds

module _ {F : Type 0} (health_check : Text → Bool) (now : ℕ) where
  pub check_peers-table :
      (ds : List NodePeer) (fed : Federation F) (o : HealthCheckOutcome)
      → (check_peers health_check now ds (fed, o)).0.node_peers
        ≡ map (λ (p : NodePeer). revive_if (is_up health_check ds p.id) p) fed.node_peers
  unfolding check_peers check_peer insert_notification set_node_peer_enabled
  check_peers-table [] fed o = sym (map-id fed.node_peers)
  check_peers-table (d ∷ ds) fed o =
      if-cases
        (λ (r : Federation F × HealthCheckOutcome).
          (check_peers health_check now ds r).0.node_peers
          ≡ map (λ (p : NodePeer). revive_if (is_up health_check (d ∷ ds) p.id) p) fed.node_peers)
        (health_check d.url)
        (λ e.
          check_peers-table ds _ _
          ∙ map-update_peer (is_up health_check ds) d.id fed.node_peers
          ∙ map-congr _ _ fed.node_peers (all_of fed.node_peers (λ p. ground (arith, e))))
        (λ e.
          check_peers-table ds _ _
          ∙ map-congr _ _ fed.node_peers (all_of fed.node_peers (λ p. ground (arith, e))))

  -- The peers probed from `r` on are counted once each, and each re-enabled one is notified of.
  record IsTallied (n : ℕ) (r after : Federation F × HealthCheckOutcome) : Type 0 where
    probed :
        length after.1.re_enabled + length after.1.still_down
        ≡ length r.1.re_enabled + length r.1.still_down + n
    notified :
        length after.0.notifications + length r.1.re_enabled
        ≡ length r.0.notifications + length after.1.re_enabled

  check_peer-IsTallied :
      (d : NodePeer) (r : Federation F × HealthCheckOutcome)
      → IsTallied 1 r (check_peer health_check now d r)
  unfolding check_peer insert_notification
  check_peer-IsTallied d (fed, o) =
      if-cases (IsTallied 1 (fed, o)) (health_check d.url)
        (λ _. record {
          probed = omega (arith, length-append o.re_enabled (d.id ∷ []));
          notified = omega (
            arith,
            length-append o.re_enabled (d.id ∷ []),
            length-append fed.notifications (peer_re_enabled d.id now ∷ []),
          );
        })
        (λ _. record {
          probed = omega (arith, length-append o.still_down (d.id ∷ []));
          notified = refl;
        })

  check_peers-IsTallied :
      (ds : List NodePeer) (r : Federation F × HealthCheckOutcome)
      → IsTallied (length ds) r (check_peers health_check now ds r)
  unfolding check_peers
  check_peers-IsTallied [] r = record { probed = omega arith; notified = refl }
  check_peers-IsTallied (d ∷ ds) r =
      let one = check_peer-IsTallied d r in
      let rest = check_peers-IsTallied ds (check_peer health_check now d r) in
      record {
        probed = omega (arith, one.probed, rest.probed);
        notified = omega (arith, one.notified, rest.notified);
      }

  -- What a round did.
  pub record IsRound (before : Federation F) (r : Federation F × HealthCheckOutcome) : Type 0 where
    pub table :
        r.0.node_peers
        ≡ map
            (λ (p : NodePeer). revive_if (not p.enabled && health_check p.url) p)
            before.node_peers
    pub probed :
        length r.1.re_enabled + length r.1.still_down
        ≡ count_if (λ (p : NodePeer). not p.enabled) before.node_peers
    pub notified : length r.0.notifications ≡ length before.notifications + length r.1.re_enabled

  -- A round of health checks over a table in which no id occurs twice re-enables exactly the disabled
  -- peers that answer, with their failures reset, and leaves all other rows as they are. Its outcome
  -- names as many peers as were disabled, and there is one notification for each re-enabled one.
  pub run_health_check_once-IsRound :
      (fed : Federation F)
      → IsKeyed fed.node_peers
      → IsRound fed (run_health_check_once health_check now fed)
  unfolding run_health_check_once
  run_health_check_once-IsRound fed h =
      let start : Federation F × HealthCheckOutcome =
        (fed, record { re_enabled = []; still_down = [] }) in
      let tally = check_peers-IsTallied (disabled_peers fed) start in
      let down : NodePeer → Bool = λ p. not p.enabled in
      let up : NodePeer → Bool = λ p. health_check p.url in
      record {
        table =
            check_peers-table (disabled_peers fed) fed _
            ∙ map-congr _ _ fed.node_peers (
                All-map fed.node_peers
                  (λ p own.
                    any_with-retain up down p.id (list_node_peers fed.node_peers)
                    ∙ any_with-list (λ p. down p && up p) p.id fed.node_peers
                    ∙ own)
                  (Finds-own (λ p. down p && up p) fed.node_peers h));
        probed =
            tally.probed
            ∙ omega (
              arith,
              length-retain down (list_node_peers fed.node_peers),
              count_if-list down fed.node_peers,
            );
        notified = omega (arith, tally.notified);
      }
