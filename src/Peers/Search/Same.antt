-- ===== src/Peers/Search/Same.antt =====
-- src/api/public.rs: that a search answered with one list and one answered with events give the same.
use community_search.Base.{
  ℕ, ◌+◌, ◌≡◌, refl, sym, ◌∙◌, Bool, true, false, Option, none, some, List, [], ◌∷◌, ◌++◌, map,
  count_if, count_if-append, if-cases, if◌then◌else◌, Text, text, arith,
}
use community_search.Peers.{Federation}
use community_search.Peers.Fanout.{SearchRequest, SearchResult, PeerOutcome}
use community_search.Peers.Search.{
  SseEvent, result, source_complete, done, Services, items, record_outcome, collect_outcomes,
  insert_by_score, sort_by_score, peer_outcomes, collect_search, peer_events, stream_outcomes,
  stream_search,
}

module _ {F : Type 0} where
  -- How many results of the events pass a test, and how many events end the stream.
  abbrev count_events : (SearchResult F → Bool) → List (SseEvent F) → ℕ
  count_events q [] = 0
  count_events q (result r ∷ es) = let rest = count_events q es in if q r then rest + 1 else rest
  count_events q (source_complete s ∷ es) = count_events q es
  count_events q (done ∷ es) = count_events q es

  abbrev count_done : List (SseEvent F) → ℕ
  count_done [] = 0
  count_done (result r ∷ es) = count_done es
  count_done (source_complete s ∷ es) = count_done es
  count_done (done ∷ es) = count_done es + 1

  count_events-append :
      (q : SearchResult F → Bool) (xs ys : List (SseEvent F))
      → count_events q (xs ++ ys) ≡ count_events q xs + count_events q ys
  count_events-append q [] ys = omega arith
  count_events-append q (result r ∷ xs) ys = ground (arith, count_events-append q xs ys)
  count_events-append q (source_complete s ∷ xs) ys = count_events-append q xs ys
  count_events-append q (done ∷ xs) ys = count_events-append q xs ys

  count_done-append :
      (xs ys : List (SseEvent F)) → count_done (xs ++ ys) ≡ count_done xs + count_done ys
  count_done-append [] ys = omega arith
  count_done-append (result r ∷ xs) ys = count_done-append xs ys
  count_done-append (source_complete s ∷ xs) ys = count_done-append xs ys
  count_done-append (done ∷ xs) ys = omega (arith, count_done-append xs ys)

  count_events-results :
      (q : SearchResult F → Bool) (rs : List (SearchResult F))
      → (count_events q (map result rs) ≡ count_if q rs) × (count_done (map result rs) ≡ 0)
  count_events-results q [] = (refl, refl)
  count_events-results q (r ∷ rs) =
      let rest = count_events-results q rs in (ground (arith, rest.0), rest.1)

  -- One list sent as events and the close of its source.
  count_events-source :
      (q : SearchResult F → Bool) (rs : List (SearchResult F)) (s : Text)
      → (count_events q (map result rs ++ source_complete s ∷ []) ≡ count_if q rs)
        × (count_done (map result rs ++ source_complete s ∷ []) ≡ 0)
  count_events-source q rs s =
      let counts = count_events-results q rs in
      (
        count_events-append q (map result rs) (source_complete s ∷ []) ∙ omega (arith, counts.0),
        count_done-append (map result rs) (source_complete s ∷ []) ∙ omega (arith, counts.1),
      )

  count_events-peer :
      (q : SearchResult F → Bool) (o : PeerOutcome F) (r : Option (List (SearchResult F)))
      → (count_events q (peer_events o r) ≡ count_if q (items r))
        × (count_done (peer_events o r) ≡ 0)
  count_events-peer q o none = (refl, refl)
  count_events-peer q o (some rs) = count_events-source q rs o.source_label

  -- That a list and events from the same tables agree, on how many results pass a test.
  record IsSame (q : SearchResult F → Bool) (collected : Federation F × List (SearchResult F))
      (streamed : Federation F × List (SseEvent F)) : Type 0 where
    tables : collected.0 ≡ streamed.0
    counts : count_if q collected.1 ≡ count_events q streamed.1
    open_yet : count_done streamed.1 ≡ 0

  outcomes-IsSame :
      (q : SearchResult F → Bool) (now : ℕ) (os : List (PeerOutcome F)) (fed : Federation F)
      (rs : List (SearchResult F)) (es : List (SseEvent F))
      → count_if q rs ≡ count_events q es
      → count_done es ≡ 0
      → IsSame q (collect_outcomes now os (fed, rs)) (stream_outcomes now os (fed, es))
  unfolding collect_outcomes stream_outcomes
  outcomes-IsSame q now [] fed rs es h k = record { tables = refl; counts = h; open_yet = k }
  outcomes-IsSame q now (o ∷ os) fed rs es h k =
      let peer = count_events-peer q o o.result in
      outcomes-IsSame q now os (record_outcome now o fed) (rs ++ items o.result)
        (es ++ peer_events o o.result)
        (omega (
          arith,
          h,
          peer.0,
          count_if-append q rs (items o.result),
          count_events-append q es (peer_events o o.result),
        ))
        (omega (arith, k, peer.1, count_done-append es (peer_events o o.result)))

  pub count_if-insert :
      (q : SearchResult F → Bool) (ge : F → F → Bool) (r : SearchResult F)
      (rs : List (SearchResult F))
      → count_if q (insert_by_score ge r rs) ≡ count_if q (r ∷ rs)
  unfolding insert_by_score
  count_if-insert q ge r [] = refl
  count_if-insert q ge r (s ∷ rs) = ground (arith, count_if-insert q ge r rs)

  pub count_if-sort :
      (q : SearchResult F → Bool) (ge : F → F → Bool) (rs : List (SearchResult F))
      → count_if q (sort_by_score ge rs) ≡ count_if q rs
  unfolding sort_by_score
  count_if-sort q ge [] = refl
  count_if-sort q ge (r ∷ rs) =
      count_if-insert q ge r (sort_by_score ge rs) ∙ ground (arith, count_if-sort q ge rs)

  -- Each score is at least the next.
  abbrev Leads : (F → F → Bool) → SearchResult F → List (SearchResult F) → Type 0
  Leads ge r [] = Unit
  Leads ge r (s ∷ rs) = ge r.score s.score ≡ true

  abbrev pub IsRanked : (F → F → Bool) → List (SearchResult F) → Type 0
  IsRanked ge [] = Unit
  IsRanked ge (r ∷ rs) = Leads ge r rs × IsRanked ge rs

  Leads-insert :
      (ge : F → F → Bool) (s r : SearchResult F) (rs : List (SearchResult F))
      → ge s.score r.score ≡ true
      → Leads ge s rs
      → Leads ge s (insert_by_score ge r rs)
  unfolding insert_by_score
  Leads-insert ge s r [] h k = h
  Leads-insert ge s r (t ∷ rs) h k = if-cases (Leads ge s) (ge r.score t.score) (λ _. h) (λ _. k)

  insert-IsRanked :
      (ge : F → F → Bool) (r : SearchResult F) (rs : List (SearchResult F))
      → ((a b : F) → ge a b ≡ false → ge b a ≡ true)
      → IsRanked ge rs
      → IsRanked ge (insert_by_score ge r rs)
  unfolding insert_by_score
  insert-IsRanked ge r [] total h = (_, _)
  insert-IsRanked ge r (s ∷ rs) total h =
      if-cases (IsRanked ge) (ge r.score s.score) (λ e. (e, h))
        (λ e.
          (Leads-insert ge s r rs (total r.score s.score e) h.0, insert-IsRanked ge r rs total h.1))

  pub sort-IsRanked :
      (ge : F → F → Bool) (rs : List (SearchResult F))
      → ((a b : F) → ge a b ≡ false → ge b a ≡ true)
      → IsRanked ge (sort_by_score ge rs)
  unfolding sort_by_score
  sort-IsRanked ge [] total = _
  sort-IsRanked ge (r ∷ rs) total = insert-IsRanked ge r _ total (sort-IsRanked ge rs total)

  -- That two answers to a search agree: the tables after them, how many results pass a test, the
  -- order of the list, and that the stream is closed once, at its end.
  pub record IsAgreed (services : Services F) (q : SearchResult F → Bool)
      (collected : Federation F × List (SearchResult F))
      (streamed : Federation F × List (SseEvent F)) : Type 0 where
    pub same_tables : collected.0 ≡ streamed.0
    pub same_results : count_if q collected.1 ≡ count_events q streamed.1
    pub ranked : IsRanked services.ge collected.1
    pub closed :
        (sent : List (SseEvent F)) × (streamed.1 ≡ sent ++ done ∷ []) × (count_done sent ≡ 0)

  -- A search that is collected and the same search streamed, with the same outcomes of the peers in
  -- the same order, leave the same health of the peers and have the same results: as many pass any
  -- test. The list is ranked, each score at least the next, where of two scores one is at least the
  -- other, and the stream is closed by its last event and not before.
  pub searches-IsAgreed :
      (services : Services F) (q : SearchResult F → Bool) (now : ℕ) (req : SearchRequest)
      (fed : Federation F)
      → ((a b : F) → services.ge a b ≡ false → services.ge b a ≡ true)
      → IsAgreed services q
          (collect_search services now req fed)
          (stream_search services now req fed)
  unfolding collect_search stream_search
  searches-IsAgreed services q now req fed total =
      let local = items (services.local_search req.query req.collection) in
      let source = count_events-source q local (text "local") in
      let same =
        outcomes-IsSame q now (peer_outcomes services req fed) fed local _ (sym source.0)
          source.1 in
      let sent : List (SseEvent F) =
        (stream_outcomes now (peer_outcomes services req fed)
          (fed, map result local ++ source_complete (text "local") ∷ [])).1 in
      record {
        same_tables = same.tables;
        same_results =
            count_if-sort q services.ge _
            ∙ same.counts
            ∙ omega (arith, count_events-append q sent (done ∷ []));
        ranked = sort-IsRanked services.ge _ total;
        closed = (sent, refl, same.open_yet);
      }
