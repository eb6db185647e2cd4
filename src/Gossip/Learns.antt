-- ===== src/Gossip/Learns.antt =====
-- src/api/gossip.rs: what an exchange learns from a peer.
use community_search.Base.{
  ℕ, ◌≤◌, ◌≡◌, ◌≢◌, refl, sym, ◌∙◌, Bool, Bool-cases, inl, inr, true, false, Option, none, some,
  List, [], ◌∷◌, map, Text, arith, eq_text, eq_text_self, if-cases, subst, length,
}
use community_search.Base.Table.{lookup, lookup-insert, lookup-same, text_key}
use community_search.Gossip.{
  DiscoveredEngine, EnginesTable, upserted, upsert, merge_engine_lists, upsert_all, Io, list,
  seen_now, summary_of, EngineSummary, ExchangeRequest, Response, exchanged, Compatibility,
  compatible, minor_mismatch, incompatible, check_compatibility, accept, answer, exchange,
}
use community_search.Gossip.Merge.{Has, IsSeen, merge_engine_lists-Has}

seen-upserted :
    (now : ℕ) (o : Option DiscoveredEngine) (e : DiscoveredEngine)
    → now ≤ e.last_seen
    → now ≤ (upserted o e).last_seen
seen-upserted now none e h = h
seen-upserted now (some old) e h = omega (arith, h)

upsert-IsSeen-own :
    (now : ℕ) (e : DiscoveredEngine) (t : EnginesTable)
    → now ≤ e.last_seen
    → IsSeen e.url now (upsert t e)
unfolding upsert
upsert-IsSeen-own now e t h = (
  upserted (lookup e.url t) e,
  lookup-insert e.url e.url (upserted (lookup e.url t) e) t ∙ rw (eq_text_self e.url) refl,
  seen-upserted now (lookup e.url t) e h,
)

upsert-IsSeen :
    (u : Text) (now : ℕ) (e : DiscoveredEngine) (t : EnginesTable)
    → IsSeen u now t
    → IsSeen u now (upsert t e)
unfolding upsert
upsert-IsSeen u now e t (d, known, seen) = elim (Bool-cases (eq_text e.url u)) [
  | inl same ↦ (
    upserted (some d) e,
    lookup-insert e.url u _ t ∙ rw (same, lookup-same e.url u t same, known) refl,
    omega (arith, seen),
  )
  | inr differs ↦ (d, lookup-insert e.url u _ t ∙ rw differs known, seen)
]

upsert_all-stays :
    (io : Io) (u : Text) (now : ℕ) (es : List DiscoveredEngine) (t : EnginesTable)
    → IsSeen u now t
    → IsSeen u now (upsert_all io es t).1
unfolding upsert_all
upsert_all-stays io u now [] t h = h
upsert_all-stays io u now (e ∷ es) t h =
    if-cases (λ (r : Bool × EnginesTable). IsSeen u now r.1) (io.writes (length es))
      (λ answered. upsert_all-stays io u now es (upsert t e) (upsert-IsSeen u now e t h))
      (λ refused. h)

false-ne-true : false ≢ true
false-ne-true e = cc

told_of : {a b : List EngineSummary} → exchanged a ≡ exchanged b → a ≡ b
told_of e = cc

-- Upserts that all succeed leave each of their engines known.
upsert_all-IsSeen :
    (io : Io) (u : Text) (now : ℕ) (es : List DiscoveredEngine) (t : EnginesTable)
    → Has u now es
    → (upsert_all io es t).0 ≡ true
    → IsSeen u now (upsert_all io es t).1
unfolding upsert_all
upsert_all-IsSeen io u now [] t h all = absurd h
upsert_all-IsSeen io u now (e ∷ es) t (inl own) all =
    if-cases (λ (r : Bool × EnginesTable). r.0 ≡ true → IsSeen u now r.1) (io.writes (length es))
      (λ answered done.
        upsert_all-stays io u now es (upsert t e)
          (subst (λ v. IsSeen v now (upsert t e)) own.0 (upsert-IsSeen-own now e t own.1)))
      (λ refused failed. absurd (false-ne-true failed)) all
upsert_all-IsSeen io u now (e ∷ es) t (inr there) all =
    if-cases (λ (r : Bool × EnginesTable). r.0 ≡ true → IsSeen u now r.1) (io.writes (length es))
      (λ answered done. upsert_all-IsSeen io u now es (upsert t e) there done)
      (λ refused failed. absurd (false-ne-true failed)) all

abbrev Tells : List EngineSummary → Text → ℕ → EnginesTable → Response × EnginesTable → Type 0
Tells told u now t r = r.0 ≡ exchanged told → (told ≡ map summary_of (list t)) × IsSeen u now r.1

-- An exchange that answers 200 tells the peer the engines known before it, and has learnt all of the
-- peer's: each URL that the peer sent is known after it, and was last seen now at the earliest.
pub exchange-IsSeen :
    (parse_version : Text → Option (ℕ × ℕ)) (io : Io) (now : ℕ) (req : ExchangeRequest)
    (t : EnginesTable) (told : List EngineSummary) (u : Text)
    → (exchange parse_version io now req t).0 ≡ exchanged told
    → Has u 0 (map (seen_now now) req.engines)
    → (told ≡ map summary_of (list t)) × IsSeen u now (exchange parse_version io now req t).1
unfolding exchange
exchange-IsSeen parse_version io now req t told u e h =
    go (check_compatibility parse_version req.protocol_version) e
  where
    accepted : Tells told u now t (accept parse_version io now req.engines t)
    accepted =
        let es = merge_engine_lists (list t) (map (seen_now now) req.engines) now in
        if-cases (Tells told u now t) io.reads
          (λ reads.
            if-cases (Tells told u now t) (upsert_all io es t).0
              (λ done same. (
                sym (told_of same),
                upsert_all-IsSeen io u now es t (merge_engine_lists-Has u (list t) _ now h) done,
              ))
              (λ failed same. absurd (cc)))
          (λ fails same. absurd (cc))

    go :
        (c : Compatibility)
        → Tells told u now t (answer c t (accept parse_version io now req.engines t))
    go incompatible = λ same. absurd (cc)
    go minor_mismatch = accepted
    go compatible = accepted
