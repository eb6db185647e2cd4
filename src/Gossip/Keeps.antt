-- ===== src/Gossip/Keeps.antt =====
-- src/federation/discovered.rs and src/api/gossip.rs: what an exchange keeps of the engines known.
use community_search.Base.{
  ℕ, ◌≤◌, ◌≡◌, refl, ◌∙◌, Bool, Bool-cases, inl, inr, Option, some, List, [], ◌∷◌, Text, arith,
  eq_text, if-cases, length, map,
}
use community_search.Base.Table.{lookup, lookup-insert, lookup-same, text_key}
use community_search.Gossip.{
  DiscoveredEngine, EnginesTable, upserted, upsert, Compatibility, compatible, minor_mismatch,
  incompatible, ExchangeRequest, Response, Io, upsert_all, check_compatibility, accept, answer,
  exchange, merge_engine_lists, list, seen_now,
}

-- An engine is known in the table, was first seen when it was, and was last seen no earlier.
abbrev pub IsKept : Text → DiscoveredEngine → EnginesTable → Type 0
IsKept u old t =
    (e : DiscoveredEngine) × (lookup u t ≡ some e)
    × (e.first_seen ≡ old.first_seen)
    × (old.last_seen ≤ e.last_seen)

pub upsert-IsKept :
    (u : Text) (old e : DiscoveredEngine) (t : EnginesTable)
    → IsKept u old t
    → IsKept u old (upsert t e)
unfolding upsert
upsert-IsKept u old e t (cur, known, first, last) = elim (Bool-cases (eq_text e.url u)) [
  | inl here ↦ (
    upserted (some cur) e,
    lookup-insert e.url u _ t ∙ rw (here, lookup-same e.url u t here, known) refl,
    first,
    omega (arith, last),
  )
  | inr there ↦ (cur, lookup-insert e.url u _ t ∙ rw there known, first, last)
]

pub upsert_all-IsKept :
    (io : Io) (u : Text) (old : DiscoveredEngine) (es : List DiscoveredEngine) (t : EnginesTable)
    → IsKept u old t
    → IsKept u old (upsert_all io es t).1
unfolding upsert_all
upsert_all-IsKept io u old [] t h = h
upsert_all-IsKept io u old (e ∷ es) t h =
    if-cases (λ (r : Bool × EnginesTable). IsKept u old r.1) (io.writes (length es))
      (λ answered. upsert_all-IsKept io u old es (upsert t e) (upsert-IsKept u old e t h))
      (λ refused. h)

-- An exchange, whatever the peer sends, whichever version it speaks and whichever statements SQLite
-- refuses, forgets no engine: each that was known is known after it, with the time at which it was
-- first seen, and was last seen no earlier.
pub exchange-IsKept :
    (parse_version : Text → Option (ℕ × ℕ)) (io : Io) (now : ℕ) (req : ExchangeRequest)
    (t : EnginesTable) (u : Text) (old : DiscoveredEngine)
    → lookup u t ≡ some old
    → IsKept u old (exchange parse_version io now req t).1
unfolding exchange
exchange-IsKept parse_version io now req t u old known =
    go (check_compatibility parse_version req.protocol_version)
  where
    kept : IsKept u old t
    kept = (old, known, refl, omega arith)

    accepted : IsKept u old (accept parse_version io now req.engines t).1
    accepted =
        if-cases (λ (r : Response × EnginesTable). IsKept u old r.1) io.reads
          (λ reads.
            let es = merge_engine_lists (list t) (map (seen_now now) req.engines) now in
            if-cases (λ (r : Response × EnginesTable). IsKept u old r.1) (upsert_all io es t).0
              (λ done. upsert_all-IsKept io u old es t kept)
              (λ failed. upsert_all-IsKept io u old es t kept))
          (λ fails. kept)

    go :
        (c : Compatibility)
        → IsKept u old (answer c t (accept parse_version io now req.engines t)).1
    go incompatible = kept
    go minor_mismatch = accepted
    go compatible = accepted
