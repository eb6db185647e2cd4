-- ===== src/Gossip/Merge.antt =====
-- src/federation/gossip.rs: the engines of a merged list.
use community_search.Base.{
  ℕ, ◌≤◌, ◌≡◌, refl, sym, ◌∙◌, ◌⊎◌, Bool, Bool-cases, inl, inr, Option, Option-cases, none, some,
  List, [], ◌∷◌, Text, arith, eq_text, eq_text_iff, eq_text_self, All,
}
use community_search.Base.Table.{lookup, insert, lookup-insert, text_key}
use community_search.Gossip.{
  DiscoveredEngine, EnginesTable, values, insert_by, sort_by, by_url, met, merge_incoming,
  comes_before, merge_engine_lists,
}

-- The list has an engine of this URL that was seen at or after a time.
abbrev pub Has : Text → ℕ → List DiscoveredEngine → Type 0
Has u now [] = ⊥
Has u now (e ∷ es) = (e.url ≡ u) × (now ≤ e.last_seen) ⊎ Has u now es

-- Each engine of the map stands under its URL.
abbrev IsKeyed : EnginesTable → Type 0
IsKeyed = All (λ (r : Text × DiscoveredEngine). r.1.url ≡ r.0)

insert-IsKeyed :
    (u : Text) (e : DiscoveredEngine) (m : EnginesTable)
    → e.url ≡ u
    → IsKeyed m
    → IsKeyed (insert u e m)
unfolding insert
insert-IsKeyed u e [] own h = (own, tt)
insert-IsKeyed u e ((k, d) ∷ m) own h = elim (Bool-cases (eq_text k u)) [
  | inl same ↦ rw same (own ∙ sym ((eq_text_iff k u).0 same), h.1)
  | inr other ↦ rw other (h.0, insert-IsKeyed u e m own h.1)
]

by_url-IsKeyed : (es : List DiscoveredEngine) (m : EnginesTable) → IsKeyed m → IsKeyed (by_url es m)
unfolding by_url
by_url-IsKeyed [] m h = h
by_url-IsKeyed (e ∷ es) m h = by_url-IsKeyed es _ (insert-IsKeyed e.url e m refl h)

lookup-url :
    (u : Text) (e : DiscoveredEngine) (m : EnginesTable)
    → IsKeyed m
    → lookup u m ≡ some e
    → e.url ≡ u
unfolding lookup
lookup-url u e [] h k = cc
lookup-url u e ((j, d) ∷ m) h k = ground (arith, h.0, k, eq_text_iff j u, lookup-url u e m h.1)

url-met :
    (now : ℕ) (inc : DiscoveredEngine) (m : EnginesTable)
    → IsKeyed m
    → (met now (lookup inc.url m) inc).url ≡ inc.url
url-met now inc m h = elim (Option-cases (lookup inc.url m)) [
  | inl new ↦ rw new refl
  | inr (old, known) ↦ rw known (lookup-url inc.url old m h known)
]

seen-met :
    (now : ℕ) (o : Option DiscoveredEngine) (inc : DiscoveredEngine)
    → now ≤ (met now o inc).last_seen
seen-met now none inc = omega arith
seen-met now (some old) inc = omega arith

-- The map knows an engine that was seen at or after a time.
abbrev pub IsSeen : Text → ℕ → EnginesTable → Type 0
IsSeen u now m = (e : DiscoveredEngine) × (lookup u m ≡ some e) × (now ≤ e.last_seen)

step-IsSeen :
    (u : Text) (now : ℕ) (inc : DiscoveredEngine) (m : EnginesTable)
    → IsSeen u now m
    → IsSeen u now (insert inc.url (met now (lookup inc.url m) inc) m)
step-IsSeen u now inc m (e, known, seen) = elim (Bool-cases (eq_text inc.url u)) [
  | inl same ↦ (
    met now (lookup inc.url m) inc,
    lookup-insert inc.url u _ m ∙ rw same refl,
    seen-met now (lookup inc.url m) inc,
  )
  | inr differs ↦ (e, lookup-insert inc.url u _ m ∙ rw differs known, seen)
]

merge_incoming-IsKeyed :
    (now : ℕ) (incoming : List DiscoveredEngine) (m : EnginesTable)
    → IsKeyed m
    → IsKeyed (merge_incoming now incoming m)
unfolding merge_incoming
merge_incoming-IsKeyed now [] m h = h
merge_incoming-IsKeyed now (inc ∷ incoming) m h =
    merge_incoming-IsKeyed now incoming _ (insert-IsKeyed inc.url _ m (url-met now inc m h) h)

merge_incoming-stays :
    (u : Text) (now : ℕ) (incoming : List DiscoveredEngine) (m : EnginesTable)
    → IsSeen u now m
    → IsSeen u now (merge_incoming now incoming m)
unfolding merge_incoming
merge_incoming-stays u now [] m h = h
merge_incoming-stays u now (inc ∷ incoming) m h =
    merge_incoming-stays u now incoming _ (step-IsSeen u now inc m h)

merge_incoming-IsSeen :
    (u : Text) (now : ℕ) (incoming : List DiscoveredEngine) (m : EnginesTable)
    → Has u 0 incoming
    → IsSeen u now (merge_incoming now incoming m)
unfolding merge_incoming
merge_incoming-IsSeen u now [] m h = absurd h
merge_incoming-IsSeen u now (inc ∷ incoming) m (inl here) = merge_incoming-stays u now incoming _ (
  met now (lookup inc.url m) inc,
  lookup-insert inc.url u _ m ∙ ground (arith, eq_text_self inc.url, eq_text_iff inc.url u, here.0),
  seen-met now (lookup inc.url m) inc,
)
merge_incoming-IsSeen u now (inc ∷ incoming) m (inr there) =
    merge_incoming-IsSeen u now incoming _ there

values-Has :
    (u : Text) (now : ℕ) (m : EnginesTable) → IsKeyed m → IsSeen u now m → Has u now (values m)
unfolding lookup
values-Has u now [] h (e, known, seen) = cc
values-Has u now ((k, d) ∷ m) h (e, known, seen) = elim (Bool-cases (eq_text k u)) [
  | inl same ↦ inl (h.0 ∙ (eq_text_iff k u).0 same, ground (arith, known, same, seen))
  | inr differs ↦ inr (values-Has u now m h.1 (e, ground (arith, known, differs), seen))
]

Has-past :
    (u : Text) (now : ℕ) (e x : DiscoveredEngine) (xs ys : List DiscoveredEngine)
    → (Has u now (e ∷ xs) → Has u now ys)
    → Has u now (e ∷ x ∷ xs)
    → Has u now (x ∷ ys)
Has-past u now e x xs ys move (inl own) = inr (move (inl own))
Has-past u now e x xs ys move (inr (inl head)) = inl head
Has-past u now e x xs ys move (inr (inr tail)) = inr (move (inr tail))

insert_by-Has :
    (before : DiscoveredEngine → DiscoveredEngine → Bool) (u : Text) (now : ℕ)
    (e : DiscoveredEngine) (es : List DiscoveredEngine)
    → Has u now (e ∷ es)
    → Has u now (insert_by before e es)
insert_by-Has before u now e [] h = h
insert_by-Has before u now e (x ∷ xs) h = elim (Bool-cases (before e x)) [
  | inl first ↦ rw first h
  | inr later ↦
      rw later (Has-past u now e x xs (insert_by before e xs) (insert_by-Has before u now e xs) h)
]

sort_by-Has :
    (before : DiscoveredEngine → DiscoveredEngine → Bool) (u : Text) (now : ℕ)
    (es : List DiscoveredEngine)
    → Has u now es
    → Has u now (sort_by before es)
sort_by-Has before u now [] h = h
sort_by-Has before u now (e ∷ es) (inl own) = insert_by-Has before u now e _ (inl own)
sort_by-Has before u now (e ∷ es) (inr there) =
    insert_by-Has before u now e _ (inr (sort_by-Has before u now es there))

-- The merged list has every engine of the incoming list, and it was seen now at the earliest.
pub merge_engine_lists-Has :
    (u : Text) (local incoming : List DiscoveredEngine) (now : ℕ)
    → Has u 0 incoming
    → Has u now (merge_engine_lists local incoming now)
unfolding merge_engine_lists
merge_engine_lists-Has u local incoming now h = sort_by-Has comes_before u now _ (
    values-Has u now _ (merge_incoming-IsKeyed now incoming _ (by_url-IsKeyed local [] tt))
      (merge_incoming-IsSeen u now incoming (by_url local []) h))
