-- ===== src/Base/Table.antt =====
-- Tables with a primary key: an SQL table, or a hash map. Rows keep their order of insertion;
-- clients use the laws below.
use mathlib.Core.Path.{◌≡◌, refl, ap}
use mathlib.Core.Logic.{◌↔◌}
use mathlib.Core.Bool.{Bool, true, ◌&&◌}
use mathlib.Core.List.{List, [], ◌∷◌}
use mathlib.Core.Option.{Option, none, some}
use native.Mathlib.Omega.{arith}
use Prim.Native.Nat.{ℕ, ◌+◌, max}
use community_search.Base.Tests.{◌==◌, if◌then◌else◌}
use community_search.Base.Bytes.{Text, eq_text, eq_text_iff}

-- Equality of keys.
pub record Key (K : Type 0) : Type 0 where
  pub same : K → K → Bool
  pub same_iff : (a b : K) → (same a b ≡ true) ↔ (a ≡ b)

pub ==_iff : (a b : ℕ) → ((a == b) ≡ true) ↔ (a ≡ b)
==_iff a b = ground arith

instance abbrev pub text_key : Key Text
text_key = record { same = eq_text; same_iff = eq_text_iff }

instance abbrev pub nat_key : Key ℕ
nat_key = record { same = λ a b. a == b; same_iff = ==_iff }

abbrev same_pair : Text × Text → Text × Text → Bool
same_pair a b = eq_text a.0 b.0 && eq_text a.1 b.1

pub same_pair_iff : (a b : Text × Text) → (same_pair a b ≡ true) ↔ (a ≡ b)
same_pair_iff (a, b) (c, d) = ground (arith, eq_text_iff a c, eq_text_iff b d)

-- A key of two columns.
instance abbrev pub text_pair_key : Key (Text × Text)
text_pair_key = record { same = same_pair; same_iff = same_pair_iff }

abbrev pub Table : Type 0 → Type 0 → Type 0
Table K V = List (K × V)

module _ {K V : Type 0} ⦃e : Key K⦄ where
  unfoldable pub lookup : K → Table K V → Option V
  lookup k [] = none
  lookup k ((j, v) ∷ t) = if e.same j k then some v else lookup k t

  -- INSERT … ON CONFLICT DO UPDATE, or `HashMap::insert`.
  unfoldable pub insert : K → V → Table K V → Table K V
  insert k v [] = (k, v) ∷ []
  insert k v ((j, w) ∷ t) = if e.same j k then (j, v) ∷ t else (j, w) ∷ insert k v t

  -- DELETE … WHERE key = k.
  unfoldable pub remove : K → Table K V → Table K V
  remove k [] = []
  remove k ((j, v) ∷ t) = let rest = remove k t in if e.same j k then rest else (j, v) ∷ rest

  pub lookup-insert :
      (k j : K) (v : V) (t : Table K V)
      → lookup j (insert k v t) ≡ (if e.same k j then some v else lookup j t)
  unfolding lookup insert
  lookup-insert k j v [] = refl
  lookup-insert k j v ((i, w) ∷ t) =
      ground (arith, lookup-insert k j v t, e.same_iff i k, e.same_iff i j, e.same_iff k j)

  pub lookup-remove :
      (k j : K) (t : Table K V) → lookup j (remove k t) ≡ (if e.same k j then none else lookup j t)
  unfolding lookup remove
  lookup-remove k j [] = ground arith
  lookup-remove k j ((i, v) ∷ t) =
      ground (arith, lookup-remove k j t, e.same_iff i k, e.same_iff i j, e.same_iff k j)

  pub lookup-same : (k j : K) (t : Table K V) → e.same k j ≡ true → lookup k t ≡ lookup j t
  lookup-same k j t h = ap (λ i. lookup i t) ((e.same_iff k j).0 h)

-- The key of a new row of an INTEGER PRIMARY KEY: one more than the largest.
unfoldable pub next_id : {A : Type 0} → (A → ℕ) → List A → ℕ
next_id key [] = 1
next_id key (r ∷ rows) = max (key r + 1) (next_id key rows)
