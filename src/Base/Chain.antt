-- ===== src/Base/Chain.antt =====
-- Chains of steps that may fail, for `do` blocks: `?` on a `Result`, where what was written before the
-- failure stays written until it is rolled back.
use mathlib.Core.Path.{◌≡◌, refl, subst}
use mathlib.Core.Logic.{◌⊎◌, inl, inr}
use mathlib.Core.Bool.{Bool, true, false}
use community_search.Base.Tests.{if◌then◌else◌}

-- A step hands back what it has made of the state also where it fails.
pub data Attempt (A : Type 0) : Type 0 where
  done : A → Attempt A
  failed : A → Attempt A

infixl 5 ◌>>=◌
abbrev pub ◌>>=◌ : {A : Type 0} → Attempt A → (A → Attempt A) → Attempt A
failed a >>= f = failed a
done a >>= f = f a

-- What holds of the result, where the chain succeeds.
abbrev pub Holds {κ} : {A : Type 0} → (A → Type κ) → Attempt A → Type κ
Holds P (failed a) = Unit
Holds P (done a) = P a

pub Holds->>= {μ ν} :
    {A : Type 0} (P : A → Type μ) (Q : A → Type ν) (m : Attempt A) (f : A → Attempt A)
    → Holds P m
    → ((a : A) → P a → Holds Q (f a))
    → Holds Q (m >>= f)
Holds->>= P Q (failed a) f h g = _
Holds->>= P Q (done a) f h g = g a h

-- A step behind a guard.
pub Holds-guard {κ} :
    {A : Type 0} (P : A → Type κ) (b : Bool) (left a : A)
    → P a
    → Holds P (if b then failed left else done a)
Holds-guard P true left a h = _
Holds-guard P false left a h = h

pub Holds-chain {κ} :
    {A : Type 0} (P : A → Type κ) (m : Attempt A) (f : A → Attempt A)
    → Holds P m
    → ((a : A) → P a → Holds P (f a))
    → Holds P (m >>= f)
Holds-chain P = Holds->>= P P

pub Holds-done {κ} :
    {A : Type 0} (P : A → Type κ) (m : Attempt A) (a : A) → m ≡ done a → Holds P m → P a
Holds-done P m a e h = subst (Holds P) e h

pub Holds-mono {κ μ} :
    {A : Type 0} (P : A → Type κ) (Q : A → Type μ) (m : Attempt A)
    → ((a : A) → P a → Q a)
    → Holds P m
    → Holds Q m
Holds-mono P Q (failed a) f h = _
Holds-mono P Q (done a) f h = f a h

pub Attempt-cases :
    {A : Type 0} (m : Attempt A) → ((a : A) × (m ≡ done a)) ⊎ ((a : A) × (m ≡ failed a))
Attempt-cases (done a) = inl (a, refl)
Attempt-cases (failed a) = inr (a, refl)
