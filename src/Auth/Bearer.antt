-- ===== src/Auth/Bearer.antt =====
-- src/api/auth.rs: the bearer token of an `Authorization` header, and the comparison of tokens.
use Prim.Native.Nat.{bit_xor, bit_or}
use community_search.Base.{
  ℕ, zero, suc, ◌+◌, ◌<◌, ◌≡◌, ◌≢◌, ◌∙◌, sym, inl, inr, Bool-cases, refl, Bool, true, false, ◌&&◌,
  Option, none, some, [], ◌∷◌, arith, Text, text, eq_text, is_empty, ltb, leb, ◌==◌, if◌then◌else◌,
  length, All,
}
use community_search.ClientIp.{trim, first_part}

abbrev lower : ℕ → ℕ
lower c = if leb b'A' c && leb c b'Z' then c + 32 else c

-- `str::eq_ignore_ascii_case`
unfoldable pub eq_ignore_ascii_case : Text → Text → Bool
eq_ignore_ascii_case [] [] = true
eq_ignore_ascii_case (x ∷ xs) (y ∷ ys) = lower x == lower y && eq_ignore_ascii_case xs ys
eq_ignore_ascii_case xs ys = false

-- What follows the first space, the second part of `splitn(2, ' ')`; `none` if there is no space.
unfoldable pub after_space : Text → Option Text
after_space [] = none
after_space (c ∷ s) = if c == b' ' then some s else after_space s

abbrev nonempty_token : Option Text → Option Text
nonempty_token none = none
nonempty_token (some rest) = let token = trim rest in if is_empty token then none else some token

unfoldable pub extract_bearer : Text → Option Text
unfolding eq_ignore_ascii_case after_space first_part
extract_bearer authorization =
    if eq_ignore_ascii_case (first_part b' ' authorization) (text "bearer")
    then nonempty_token (after_space authorization)
    else none

-- `for (x, y) in a.iter().zip(b.iter()) { diff |= x ^ y; }`
unfoldable pub diff_bytes : ℕ → Text → Text → ℕ
diff_bytes diff [] ys = diff
diff_bytes diff (x ∷ xs) [] = diff
diff_bytes diff (x ∷ xs) (y ∷ ys) = diff_bytes (bit_or diff (bit_xor x y)) xs ys

unfoldable pub constant_time_eq : Text → Text → Bool
constant_time_eq a b = if length a == length b then diff_bytes 0 a b == 0 else false

-- A text of bytes.
abbrev pub IsBytes : Text → Type 0
IsBytes = All (λ c. c < 256)

-- A test of every number up to a bound, to establish facts about bytes.
holds_up_to : (ℕ → Bool) → ℕ → Bool
holds_up_to test zero = true
holds_up_to test (suc top) = if test top then holds_up_to test top else false

holds_up_to-at :
    (test : ℕ → Bool) (top : ℕ)
    → holds_up_to test top ≡ true
    → (byte : ℕ) → byte < top
    → test byte ≡ true
unfolding holds_up_to
holds_up_to-at test zero all byte low = elim low [ ]
holds_up_to-at test (suc top) all byte low =
    ground (arith, λ (rest : holds_up_to test top ≡ true). holds_up_to-at test top rest byte)

abbrev agree : Bool → Bool → Bool
agree true b = b
agree false true = false
agree false false = true

abbrev xor_fact : ℕ → ℕ → Bool
xor_fact x y = agree (bit_xor x y == 0) (x == y) && ltb (bit_xor x y) 256

abbrev or_fact : ℕ → ℕ → Bool
or_fact x y = agree (bit_or x y == 0) (x == 0 && y == 0) && ltb (bit_or x y) 256

xor_table : holds_up_to (λ x. holds_up_to (xor_fact x) 256) 256 ≡ true
unfolding holds_up_to
xor_table = refl

or_table : holds_up_to (λ x. holds_up_to (or_fact x) 256) 256 ≡ true
unfolding holds_up_to
or_table = refl

module _ (x y : ℕ) (hx : x < 256) (hy : y < 256) where
  xor_lem : ((bit_xor x y == 0) ≡ (x == y)) × (bit_xor x y < 256)
  xor_lem =
      let row = holds_up_to-at (λ x. holds_up_to (xor_fact x) 256) 256 xor_table x hx in
      let fact = holds_up_to-at (xor_fact x) 256 row y hy in ground arith

  or_lem : ((bit_or x y == 0) ≡ (x == 0 && y == 0)) × (bit_or x y < 256)
  or_lem =
      let row = holds_up_to-at (λ x. holds_up_to (or_fact x) 256) 256 or_table x hx in
      let fact = holds_up_to-at (or_fact x) 256 row y hy in ground arith

diff_bytes-zero :
    (d : ℕ) (xs ys : Text)
    → d < 256
    → IsBytes xs
    → IsBytes ys
    → length xs ≡ length ys
    → (diff_bytes d xs ys == 0) ≡ (d == 0 && eq_text xs ys)
unfolding diff_bytes eq_text
diff_bytes-zero d [] [] hd hx hy e = ground arith
diff_bytes-zero d [] (y ∷ ys) hd hx hy e = absurd (omega arith)
diff_bytes-zero d (x ∷ xs) [] hd hx hy e = absurd (omega arith)
diff_bytes-zero d (x ∷ xs) (y ∷ ys) hd hx hy e =
    let xor = xor_lem x y hx.0 hy.0 in
    let or = or_lem d (bit_xor x y) hd xor.1 in
    diff_bytes-zero (bit_or d (bit_xor x y)) xs ys or.1 hx.1 hy.1 (omega arith) ∙ ground arith

eq_text-length : (a b : Text) → length a ≢ length b → eq_text a b ≡ false
unfolding eq_text
eq_text-length [] [] ne = absurd (ne refl)
eq_text-length [] (y ∷ ys) ne = refl
eq_text-length (x ∷ xs) [] ne = refl
eq_text-length (x ∷ xs) (y ∷ ys) ne = ground (arith, eq_text-length xs ys (λ e. ne (omega arith)))

-- The constant-time comparison of two byte strings is equality: it finds exactly the pairs that
-- agree in length and in every byte.
pub constant_time_eq-eq_text :
    (a b : Text) → IsBytes a → IsBytes b → constant_time_eq a b ≡ eq_text a b
unfolding constant_time_eq
constant_time_eq-eq_text a b ha hb = elim (Bool-cases (length a == length b)) [
  | inl same ↦ rw same (diff_bytes-zero 0 a b (omega arith) ha hb (ground arith))
  | inr other ↦ rw other (sym (eq_text-length a b (ground arith)))
]
