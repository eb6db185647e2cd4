-- ===== src/Crawler/UrlClass/Query.antt =====
-- src/crawler/url_class.rs: the query of a normalized URL.
use community_search.Base.{
  ◌≡◌, refl, ap, inl, inr, Bool, Bool-cases, true, false, not, List, [], ◌∷◌, ◌++◌, Text, retain,
  All, arith,
}
use community_search.Crawler.UrlClass.{
  is_tracking_param, leb_text, insert_param, sort_params, kept_params,
}

abbrev is_kept : Text × Text → Bool
is_kept p = not (is_tracking_param p.0)

-- In the order of the keys.
abbrev pub IsOrdered : List (Text × Text) → Type 0
IsOrdered [] = Unit
IsOrdered (p ∷ ps) = All (λ q. leb_text p.0 q.0 ≡ true) ps × IsOrdered ps

leb_text_total : (s t : Text) → leb_text s t ≡ false → leb_text t s ≡ true
unfolding leb_text
leb_text_total [] t h = cc
leb_text_total (x ∷ s) [] h = refl
leb_text_total (x ∷ s) (y ∷ t) h = ground (arith, leb_text_total s t)

leb_text_trans : (s t u : Text) → leb_text s t ≡ true → leb_text t u ≡ true → leb_text s u ≡ true
unfolding leb_text
leb_text_trans [] t u h k = refl
leb_text_trans (x ∷ s) [] u h k = cc
leb_text_trans (x ∷ s) (y ∷ t) [] h k = cc
leb_text_trans (x ∷ s) (y ∷ t) (z ∷ u) h k = ground (arith, leb_text_trans s t u)

All-le :
    (s t : Text) (ps : List (Text × Text))
    → leb_text s t ≡ true
    → All (λ q. leb_text t q.0 ≡ true) ps
    → All (λ q. leb_text s q.0 ≡ true) ps
All-le s t [] h k = tt
All-le s t (p ∷ ps) h k = (leb_text_trans s t p.0 h k.0, All-le s t ps h k.1)

insert_param-All :
    (P : Text × Text → Type 0) (p : Text × Text) (ps : List (Text × Text))
    → P p
    → All P ps
    → All P (insert_param p ps)
unfolding insert_param
insert_param-All P p [] h k = (h, tt)
insert_param-All P p (q ∷ qs) h k = elim (Bool-cases (leb_text p.0 q.0)) [
  | inl le ↦ rw le (h, k)
  | inr gt ↦ rw gt (k.0, insert_param-All P p qs h k.1)
]

insert_param-IsOrdered :
    (p : Text × Text) (ps : List (Text × Text)) → IsOrdered ps → IsOrdered (insert_param p ps)
unfolding insert_param
insert_param-IsOrdered p [] k = (tt, tt)
insert_param-IsOrdered p (q ∷ qs) k = elim (Bool-cases (leb_text p.0 q.0)) [
  | inl le ↦ rw le ((le, All-le p.0 q.0 qs le k.0), k)
  | inr gt ↦ rw gt (
    insert_param-All (λ r. leb_text q.0 r.0 ≡ true) p qs (leb_text_total p.0 q.0 gt) k.0,
    insert_param-IsOrdered p qs k.1,
  )
]

sort_params-IsOrdered : (ps : List (Text × Text)) → IsOrdered (sort_params ps)
unfolding sort_params
sort_params-IsOrdered [] = tt
sort_params-IsOrdered (p ∷ ps) = insert_param-IsOrdered p _ (sort_params-IsOrdered ps)

sort_params-All :
    (P : Text × Text → Type 0) (ps : List (Text × Text)) → All P ps → All P (sort_params ps)
unfolding sort_params
sort_params-All P [] h = tt
sort_params-All P (p ∷ ps) h = insert_param-All P p _ h.0 (sort_params-All P ps h.1)

insert_param-first :
    (p : Text × Text) (ps : List (Text × Text))
    → All (λ q. leb_text p.0 q.0 ≡ true) ps
    → insert_param p ps ≡ p ∷ ps
unfolding insert_param
insert_param-first p [] h = refl
insert_param-first p (q ∷ qs) h = rw h.0 refl

sort_params_self : (ps : List (Text × Text)) → IsOrdered ps → sort_params ps ≡ ps
unfolding sort_params
sort_params_self [] h = refl
sort_params_self (p ∷ ps) h = rw (sort_params_self ps h.1) (insert_param-first p ps h.0)

retain-is_kept : (ps : List (Text × Text)) → All (λ p. is_kept p ≡ true) (retain is_kept ps)
retain-is_kept [] = tt
retain-is_kept (p ∷ ps) = elim (Bool-cases (is_kept p)) [
  | inl kept ↦ rw kept (kept, retain-is_kept ps)
  | inr gone ↦ rw gone (retain-is_kept ps)
]

retain_self : (ps : List (Text × Text)) → All (λ p. is_kept p ≡ true) ps → retain is_kept ps ≡ ps
retain_self [] h = refl
retain_self (p ∷ ps) h = rw h.0 (ap (λ qs. p ∷ qs) (retain_self ps h.1))

no_tracking :
    (ps : List (Text × Text))
    → All (λ p. is_kept p ≡ true) ps
    → All (λ p. is_tracking_param p.0 ≡ false) ps
no_tracking [] a = tt
no_tracking (p ∷ ps) a = (ground (arith, a.0), no_tracking ps a.1)

retain-tracking :
    (k v : Text) (ps after : List (Text × Text))
    → is_tracking_param k ≡ true
    → retain is_kept (ps ++ (k, v) ∷ after) ≡ retain is_kept (ps ++ after)
retain-tracking k v [] after h = ground (arith, h)
retain-tracking k v (p ∷ ps) after h = ground (arith, retain-tracking k v ps after h)

-- The query that is kept has its keys in order and no tracking parameter; it is kept as it is when it
-- is normalized again; and a tracking parameter, wherever it stands in the query, does not count.
pub kept_params_canonical :
    (ps before after : List (Text × Text)) (k v : Text)
    → is_tracking_param k ≡ true
    → IsOrdered (kept_params ps)
      × All (λ p. is_tracking_param p.0 ≡ false) (kept_params ps)
      × (kept_params (kept_params ps) ≡ kept_params ps)
      × (kept_params (before ++ (k, v) ∷ after) ≡ kept_params (before ++ after))
unfolding kept_params
kept_params_canonical ps before after k v h =
    let ordered : IsOrdered (sort_params (retain is_kept ps)) = sort_params-IsOrdered _ in
    let kept : All (λ p. is_kept p ≡ true) (sort_params (retain is_kept ps)) =
      sort_params-All (λ p. is_kept p ≡ true) _ (retain-is_kept ps) in
    (
      ordered,
      no_tracking _ kept,
      rw (retain_self (sort_params (retain is_kept ps)) kept) (sort_params_self _ ordered),
      ap sort_params (retain-tracking k v before after h),
    )
