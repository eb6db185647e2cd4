-- ===== src/Crawler/UrlClass.antt =====
-- src/crawler/url_class.rs: the normal form of a URL, and its place relative to a prefix.
--
-- The url crate is a parameter: `UrlApi` has its operations on a parsed URL. The searches in
-- strings are those of the standard library, on bytes.
pub mod Query
use community_search.Base.{
  ℕ, zero, suc, ◌+◌, Bool, true, false, not, ◌&&◌, ◌||◌, Option, none, some, List, [], ◌∷◌, ◌++◌,
  Text, text, eq_text, ltb, ◌==◌, if◌then◌else◌, retain, length, drop,
}
use community_search.Auth.Bearer.{eq_ignore_ascii_case}

-- What the source uses of `url::Url`.
pub record UrlApi (Url : Type 0) : Type 0 where
  pub parse : Text → Option Url
  pub to_string : Url → Text
  pub scheme : Url → Text
  pub host_str : Url → Option Text
  pub port : Url → Option ℕ
  pub query_pairs : Url → Option (List (Text × Text))
  pub clear_fragment : Url → Url
  pub clear_username : Url → Url
  pub clear_password : Url → Url
  pub clear_port : Url → Url
  pub clear_query : Url → Url
  pub write_query : List (Text × Text) → Url → Url

abbrev tracking_params : List Text
tracking_params =
    text "utm_source"
    ∷ text "utm_medium"
    ∷ text "utm_campaign"
    ∷ text "utm_term"
    ∷ text "utm_content"
    ∷ text "utm_id"
    ∷ text "utm_name"
    ∷ text "utm_reader"
    ∷ text "utm_referrer"
    ∷ text "gclid"
    ∷ text "dclid"
    ∷ text "_ga"
    ∷ text "fbclid"
    ∷ text "msclkid"
    ∷ text "li_fat_id"
    ∷ text "yclid"
    ∷ text "ttclid"
    ∷ text "mc_cid"
    ∷ text "mc_eid"
    ∷ text "_hsenc"
    ∷ text "_hsmi"
    ∷ text "__hssc"
    ∷ text "__hstc"
    ∷ text "hsCtaTracking"
    ∷ text "ref"
    ∷ text "ref_src"
    ∷ text "ref_url"
    ∷ text "igshid"
    ∷ text "oly_anon_id"
    ∷ text "oly_enc_id"
    ∷ text "wickedid"
    ∷ text "guce_referrer"
    ∷ []

abbrev pub any_text : (Text → Bool) → List Text → Bool
any_text p [] = false
any_text p (t ∷ ts) = p t || any_text p ts

unfoldable pub is_tracking_param : Text → Bool
is_tracking_param name = any_text (λ p. eq_ignore_ascii_case p name) tracking_params

-- `a ≤ b` in the order of byte strings.
unfoldable pub leb_text : Text → Text → Bool
leb_text [] t = true
leb_text (x ∷ s) [] = false
leb_text (x ∷ s) (y ∷ t) = let rest = leb_text s t in ltb x y || x == y && rest

-- `sort_by` on the key is stable: an insertion sort from the right.
unfoldable pub insert_param : Text × Text → List (Text × Text) → List (Text × Text)
insert_param p [] = p ∷ []
insert_param p (q ∷ qs) =
    let rest = insert_param p qs in if leb_text p.0 q.0 then p ∷ q ∷ qs else q ∷ rest

unfoldable pub sort_params : List (Text × Text) → List (Text × Text)
sort_params [] = []
sort_params (p ∷ ps) = insert_param p (sort_params ps)

-- The query that is kept: filtered, then sorted.
unfoldable pub kept_params : List (Text × Text) → List (Text × Text)
kept_params ps = sort_params (retain (λ p. not (is_tracking_param p.0)) ps)

abbrev pub is_default_port : Text → ℕ → Bool
is_default_port scheme port =
    eq_text scheme (text "http") && port == 80 || eq_text scheme (text "https") && port == 443

-- `str::strip_prefix`
unfoldable pub strip_prefix : Text → Text → Option Text
strip_prefix [] s = some s
strip_prefix (x ∷ p) [] = none
strip_prefix (x ∷ p) (y ∷ s) = let rest = strip_prefix p s in if x == y then rest else none

abbrev pub starts_with : Text → Text → Bool
starts_with s p = elim (strip_prefix p s) [ none ↦ false | some rest ↦ true ]

-- `str::ends_with`
unfoldable pub ends_with : Text → Text → Bool
ends_with [] p = eq_text [] p
ends_with (x ∷ s) p = eq_text (x ∷ s) p || ends_with s p

-- `replacen(from, to, 1)`
unfoldable pub replace_first : Text → Text → Text → Text
replace_first from to [] = elim (strip_prefix from []) [ none ↦ [] | some rest ↦ to ++ rest ]
replace_first from to (x ∷ s) =
    let later = replace_first from to s in
    elim (strip_prefix from (x ∷ s)) [ none ↦ x ∷ later | some rest ↦ to ++ rest ]

unfoldable pub strip_leading_www : Text → Text
strip_leading_www normalized_url = replace_first (text "://www.") (text "://") normalized_url

-- `to_ascii_lowercase`
abbrev pub lowercase_byte : ℕ → ℕ
lowercase_byte c = if ltb 64 c && ltb c 91 then c + 32 else c

unfoldable pub to_ascii_lowercase : Text → Text
to_ascii_lowercase [] = []
to_ascii_lowercase (c ∷ s) = lowercase_byte c ∷ to_ascii_lowercase s

abbrev blacklisted_outlink_hosts : List Text
blacklisted_outlink_hosts =
    text "bufferapp.com"
    ∷ text "buffer.com"
    ∷ text "facebook.com"
    ∷ text "fb.com"
    ∷ text "instagram.com"
    ∷ text "linkedin.com"
    ∷ text "mix.com"
    ∷ text "odnoklassniki.ru"
    ∷ text "ok.ru"
    ∷ text "pinterest.com"
    ∷ text "reddit.com"
    ∷ text "t.co"
    ∷ text "threads.net"
    ∷ text "tiktok.com"
    ∷ text "tumblr.com"
    ∷ text "twitter.com"
    ∷ text "vk.com"
    ∷ text "whatsapp.com"
    ∷ text "x.com"
    ∷ text "xing.com"
    ∷ text "fbcdn.net"
    ∷ text "giphy.com"
    ∷ text "googleusercontent.com"
    ∷ text "gravatar.com"
    ∷ text "imgur.com"
    ∷ text "substackcdn.com"
    ∷ text "twimg.com"
    ∷ text "wp.com"
    ∷ text "youtube.com"
    ∷ text "youtu.be"
    ∷ []

-- The host itself, or one that ends in a dot and the host.
unfoldable pub is_blacklisted_host : Text → Bool
is_blacklisted_host host =
    any_text (λ target. eq_text host target || ends_with host (text "." ++ target))
      blacklisted_outlink_hosts

abbrev pub strip_www : Text → Text
strip_www host = elim (strip_prefix (text "www.") host) [ none ↦ host | some rest ↦ rest ]

module _ {Url : Type 0} (api : UrlApi Url) where
  unfoldable pub drop_default_port : Url → Url
  drop_default_port url = elim (api.port url) [
    | none ↦ url
    | some port ↦ if is_default_port (api.scheme url) port then api.clear_port url else url
  ]

  abbrev write_kept : List (Text × Text) → Url → Url
  write_kept [] url = api.clear_query url
  write_kept (p ∷ ps) url = api.write_query (p ∷ ps) url

  unfoldable pub rewrite_query : Url → Url
  rewrite_query url = elim (api.query_pairs url) [
    | none ↦ url
    | some pairs ↦ write_kept (kept_params pairs) url
  ]

  unfoldable pub normalize_url : Text → Option Text
  normalize_url input = elim (api.parse input) [
    | none ↦ none
    | some url ↦ some (
        api.to_string (
          rewrite_query
            (drop_default_port (api.clear_password (api.clear_username (api.clear_fragment url))))))
  ]

  unfoldable pub is_in_prefix : Text → Text → Bool
  is_in_prefix url prefix = elim (normalize_url url) [
    | none ↦ false
    | some u ↦ elim (normalize_url prefix) [
      | none ↦ false
      | some p ↦ starts_with (strip_leading_www u) (strip_leading_www p)
    ]
  ]

  unfoldable pub host_of : Text → Option Text
  host_of url = elim (api.parse url) [
    | none ↦ none
    | some parsed ↦ elim (api.host_str parsed) [
      | none ↦ none
      | some host ↦ some (strip_www (to_ascii_lowercase host))
    ]
  ]

  unfoldable pub is_blacklisted_outlink_host : Text → Bool
  is_blacklisted_outlink_host url = elim (api.parse url) [
    | none ↦ false
    | some parsed ↦ elim (api.host_str parsed) [
      | none ↦ false
      | some host ↦ is_blacklisted_host (to_ascii_lowercase host)
    ]
  ]
