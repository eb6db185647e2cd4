-- ===== src/ClientIp.antt =====
-- src/api/auth.rs, `client_ip`: the address that a request is counted against.
use community_search.Base.{
  ℕ, Option, none, some, Bool, ◌||◌, ◌&&◌, [], ◌∷◌, Text, text, ◌==◌, if◌then◌else◌, is_empty,
}

-- A header as the `http` crate hands it over: missing, not readable as text, or a text of visible
-- ASCII, spaces and tabs.
pub data Header : Type 0 where
  missing : Header
  unreadable : Header
  readable : Text → Header

-- `connect_info` is the address of the TCP peer, as text.
pub record Origin : Type 0 where
  pub forwarded_for : Header
  pub connect_info : Option Text

is_space : ℕ → Bool
is_space c = c == 32 || c == 9

-- `str::trim` on a header's characters, whose white space is the space and the tab.
unfoldable pub trim_start : Text → Text
unfolding is_space
trim_start [] = []
trim_start (c ∷ s) = if is_space c then trim_start s else c ∷ s

unfoldable pub trim_end : Text → Text
unfolding is_space is_empty
trim_end [] = []
trim_end (c ∷ s) = let rest = trim_end s in if is_empty rest && is_space c then [] else c ∷ rest

unfoldable pub trim : Text → Text
unfolding trim_start trim_end
trim s = trim_end (trim_start s)

-- `s.split(sep).next().unwrap_or("")`
unfoldable pub first_part : ℕ → Text → Text
first_part sep [] = []
first_part sep (c ∷ s) = if c == sep then [] else c ∷ first_part sep s

abbrev direct_ip : Option Text → Text
direct_ip none = text "unknown"
direct_ip (some address) = address

abbrev forwarded_ip : Text → Option Text → Text
forwarded_ip first direct = if is_empty first then direct_ip direct else first

unfoldable pub client_ip : Origin → Text
unfolding trim first_part is_empty
client_ip o = elim o.forwarded_for [
  | missing ↦ direct_ip o.connect_info
  | unreadable ↦ direct_ip o.connect_info
  | readable s ↦ forwarded_ip (trim (first_part b',' s)) o.connect_info
]
