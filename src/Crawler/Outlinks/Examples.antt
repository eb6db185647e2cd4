-- ===== src/Crawler/Outlinks/Examples.antt =====
-- src/db/outlink_hosts.rs: runs, and the theorems at concrete inputs.
use community_search.Base.{
  ℕ, ◌+◌, ◌≡◌, ◌≢◌, refl, sym, ap, Option, none, some, List, [], ◌∷◌, Text, text, eq_text, count_if,
  map,
}
use community_search.Base.Table.{lookup, text_pair_key}
use community_search.Crawler.Outlinks.{
  OutlinkExample, ExamplesJson, Row, pending, dismissed, HostsTable,
}
use mathlib.Core.Option.{some-injective}
use community_search.Crawler.Outlinks.Cap.{AllCapped, record_all-AllCapped}
use community_search.Crawler.Outlinks.Hits.{
  Hit, is_about, record_all, record_all-settled, record_all-count,
}
use community_search.Crawler.Outlinks.Pending.{
  OutlinkHostRow, list_pending, pending_rows, insert_pending, count_for_collection, find,
}

-- A host that was dismissed, and one that is pending.
abbrev pub json : ExamplesJson
json = record { from_str = λ t. some []; to_string = λ examples. some (text "[...]") }

abbrev pending_row : Row
pending_row = record {
  rowid = 1;
  link_count = 1;
  examples_json = text "[]";
  first_seen_at = 10;
  last_seen_at = 10;
  status = pending;
  promoted_target_id = none;
}

abbrev dismissed_row : Row
dismissed_row = record pending_row { status = dismissed }

abbrev hosts_with : Row → HostsTable
hosts_with row = ((text "c", text "x.org"), row) ∷ []

abbrev hit : ℕ → Hit
hit now = record {
  collection_id = text "c";
  host = text "x.org";
  example = record {
    source_url = text "http://a/";
    target_url = text "http://a/b";
    link_text = [];
  };
  now = now;
}

found_host : (row : Row) → lookup (text "c", text "x.org") (hosts_with row) ≡ some row
unfolding lookup eq_text
found_host row = refl

not_pending : dismissed ≢ pending
not_pending e = cc

record_all-settled_example :
    lookup
      (text "c", text "x.org")
      (record_all json (hit 20 ∷ hit 30 ∷ []) (hosts_with dismissed_row))
    ≡ some dismissed_row
record_all-settled_example =
    record_all-settled json (hit 20 ∷ hit 30 ∷ []) (hosts_with dismissed_row) (text "c")
      (text "x.org") dismissed_row (found_host dismissed_row) not_pending

record_all-count_example :
    (after : Row) × (lookup
        (text "c", text "x.org")
        (record_all json (hit 20 ∷ hit 30 ∷ []) (hosts_with pending_row))
      ≡ some after)
    × (after.status ≡ pending)
    × (after.link_count ≡ 1 + count_if (is_about (text "c") (text "x.org")) (hit 20 ∷ hit 30 ∷ []))
    × (after.first_seen_at ≡ 10)
record_all-count_example =
    record_all-count json (hit 20 ∷ hit 30 ∷ []) (hosts_with pending_row) (text "c") (text "x.org")
      pending_row (found_host pending_row) refl

-- A printer that knows the empty list, and the list of an example without texts.
abbrev print_texts : Text → Text → Text → Option Text
print_texts [] [] [] = some (text "x")
print_texts (c ∷ s) t l = none
print_texts [] (c ∷ t) l = none
print_texts [] [] (c ∷ l) = none

abbrev print_examples : List OutlinkExample → Option Text
print_examples [] = some []
print_examples (e ∷ []) = print_texts e.source_url e.target_url e.link_text
print_examples (e ∷ f ∷ es) = none

abbrev blank : OutlinkExample
blank = record { source_url = []; target_url = []; link_text = [] }

abbrev read_examples : Text → Option (List OutlinkExample)
read_examples [] = some []
read_examples (c ∷ s) = some (blank ∷ [])

abbrev small_json : ExamplesJson
small_json = record { from_str = read_examples; to_string = print_examples }

print_texts_back :
    (s u l t : Text)
    → print_texts s u l ≡ some t
    → read_examples t ≡ some (record { source_url = s; target_url = u; link_text = l } ∷ [])
print_texts_back [] [] [] t h = ap read_examples (sym (some-injective (text "x") t h))
print_texts_back (c ∷ s) u l t h = cc
print_texts_back [] (c ∷ u) l t h = cc
print_texts_back [] [] (c ∷ l) t h = cc

small_json_back :
    (xs : List OutlinkExample) (t : Text)
    → small_json.to_string xs ≡ some t
    → small_json.from_str t ≡ some xs
small_json_back [] t h = ap read_examples (sym (some-injective [] t h))
small_json_back (e ∷ []) t h = print_texts_back e.source_url e.target_url e.link_text t h
small_json_back (e ∷ f ∷ es) t h = cc

abbrev blank_hit : ℕ → Hit
blank_hit now = record (hit now) { example = blank }

none_is_no_row : (row : Row) → none ≢ some row
none_is_no_row row e = cc

empty-AllCapped : AllCapped small_json small_json_back []
unfolding lookup
empty-AllCapped = record { at = λ k row e. absurd (none_is_no_row row e) }

record_all-AllCapped_example :
    AllCapped small_json small_json_back
      (record_all small_json (blank_hit 20 ∷ blank_hit 30 ∷ []) [])
record_all-AllCapped_example =
    record_all-AllCapped small_json small_json_back (blank_hit 20 ∷ blank_hit 30 ∷ []) []
      empty-AllCapped

abbrev busy_hosts : HostsTable
busy_hosts =
    ((text "c", text "x.org"), pending_row)
    ∷ ((text "c", text "y.org"), record pending_row { rowid = 2; link_count = 3 })
    ∷ ((text "c", text "z.org"), dismissed_row)
    ∷ ((text "d", text "x.org"), record pending_row { rowid = 4 })
    ∷ []

abbrev hosts_of : Option (List OutlinkHostRow) → List Text
hosts_of none = []
hosts_of (some rows) = map (λ r. r.host) rows

-- The busiest host is first; a limit of 0 is one of 1; a collection that is not there is an error.
list_runs :
    (hosts_of (list_pending json busy_hosts (some (text "c")) none none)
      ≡ text "y.org" ∷ text "x.org" ∷ [])
    × (hosts_of (list_pending json busy_hosts (some (text "c")) (some 0) none) ≡ text "y.org" ∷ [])
    × (hosts_of (list_pending json busy_hosts (some (text "c")) none (some 1)) ≡ text "x.org" ∷ [])
    × (list_pending json busy_hosts none none none ≡ none)
    × (count_for_collection busy_hosts (text "c") ≡ 3)
    × (find busy_hosts 4
        ≡ some (record { rowid = 4; collection_id = text "d"; host = text "x.org" }))
    × (find busy_hosts 5 ≡ none)
unfolding list_pending pending_rows insert_pending count_for_collection find eq_text
list_runs = (refl, refl, refl, refl, refl, refl, refl)
