-- ===== src/Crawler/Outlinks/Cap.antt =====
-- src/db/outlink_hosts.rs: how many examples a host keeps.
use community_search.Base.{
  ℕ, ◌≤◌, ◌≡◌, sym, ◌∙◌, inl, inr, ◌&&◌, Option, Option-cases, none, some, List, [], ◌∷◌, ◌++◌,
  Text, eq_text, if-cases, some-cases, subst, arith, leb, length, length-append,
}
use mathlib.Core.Option.{some-injective}
use community_search.Base.Table.{lookup, insert, lookup-insert, text_pair_key}
use community_search.Crawler.Outlinks.{
  OutlinkExample, ExamplesJson, Status, pending, promoted, dismissed, Row, HostsTable, record_hit,
  update_hit, merge_example, or_empty, is_known_example, max_examples, hit_row,
}
use community_search.Crawler.Outlinks.Hits.{Hit, after_hit, record_all}

abbrev kept_or : HostsTable → Option HostsTable → HostsTable
kept_or t none = t
kept_or t (some t') = t'

module _ (json : ExamplesJson)
    (reads_back : (xs : List OutlinkExample) (t : Text)
      → json.to_string xs ≡ some t
      → json.from_str t ≡ some xs) where
  abbrev pub IsCapped : Text → Type 0
  IsCapped examples_json = length (or_empty (json.from_str examples_json)) ≤ max_examples

  printed-IsCapped :
      (xs : List OutlinkExample) (t : Text)
      → json.to_string xs ≡ some t
      → length xs ≤ max_examples
      → IsCapped t
  printed-IsCapped xs t e h = rw (reads_back xs t e) h

  merge_example-IsCapped :
      (existing : Text) (new : OutlinkExample)
      → IsCapped existing
      → IsCapped (merge_example json existing new)
  unfolding merge_example
  merge_example-IsCapped existing new h =
      if-cases IsCapped (leb max_examples (length (or_empty (json.from_str existing)))) (λ full. h)
        (λ room.
          if-cases IsCapped (is_known_example new (or_empty (json.from_str existing))) (λ known. h)
            (λ fresh.
              some-cases IsCapped (json.to_string (or_empty (json.from_str existing) ++ new ∷ []))
                (λ fails. h)
                (λ merged e.
                  printed-IsCapped _ merged e (
                    ground (arith, length-append (or_empty (json.from_str existing)) (new ∷ []))))))

  update_hit-IsCapped :
      (example : OutlinkExample) (now : ℕ) (row : Row)
      → IsCapped row.examples_json
      → IsCapped (update_hit json example now row).examples_json
  unfolding update_hit
  update_hit-IsCapped example now row h = go row.status
    where
      abbrev_row : Status → Row
      abbrev_row pending = hit_row json example now row
      abbrev_row promoted = row
      abbrev_row dismissed = row

      go : (s : Status) → IsCapped (abbrev_row s).examples_json
      go pending = merge_example-IsCapped row.examples_json example h
      go promoted = h
      go dismissed = h

  pub record AllCapped (t : HostsTable) : Type 0 where
    pub at : (k : Text × Text) (row : Row) → lookup k t ≡ some row → IsCapped row.examples_json

  insert-AllCapped :
      (k : Text × Text) (row : Row) (t : HostsTable)
      → IsCapped row.examples_json
      → AllCapped t
      → AllCapped (insert k row t)
  insert-AllCapped k row t h all = record {
    at = λ j other e.
        if-cases (λ (o : Option Row). o ≡ some other → IsCapped other.examples_json)
          (eq_text k.0 j.0 && eq_text k.1 j.1)
          (λ same q. subst (λ (r : Row). IsCapped r.examples_json) (some-injective row other q) h)
          (λ differs q. all.at j other q) (sym (lookup-insert k j row t) ∙ e);
  }

  after_hit-AllCapped :
      (t : HostsTable) (hit : Hit) → AllCapped t → AllCapped (after_hit json t hit)
  unfolding record_hit
  after_hit-AllCapped t hit all = elim (Option-cases (lookup (hit.collection_id, hit.host) t)) [
    | inl unknown ↦
        rw (after_hit, unknown)
          (some-cases (λ (o : Option HostsTable). AllCapped (kept_or t o))
            (json.to_string (hit.example ∷ [])) (λ fails. all)
            (λ printed e.
              insert-AllCapped (hit.collection_id, hit.host) _ t
                (printed-IsCapped (hit.example ∷ []) printed e (omega arith)) all))
    | inr (row, known) ↦
        rw (after_hit, known)
          (insert-AllCapped (hit.collection_id, hit.host) _ t
            (update_hit-IsCapped hit.example hit.now row
              (all.at (hit.collection_id, hit.host) row known))
            all)
  ]

  -- Whatever links are seen, and whichever of the writes fail, no row of the table ever has more than
  -- five examples, if none had at first: `serde_json` reads back what it prints.
  pub record_all-AllCapped :
      (hits : List Hit) (t : HostsTable) → AllCapped t → AllCapped (record_all json hits t)
  record_all-AllCapped [] t all = all
  record_all-AllCapped (hit ∷ hits) t all =
      record_all-AllCapped hits (after_hit json t hit) (after_hit-AllCapped t hit all)
