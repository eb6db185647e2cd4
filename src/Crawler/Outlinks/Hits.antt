-- ===== src/Crawler/Outlinks/Hits.antt =====
-- src/db/outlink_hosts.rs: what a row tells of the links that were seen.
use community_search.Base.{
  ℕ, ◌+◌, ◌≡◌, ◌≢◌, refl, count_if, ap, ◌∙◌, inl, inr, Bool, Bool-cases, false, ◌&&◌, none, some,
  List, [], ◌∷◌, Text, eq_text, if◌then◌else◌, arith, Option-cases,
}
use community_search.Base.Table.{lookup, lookup-insert, text_pair_key, lookup-same}
use community_search.Crawler.Outlinks.{
  OutlinkExample, ExamplesJson, Status, pending, promoted, dismissed, Row, HostsTable, record_hit,
  update_hit, hit_row,
}

-- A link that a page has shown: its collection and host, the example, and the time.
pub record Hit : Type 0 where
  pub collection_id : Text
  pub host : Text
  pub example : OutlinkExample
  pub now : ℕ

abbrev pub is_about : Text → Text → Hit → Bool
is_about c h hit = eq_text hit.collection_id c && eq_text hit.host h

module _ (json : ExamplesJson) where
  -- The table after a hit; one that fails changes nothing.
  abbrev pub after_hit : HostsTable → Hit → HostsTable
  after_hit t hit = elim (record_hit json t hit.collection_id hit.host hit.example hit.now) [
    | none ↦ t
    | some t' ↦ t'
  ]

  abbrev pub record_all : List Hit → HostsTable → HostsTable
  record_all [] t = t
  record_all (hit ∷ hits) t = record_all hits (after_hit t hit)

  -- What the hits make of the row of a host.
  abbrev pub row_after : Text → Text → List Hit → Row → Row
  row_after c h [] row = row
  row_after c h (hit ∷ hits) row =
      row_after c h hits (if is_about c h hit then update_hit json hit.example hit.now row else row)

  lookup-record_hit-there :
      (t : HostsTable) (hit : Hit) (c h : Text)
      → is_about c h hit ≡ false
      → lookup (c, h) (after_hit t hit) ≡ lookup (c, h) t
  unfolding record_hit
  lookup-record_hit-there t hit c h there =
      elim (Option-cases (lookup (hit.collection_id, hit.host) t)) [
        | inl unknown ↦ elim (Option-cases (json.to_string (hit.example ∷ []))) [
          | inl fails ↦ rw (after_hit, unknown, fails) refl
          | inr (printed, prints) ↦
              rw (after_hit, unknown, prints)
                (lookup-insert (hit.collection_id, hit.host) (c, h) _ t ∙ rw there refl)
        ]
        | inr (old, found) ↦
            rw (after_hit, found)
              (lookup-insert (hit.collection_id, hit.host) (c, h) _ t ∙ rw there refl)
      ]

  lookup-record_hit :
      (t : HostsTable) (hit : Hit) (c h : Text) (row : Row)
      → lookup (c, h) t ≡ some row
      → lookup (c, h) (after_hit t hit)
        ≡ some (if is_about c h hit then update_hit json hit.example hit.now row else row)
  unfolding record_hit
  lookup-record_hit t hit c h row known = elim (Bool-cases (is_about c h hit)) [
    | inl here ↦
        rw (after_hit, here, lookup-same (hit.collection_id, hit.host) (c, h) t here ∙ known)
          (lookup-insert (hit.collection_id, hit.host) (c, h) _ t ∙ rw here refl)
    | inr there ↦ rw there (lookup-record_hit-there t hit c h there ∙ known)
  ]

  -- The row of a host after a run of hits is what the hits about that host make of it, in their order.
  pub lookup-record_all :
      (hits : List Hit) (t : HostsTable) (c h : Text) (row : Row)
      → lookup (c, h) t ≡ some row
      → lookup (c, h) (record_all hits t) ≡ some (row_after c h hits row)
  lookup-record_all [] t c h row known = known
  lookup-record_all (hit ∷ hits) t c h row known =
      lookup-record_all hits (after_hit t hit) c h _ (lookup-record_hit t hit c h row known)

  update_hit-settled :
      (example : OutlinkExample) (now : ℕ) (row : Row)
      → row.status ≢ pending
      → update_hit json example now row ≡ row
  unfolding update_hit
  update_hit-settled example now row settled = go row.status refl
    where
      go : (s : Status) → row.status ≡ s → update_hit json example now row ≡ row
      go pending e = absurd (settled e)
      go promoted e = ground (arith, e)
      go dismissed e = ground (arith, e)

  row_after-settled :
      (hits : List Hit) (c h : Text) (row : Row)
      → row.status ≢ pending
      → row_after c h hits row ≡ row
  row_after-settled [] c h row settled = refl
  row_after-settled (hit ∷ hits) c h row settled =
      ap (row_after c h hits) (ground (arith, update_hit-settled hit.example hit.now row settled))
      ∙ row_after-settled hits c h row settled

  -- The row of a host that the admin has promoted or dismissed stays as it is, whatever links to the
  -- host and to other hosts are seen later, and whichever of the writes fail.
  pub record_all-settled :
      (hits : List Hit) (t : HostsTable) (c h : Text) (row : Row)
      → lookup (c, h) t ≡ some row
      → row.status ≢ pending
      → lookup (c, h) (record_all hits t) ≡ some row
  record_all-settled hits t c h row known settled =
      lookup-record_all hits t c h row known ∙ ap some (row_after-settled hits c h row settled)

  row_after-pending :
      (hits : List Hit) (c h : Text) (row : Row)
      → row.status ≡ pending
      → ((row_after c h hits row).status ≡ pending)
        × ((row_after c h hits row).link_count ≡ row.link_count + count_if (is_about c h) hits)
        × ((row_after c h hits row).first_seen_at ≡ row.first_seen_at)
  unfolding update_hit
  row_after-pending [] c h row p = (p, omega arith, refl)
  row_after-pending (hit ∷ hits) c h row p = elim (Bool-cases (is_about c h hit)) [
    | inl here ↦
        rw (row_after, here, update_hit, p)
          (ground (arith, row_after-pending hits c h (hit_row json hit.example hit.now row) p))
    | inr there ↦ rw (row_after, there) (row_after-pending hits c h row p)
  ]

  -- A pending row counts the links that are seen to its host, and those only: after a run of hits it
  -- is pending still, its count has grown by the hits about it, and it keeps the time of the first.
  pub record_all-count :
      (hits : List Hit) (t : HostsTable) (c h : Text) (row : Row)
      → lookup (c, h) t ≡ some row
      → row.status ≡ pending
      → (after : Row) × (lookup (c, h) (record_all hits t) ≡ some after)
        × (after.status ≡ pending)
        × (after.link_count ≡ row.link_count + count_if (is_about c h) hits)
        × (after.first_seen_at ≡ row.first_seen_at)
  record_all-count hits t c h row known p =
      let counted = row_after-pending hits c h row p in
      (
        row_after c h hits row,
        lookup-record_all hits t c h row known,
        counted.0,
        counted.1,
        counted.2,
      )
