-- ===== src/Crawler/Pages/Journal.antt =====
-- src/db/crawled_pages.rs: which writes move the journal of the index.
use community_search.Base.{
  ◌≡◌, refl, ap, ◌∙◌, inl, inr, Bool-cases, true, false, ◌&&◌, Option, some, List, [], ◌∷◌, Text,
  eq_text, eq_text_iff, if◌then◌else◌, arith, Option-cases,
}
use community_search.Base.Table.{lookup, lookup-insert, text_pair_key, lookup-same}
use community_search.Crawler.Pages.{
  CrawledPageRow, PagesTable, IndexedEntry, get_by_url, upsert, mark_indexed, mark_indexed_batch,
  journaled,
}

-- The hash that the journal holds for a page.
abbrev pub journal_of : PagesTable → Text → Text → Option Text
journal_of t c u = journaled (get_by_url t c u)

-- The entry of a batch that decides for a page is the last one about it.
abbrev pub last_entry : Text → Text → Option Text → List IndexedEntry → Option Text
last_entry c u found [] = found
last_entry c u found (e ∷ entries) =
    last_entry c u
      (if eq_text e.collection_id c && eq_text e.url u then some e.content_hash else found) entries

-- Writing a page moves the journal of no page, its own included.
pub journal-upsert :
    (t : PagesTable) (row : CrawledPageRow) (c u : Text)
    → journal_of (upsert t row) c u ≡ journal_of t c u
unfolding upsert get_by_url
journal-upsert t row c u = elim (Bool-cases (eq_text row.collection_id c && eq_text row.url u)) [
  | inl here ↦
      rw
        (lookup-insert (row.collection_id, row.url) (c, u)
          (record row { indexed_content_hash = journaled (lookup (row.collection_id, row.url) t) })
          t)
        (rw here (
          ap (λ k. journaled (lookup k t))
            (ground (arith, eq_text_iff row.collection_id c, eq_text_iff row.url u))))
  | inr there ↦
      rw
        (lookup-insert (row.collection_id, row.url) (c, u)
          (record row { indexed_content_hash = journaled (lookup (row.collection_id, row.url) t) })
          t)
        (rw there refl)
]

module _ (t : PagesTable) (e : IndexedEntry) (c u : Text) where
  get-mark_indexed-here :
      (row : CrawledPageRow)
      → (eq_text e.collection_id c && eq_text e.url u) ≡ true
      → get_by_url t c u ≡ some row
      → get_by_url (mark_indexed t e) c u
        ≡ some (record row { indexed_content_hash = some e.content_hash })
  unfolding get_by_url mark_indexed
  get-mark_indexed-here row here known =
      rw (mark_indexed, lookup-same (e.collection_id, e.url) (c, u) t here ∙ known)
        (lookup-insert (e.collection_id, e.url) (c, u)
            (record row { indexed_content_hash = some e.content_hash }) t
          ∙ rw here refl)

  get-mark_indexed-there :
      (eq_text e.collection_id c && eq_text e.url u) ≡ false
      → get_by_url (mark_indexed t e) c u ≡ get_by_url t c u
  unfolding get_by_url mark_indexed
  get-mark_indexed-there there = elim (Option-cases (lookup (e.collection_id, e.url) t)) [
    | inl unknown ↦ rw (mark_indexed, unknown) refl
    | inr (row, known) ↦
        rw (mark_indexed, known)
          (lookup-insert (e.collection_id, e.url) (c, u)
              (record row { indexed_content_hash = some e.content_hash }) t
            ∙ rw there refl)
  ]

-- A batch moves the journal of a known page to the last entry about it, and to nothing else.
pub journal-mark_indexed_batch :
    (t : PagesTable) (entries : List IndexedEntry) (c u : Text) (row : CrawledPageRow)
    → get_by_url t c u ≡ some row
    → journal_of (mark_indexed_batch t entries) c u
      ≡ last_entry c u row.indexed_content_hash entries
unfolding mark_indexed_batch
journal-mark_indexed_batch t [] c u row known = ap journaled known
journal-mark_indexed_batch t (e ∷ entries) c u row known =
    elim (Bool-cases (eq_text e.collection_id c && eq_text e.url u)) [
      | inl here ↦ rw here (
          journal-mark_indexed_batch (mark_indexed t e) entries c u
            (record row { indexed_content_hash = some e.content_hash })
            (get-mark_indexed-here t e c u row here known))
      | inr there ↦ rw there (
          journal-mark_indexed_batch (mark_indexed t e) entries c u row
            (get-mark_indexed-there t e c u there ∙ known))
    ]
