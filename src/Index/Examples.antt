-- ===== src/Index/Examples.antt =====
-- src/index/indexer.rs: a run of the indexer, and its theorems at concrete inputs.
use community_search.Base.{
  ◌+◌, ◌%◌, ◌<◌, ◌≤◌, arith, ◌≡◌, refl, true, none, some, List, [], ◌∷◌, ◌++◌, Text, text, eq_text,
  length, retain, not,
}
use community_search.Base.Table.{lookup, insert}
use community_search.Crawler.{ok}
use community_search.Crawler.UrlClass.{UrlApi}
use community_search.Crawler.Pages.{CrawledPageRow, mark_indexed, mark_indexed_batch}
use community_search.Crawler.Page.{IndexJob}
use community_search.Index.{
  Tantivy, Indexer, upsert_received, upserts_closed, running, ended, upsert, commit, settle, flush,
  on_upsert, turn, document_host, batch_size, channel_capacity,
}
use community_search.Index.Inflight.{
  at_rest, counts, sends, receives, Steps, none_more, one_more, Steps-counted, shutdown_drains,
}

-- An engine that keeps the URLs of its documents.
abbrev engine : Tantivy (List Text)
engine = record {
  delete_term = λ url urls. retain (λ u. not (eq_text u url)) urls;
  add_document = λ doc urls. some (urls ++ doc.url ∷ []);
  commit = λ urls. some urls;
}

abbrev api : UrlApi Text
api = record {
  parse = λ t. some t;
  to_string = λ t. t;
  scheme = λ t. text "http";
  host_str = λ t. some t;
  port = λ t. none;
  query_pairs = λ t. none;
  clear_fragment = λ t. t;
  clear_username = λ t. t;
  clear_password = λ t. t;
  clear_port = λ t. t;
  clear_query = λ t. t;
  write_query = λ ps t. t;
}

abbrev job : IndexJob
job = record {
  collection_name = text "C";
  url = text "u";
  title = [];
  body = text "hello";
  indexed_at = 7;
  collection_id = text "c";
  content_hash = text "h";
}

abbrev page_row : CrawledPageRow
page_row = record {
  collection_id = text "c";
  crawl_target_id = text "t";
  url = text "u";
  etag = none;
  last_modified = none;
  content_hash = some (text "h");
  last_status = some 200;
  last_crawled_at = 5;
  indexed_content_hash = none;
}

abbrev idle : Indexer (List Text)
idle = record {
  writer = record { index = []; journal = [] };
  pending = 0;
  deadline = 5000;
  delete_open = true;
  pages = ((text "c", text "u"), page_row) ∷ [];
  inflight = 0;
}

abbrev busy : Indexer (List Text)
busy = record idle {
  writer = record {
    index = text "u" ∷ [];
    journal = record { collection_id = text "c"; url = text "u"; content_hash = text "h" } ∷ [];
  };
  pending = 1;
  inflight = 1;
}

abbrev drained : Indexer (List Text)
drained = record idle {
  writer = record { index = text "u" ∷ []; journal = [] };
  pending = 1;
  pages = ((text "c", text "u"), record page_row { indexed_content_hash = some (text "h") }) ∷ [];
}

receive_run :
    turn api engine true 100 (upsert_received job) (record idle { inflight = 1 }) ≡ running busy
unfolding turn on_upsert upsert flush commit settle document_host
receive_run = refl

shutdown_run : turn api engine true 200 upserts_closed busy ≡ ended (ok tt) drained
unfolding turn flush commit settle mark_indexed_batch mark_indexed lookup insert eq_text
shutdown_run = refl

one_job : Steps api engine (at_rest idle) (at_rest busy)
one_job =
    one_more (one_more (one_more none_more (counts job)) (sends [] [] job (omega arith)))
      (receives true 100 receive_run)

Steps-counted_example :
    (busy.inflight
      ≡ (length {A = IndexJob} [] + length {A = IndexJob} [] + length busy.writer.journal + 0)
        % 18446744073709551616)
    × (busy.pending ≡ length busy.writer.journal)
    × (length busy.writer.journal < batch_size)
    × (length {A = IndexJob} [] ≤ channel_capacity)
Steps-counted_example = Steps-counted api engine idle (at_rest busy) refl refl refl one_job

shutdown_drains_example : (drained.inflight ≡ 0) × (length drained.writer.journal ≡ 0)
shutdown_drains_example =
    shutdown_drains api engine idle busy drained true 200 refl refl refl one_job shutdown_run
