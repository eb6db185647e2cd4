-- ===== src/Lib.antt =====
-- A verification library of community-search, a federated search engine in Rust: one node crawls the
-- sites of its collections, indexes their pages, and answers searches for users, admins and peers.
--
-- The parts, and the files that model them (paths from the repository's root):
--
-- * Requests (`src/api`). Every public route passes `require_rate_limit` (RateLimit.Middleware), which
--   takes the client's address from `client_ip` (ClientIp), asks the cache of peer addresses
--   (RateLimit.PeerCache), and counts the request with `check_and_record` (RateLimit): the code of
--   `src/api/rate_limit.rs`. The admin routes pass `require_admin_token` (Auth) of `src/api/auth.rs`,
--   with the bearer token of Auth.Bearer and the lockout of `src/api/auth_attempts.rs`.
-- * The crawler (`src/crawler`). `crawl_target` (Crawler.Driver, `src/crawler/driver.rs`) runs
--   `crawl_page` (Crawler.Page, `src/crawler/page.rs`) over a queue of URLs. A page's URLs are
--   compared in the normal form of Crawler.UrlClass (`src/crawler/url_class.rs`). Its state goes to
--   `crawled_pages` (Crawler.Pages, `src/db/crawled_pages.rs`), the hosts it links to go to
--   `outlink_host_suggestions` (Crawler.Outlinks, `src/db/outlink_hosts.rs`), and its text goes to
--   the indexer as an `IndexJob`.
-- * Index holds the indexer and its writer (`src/index/indexer.rs`, `src/index/writer.rs`),
--   which commit the jobs in batches and then mark them in the journal, the column
--   `indexed_content_hash` of `crawled_pages`. Index.Inflight has the senders too: they count a job,
--   wait for room in the channel of 256, and hand it over.
-- * Scheduler (`src/crawler/scheduler.rs`) decides which targets are due, starts one task for each, and
--   runs `crawl_target` in it. Its steps are ticks, the ends of tasks, and edits of the tables by the
--   admin handlers.
-- * Gossip holds the engines that a node knows of (`src/federation/discovered.rs`), their merge with
--   a peer's list (`src/federation/gossip.rs`), the versions of the protocol (`src/protocol.rs`), and
--   the handler of `/api/gossip/exchange` (`src/api/gossip.rs`). Gossip.Outbound has the exchanges
--   that a node starts, and Gossip.Admin what an administrator does with the engines known
--   (`src/api/admin/discovered.rs`).
-- * Peers holds the node peers and the mappings of collections (`src/federation/storage.rs`), their
--   health (Peers.Health, `src/federation/health.rs`), the peers that a search is forwarded to
--   (Peers.Fanout, `src/federation/fanout.rs`), and the two answers to a search, one list or a stream of
--   events (Peers.Search, `src/api/public.rs`), which record the health of each peer asked.
-- * Ranking (`src/db/ranking_config.rs`, `src/search/ranking.rs`) has the ranking configurations of the
--   collections and the score of a document, and Ranking.Search (`src/search/service.rs`) the local
--   search, whose results a search begins with.
-- * Transfer (`src/api/admin/export_import.rs`) has the dump of a node (Transfer.Export), its merge into
--   the tables of another (Transfer.Import), and the transaction and the handler around the merge
--   (Transfer.Handler), which sends the documents of the dump to the indexer.
--
-- A module of definitions has the state of its part as a record and one function for each operation;
-- the modules under it prove what they are named for, and Examples runs the definitions and the
-- theorems on concrete inputs. Base has the shared vocabulary. In it a text is a list of bytes, and
-- an SQL table or a hash map is a keyed list (Base.Table), of which the proofs use the laws of lookup.
--
-- Effects are explicit: a function takes the state and returns the next. Whether SQLite answers a
-- statement is an argument (`Io`), so that every theorem says which answers it needs. Times are
-- numbers of seconds from 0, durations in the crawler are milliseconds. A `u32` or `i64` that may
-- wrap has its `% 2 ^ w` written out; subtractions that may go below zero are comparisons of sums.
--
-- Loops over lists are structural. The loop of `crawl_target` takes fuel and answers `none` when it
-- runs out. Its turns are bounded by the pages left to fetch, then by the length of the queue, then by
-- the 429 answers left before the fifth in a row; Crawler.Driver.Ends is about the fuel this needs.
--
-- Not in the repository, hence parameters: the url crate (`UrlApi`), serde_json, gzip, SHA-256, the HTTP
-- clients, SQLite's failures, tantivy, random UUIDs. Peers and Scheduler take SQLite to answer
-- and model its constraints; so does Transfer, but for the pragmas, BEGIN and COMMIT of an import, whose
-- transaction is that of SQLite: writes are undone unless they are committed. The robots check, the fetcher and the HTML parser of `src/crawler` are
-- parameters of `crawl_page` so far, the local search is one of Peers.Search, and the searcher over
-- the index is one of Ranking.Search. Floating-point numbers are values of abstract types. Not modelled:
-- the other admin handlers, the tables of collections and settings, the snippets of results, the MCP
-- endpoint, and the user interface.
pub mod Base
pub mod ClientIp
pub mod RateLimit
pub mod Auth
pub mod Crawler
pub mod Index
pub mod Gossip
pub mod Peers
pub mod Ranking
pub mod Scheduler
pub mod Transfer
