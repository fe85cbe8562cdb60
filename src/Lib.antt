-- ===== src/Lib.antt =====
-- News feed backend: a model of the server of this repository, and what is proved of it.
--
-- The program. A Fiber server answers requests over a PostgreSQL database: middlewares guard the
-- routes (middlewares/), a handler checks its input and opens a transaction
-- (services/endpoints/v1/), controllers carry the rules (services/controllers/), and queries that
-- sqlc generates touch the tables (sqlc/). Next to the requests a scheduler (services/cron/) runs a
-- sweep: it reads the feeds of the active sources, and the processor of services/discovery/ treats
-- each new item: links, embeds, sanitizing, keywords of the AI, storing, and the judgement that
-- puts it into the feeds of users.
--
-- Where it is modelled.
-- - Store: Models has the rows of sqlc/models.go and the database, a list of rows for each table.
--   Monad has actions on a world (database, time, failures to come, ids to come), and
--   WithTransaction of services/controllers/transaction.go as `with_transaction`; Rules has what
--   actions keep.
-- - Queries: sqlc/*.sql.go with the constraints of the schema, a function for each query. SELECT,
--   UPDATE and COUNT are the functions of Prelude.Rows.
-- - Controllers: services/controllers/*.go, a module for each file.
-- - Endpoints: the handlers of services/endpoints/v1/ that write, with the status they answer.
-- - Reading: the handlers that only read. Lists, Lookups, FeedArticles and Suggestions are the
--   handlers, Responses what they answer; the filters and the queries below them are
--   Controllers.Filters, Controllers.Listing and Controllers.Suggestions, and Queries.Order,
--   Queries.Listing, Queries.FeedArticles and Queries.Suggestions. Client is a client that asks for
--   one page after another; the other modules are proofs: Sorting, Tallies and FeedRows of the
--   queries, Refinement, ArticleLists and FeedPages of the pages put together, FeedSafety, Unread,
--   Agreement, ReadState, Untouched, Coverage, Ranking and Picks of single handlers.
-- - Ai: Answers is what services/ai reads of the answers of a model; Fences and Bounds are proofs.
-- - DryRuns: the handlers that try out a step of the discovery or translate, and store nothing:
--   Judging, Treating and Translating are judgement.go, treatment.go and translate.go of
--   services/endpoints/v1/articles/, Sweeping is sources/article_discovery.go; Agreement, Fresh and
--   Untouched are proofs.
-- - Middlewares: middlewares/auth.go, admin.go and app_status.go; Sessions and Guards are proofs.
-- - Judgement: Evaluate of services/judgement/judgement.go.
-- - Outbound: services/outboundlinks/outboundlinks.go. Hrefs has toStored and expand; Anchors the
--   tree of a body, collectDistinctHrefs and rewriteAnchors; Bodies Assign and Resolve.
-- - Discovery: Items is services/discovery/discovery.go; Lookup, Persist, Judge and Processor are
--   the steps of processor.go (alreadyExists and resolveInternalURLs, persist, judge, processOne
--   and Process); UrlTreatment is services/urltreatment/urltreatment.go; Sweep is DiscoveryRunner of
--   services/cron/cron.go.
-- - Network: services/safehttp/safehttp.go. Addresses is IsPublicAddr with the methods of net.IP
--   that it calls, Dialing restrictedDialContext.
-- - Oauth: States is services/oauthstate/oauthstate.go, Login has google.go and callback.go of
--   services/endpoints/v1/auth/.
-- - Pagination: services/pagination/pagination.go, with the wrap-around of int32 and int64.
-- - History: the requests and sweeps as events, and their runs. Changes lists what one statement
--   may change; Statements and Lift show that the operations are made of these changes; Bodies,
--   Discoveries, Sweeps and Runs carry an invariant through the operations, a sweep and a run.
--   Invariants instantiates them. Outcomes has single operations, Examples concrete inputs.
--
-- How code corresponds to the model. A method becomes a function of the same name in snake case; its
-- error results are `Result`, its guards and early returns are kept in their order. A continuation
-- behind a test or an error is a function by clauses beside it. Any statement, BEGIN and COMMIT
-- included, may fail at any time (`faults`), and any call of uuid.NewV7 (`uuids`); what such a
-- failure leaves is part of the model. Requests and sweeps run one after another, in any order and
-- number, with any time between them. There is no fuel: loops run over lists.
--
-- What stands outside, as parameters: `lower` (unicode.ToLower), `valid_url` (the URL check of the
-- validation), the signing and the parse of a token, strconv.Atoi, the HTML library (`parse` and
-- `render`), the embed treatment, the policies of services/sanitize, the language detector, the
-- resolver and the network, time.Parse, the function lower of the database, what
-- json.Unmarshal makes of an answer, and the AI. An AI may answer each call differently.
--
-- Simplifications. Instants are numbers on one clock for the server and the database. A JSONB array
-- of keywords is the list of its texts, so decoding it never fails. Signing an access token never
-- fails, and the claims stand for the token. The text that `%w` adds to an error is left out.
-- The threshold and the scores of the judgement are natural numbers, its ratio a fraction.
-- Texts are ordered by their code points, where the database has its collation.
-- An HTML node is an element or another node; the tag says whether it is an anchor.
--
-- Not modelled: the clients of the AI providers, the discovery of feeds of a site, the embeds and
-- the policies of sanitize, the health endpoint and CORS; the login of the development environment;
-- the text of the callback's location; rss and utctime; the worker pools of Process and fetchAll
-- (the sequential path is modelled) and the ticking of the scheduler; logging, the seed and the
-- wiring of main.go. In a history each request is finished before the next begins, so that
-- transactions that overlap are not modelled.
pub mod Prelude
pub mod Store
pub mod Queries
pub mod Controllers
pub mod Endpoints
pub mod History
pub mod Invariants
pub mod Outbound
pub mod Pagination
pub mod Outcomes
pub mod Judgement
pub mod Discovery
pub mod Middlewares
pub mod Network
pub mod Oauth
pub mod Reading
pub mod Ai
pub mod DryRuns
mod Examples
