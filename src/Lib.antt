-- ===== src/Lib.antt =====
-- domain-status reads a list of URLs and records, for each, its redirect chain, its certificate,
-- its DNS records, the technologies that it uses and more, in an SQLite database. This library
-- models the parts of the scanner that decide what is fetched, how often it is tried, what is
-- kept, and how the run is accounted for.
--
-- The parts, with the files that model them and the code that each models:
--
-- Common: what the modules share. Rust's Result with `?` as bind, texts as lists of code
--   points, lists measured by native numbers, Boolean tests.
-- Security (src/security/url_validation.rs, src/security/safe_resolver.rs): the guard against
--   requests to private addresses. Security/Net holds the predicates of std::net that the guard
--   calls, Security/Ip is_private_ipv4 and is_private_ipv6, Security/Url validate_url_safe,
--   Security/Resolver the filter on the answers of the DNS resolver. The url crate and the
--   resolver are parameters; Security/Demo is a small concrete url crate for the examples.
-- Redirects (src/fetch/redirects.rs): resolve_redirect_chain, which asks the guard before the
--   first request and before each redirect. The HTTP client is a parameter, which takes the
--   number of the request, since a server may answer the same URL differently. The loop runs by
--   the rounds that are left, max_hops at the start, so it needs no fuel.
-- Retry (src/error_handling/categorization.rs, src/error_handling/reqwest_ext.rs,
--   src/utils/process.rs, src/utils/retry.rs, src/storage/insert/retry.rs): the backoff of
--   ExponentialBackoff, the retry loops over an operation that is a parameter, and the rule that
--   tells which errors are tried again. execute_with_retry loops until its backoff is exhausted:
--   its model runs on fuel, one more than the delays that the backoff has left, since each attempt
--   but the last takes a delay. The database and download loops count their attempts.
-- Stream (src/fetch/stream.rs): the loop that reads a response body under a size limit. The chunks are
--   a parameter, and the loop runs by the chunks that are left.
-- Run (src/run/task.rs, src/run/mod.rs, src/app/url.rs): how a scan accounts for its URLs. Run/Task is
--   process_url_task with its handlers, where a Schedule says what the runtime decides; Run/Lines is
--   what becomes of a line of the input, which asks the guard of Security; Run/Pool has the stages of a
--   task between its await points; Run/Scan is the loop of run_scan with its pool of tasks, its
--   registry of URLs in flight and its drain, as a machine that takes one event at a time, so that a
--   list of events is an interleaving of the stages. The counter and the callback of a task are each
--   one event, and a task that the drain has aborted may still run on. Run/ExitCode is
--   evaluate_exit_code (src/cli.rs, src/exit_codes.rs).
-- Admission (src/initialization/rate_limiter.rs, src/initialization/host_rate_limiter.rs): the token
--   buckets that a task waits for. The two steps of a refill, reading and adding, are separate
--   events; f64 is a record of operations without laws. A waiting task runs by the times at which
--   it wakes.
-- Sanitize (src/utils/sanitize.rs): error messages as they are stored.
-- Literals (src/fingerprint/patterns/literals.rs, src/fingerprint/patterns/mod.rs): the set of literal
--   needles that occur in a page, and the steps of a technology over it. The automaton and the
--   regexes are parameters.
-- Detection (src/fingerprint/detection, src/fingerprint/patterns, src/fingerprint/models.rs): which
--   technologies a response shows. Detection/Patterns parses the pattern syntax, Detection/Compiled
--   compiles it and has the string patterns with their cache, Detection/Version fills version
--   templates, Detection/Needles and Detection/Index build the literal index that Literals searches;
--   Detection/Signals, Cookies, Meta and Body match a ruleset against the parts of a response;
--   Detection/Implies merges the matches and adds what they imply, Detection/Matching drops what is
--   excluded or lacks a requirement, Detection/Finalize reports what is left and reads a report back,
--   and Detection/Detect composes them. The regex crate and the moka cache are records of operations
--   whose documented laws are hypotheses; the automaton and Unicode case mapping are functions. A
--   HashMap is an association list, in any order of iteration. The two loops with a depth of ten
--   run by the rounds that are left.
-- Headers (src/security/hsts.rs, src/fetch/cookies.rs, src/fetch/cdn.rs): what is read from response
--   headers: the HSTS directives, the cookies and the CDN.
-- Dns (src/dns/records.rs, src/dns/extract.rs, src/storage/insert/utils.rs): the records that a domain
--   has and the kinds of its TXT records. The resolver is a parameter.
-- Config (src/config, src/cli.rs): the settings of a scan, from the defaults, a configuration file and
--   the arguments that clap has parsed, and their validation.
--
-- Not modelled: the text of the log lines; the time that a delay takes, of which the models keep
-- the length only; the bodies of third-party crates (reqwest, url, hickory, tokio, sqlx), which
-- are parameters; and the parts that only read or write through them (TLS, WHOIS and GeoIP
-- lookups, the SQL of the storage layer, the exports, the status server).
pub mod Common
pub mod Security
pub mod Redirects
pub mod Retry
pub mod Stream
pub mod Run
pub mod Admission
pub mod Sanitize
pub mod Literals
pub mod Detection
pub mod Config
pub mod Headers
pub mod Dns
