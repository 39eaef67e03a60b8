-- ===== src/Lib.antt =====
-- A model of the web server of crackstation.net: what it does with a request, from the layers
-- around the router to the results page, and the theorems that make it correct.
--
-- A request passes the layers of src/middleware in the order of src/main.rs: security_headers.rs,
-- url_canonicalization.rs, buffer_body.rs. What they pass on reaches the dispatcher,
-- src/registered_page_handler.rs, which looks the path up in the registry, checks the origin of a
-- POST, records a hit and calls the handler of the page. The one page with a form is
-- src/pages/home.rs: it verifies a captcha, cuts the text into hashes, has the crate `preimage` look
-- them up, and shows the results.
--
-- The files:
--   Base, with Base/*: texts, lists, options and Boolean tests; a text is the list of its characters.
--   Http: headers, addresses, methods and responses, as far as the program sees them.
--   HtmlEscape: src/libs/html_escape.rs. HtmlEscape/Tokens describes the escaped text as tokens that
--     are written out; the proofs compare the passes of the source with passes on tokens.
--   Util: src/libs/util.rs.
--   Registry: src/registry/mod.rs and src/registry/pages.rs, with the trait of src/handler.rs.
--   Cracking: src/cracking.rs.
--   Middleware: url_canonicalization.rs, buffer_body.rs and security_headers.rs of src/middleware.
--   Captcha: src/libs/recaptcha.rs, the checks of the captcha's configuration in src/main.rs, and the
--     site keys of src/app_state.rs.
--   Csrf: src/libs/csrf.rs.
--   Home: src/pages/home.rs, up to its template.
--   Secret: `BypassSecret` of src/context.rs.
--   Dispatcher: src/registered_page_handler.rs and the rest of src/context.rs.
--   PhpCount: src/libs/phpcount.rs, with `record_and_get_hits` of the dispatcher. The two tables are
--     the state. An `async fn` is the process of its queries, each of which happens at once, as under
--     the table locks of MyISAM; a query may fail, and then changes nothing. A process runs alone, with
--     a list of the queries that fail (PhpCount/Store), or among others, in steps of any order
--     (PhpCount/Threads). PhpCount/Rotation is the race of threads for the lock of the visitor key,
--     with its panics.
--     PhpCount/Statements says what a visit is made of, for the proofs that go by its statements;
--     PhpCount/Counter is the abstract counter that a run alone refines; PhpCount/Unordered compares
--     tables with their rows in another order. The dispatcher takes the counter as a parameter, so
--     that its theorems hold of any.
--   Server: the router and the layers of src/main.rs, with src/middleware/blocking.rs, from a request
--     to the head of its response. Server/Outside is a record of all that is a parameter there;
--     Server/Counting fills the counter's place with that of PhpCount. Server/Consulting and
--     Server/Secrecy compare two servers that differ in the oracle alone; Server/Views and
--     Server/Submissions say what a visitor gets.
--   Startup: `async_main` of src/main.rs up to the router, and `AppState::new`.
--   Fixtures and the Tests modules: concrete instances, runs and examples.
-- A function keeps its name. A method's `self` is an argument; a handler that reads a request and
-- answers it is a function from the parts of the request that it reads to its outcome.
--
-- A panic is `none`, and so is an `Err` where a comment says so; in Startup a panic is the reason
-- that it states; that a function does not panic is a theorem. Three loops run on fuel: the spaces
-- up to a tab stop (the tab width is enough), a chain of aliases (8, the number of registered
-- pages), and the digits of a `u64` (20).
--
-- Code outside the repository is a parameter: the Unicode tables of `to_lowercase`, the host of an
-- `Authority` of the crate `http`, the parser of addresses, `to_bytes` of axum, the form parser,
-- the JSON parser and Google's endpoint, SHA-256 and HMAC, the collation of the tables, the codecs
-- of UTF-8 and of hexadecimal digits, `ServeDir` and the rendering of a template, what axum adds
-- around a handler, the environment and the file system at the start, and the lookup of the crate
-- `preimage`. Its contract, one result for each hash in order and no more matches than the limit,
-- is a hypothesis, and so are that the master host parses as itself and that the collation is an
-- equivalence.
--
-- A request meets the limit on concurrent requests with the number of the others that are within it.
--
-- A visit of the counter is modelled while none of its `expect`s fails, on the lock of the visitor key,
-- on the bytes that the system draws for it and on a clock before 1970: it takes the key that
-- `refreshed` gives, where that gives one. So the counter behind Server does not panic. The pool of
-- threads belongs to tokio, and is not modelled.
--
-- Not modelled: sockets, signals and logging; how the HTTP client keeps the timeouts it is built with;
-- the templates and the static files, so that the pages of src/pages but for home.rs are the
-- constructors of Handler. What is left of the code then is its imports and its unit tests. An overflow
-- of the column `hitcount` is an error of the database, one of the failures of a query that the
-- theorems of PhpCount allow at any time.
pub mod Base
pub mod HtmlEscape
pub mod Http
pub mod Fixtures
pub mod Util
pub mod Registry
pub mod Cracking
pub mod Middleware
pub mod Captcha
pub mod Secret
pub mod Csrf
pub mod Home
pub mod Dispatcher
pub mod PhpCount
pub mod Server
pub mod Startup
