-- ===== src/Lib.antt =====
-- The customer portfolio API: a Go service that loads the accounts of a customer from a Core API,
-- prices their positions with a Market API, and serves the portfolio over HTTP.
--
-- A request passes through these parts, each a module here:
--   * HttpApi (internal/httpapi/handler.go): NewHandler is `serve`; Handler.portfolio is
--     `handle_portfolio`, of which `respond` is the body and `complete` the deferred function;
--     Handler.live, ready and prometheus are `handle_live`, `handle_ready` and `handle_prometheus`.
--     The server is a record of the world behind the ports, the counters and the log. Identifier has
--     the pattern of customer identifiers, Mapping the bodies (mapPortfolio), Replies and Serving the
--     answers, Counters a sequence of requests, Amounts what a client reads in a body.
--   * Portfolio (internal/portfolio/service.go): Service.Get and Ready are `get` and `ready` over the
--     record `Ports`, whose calls change a world of any type; uniqueSymbols is in Symbols.
--   * Upstream (internal/upstream/client.go): Wire has the types of the payloads, Http the requests
--     and the bounded body, Items and Mapping the two Core contracts, Core and Market the clients.
--   * Domain (internal/domain): Money and Quantity, with int64 arithmetic that wraps around, and the
--     values of the package.
--   * Observability (internal/observability): Metrics has the counters, their exposition and how a
--     scraper reads it; Logging is NewLogger and the function that closes the log, Tracing is
--     SetupTracing and its shutdown.
--   * Process: a running program with its open handles and all that it has done, which the logger,
--     tracing and the main functions change.
--   * Deployment (cmd/portfolio-api/main.go, internal/app/env.go): how the parts are put together;
--     Lifecycle has RunServer (internal/app/server.go) as a step relation; Mains has the three main
--     functions, `api_main`, `core_mock_main` and `market_mock_main`, from the environment and the
--     result of RunServer to the exit status. Demo puts the API between the mock services.
--   * Json: the scanner of encoding/json as a machine over bytes, its encoder, and the decoding of
--     structs and times; Upstream.Decoding has the structs of the Core contracts and of the prices on it.
--   * Mocks (cmd/market-mock, cmd/core-mock, internal/mockhttp): the handlers of the mock services,
--     in Query what they use of net/url to read a query, in Encoding the text that they write, and in
--     Client and Prices what the clients make of it, in Network the mocks as the clients' network.
--   * Routing: the choice of a handler by http.ServeMux; HttpApi.Routes and Mocks.Routes have the
--     patterns that NewHandler and the newHandler of the mock services register.
-- Base has the shared names, lists, results and int64; Text has Go strings as lists of bytes and what
-- the program uses of strings, strconv, fmt and path/filepath; Failure has the error values; Dict the maps. Tests
-- has runs on the data of the mock services.
--
-- Loops are structural recursion on the list they run over, that of the scanner of JSON included:
-- what is open is a stack, so that each byte is one step and no fuel is needed. The only fuel is
-- in the printing of numbers (`digits`), which is given one more than the number and needs no
-- more, since each digit divides by ten.
--
-- Parameters: the network (`Network`), the errors of the decoder of prices, float64 (`Float`), the
-- Unicode upper-case table outside ASCII (`upper_runes`), the environment, the order in which a
-- map is iterated (`order`), what the operating system and the OpenTelemetry libraries answer
-- (`System`), time.ParseDuration, and whether an error is http.ErrServerClosed. encoding/json is a
-- parameter of the Core client (`Json`), and `go_json` is what it stands for; how http.ServeMux
-- writes a redirect.
--
-- Not modelled: the text of the API's own answers, and the headers that http.ServeMux gives its
-- own; that the library takes no escapes in a time; what a third copy of an array member leaves of
-- the first; what the settings of the HTTP servers and clients do; deadlines, which reach the
-- model as errors of the network; the log lines of RunServer.
pub mod Base
pub mod Text
pub mod Failure
pub mod Dict
pub mod Json
pub mod Domain
pub mod Portfolio
pub mod Process
pub mod Routing
pub mod Upstream
pub mod Observability
pub mod HttpApi
pub mod Deployment
pub mod Mocks
pub mod Tests
