-- ===== src/Lib.antt =====
-- total is a prediction market on Stellar: a web server in Go that builds transactions for the
-- Soroban contracts of its markets and reads the markets' state by simulating calls.
--
-- How the parts fit together. A request reaches the handler (internal/handler/market.go), which
-- calls the service (internal/service). The service validates it, reads a quote from the contract,
-- and asks the builder (internal/stellar/builder.go) for a transaction; the builder loads the
-- account from Horizon (internal/stellar/client.go), encodes the arguments and builds the call
-- (internal/soroban/contract.go). The RPC client (internal/soroban/client.go) simulates it, and the
-- resource fee and auth entries of the simulation are put into the transaction, which is returned
-- for the user to sign. Errors travel up wrapped, and the handler maps them to an answer. Texts of
-- markets are read from IPFS (internal/ipfs/client.go), and a market's history is drawn as a text
-- chart (internal/chart/ascii.go). cmd/total/main.go reads the configuration and puts all together.
--
-- Which file models what:
--   Platform: everything outside the repository, as parameters: float64, the Stellar SDK, HTTP,
--     JSON, the formatting verbs. No law about them is assumed but where a theorem names it.
--   Bytes: Go strings as lists of bytes, and what strings and strconv do with them.
--   Errors: error values, wrapping and errors.Is; results; calls as functions of a state.
--   Soroban.Types, ScVal, Address, Client, Invoker: internal/soroban/types.go, client.go and
--     contract.go. A function keeps its Go name in antt's spelling: BuildInvokeTx is
--     build_invoke_tx, EncodeI128 is encode_i128.
--     Soroban.DataKey is BuildContractDataKey.
--   Stellar.Horizon, Records, Params, Builder, Queries: internal/stellar/client.go and builder.go.
--   Model: internal/model/market.go and metadata.go.
--   Lmsr: internal/lmsr/calculator.go.
--   Service.Amount, Requests, Reading, Quotes, Market: internal/service/market.go. Where the
--     service and the builder give a function the same name, the service's ends in _for.
--   Service.Events: internal/service/events.go. Service.Factory, States, Deploy: the list of
--     markets, the states of markets, prices and deployment of internal/service/factory.go, with
--     the reading of internal/service/cache.go. Service.Create: the constructors of the services and
--     the loaders of their caches.
--   Handler.ErrorCode, ErrorMap, ChartPoints: mapContractError, extractLastErrorCode, mapError and
--     eventsToChartPoints of internal/handler/market.go.
--   Handler.Web: requests, replies and pages. Handler.Forms, Trade, Views, Detail, Account: the
--     handlers of forms, of lists of markets, of a market and an outcome, of the account and the
--     wallet. Handler.Writer: how a reply reaches a ResponseWriter. Handler.Routes: RegisterRoutes.
--   Ipfs.Cid, Ipfs.Cid.Pattern, Fetch, Store: ValidateCID, the regular expression it matches,
--     fetchFromGateway, and the client with its cache, of internal/ipfs/client.go.
--   Chart, Chart.Drawing, Chart.Sample: internal/chart/ascii.go.
--   Config: internal/config/config.go, the configuration of cmd/total/main.go, ParseLevel of
--     internal/logger/logger.go, the functions of internal/template/template.go. Config.Start: run
--     and warmupIPFSCache of cmd/total/main.go.
--   Demo, Tests: a small platform, and the theorems at concrete inputs.
--
-- State. A call takes and returns a state: the request counter of the RPC client beside the world,
-- which is all that the network and the clock can change. A call that fails keeps the state that it
-- had reached. The loop of WaitForTransaction runs over the list of its wake-ups, ticks with the
-- time then or the context's end, and yields none where the list ends first. Strings are bytes;
-- int64 and uint32 are integers with their wrapping written out where the code can leave the range.
-- The scan of extractLastErrorCode runs on as much fuel as the text has bytes: each round drops a
-- byte at least, so more fuel makes no difference. The retries of fetchFromGateway run on their own
-- count.
--
-- What differs, and what is left out. Logging has no effect and is dropped. An error text that
-- prints an SDK enumeration with %v lacks that number. The two goroutines of GetBalance run one
-- after the other, in either order, and those of GetMarketStates and buildMarketViews in any order,
-- which a request's schedule gives. The caches of package hot are parameters. A handler returns one
-- reply, and a page is the name of its template with the data that the template gets: what
-- html/template writes of it, or its failure, is a parameter of the writer. A panic in the chart
-- aborts the response. http.Redirect, the mux and the HTTP server are outside, as are the templates'
-- HTML. The Rust contracts are called and not modelled.
pub mod Prelude
pub mod Bytes
pub mod Errors
pub mod Soroban
pub mod Platform
pub mod Stellar
pub mod Model
pub mod Service
pub mod Handler
pub mod Ipfs
pub mod Lmsr
pub mod Chart
pub mod Config
pub mod Demo
mod Tests
