-- ===== src/Lib.antt =====
-- Iceberg: a gateway in Go that routes HTTP requests to back ends through cascades of filters.
--
-- The program's parts and how they interact:
--
--   A configuration (internal/bootstrap/parser) names resources; for each, a proxy
--   (internal/callers/proxies) with its filters (internal/callers/filters) and middleware
--   (internal/middleware) is registered in the route table (internal/common/router). A request is
--   routed to its proxy, which runs the callers in the order of Sort by Cascade
--   (internal/common/netio): each caller sees a clone of the request, its response changes the
--   output and the request that the next one sees.
--
-- What models what:
--
--   Common       Go results (a value, an error or a panic), maps as association lists, texts as lists
--                of bytes, slices over shared arrays (Common/Slice), decimal numbers, URLs.
--   Router       internal/common/router/router.go: parse_route, route_compare, register, find, bind,
--                serve are ParseRoute, RouteCompare, Register, Find, Bind and the closure that Find
--                returns. A Go map that is ranged over is a list of entries. The digest of create_hash
--                (SHA-256 in hex) is a parameter. Router/Spec says what the table is for on the list of its
--                registrations; Router/Rank, Router/Best, Router/Parsed, Router/Table,
--                Router/Binding, Router/Refines, Router/Listed and Router/Serving hold the proofs.
--   Netio/Header, Netio/Message, Netio/Clone
--                http.Header, http.Request (with the fields that a clone drops) and http.Response as
--                far as they are used, and internal/common/netio/common.go. A body is read once: it
--                holds the bytes that are left, or the error that reading it gives.
--   Netio/Request, Netio/Response
--                internal/common/netio/request.go and response.go: the options, the updaters, the
--                clones and the resets, each a function from what it changes to what it leaves.
--   Netio/Sort   Sort of internal/common/netio/exports.go, with arrays that slices share; how an
--                append grows an array is a parameter.
--   Netio/Exec, Netio/Caller, Netio/Cascade
--                Cascade, await, spin and createOrUpdateResponse of exports.go as code on a state:
--                the shadow request, the output, the tasks and the outside world. The interface
--                Caller is a record whose call is a function on the world. A goroutine runs whole,
--                where the schedule (a list of turns) says so, or when it is awaited; a turn also says
--                which contexts are done. Netio/Cascade/InOrder/Spec is a reference for the case
--                without parallel callers.
--   Proxies/Http HttpProxy of internal/callers/proxies/http.go as a Caller, and Handle; the HTTP client is
--                a parameter. What http.Error writes is kept as the error. Proxies/Http/Relayed is about
--                the proxy alone; Proxies/Http/Guarded puts it behind a policy, Proxies/Http/Cached
--                and Proxies/Http/Recalled behind a cache.
--   Cache        internal/middleware/cache: ParseKey (Cache/Key), Marshal, Unmarshal and the two
--                callers (Cache/Store), NewJetStream and Build (Cache/Connect). The key-value store,
--                encoding/gob, SHA-256 and url.URL.Query are parameters; Cache/Store/Hit names what it
--                needs of the first two.
--   Filters/Filter, Filters/Http
--                The Filter of internal/callers/filters/common.go with its exchange settings, and
--                internal/callers/filters/http.go as a Caller.
--   Nats         What the three users of NATS share: hosts that name a variable of the environment, the
--                client libraries as one parameter (a record of what each call returns and does to the
--                outside world), and the caches of connections, GetConn and GetKV.
--   Filters/Message, Filters/Nats, Filters/Build
--                internal/callers/filters/nats.go: MsgToRequest and MsgToResponse, the two filters with
--                the messages that they publish, the callbacks and the reflector; and Build of
--                common.go. Filters/Nats/Inbox is a step relation on the two channels of one Call.
--   Parser       internal/bootstrap/parser: the records of conf.go (Parser/Conf), Parse
--                (Parser/Document), ParsePolicy, ParseFiltersV1 (Parser/Filters), ParseOpaV1,
--                ParseCacheV1 and ParseV1 (Parser/Resources), Timeout and Level. Parser/Runtime is the
--                record of what the code calls that is not of the repository. What ParseV1 hands to its
--                argument handleFunc is a Registration; a Go map that is ranged over is a list of
--                entries in the order of the range.
--   Bootstrap    internal/bootstrap/common.go (the options) and server/server.go (HandleFunc and the
--                handler of the mux). A handler is a function on a visit: the writer, the request and
--                what its run depends on.
--   Proxies/WebSocket
--                internal/callers/proxies/ws.go: NewWebSocket with the updaters that it wraps
--                (Proxies/WebSocket/Wrapped), Handle up to its goroutines, and what these do with a
--                message. Proxies/WebSocket/Pump and Proxies/WebSocket/BackPump are step relations for
--                the goroutines that carry the messages of the client and of the backend.
--                Proxies/WebSocket/Sessions interleaves all sessions of a proxy, which share its address,
--                and records what they do; Proxies/WebSocket/Sessions/Spec says which records may be.
--   Command      cmd/main.go: the function that it hands to ParseV1, with NewProxy, and so the route
--                table that a configuration makes. log.Fatalln is a panic. Command/Main is main up to
--                ListenAndServe, with package os as a parameter.
--   Opa          internal/middleware/opa: Eval and Call, with the agent behind NATS and the JSON
--                encoder as parameters, the opa caller as a Caller, and NewOpaNats (Opa/Connect).
--   Tests        the definitions run at concrete inputs.
--
-- Bounds: the code's loops range over slices and maps, so they are structural recursions and need no
-- fuel; the endless loops of goroutines are step relations. A time.Duration is the bit pattern of its
-- 64 bits. Status codes, levels and lengths are small and are natural numbers.
--
-- Not modelled: serving and closing connections; the getters that return constants; data races between
-- a goroutine that clones the request and the loop that changes it, and a second task spun under a
-- name that is in use before the first has run. Logging is left out.
pub mod Bootstrap
pub mod Cache
pub mod Command
pub mod Common
pub mod Filters
pub mod Nats
pub mod Netio
pub mod Opa
pub mod Parser
pub mod Proxies
pub mod Router
pub mod Tests
