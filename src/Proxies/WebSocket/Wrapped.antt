-- ===== src/Proxies/WebSocket/Wrapped.antt =====
-- What NewWebSocket of internal/callers/proxies/ws.go makes of the response updaters of a caller: request
-- updaters, which run them on responses with the header, the trailer and the body of the requests.
use iceberg.Netio.Header.{Header}
use iceberg.Netio.Message.{Body, Response, reader}
use iceberg.Netio.Request.{ShadowRequest, RequestUpdater, set_header, set_trailer, set_body}
use iceberg.Netio.Response.{ResponseUpdater, ShadowResponse, new_shandow_response}
use iceberg.Common.{List, [], ◌∷◌, map, none, some, Bool, true, false}
use iceberg.Common.Go.{ret, ◌>>=◌}

abbrev pub response_with : Header → Header → Body → Response
response_with header trailer body = record {
  status = [];
  status_code = 0;
  header = header;
  trailer = trailer;
  transfer_encoding = none;
  body = body;
}

-- The request behind an updater of a response that was made with its maps.
abbrev pub shared_with : Bool → ShadowRequest → ShadowResponse → ShadowRequest
shared_with true s res = set_trailer (set_header s res.response.header) res.response.trailer
shared_with false s res = s

-- The function fn. Making the response reads the body of the request to its end; what the updater
-- leaves of the other body is read from the request that has it.
unfoldable pub wrap_updater : ResponseUpdater → RequestUpdater
wrap_updater updater s q = do
  res ←
      new_shandow_response (some (response_with s.request.header s.request.trailer s.request.body))
  (res', http_res) ← updater.update res (response_with q.header q.trailer q.body)
  ret (
    set_body (shared_with updater.in_place s res') (reader []),
    record q { body = http_res.body },
  )

abbrev pub last_of : ResponseUpdater → List ResponseUpdater → ResponseUpdater
last_of updater [] = updater
last_of updater (next ∷ updaters) = last_of next updaters

-- One function per updater. In Go 1.20, which go.mod asks for, they share the variable of the loop,
-- and each calls the updater that it holds when they run: the last.
unfoldable pub wrap_updaters : List ResponseUpdater → List RequestUpdater
unfolding wrap_updater
wrap_updaters [] = []
wrap_updaters (updater ∷ updaters) =
    map (λ _. wrap_updater (last_of updater updaters)) (updater ∷ updaters)
