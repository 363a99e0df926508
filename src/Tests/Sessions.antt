-- ===== src/Tests/Sessions.antt =====
-- Two sessions of a WebSocket proxy, the second of which comes before the first dials anew.
use iceberg.Netio.Header.{header_add}
use iceberg.Netio.Cascade.{cascade}
use iceberg.Netio.Message.{read_all}
use iceberg.Netio.Request.{apply_options, clone_shadow_request, new_shadow_request}
use iceberg.Proxies.WebSocket.{SocketLib, WebSocketProxy, relay}
use iceberg.Proxies.WebSocket.Sessions.{
  visited, dialled, received, Sessions, visit, open_backend, read_and_hold, redial, write_failed,
  act, act_quietly, Reach, begun, later,
}
use iceberg.Proxies.WebSocket.Sessions.Spec.{Sound}
use iceberg.Proxies.WebSocket.Sessions.Isolated.{Reach-Sound}
use iceberg.Netio.Caller.{Caller}
use iceberg.Common.Url.{Url}
use iceberg.Common.{ℕ, ◌+◌, [], ◌∷◌, none, some, ◌≡◌, refl, List}
use iceberg.Common.Go.{ret, fail}
use iceberg.Common.Text.{Text, codes, text_eq}
use native.Mathlib.Decide.{ℕ_discrete}

abbrev address : Url
address = record { scheme = codes "ws"; user = none; host = codes "b"; path = []; raw_query = [] }

-- The n-th dial makes the connection n.
abbrev socket : SocketLib ℕ ℕ
socket = record { upgrade = λ writer r w. (fail [], w); dial = λ url w. (ret w, w + 1) }

abbrev proxy : WebSocketProxy ℕ
proxy = record {
  proxy = record { name = []; address = address; timeout = 0; await_list = [] };
  connect_callers = [];
  request_callers = [];
  response_callers = [];
}

abbrev no_callers : List (Caller ℕ)
no_callers = []

abbrev hi : Text
hi = codes "hi"

hi_relayed : relay (codes "7") [] no_callers hi 2 ≡ (ret (some hi), 2)
unfolding relay new_shadow_request read_all cascade header_add clone_shadow_request apply_options
hi_relayed = refl

record Run : Type 0 where
  last : Sessions ℕ ℕ
  reach : Reach socket proxy address 0 last

unfoldable two_sessions : Run
unfolding ℕ_discrete
two_sessions = record {
  last = _;
  reach =
      later
        (later (later (later begun (act 0 (visit (codes "/a")))) (act 0 (open_backend refl)))
          (act 1 (visit (codes "/b"))))
        (act 1 (open_backend refl));
}

-- The first message is lost where the write fails; the session goes on at the path of the other.
unfoldable redialled_run : Run
unfolding ℕ_discrete two_sessions
redialled_run = record {
  last = _;
  reach =
      later
        (later (later two_sessions.reach (act 0 (read_and_hold hi hi (codes "7") [] hi_relayed)))
          (act_quietly 0 (write_failed 2)))
        (act 0 (redial refl));
}

redialled_history :
    redialled_run.last.history
    ≡ dialled 0 (record address { path = codes "/b" }) 2
      ∷ received 0 hi
      ∷ dialled 1 (record address { path = codes "/b" }) 1
      ∷ visited 1 (codes "/b")
      ∷ dialled 0 (record address { path = codes "/a" }) 0
      ∷ visited 0 (codes "/a")
      ∷ []
unfolding redialled_run
redialled_history = refl

Reach-Sound_example : Sound address no_callers no_callers redialled_run.last.history
Reach-Sound_example = Reach-Sound socket proxy address 0 redialled_run.last redialled_run.reach
