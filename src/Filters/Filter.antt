-- ===== src/Filters/Filter.antt =====
-- Filter of internal/callers/filters/common.go.
pub mod Exchange
use iceberg.Common.{[]}
use iceberg.Common.{ℕ, List, [], ◌∷◌, ◌++◌, some, Bool, false, ltb, ◌==◌, ◌||◌, if◌then◌else◌}
use iceberg.Common.Go.{Go, ret, fail, panic}
use iceberg.Common.Text.{Text, codes, text_beq}
use iceberg.Common.Url.{Url}
use iceberg.Netio.Message.{Request, Response, Context, cancelled_after, new_error}
use iceberg.Netio.Request.{
  with_url, with_context, RequestUpdater, RouteValues, req_replace_header, req_update_header,
  req_replace_body,
}
use iceberg.Netio.Response.{
  ResponseUpdater, res_replace_header, res_update_header, res_replace_body,
}
use iceberg.Netio.Sort.{level_connect, level_request, level_response}
use iceberg.Netio.Caller.{Caller, CallResult, Cloner}

pub record Filter (W : Type 0) : Type 0 where
  pub name : Text
  pub address : Url
  pub level : ℕ
  pub parallel : Bool
  pub timeout : ℕ
  pub callers : List (Caller W)
  pub await_list : List Text
  pub request_updaters : List RequestUpdater
  pub response_updaters : List ResponseUpdater

abbrev all_headers : List Text → Bool
all_headers (h ∷ []) = text_beq h (codes "*")
all_headers _ = false

-- NewFilter, with the zero values of new(Filter).
abbrev pub new_filter : {W : Type 0} → Url → Filter W
new_filter address = record {
  name = [];
  address = address;
  level = 0;
  parallel = false;
  timeout = 0;
  callers = [];
  await_list = [];
  request_updaters = [];
  response_updaters = [];
}

module _ {W : Type 0} where
  abbrev pub filter_context : Filter W → Context
  filter_context f = cancelled_after (if f.timeout == 0 then 30_000_000_000 else f.timeout)

  -- The first case of the switch on the level.
  abbrev pub before_proxy : Filter W → Bool
  before_proxy f = f.level == level_connect || f.level == level_request

  unfoldable pub set_exchange_headers : List Text → Filter W → Filter W
  set_exchange_headers headers f =
      if before_proxy f
      then record f {
        request_updaters =
            f.request_updaters
            ++ (if all_headers headers then req_replace_header else req_update_header headers) ∷ [];
      }
      else if f.level == level_response
      then record f {
        response_updaters =
            f.response_updaters
            ++ (if all_headers headers then res_replace_header else res_update_header headers) ∷ [];
      }
      else f

  unfoldable pub set_exchange_body : Filter W → Filter W
  set_exchange_body f =
      if before_proxy f
      then record f { request_updaters = f.request_updaters ++ req_replace_body ∷ [] }
      else if f.level == level_response
      then record f { response_updaters = f.response_updaters ++ res_replace_body ∷ [] }
      else f

  -- A filter as a netio.Caller, with the Call of its instance.
  abbrev pub filter_caller :
      Filter W → (Context → RouteValues → Cloner → Cloner → W → CallResult × W) → Caller W
  filter_caller f call = record {
    level = f.level;
    is_parallel = f.parallel;
    name = f.name;
    await_list = f.await_list;
    call = call;
    request_updaters = f.request_updaters;
    response_updaters = f.response_updaters;
    context = filter_context f;
  }
