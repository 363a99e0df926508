-- ===== src/Opa/Agent.antt =====
-- OpaNats.Eval and OpaNats.Call of internal/middleware/opa/http.go, and the methods of Opa in
-- internal/middleware/opa/common.go. The agent behind NATS and the JSON encoder are parameters.
use iceberg.Common.{ℕ, List, [], Option, none, some, Bool, true, false, not, if◌then◌else◌}
use iceberg.Common.Go.{Go, ret, fail, panic}
use iceberg.Common.Text.{Text, text_beq, codes}
use iceberg.Netio.Header.{Header, header_get}
use iceberg.Netio.Message.{Request, Context, background, new_error, read_all}
use iceberg.Netio.Request.{RouteValues}
use iceberg.Netio.Sort.{level_none, level_connect, level_request, level_response}
use iceberg.Netio.Caller.{Caller, CallResult, Cloner}
use iceberg.Opa.Json.{Json, boolean, Members, end, member, as_map, field}

-- OpaType
pub data OpaType : Type 0 where
  http ws_send ws_receive : OpaType
  other : Text → OpaType

abbrev pub get_level : OpaType → ℕ
get_level http = level_connect
get_level ws_send = level_request
get_level ws_receive = level_response
get_level (other _) = level_none

-- The document that Eval sends: path, headers, method and data.
pub record Input : Type 0 where
  pub path : RouteValues
  pub headers : Header
  pub method : Text
  pub body : Text

pub record Reply : Type 0 where
  pub header : Header
  pub body : Text

-- The agent at a subject (RequestMsg with the policies in a header), json.Marshal and json.Unmarshal.
pub record Agent (W : Type 0) : Type 0 where
  pub request_msg : Text → List Text → Text → W → Go Text Reply × W
  pub marshal : Input → Go Text Text
  pub unmarshal : Text → Go Text Members

pub record OpaNats : Type 0 where
  pub opa_type : OpaType
  pub subject : Text
  pub policies : List Text

-- The inner loop body of Eval, on one value of a policy's map.
abbrev pub judge_result : Bool → Option Json → Bool
judge_result pass none = false
judge_result pass (some (boolean true)) = pass
judge_result pass (some (boolean false)) = false
judge_result pass (some _) = pass

abbrev pub judge_rule : Bool → Option Members → Bool
judge_rule pass none = false
judge_rule pass (some m) = judge_result pass (field (codes "result") m)

unfoldable pub judge_rules : Bool → Members → Bool
judge_rules pass end = pass
judge_rules pass (member k v rest) = judge_rules (judge_rule pass (as_map v)) rest

abbrev pub judge_policy : Bool → Option Members → Bool
judge_policy pass none = false
judge_policy pass (some m) = judge_rules pass m

-- The outer loop of Eval.
unfoldable pub judge : Bool → Members → Bool
unfolding judge_rules
judge pass end = pass
judge pass (member k v rest) = judge (judge_policy pass (as_map v)) rest

abbrev pub verdict_of : Text → Go Text Members → Go Text (Bool × Text)
verdict_of text (ret mapper) = ret (judge true mapper, text)
verdict_of text (fail e) = fail e
verdict_of text panic = panic

-- What Eval makes of the agent's reply: whether the request passes, with a message.
unfoldable pub eval_reply : (Text → Go Text Members) → Reply → Go Text (Bool × Text)
eval_reply unmarshal res =
    if not (text_beq (header_get res.header (codes "X-Status")) (codes "200"))
    then ret (false, header_get res.header (codes "X-Error"))
    else verdict_of res.body (unmarshal res.body)

module _ {W : Type 0} (agent : Agent W) where
  abbrev input_of : Request → RouteValues → Text → Input
  input_of r rv body = record { path = rv; headers = r.header; method = r.method; body = body }

  -- The document for a request, whose body is read.
  unfoldable pub inputs : Request → RouteValues → Go Text Text
  inputs r rv = elim (read_all r.body) [
    | ret (body, _) ↦ agent.marshal (input_of r rv body)
    | fail e ↦ fail e
    | panic ↦ panic
  ]

  abbrev pub after_reply : Go Text Reply × W → Go Text (Bool × Text) × W
  after_reply (ret res, w) = (eval_reply agent.unmarshal res, w)
  after_reply (fail e, w) = (fail e, w)
  after_reply (panic, w) = (panic, w)

  abbrev pub ask : OpaNats → Go Text Text → W → Go Text (Bool × Text) × W
  ask opa (ret inputs) w = after_reply (agent.request_msg opa.subject opa.policies inputs w)
  ask opa (fail e) w = (fail e, w)
  ask opa panic w = (panic, w)

  unfoldable pub eval : OpaNats → Request → RouteValues → W → Go Text (Bool × Text) × W
  unfolding inputs eval_reply
  eval opa r rv w = ask opa (inputs r rv) w

  -- The end of Call, on what Eval returned.
  abbrev pub decide : Go Text (Bool × Text) → CallResult
  decide (ret (true, msg)) = ret (false, none)
  decide (ret (false, msg)) = fail (new_error msg 400)
  decide (fail e) = fail (new_error e 500)
  decide panic = panic

  abbrev pub call_with : OpaNats → RouteValues → Go Text Request → W → CallResult × W
  call_with opa rv (ret r) w = let (res, w') = eval opa r rv w in (decide res, w')
  call_with opa rv (fail e) w = (fail (new_error e 500), w)
  call_with opa rv panic w = (panic, w)

  unfoldable pub call : OpaNats → Context → RouteValues → Cloner → Cloner → W → CallResult × W
  unfolding eval
  call opa ctx rv c o w = call_with opa rv (c []) w

  -- OpaNats as a netio.Caller.
  unfoldable pub opa_caller : OpaNats → Caller W
  unfolding call
  opa_caller opa = record {
    level = get_level opa.opa_type;
    is_parallel = false;
    name = [];
    await_list = [];
    call = call opa;
    request_updaters = [];
    response_updaters = [];
    context = background;
  }
