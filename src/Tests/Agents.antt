-- ===== src/Tests/Agents.antt =====
-- An agent that answers with one policy of one rule.
use iceberg.Proxies.Http.Guarded.{IsGranted, on_http, cascade-guarded}
use iceberg.Proxies.Http.{Proxy, new_http_proxy}
use iceberg.Netio.Cascade.{cascade}
use iceberg.Netio.Cascade.Gate.{Stops}
use iceberg.Netio.Caller.{Caller}
use iceberg.Netio.Request.{ShadowRequest}
use iceberg.Opa.Agent.{opa_caller}
use iceberg.Common.{◌⊎◌}
use iceberg.Common.Go.{Go, fail}
use iceberg.Common.Text.{Text}
use iceberg.Common.Url.{Url}
use iceberg.Netio.Header.{header_get, canonical}
use iceberg.Common.Map.{get_or}
use iceberg.Common.Text.{codes}
use iceberg.Common.Go.{ret}
use iceberg.Netio.Caller.{Cloner}
use iceberg.Opa.Json.{Members, member, object, boolean, end}
use iceberg.Netio.Message.{Request, Response, background, new_request, read_all}
use iceberg.Netio.Header.{header_get, canonical}
use iceberg.Common.Map.{get_or}
use iceberg.Opa.Json.{field}
use iceberg.Common.{refl, ap, ℕ, [], ◌∷◌, true, false, none, ◌≡◌, ◌+◌, ◌↔◌, ap, Bool, some, Option}
use iceberg.Opa.Decision.{call-eq-ret, Granted}
use iceberg.Opa.Verdict.{judge-eq-true_iff, Passes}
use iceberg.Opa.Agent.{call, Agent, OpaNats, judge, http, eval, inputs, eval_reply, judge_rules}

abbrev document : Members
document =
    member (codes "api")
      (object (member (codes "owner") (object (member (codes "result") (boolean true) end)) end))
      end

abbrev granting : Agent ℕ
granting = record {
  request_msg = λ subject policies text w. (
    ret (record { header = some ((codes "X-Status", codes "200" ∷ []) ∷ []); body = codes "yes" }),
    w + 1,
  );
  marshal = λ input. ret (codes "input");
  unmarshal = λ text. ret document;
}

abbrev checked : Request
checked = record new_request { method = codes "GET"; header = some [] }

abbrev copies : Cloner
copies options = ret checked

abbrev opa : OpaNats
opa = record { opa_type = http; subject = codes "opa"; policies = codes "api" ∷ [] }

granted_call : call granting opa background [] copies copies 0 ≡ (ret (false, none), 1)
unfolding call eval inputs read_all eval_reply judge judge_rules header_get field get_or canonical
granted_call = refl

judge-eq-true_iff_example : (judge true document ≡ true) ↔ Passes document
judge-eq-true_iff_example = judge-eq-true_iff document

call-eq-ret_example :
    ◌≡◌ {A = Bool × Option Response} (false, none) (false, none)
    × ((r : Request) × (copies [] ≡ ret r) × Granted granting opa [] 0 r)
call-eq-ret_example =
    call-eq-ret granting opa background [] copies copies 0 (false, none)
      (ap (λ t. t.0) granted_call)

abbrev silent : Caller ℕ
silent = record {
  level = 8;
  is_parallel = false;
  name = [];
  await_list = [];
  call = λ ctx rv c o w. (ret (false, none), w + 1);
  request_updaters = [];
  response_updaters = [];
  context = background;
}

abbrev address : Url
address = record { scheme = codes "http"; user = none; host = codes "a"; path = []; raw_query = [] }

abbrev proxy : Proxy
proxy = record { name = []; address = address; timeout = 0; await_list = [] }

abbrev unreachable : Request → ℕ → Go Text Response × ℕ
unreachable r w = (fail (codes "unreachable"), w)

abbrev same : ℕ → ℕ
same n = n

abbrev shadow : ShadowRequest
shadow = record { request = checked; route_values = []; data_bytes = [] }

cascade-guarded_example :
    IsGranted granting unreachable opa (codes "7") shadow 0
    ⊎ Stops
        (cascade
          (codes "7")
          []
          shadow
          (some (
            new_http_proxy unreachable same proxy
              (opa_caller granting (on_http opa) ∷ silent ∷ [])))
          0)
        (cascade (codes "7") [] shadow (some (opa_caller granting (on_http opa) ∷ [])) 0)
cascade-guarded_example =
    cascade-guarded granting unreachable same proxy opa (silent ∷ []) (codes "7") [] shadow 0
      (refl, tt)
