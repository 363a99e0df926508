-- ===== src/Tests/Cascades.antt =====
-- Cascades of a silent caller and one that answers.
use iceberg.Common.Map.{get, put}
use iceberg.Netio.Request.{apply_options, clone_shadow_request}
use iceberg.Netio.Header.{header_add}
use iceberg.Netio.Response.{create_request}
use iceberg.Netio.Request.{new_shadow_request, req_update_header}
use iceberg.Netio.Header.{header_set}
use iceberg.Common.Go.{ret}
use iceberg.Netio.Response.{ShadowResponse, new_shandow_response, reset_response, create_request}
use iceberg.Netio.Message.{Response, new_request, reader, background, read_all}
use iceberg.Netio.Request.{ShadowRequest, update_request, reset_request}
use iceberg.Common.Text.{Text, codes}
use iceberg.Netio.Caller.{
  answer, Caller, M, State, pending, settle, answer, create_or_update_response, feed,
}
use iceberg.Common.{refl, ℕ, [], ◌∷◌, false, none, some, ◌≡◌, List, Option, ◌+◌}
use iceberg.Netio.Cascade.Answered.{rounds_answered, Answers}
use iceberg.Netio.Cascade.Kept.{IsSome}
use iceberg.Netio.Cascade.Output.{await-out}
use iceberg.Netio.Cascade.Once.{cascade-calls}
use iceberg.Netio.Cascade.{cascade}
use iceberg.Common.{true, ◌≤◌, arith}
use iceberg.Netio.Cascade.{await, rounds, round, run_tasks, await_from, call_caller}

abbrev hello : Response
hello = record {
  status = codes "200 OK";
  status_code = 200;
  header = some [];
  trailer = some [];
  transfer_encoding = none;
  body = reader (codes "hello");
}

abbrev caller_with : Text → List Text → Option Response → Caller ℕ
caller_with name await_list response = record {
  level = 8;
  is_parallel = false;
  name = name;
  await_list = await_list;
  call = λ ctx rv c o w. (ret (false, response), w + 1);
  request_updaters = [];
  response_updaters = [];
  context = background;
}

abbrev silent : Caller ℕ
silent = caller_with (codes "silent") [] none

abbrev answering : Caller ℕ
answering = caller_with (codes "answering") [] (some hello)

abbrev waiting : Caller ℕ
waiting = caller_with (codes "waiting") (codes "answering" ∷ []) none

abbrev asked : ShadowRequest
asked = record {
  request = record new_request {
    method = codes "GET";
    url = some (record { scheme = []; user = none; host = []; path = codes "/"; raw_query = [] });
    header = some [];
  };
  data_bytes = [];
  route_values = [];
}

abbrev fresh : State ℕ
fresh = record { request = asked; out = none; tasks = []; world = 0 }

abbrev spun : State ℕ
spun = record {
  request = asked;
  out = none;
  tasks = (codes "answering", pending answering) ∷ [];
  world = 0;
}

abbrev run : M ℕ (Option ShadowResponse)
run = rounds asked [] (silent ∷ answering ∷ silent ∷ [])

run_calls : (run fresh).1.world ≡ 3
unfolding rounds round run_tasks await await_from call_caller settle answer
    create_or_update_response new_shandow_response read_all reset_response feed create_request
    update_request reset_request new_shadow_request req_update_header header_set
run_calls = refl

answering-Answers : Answers asked answering
answering-Answers = record {
  sequential = refl;
  answers = λ ctx rv c o w (next, res) e. (hello, cc);
}

await-out_example : (await asked waiting [] spun).1.out ≡ none
await-out_example = await-out asked waiting [] spun refl

abbrev answered : ShadowResponse
answered = record { response = hello; data_bytes = codes "hello" }

run_answers : (run fresh).0 ≡ ret (some answered)
unfolding rounds round run_tasks await await_from call_caller settle answer
    create_or_update_response new_shandow_response read_all reset_response feed create_request
    update_request reset_request new_shadow_request req_update_header header_set
run_answers = refl

rounds_answered_example : IsSome (some answered)
rounds_answered_example =
    rounds_answered asked [] (silent ∷ []) (silent ∷ []) answering fresh (some answered)
      answering-Answers run_answers

-- One caller in a goroutine, one that awaits it.
abbrev spun_and_awaited : List (Caller ℕ)
spun_and_awaited = record answering { is_parallel = true } ∷ waiting ∷ []

both_called : (cascade (codes "7") [] asked (some spun_and_awaited) 0).1.world ≡ 2
unfolding cascade header_add clone_shadow_request apply_options new_shadow_request read_all get put
    new_shandow_response create_request update_request
both_called = refl

cascade-calls_example : (cascade (codes "7") [] asked (some spun_and_awaited) 0).1.world ≤ 0 + 2
cascade-calls_example =
    cascade-calls (λ n. n) [] spun_and_awaited 0
      ((λ ctx rv c o w. omega arith), ((λ ctx rv c o w. omega arith), tt)) (codes "7") asked
