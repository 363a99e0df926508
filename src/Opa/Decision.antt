-- ===== src/Opa/Decision.antt =====
-- When OpaNats.Call of internal/middleware/opa/http.go lets a request pass.
use iceberg.Netio.Request.{RouteValues}
use iceberg.Netio.Caller.{Cloner}
use iceberg.Netio.Message.{Response, Context, Request}
use iceberg.Opa.Json.{Members}
use iceberg.Common.{none, true, false, refl, inl, inr, Bool-cases, ◌≡◌, Bool, Option, []}
use iceberg.Common.Go.{Go, ret, fail, panic}
use iceberg.Common.Text.{Text, codes, text_beq, text_beq_iff}
use iceberg.Netio.Header.{header_get}
use iceberg.Opa.Agent.{
  eval_reply, decide, Reply, verdict_of, Agent, OpaNats, after_reply, eval, ask, call_with, inputs,
  call,
}
use iceberg.Opa.Verdict.{Passes, judge-eq-true_iff}

module _ (unmarshal : Text → Go Text Members) where
  -- The reply is a success and holds a document that passes.
  abbrev pub Allows : Reply → Type 0
  Allows res =
      (header_get res.header (codes "X-Status") ≡ codes "200")
      × ((m : Members) × (unmarshal res.body ≡ ret m) × Passes m)

  verdict_of-eq-true :
      (text msg : Text) (found : Go Text Members)
      → (verdict_of text found ≡ ret (true, msg))
      → (m : Members) × (found ≡ ret m) × Passes m
  verdict_of-eq-true text msg (ret m) e = (m, refl, (judge-eq-true_iff m).0 cc)
  verdict_of-eq-true text msg (fail x) e = absurd (cc)
  verdict_of-eq-true text msg panic e = absurd (cc)

  eval_reply-eq-true :
      (res : Reply) (msg : Text) → (eval_reply unmarshal res ≡ ret (true, msg)) → Allows res
  unfolding eval_reply
  eval_reply-eq-true res msg e =
      elim (Bool-cases (text_beq (header_get res.header (codes "X-Status")) (codes "200"))) [
        | inl ok ↦ (
          (text_beq_iff _ _).0 ok,
          verdict_of-eq-true res.body msg (unmarshal res.body) (rw ok at e),
        )
        | inr bad ↦ absurd (
            let e' : ◌≡◌ {A = Go Text (Bool × Text)}
                (ret (false, header_get res.header (codes "X-Error"))) (ret (true, msg)) =
              rw bad at e in
            cc)
      ]

  decide-eq-ret :
      {W : Type 0} (agent : Agent W) (found : Go Text (Bool × Text))
      (result : Bool × Option Response)
      → (decide agent found ≡ ret result)
      → (result ≡ (false, none)) × ((msg : Text) × (found ≡ ret (true, msg)))
  decide-eq-ret agent (ret (true, msg)) result e = (cc, (msg, refl))
  decide-eq-ret agent (ret (false, msg)) result e = absurd cc
  decide-eq-ret agent (fail x) result e = absurd cc
  decide-eq-ret agent panic result e = absurd cc

module _ {W : Type 0} (agent : Agent W) where
  after_reply-eq-true :
      (out : Go Text Reply × W) (msg : Text)
      → ((after_reply agent out).0 ≡ ret (true, msg))
      → (res : Reply) × (out.0 ≡ ret res) × Allows agent.unmarshal res
  after_reply-eq-true (ret res, w) msg e = (res, refl, eval_reply-eq-true agent.unmarshal res msg e)
  after_reply-eq-true (fail x, w) msg e = absurd cc
  after_reply-eq-true (panic, w) msg e = absurd cc

  -- The agent is asked with the document of the request, and its reply allows it.
  abbrev pub Granted : OpaNats → RouteValues → W → Request → Type 0
  Granted opa rv w r =
      (text : Text) × (inputs agent r rv ≡ ret text)
      × ((res : Reply) × ((agent.request_msg opa.subject opa.policies text w).0 ≡ ret res)
          × Allows agent.unmarshal res)

  ask-eq-true :
      (opa : OpaNats) (document : Go Text Text) (w : W) (msg : Text)
      → ((ask agent opa document w).0 ≡ ret (true, msg))
      → (text : Text) × (document ≡ ret text)
        × ((res : Reply) × ((agent.request_msg opa.subject opa.policies text w).0 ≡ ret res)
            × Allows agent.unmarshal res)
  ask-eq-true opa (ret text) w msg e = (text, refl, after_reply-eq-true _ msg e)
  ask-eq-true opa (fail x) w msg e = absurd cc
  ask-eq-true opa panic w msg e = absurd cc

  call_with-eq-ret :
      (opa : OpaNats) (rv : RouteValues) (copy : Go Text Request) (w : W)
      (result : Bool × Option Response)
      → ((call_with agent opa rv copy w).0 ≡ ret result)
      → (result ≡ (false, none)) × ((r : Request) × (copy ≡ ret r) × Granted opa rv w r)
  unfolding eval
  call_with-eq-ret opa rv (ret r) w result e =
      let (stop, (msg, passed)) = decide-eq-ret agent.unmarshal agent _ result e in
      (stop, (r, refl, ask-eq-true opa (inputs agent r rv) w msg passed))
  call_with-eq-ret opa rv (fail x) w result e = absurd cc
  call_with-eq-ret opa rv panic w result e = absurd cc

  -- When Call returns no error, it returns (false, nil), so that later callers run and no response
  -- is created; the clone of the request succeeded; the agent was sent the document of that
  -- clone under the configured subject and policies; its reply has the status 200; and its body
  -- is a document that passes. Nothing else lets a request pass.
  pub call-eq-ret :
      (opa : OpaNats) (ctx : Context) (rv : RouteValues) (c o : Cloner) (w : W)
      (result : Bool × Option Response)
      → ((call agent opa ctx rv c o w).0 ≡ ret result)
      → (result ≡ (false, none)) × ((r : Request) × (c [] ≡ ret r) × Granted opa rv w r)
  unfolding call
  call-eq-ret opa ctx rv c o w result e = call_with-eq-ret opa rv (c []) w result e
