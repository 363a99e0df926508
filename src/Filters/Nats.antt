-- ===== src/Filters/Nats.antt =====
-- The NATS filters of internal/callers/filters/nats.go, and Await of common.go. The client library
-- is the parameter `broker`, the header library of nats-helpers the parameter `headers`. What arrives
-- between the publication and the end of the context is the event that the broker gives.

pub mod Reflected
pub mod Inbox
pub mod Callbacks
pub mod Accepted
use iceberg.Common.Go.{◌>>=◌ as go_bind}
use iceberg.Common.Text.{trim_prefix}
use iceberg.Nats.Broker.{Msg, Event, message, deadline, Broker}
use iceberg.Nats.Host.{resolve_host}
use iceberg.Nats.Conn.{Gateway, on_world, get_conn}
use iceberg.Netio.Exec.{Exec, ◌>>=◌, ◌>>◌, lift}
use iceberg.Netio.Clone.{clone_header}
use iceberg.Netio.Header.{Header}
use iceberg.Netio.Message.{Request, Response, Context, read_all, HttpError, new_error}
use iceberg.Netio.Request.{ShadowRequest, RouteValues}
use iceberg.Netio.Response.{ShadowResponse, entries}
use iceberg.Netio.Caller.{Caller, CallResult, Cloner, Turn, internal, deadline_exceeded, State}
use iceberg.Netio.Cascade.{cascade}
use iceberg.Filters.Filter.{Filter, filter_caller}
use iceberg.Filters.Message.{msg_to_request, msg_to_response}
use iceberg.Common.{
  ℕ, List, [], ◌∷◌, Option, none, some, Bool, false, ◌==◌, ltb, if◌then◌else◌, length,
}
use iceberg.Common.Go.{Go, ret, fail, panic, map_error}
use iceberg.Common.Text.{Text, codes, text_eq}
use iceberg.Common.Map.{Map}

-- github.com/vedadiyan/nats-helpers/headers: headers that survive a queue.
pub record HeadersLib : Type 0 where
  pub import_from : Map Text (List Text) → Go Text (Map Text (List Text))
  pub export_to : Map Text (List Text) → Map Text (List Text) → Go Text (Map Text (List Text))
  pub set_reflector : Text → Map Text (List Text) → Map Text (List Text)
  pub set_reply : Text → Map Text (List Text) → Map Text (List Text)
  pub get_reply : Map Text (List Text) → Text
  pub delete_reply : Map Text (List Text) → Map Text (List Text)

abbrev pub durable_channel : Text
durable_channel = codes "$ICEBERG.DURABLE"

pub record NatsBase (W : Type 0) : Type 0 where
  pub filter : Filter W
  pub host : Text
  pub subject : Text

-- NewBaseNATS
unfoldable pub new_base_nats : (Text → Text) → {W : Type 0} → Filter W → NatsBase W
unfolding resolve_host trim_prefix
new_base_nats env f = record {
  filter = f;
  host = resolve_host env f.address.host;
  subject = trim_prefix f.address.path (codes "/");
}

-- What a queue is told of a message.
pub data Ack : Type 0 where
  done drop : Ack

-- Await, on what the handler put into one of the two channels.
abbrev pub awaited : Go Text ShadowResponse → CallResult
awaited (ret res) =
    if ltb 399 res.response.status_code
    then fail (new_error res.response.status res.response.status_code)
    else ret (false, some res.response)
awaited (fail e) = fail (internal e)
awaited panic = panic

-- An error of a step of Call, with its status.
abbrev pub with_status : {W A : Type 0} → ℕ → Exec W Text A → Exec W HttpError A
with_status status m w = let (r, w') = m w in (map_error (λ e. new_error e status) r, w')

module _ (atoi_error : Text → Text) (headers : HeadersLib) where
  -- An imported header that is empty leaves the message as it is.
  abbrev pub with_header : Msg → Map Text (List Text) → Msg
  with_header m [] = m
  with_header m (entry ∷ h) = record m { header = entry ∷ h }

  -- `handle` of SubscribeOnce.
  unfoldable pub handle_message : Msg → Go Text ShadowResponse
  handle_message m =
      go_bind (headers.import_from m.header) (λ h. msg_to_response atoi_error (with_header m h))

  -- The message that Publish of a NatsCoreFilter makes of a request.
  abbrev pub core_message : Text → Text → Request → Go Text Msg
  core_message subject inbox req = go_bind (read_all req.body) λ (bytes, _).
      go_bind (headers.export_to (entries (clone_header req.header)) [])
        λ h. ret (record { subject = subject; reply = inbox; header = h; body = bytes })

  -- Setting a key of a nil header panics.
  abbrev pub reflected_header : Text → Header → Go Text (Map Text (List Text))
  reflected_header inbox none = panic
  reflected_header inbox (some h) =
      ret (headers.set_reply inbox (headers.set_reflector durable_channel h))

  -- The message that Publish of a NatsJSFilter makes.
  abbrev pub durable_message : Text → Text → Request → Go Text Msg
  durable_message subject inbox req = go_bind (read_all req.body) λ (bytes, _).
      go_bind (reflected_header inbox (clone_header req.header)) λ hdr.
        go_bind (headers.export_to hdr [])
          λ h. ret (record { subject = subject; reply = []; header = h; body = bytes })

  -- `handle` of CreateReflectorChannel: the message that it publishes, if any.
  unfoldable pub reflect : Msg → Go Text (Option Msg)
  reflect m = go_bind (headers.import_from m.header) λ h.
      if length (headers.get_reply h) == 0
      then ret none
      else go_bind (headers.export_to (headers.delete_reply h) m.header) λ header. ret (
          some
            (record { subject = headers.get_reply h; reply = []; header = header; body = m.body }))

  module _ {W : Type 0} where
    abbrev pub finished : Go HttpError (Option ShadowResponse) × State W → Go Text (Unit {0}) × W
    finished (panic, s) = (panic, s.world)
    finished (ret _, s) = (ret tt, s.world)
    finished (fail _, s) = (ret tt, s.world)

    abbrev pub run_request :
        List (Caller W) → Text → List Turn → W → Go Text ShadowRequest → Go Text (Unit {0}) × W
    run_request callers uuid turns w (ret s) = finished (cascade uuid turns s (some callers) w)
    run_request callers uuid turns w (fail e) = (panic, w)
    run_request callers uuid turns w panic = (panic, w)

    -- `callbacks`: the cascade of the filter's own callers on the message that came back.
    unfoldable pub run_callbacks : List (Caller W) → Msg → Text → List Turn → Exec W Text (Unit {0})
    run_callbacks callers m uuid turns w = run_request callers uuid turns w (msg_to_request m)

    -- A panic in the goroutine of the callbacks ends the program.
    abbrev pub after_callbacks : CallResult → Go Text (Unit {0}) × W → CallResult × W
    after_callbacks r (panic, w) = (panic, w)
    after_callbacks r (ret _, w) = (r, w)
    after_callbacks r (fail _, w) = (r, w)

    abbrev pub core_outcome : List (Caller W) → Event × W → CallResult × W
    core_outcome callers (deadline, w) = (fail deadline_exceeded, w)
    core_outcome callers (message m uuid turns, w) =
        after_callbacks (awaited (handle_message m)) (run_callbacks callers m uuid turns w)

    abbrev pub durable_outcome : Event × W → CallResult × W
    durable_outcome (deadline, w) = (fail deadline_exceeded, w)
    durable_outcome (message m _ _, w) = (awaited (handle_message m), w)

    module _ {Conn Js Queue : Type 0} (broker : Broker W Conn Js Queue) where
      abbrev pub new_inbox : Conn → Exec W HttpError Text
      new_inbox conn w = let (inbox, w') = broker.new_resp_inbox conn w in (ret inbox, w')

      -- SubscribeOnce
      abbrev pub subscribe_once : Conn → Text → Exec W Text (Unit {0})
      subscribe_once conn inbox = broker.subscribe conn inbox >> broker.auto_unsubscribe conn inbox

      abbrev pub core_publish : Conn → Text → Text → Cloner → Exec W Text (Unit {0})
      core_publish conn subject inbox c =
          lift (go_bind (c []) (core_message subject inbox)) >>= broker.publish_msg conn

      abbrev pub durable_publish : Queue → Text → Text → Cloner → Exec W Text (Unit {0})
      durable_publish queue subject inbox c =
          lift (go_bind (c []) (durable_message subject inbox)) >>= broker.push_msg queue

      abbrev pub await_core :
          Conn → List (Caller W) → Text → Context → Exec W HttpError (Bool × Option Response)
      await_core conn callers inbox ctx w =
          core_outcome callers (broker.first_event conn inbox ctx w)

      abbrev pub await_durable : Conn → Text → Context → Exec W HttpError (Bool × Option Response)
      await_durable conn inbox ctx w = durable_outcome (broker.first_event conn inbox ctx w)

      -- NatsCoreFilter.Call
      unfoldable pub core_call :
          NatsBase W → Conn → Context → RouteValues → Cloner → Cloner → W → CallResult × W
      unfolding handle_message run_callbacks
      core_call f conn ctx rv c o = do
        inbox ← new_inbox conn
        with_status 500 (subscribe_once conn inbox)
        with_status 502 (core_publish conn f.subject inbox c)
        await_core conn f.filter.callers inbox ctx

      -- NatsJSFilter.Call
      unfoldable pub durable_call :
          NatsBase W → Conn → Queue → Context → RouteValues → Cloner → Cloner → W → CallResult × W
      unfolding handle_message
      durable_call f conn queue ctx rv c o = do
        inbox ← new_inbox conn
        with_status 500 (subscribe_once conn inbox)
        with_status 502 (durable_publish queue f.subject inbox c)
        await_durable conn inbox ctx

      -- CreateReflectorChannel
      unfoldable pub create_reflector : Conn → Exec (Gateway W Conn) Text (Unit {0})
      create_reflector conn = on_world (
          broker.queue_new conn (durable_channel ∷ []) >>= λ queue.
          broker.pull queue durable_channel)

      abbrev pub publish_reflected : Conn → Option Msg → Exec W Text (Unit {0})
      publish_reflected conn none = lift (ret tt)
      publish_reflected conn (some m) = broker.publish_msg conn m

      abbrev pub acknowledge : Go Text (Unit {0}) × W → Go Text Ack × W
      acknowledge (ret _, w) = (ret done, w)
      acknowledge (fail _, w) = (ret drop, w)
      acknowledge (panic, w) = (panic, w)

      abbrev pub callbacks_then : Go Text Ack → Go Text (Unit {0}) × W → Go Text Ack × W
      callbacks_then r (panic, w) = (panic, w)
      callbacks_then r (ret _, w) = (r, w)
      callbacks_then r (fail _, w) = (r, w)

      -- The clone that `handle` makes shares the header map of the message, and Export writes into it.
      -- (Where Export fails, what it wrote before is not known, and left out.)
      abbrev pub exported_into : Msg → Go Text (Option Msg) → Msg
      exported_into m (ret (some made)) = record m { header = made.header }
      exported_into m _ = m

      -- The function that the reflector's queue calls with each message; the callbacks are deferred,
      -- and read the message behind Export.
      unfoldable pub pulled : Conn → List (Caller W) → Msg → Text → List Turn → W → Go Text Ack × W
      unfolding reflect run_callbacks
      pulled conn callers m uuid turns w =
          let (r, w') = acknowledge ((lift (reflect m) >>= publish_reflected conn) w) in
          callbacks_then r (run_callbacks callers (exported_into m (reflect m)) uuid turns w')

      -- NewCoreNATSFilter
      unfoldable pub new_core_filter : NatsBase W → Exec (Gateway W Conn) Text (Caller W)
      unfolding core_call get_conn
      new_core_filter f = get_conn broker f.host none >>= λ conn.
          lift (ret (filter_caller f.filter (core_call f conn)))

      -- NewDurableNATSFilter
      unfoldable pub new_durable_filter : NatsBase W → Exec (Gateway W Conn) Text (Caller W)
      unfolding durable_call get_conn create_reflector
      new_durable_filter f = do
        conn ← get_conn broker f.host (some create_reflector)
        queue ← on_world (broker.queue_new conn (f.subject ∷ []))
        lift (ret (filter_caller f.filter (durable_call f conn queue)))
