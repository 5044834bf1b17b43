-- ===== src/Client/Sending.antt =====
-- `send` against the executor of src/a2a_hub/executor.py: what is typed is what is delivered.
pub mod Delivered
use a2a_hub.Prelude.{
  ℕ, ◌≡◌, refl, sym, ap, ◌∙◌, inl, inr, true, false, Bool-cases, Option, none, some, List, [], ◌∷◌,
  ◌++◌, arith, if◌then◌else◌,
}
use a2a_hub.Prelude.Int.{pos}
use a2a_hub.Prelude.Text.{Str, codes, ◌==◌, eq_iff, is_empty, strip, join, starts_with}
use a2a_hub.Json.{Json, Fields, num, str, obj, arr, array, dict, get}
use a2a_hub.Auth.Address.{NamesMailbox}
use a2a_hub.Executor.{
  CallContext, Message, RequestContext, Event, artifact, status, completed, Emitted, Run, execute,
  ensure_task, extract_recipient, first_recipient, recipient_in, struct_to_dict,
}
use a2a_hub.Executor.Delivery.{IsDeliverable, execute-Delivers}
use a2a_hub.Hub.Post.{begun}
use a2a_hub.Hub.Arrival.{ensure_task-user}
use a2a_hub.Client.Effect.{Outcome, ok, refused, crashed, World, M, ◌>>=◌, continue}
use a2a_hub.Client.Calls.{HubClient, headers_of, exchange, rpc, send_message}
use a2a_hub.Client.Command.{delivered, send_words, send_command}
use a2a_hub.Client.Host.{Host, as_dict}

-- the JSON-RPC request for a message
abbrev pub send_body : (message_id : Str) → List Json → Fields → Json
send_body message_id parts metadata = obj (
    dict (
      (codes "jsonrpc", str (codes "2.0"))
      ∷ (codes "id", num (pos 1))
      ∷ (codes "method", str (codes "SendMessage"))
      ∷ (
        codes "params",
        obj (
            dict (
              (
                codes "message",
                obj (
                    dict (
                      (codes "messageId", str message_id)
                      ∷ (codes "role", str (codes "ROLE_USER"))
                      ∷ (codes "parts", arr (array parts))
                      ∷ (codes "metadata", obj metadata)
                      ∷ [])),
              )
              ∷ [])),
      )
      ∷ []))

-- The client's JSON-RPC calls reach the executor as this caller. `read` is what the SDK makes of the
-- body of a request, and `emitted` is what the executor has emitted in a state behind the transport.
pub record ServesCalls {S : Type 0} (client : HubClient S) (repr : Str → Str)
    (known : Option (List Str)) (identity : Str) (read : Json → Option RequestContext)
    (emitted : S → List Emitted) : Type 0 where
  pub handled :
      (body : Json) (context : RequestContext) (s : S)
      → read body ≡ some context
      → emitted (client.transport client.config.url (some body) (headers_of client.config) s).1
        ≡ emitted s ++ (execute repr known context (begun identity)).queue
  pub understood :
      (message_id : Str) (parts : List Json) (metadata : Fields)
      → (context : RequestContext) × (read (send_body message_id parts metadata) ≡ some context)
        × (context.message
            ≡ some (record { message_id = message_id; parts = parts; metadata = some metadata }))

abbrev pub text_part : Str → Json
text_part text = obj (dict ((codes "text", str text) ∷ []))

abbrev pub addressed_to : Str → Fields
addressed_to recipient = dict ((codes "recipient", str recipient) ∷ [])
