-- ===== src/Examples/Sending.antt =====
-- `send` by a client whose transport is the executor itself.
use a2a_hub.Prelude.{◌≡◌, refl, ap, false, Option, none, some, List, [], ◌∷◌, ◌++◌}
use a2a_hub.Prelude.Text.{Str, codes, ◌==◌, strip, lstrip, rstrip, is_space, join, starts_with}
use a2a_hub.Json.{Json, Fields, str, arr, obj, items, items-array, get}
use a2a_hub.Executor.{
  Message, RequestContext, Emitted, artifact, status, completed, ensure_task, execute,
}
use a2a_hub.Client.Effect.{Transport, World}
use a2a_hub.Client.Calls.{HubClient}
use a2a_hub.Client.Command.{send_command}
use a2a_hub.Client.Sending.{send_body, ServesCalls, text_part}
use a2a_hub.Client.Sending.Delivered.{send_command_delivers}
use a2a_hub.Hub.Post.{begun}
use a2a_hub.Examples.Calling.{client, host}
use a2a_hub.Examples.Deliveries.{principals, quote, bob_mailbox}

abbrev text_at : Option Json → Str
text_at (some (str s)) = s
text_at _ = []

abbrev list_at : Option Json → List Json
list_at (some (arr vs)) = items vs
list_at _ = []

abbrev dict_at : Option Json → Option Fields
dict_at (some (obj fields)) = some fields
dict_at _ = none

abbrev request_of : Message → RequestContext
request_of message = record {
  task_id = codes "t1";
  context_id = codes "c1";
  message = some message;
  metadata = none;
  has_current_task = false;
}

abbrev read_message : Option Json → Option RequestContext
read_message (some (obj message)) = some (
    request_of (record {
      message_id = text_at (get (codes "messageId") message);
      parts = list_at (get (codes "parts") message);
      metadata = dict_at (get (codes "metadata") message);
    }))
read_message _ = none

abbrev read_params : Option Json → Option RequestContext
read_params (some (obj params)) = read_message (get (codes "message") params)
read_params _ = none

read : Json → Option RequestContext
read (obj body) = read_params (get (codes "params") body)
read _ = none

abbrev emit : Option RequestContext → List Emitted → List Emitted
emit none queue = queue
emit (some context) queue =
    queue ++ (execute quote principals context (begun (codes "ana/s1"))).queue

abbrev read_if : Option Json → Option RequestContext
read_if none = none
read_if (some body) = read body

abbrev to_executor : Transport (List Emitted)
to_executor url body headers queue = (none, emit (read_if body) queue)

abbrev ana_client : HubClient (List Emitted)
ana_client = record { config = client.config; transport = to_executor }

abbrev same : List Emitted → List Emitted
same queue = queue

read_back :
    (message_id : Str) (parts : List Json) (metadata : Fields)
    → read (send_body message_id parts metadata)
      ≡ some
          (request_of (record { message_id = message_id; parts = parts; metadata = some metadata }))
unfolding read get ◌==◌
read_back message_id parts metadata =
    ap
      (λ ps.
        some
          (request_of (record { message_id = message_id; parts = ps; metadata = some metadata })))
      (items-array parts)

serves : ServesCalls ana_client quote principals (codes "ana/s1") read same
serves = record {
  handled = λ body context queue known. ap (λ o. emit o queue) known;
  understood = λ message_id parts metadata. (
    request_of (record { message_id = message_id; parts = parts; metadata = some metadata }),
    read_back message_id parts metadata,
    refl,
  );
}

abbrev untouched : World (List Emitted)
untouched = record { hub = []; printed = [] }

trimmed : strip (codes " bob/s2 ") ≡ codes "bob/s2"
unfolding strip lstrip rstrip is_space
trimmed = refl

send_command_delivers_example :
    (context : RequestContext) × ((send_command host ana_client
        (codes " bob/s2 " ∷ codes "hi" ∷ codes "there" ∷ [])
        untouched).1.hub
      ≡ []
        ++ ((ensure_task context (begun (codes "ana/s1"))).queue
            ++ (record {
              owner = codes "bob/s2";
              event =
                  artifact
                    (text_part (join (codes " ") (codes "hi" ∷ codes "there" ∷ [])) ∷ [])
                    (codes "ana/s1")
                    (codes "bob/s2")
                    host.fresh_id;
            })
              ∷ (record {
                owner = codes "bob/s2";
                event = status completed (codes "delivered to bob/s2");
              })
              ∷ []))
unfolding strip lstrip rstrip is_space starts_with
send_command_delivers_example =
    send_command_delivers host ana_client quote principals (codes "ana/s1") read same serves
      (codes " bob/s2 ") (codes "hi") (codes "there" ∷ []) untouched refl refl bob_mailbox
