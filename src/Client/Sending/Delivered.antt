-- ===== src/Client/Sending/Delivered.antt =====
-- What is typed behind `send` is what is delivered.
use a2a_hub.Prelude.{
  ◌≡◌, refl, ap, ◌∙◌, inl, inr, true, false, Bool-cases, Option, some, List, [], ◌∷◌, ◌++◌,
}
use a2a_hub.Prelude.Int.{pos}
use a2a_hub.Prelude.Text.{Str, codes, ◌==◌, eq_iff, is_empty, strip, join, starts_with}
use a2a_hub.Json.{Json, Fields, num, str, obj, dict, get}
use a2a_hub.Auth.Address.{NamesMailbox}
use a2a_hub.Executor.{
  CallContext, RequestContext, artifact, status, completed, Emitted, ensure_task, extract_recipient,
  first_recipient, recipient_in, struct_to_dict,
}
use a2a_hub.Executor.Delivery.{IsDeliverable, execute-Delivers}
use a2a_hub.Hub.Post.{begun}
use a2a_hub.Hub.Arrival.{ensure_task-user}
use a2a_hub.Client.Effect.{Outcome, ok, refused, crashed, World, M, continue}
use a2a_hub.Client.Calls.{HubClient, headers_of, exchange, rpc, send_message}
use a2a_hub.Client.Command.{delivered, send_words, send_command}
use a2a_hub.Client.Host.{Host, as_dict}
use a2a_hub.Client.Sending.{send_body, ServesCalls, text_part, addressed_to}

continue_keeps :
    {S A B : Type 0} (x : Outcome A × World S) (f : A → M S B)
    → ((a : A) (w : World S) → (f a w).1.hub ≡ w.hub)
    → (continue x f).1.hub ≡ x.1.hub
continue_keeps (ok a, w) f h = h a w
continue_keeps (refused e, w) f h = refl
continue_keeps (crashed, w) f h = refl

module _ {S : Type 0} (host : Host) (client : HubClient S) where
  abbrev after_send : (recipient text : Str) → S → S
  after_send recipient text s =
      (client.transport client.config.url
        (some (send_body host.fresh_id (text_part text ∷ []) (addressed_to recipient)))
        (headers_of client.config) s).1

  rpc_hub :
      (method : Str) (params : Fields) (w : World S)
      → (rpc host.repr client method params w).1.hub
        ≡ (client.transport client.config.url
            (some (
              obj (
                dict (
                  (codes "jsonrpc", str (codes "2.0"))
                  ∷ (codes "id", num (pos 1))
                  ∷ (codes "method", str method)
                  ∷ (codes "params", obj params)
                  ∷ []))))
            (headers_of client.config)
            w.hub).1
  unfolding rpc exchange
  rpc_hub method params w = continue_keeps _ _ (λ a v. refl)

  delivered_hub :
      (recipient text : Str) (w : World S)
      → (delivered host client recipient text w).1.hub ≡ after_send recipient text w.hub
  unfolding send_message
  delivered_hub recipient text w =
      continue_keeps (send_message host.repr client host.fresh_id recipient text w) _
        (λ a v. continue_keeps (as_dict a, v) _ (λ p u. refl))
      ∙ rpc_hub (codes "SendMessage") _ w

  -- no word of the text can be taken for a flag
  plain_word :
      (word : Str)
      → starts_with word (codes "--") ≡ false
      → ((word == codes "--") ≡ false) × ((word == codes "--body-file") ≡ false)
  plain_word word plain = (
    elim (Bool-cases (word == codes "--")) [
      | inl dashes ↦ absurd (
          flag_starts (codes "--") ((eq_iff word (codes "--")).0 dashes)
            (unfold starts_with in refl))
      | inr other ↦ other
    ],
    elim (Bool-cases (word == codes "--body-file")) [
      | inl file ↦ absurd (
          flag_starts (codes "--body-file") ((eq_iff word (codes "--body-file")).0 file)
            (unfold starts_with in refl))
      | inr other ↦ other
    ],
  )
    where
      flag_starts : (flag : Str) → word ≡ flag → starts_with flag (codes "--") ≡ true → ⊥
      flag_starts flag same flagged = cc (plain, flagged, ap (λ t. starts_with t (codes "--")) same)

  send_words_hub :
      (recipient word : Str) (words : List Str) (w : World S)
      → starts_with word (codes "--") ≡ false
      → (send_words host client recipient word words w).1.hub
        ≡ after_send recipient (join (codes " ") (word ∷ words)) w.hub
  unfolding send_words
  send_words_hub recipient word words w plain =
      rw (send_words, (plain_word word plain).0, plain)
        (delivered_hub recipient (join (codes " ") (word ∷ words)) w)

  send_command_hub :
      (recipient word : Str) (words : List Str) (w : World S)
      → starts_with word (codes "--") ≡ false
      → (send_command host client (recipient ∷ word ∷ words) w).1.hub
        ≡ after_send recipient (join (codes " ") (word ∷ words)) w.hub
  unfolding send_command
  send_command_hub recipient word [] w plain = send_words_hub recipient word [] w plain
  send_command_hub recipient word (path ∷ rest) w plain =
      rw (send_command, (plain_word word plain).1)
        (send_words_hub recipient word (path ∷ rest) w plain)

first_addressed :
    (meta : Fields) (rest : List Fields) (recipient : Str)
    → recipient_in (get (codes "recipient") meta) ≡ some recipient
    → first_recipient (meta ∷ rest) ≡ some recipient
unfolding first_recipient
first_addressed meta rest recipient named = rw (first_recipient, named) refl

recipient_named :
    (recipient : Str)
    → is_empty (strip recipient) ≡ false
    → recipient_in (get (codes "recipient") (addressed_to recipient)) ≡ some (strip recipient)
unfolding recipient_in get ◌==◌
recipient_named recipient full = rw full refl

addressed :
    (context : RequestContext) (message_id recipient : Str) (parts : List Json)
    → is_empty (strip recipient) ≡ false
    → context.message
      ≡ some (record {
        message_id = message_id;
        parts = parts;
        metadata = some (addressed_to recipient);
      })
    → extract_recipient context ≡ some (strip recipient)
unfolding extract_recipient struct_to_dict
addressed context message_id recipient parts full carried =
    rw carried (
      first_addressed (addressed_to recipient) _ (strip recipient) (recipient_named recipient full))

module _ {S : Type 0} (host : Host) (client : HubClient S) (repr : Str → Str)
    (known : Option (List Str)) (identity : Str) (read : Json → Option RequestContext)
    (emitted : S → List Emitted)
    (serves : ServesCalls client repr known identity read emitted) where
  -- If the client's JSON-RPC calls reach the executor as a caller, and the SDK reads the id, the
  -- parts and the metadata of a message as they stand in the request: send, with a recipient that
  -- is not blank and, trimmed, names a mailbox, and with words of which the first does not begin
  -- with two dashes, leads to exactly these events: those that ensure the task; the words, joined
  -- by spaces, as the one part of a message that is stamped with the caller and owned by the
  -- trimmed recipient; and the completion, under that owner.
  pub send_command_delivers :
      (recipient word : Str) (words : List Str) (w : World S)
      → starts_with word (codes "--") ≡ false
      → is_empty (strip recipient) ≡ false
      → NamesMailbox known (strip recipient)
      → (context : RequestContext) × (emitted
            (send_command host client (recipient ∷ word ∷ words) w).1.hub
          ≡ emitted w.hub
            ++ ((ensure_task context (begun identity)).queue
                ++ (record {
                  owner = strip recipient;
                  event =
                      artifact
                        (text_part (join (codes " ") (word ∷ words)) ∷ [])
                        identity
                        (strip recipient)
                        host.fresh_id;
                })
                  ∷ (record {
                    owner = strip recipient;
                    event = status completed (codes "delivered to " ++ strip recipient);
                  })
                  ∷ []))
  send_command_delivers recipient word words w plain full mailbox =
      let parts = text_part (join (codes " ") (word ∷ words)) ∷ [] in
      let (context, understood, carried) =
        serves.understood host.fresh_id parts (addressed_to recipient) in
      let deliverable : IsDeliverable known context = record {
        message = record {
          message_id = host.fresh_id;
          parts = parts;
          metadata = some (addressed_to recipient);
        };
        recipient = strip recipient;
        carried = carried;
        addressed = addressed context host.fresh_id recipient parts full carried;
        mailbox = mailbox;
      } in
      let user =
        ap (λ (c : CallContext). c.user_name) (ensure_task-user context (begun identity)) in
      let delivery = execute-Delivers repr known context (begun identity) deliverable in
      (
        context,
        ap emitted (send_command_hub host client recipient word words w plain)
            ∙ serves.handled (send_body host.fresh_id parts (addressed_to recipient)) context w.hub
                understood
            ∙ ap (λ q. emitted w.hub ++ q) (delivery.emitted ∙ (rw user refl)),
      )
