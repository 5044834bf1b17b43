-- ===== src/Hub/Arrival.antt =====
-- From `SendMessage` to `GetTask`: a delivered message reaches its recipient.
use a2a_hub.Prelude.{
  ℕ, ◌≡◌, ◌⊎◌, refl, sym, ap, ◌∙◌, inl, inr, false, Bool-cases, Option, none, some, List, [], ◌∷◌,
  ◌++◌, subst,
}
use a2a_hub.Prelude.Text.{Str, is_empty, eq_refl}
use a2a_hub.Json.{Json, Fields, obj}
use a2a_hub.Auth.Identity.{identity_of}
use a2a_hub.Auth.Session.{NoSlash}
use a2a_hub.Executor.{CallContext, RequestContext, artifact, Emitted, Run, ensure_task, execute}
use a2a_hub.Executor.Delivery.{IsDeliverable, execute-Delivers}
use a2a_hub.Store.{Task, Sdk, sender_of, get_from_mailbox, get_task}
use a2a_hub.Auth.Refusal.{Response}
use a2a_hub.Marks.{Mark, Row, clean, clean_mark}
use a2a_hub.Marks.Routes.{loaded, context_of, sender_text, set_mark_route, check_mark, store_mark}
use a2a_hub.Marks.Table.{find, find-set_mark}
use a2a_hub.Hub.{Services}
use a2a_hub.Store.Reading.{first_of, session_context, get_from_mailbox-session}

-- What the SDK makes of the events of a call: the task with an emitted message is stored under the
-- owner in force at that event, with the message's stamp of its sender, and an id names one task.
pub record Saves (sdk : Sdk) (task_id : Str) (queue : List Emitted) : Type 0 where
  pub saved :
      (before after : List Emitted) (parts : List Json) (owner sender recipient message_id : Str)
      → queue
        ≡ before
          ++ (record { owner = owner; event = artifact parts sender recipient message_id }) ∷ after
      → is_empty sender ≡ false
      → (task : Task) × (sdk.fetch owner task_id ≡ some task)
        × (sender_of task.artifacts ≡ some sender)
  pub one_task :
      (a b : Str) (t u : Task) → sdk.fetch a task_id ≡ some t → sdk.fetch b task_id ≡ some u → t ≡ u

pub ensure_task-user :
    (context : RequestContext) (run : Run) → (ensure_task context run).call ≡ run.call
unfolding ensure_task
ensure_task-user context run = elim (Bool-cases context.has_current_task) [
  | inl there ↦ rw there refl
  | inr new ↦ rw new refl
]

first_some :
    (a : Option Task) (b : Option Task) (t : Task)
    → (a ≡ some t) ⊎ (b ≡ some t)
    → ((u : Task) → a ≡ some u → b ≡ some t → u ≡ t)
    → first_of a b ≡ some t
first_some none b t (inl h) one = absurd (cc h)
first_some none b t (inr h) one = h
first_some (some u) b t (inl h) one = h
first_some (some u) b t (inr h) one = ap some (one u refl h)

pub get_task-owned :
    (sdk : Sdk) (task_id : Str) (caller : CallContext) (task : Task)
    → get_from_mailbox sdk task_id caller ≡ some task
    → get_task sdk task_id caller ≡ some task
unfolding get_task
get_task-owned sdk task_id caller task found = rw (get_task, found) refl

module _ (services : Services) (now : ℕ) (task_id identity sender : Str) (sdk : Sdk) (task : Task)
    (payload : Fields) (mark : Mark) (rows : List Row) where
  abbrev marked : Response × List Row
  marked =
      set_mark_route sdk services.repr services.iso services.explain_mark now task_id identity
        (loaded (obj payload)) rows

  abbrev row : Row
  row = record {
    task_id = task_id;
    identity = identity;
    state = mark.state;
    detail = mark.detail;
    sender = sender;
    marked_at = now;
  }

  sender_text-signed : sender_of task.artifacts ≡ some sender → sender_text task.artifacts ≡ sender
  unfolding sender_text
  sender_text-signed from = rw (sender_text, from) refl

  mark_stored :
      clean_mark services.repr payload ≡ clean mark
      → get_from_mailbox sdk task_id (context_of identity) ≡ some task
      → sender_of task.artifacts ≡ some sender
      → (marked.0.status_code ≡ 200) × (find task_id identity marked.1 ≡ some row)
  unfolding set_mark_route check_mark store_mark
  mark_stored cleaned found from =
      rw
        (
          cleaned,
          check_mark,
          found,
          store_mark,
          sender_text-signed from,
          find-set_mark now task_id identity sender mark task_id identity rows,
          eq_refl task_id,
          eq_refl identity,
        )
        (refl, refl)

module _ (repr : Str → Str) (known : Option (List Str)) (context : RequestContext) (run : Run)
    (signed : is_empty run.call.user_name ≡ false) (d : IsDeliverable known context) (sdk : Sdk)
    (saves : Saves sdk context.task_id (execute repr known context run).queue) where
  stored :
      (task : Task) × (sdk.fetch d.recipient context.task_id ≡ some task)
      × (sender_of task.artifacts ≡ some run.call.user_name)
  stored =
      let delivery = execute-Delivers repr known context run d in
      let start = ensure_task context run in
      let user : start.call.user_name ≡ run.call.user_name =
        ap (λ (c : CallContext). c.user_name) (ensure_task-user context run) in
      let (task, here, from) =
        saves.saved start.queue (_ ∷ []) d.message.parts d.recipient start.call.user_name
          d.recipient d.message.message_id delivery.emitted
          (subst (λ u. is_empty u ≡ false) (sym user) signed) in
      (task, here, from ∙ ap some user)

  -- Given that the SDK stores the task of an emitted message under the owner in force, with the
  -- stamp of the message's sender, and that an id names one task: if the caller's name is not empty
  -- and the request is deliverable, then for every session under a named agent without a slash, of
  -- which the identity or the agent is the recipient, GetTask returns a task under the request's
  -- id, which lies in a mailbox of the session and names the caller as its sender.
  pub delivered_readable :
      (agent session : Str)
      → NoSlash agent
      → is_empty agent ≡ false
      → (d.recipient ≡ identity_of agent session) ⊎ (d.recipient ≡ agent)
      → (task : Task) × (get_task sdk context.task_id (session_context agent session) ≡ some task)
        × (get_from_mailbox sdk context.task_id (session_context agent session) ≡ some task)
        × (sender_of task.artifacts ≡ some run.call.user_name)
  delivered_readable agent session plain present mine =
      let (task, here, from) = stored in
      let owned =
        first_some _ _ task
          (elim mine [
            | inl own ↦ inl (ap (λ o. sdk.fetch o context.task_id) (sym own) ∙ here)
            | inr wide ↦ inr (ap (λ o. sdk.fetch o context.task_id) (sym wide) ∙ here)
          ])
          (λ u first second.
            saves.one_task (identity_of agent session) agent u task first second) in
      let found =
        get_from_mailbox-session sdk agent session context.task_id plain present ∙ owned in
      (
        task,
        get_task-owned sdk context.task_id (session_context agent session) task found,
        found,
        from,
      )

  -- Given that the SDK stores the task of an emitted message under the owner in force, with the
  -- stamp of the message's sender, and that an id names one task: if the caller's name is not empty
  -- and the request is deliverable, then a valid mark that a session under a named agent without a
  -- slash, of which the identity or the agent is the recipient, puts on the message under its own
  -- identity is answered with status 200, and the row of that message and identity then holds the
  -- mark, with the caller that sent the message as its sender and the instant given.
  pub delivered_markable :
      (services : Services) (now : ℕ) (agent session : Str) (payload : Fields) (mark : Mark)
      (rows : List Row)
      → NoSlash agent
      → is_empty agent ≡ false
      → (d.recipient ≡ identity_of agent session) ⊎ (d.recipient ≡ agent)
      → clean_mark services.repr payload ≡ clean mark
      → ((set_mark_route sdk services.repr services.iso services.explain_mark now context.task_id
            (identity_of agent session)
            (loaded (obj payload))
            rows).0.status_code
          ≡ 200)
        × (find context.task_id
              (identity_of agent session)
              (set_mark_route sdk services.repr services.iso services.explain_mark now
                context.task_id
                (identity_of agent session)
                (loaded (obj payload))
                rows).1
            ≡ some (record {
              task_id = context.task_id;
              identity = identity_of agent session;
              state = mark.state;
              detail = mark.detail;
              sender = run.call.user_name;
              marked_at = now;
            }))
  delivered_markable services now agent session payload mark rows plain present mine cleaned =
      let (task, read, found, from) = delivered_readable agent session plain present mine in
      mark_stored services now context.task_id (identity_of agent session) run.call.user_name sdk
        task payload mark rows cleaned found from
