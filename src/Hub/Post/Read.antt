-- ===== src/Hub/Post/Read.antt =====
-- What a session reads with `GetTask` is its own mail, and comes from one who was here.
use a2a_hub.Prelude.{ℕ, ◌≡◌, ◌⊎◌, inl, inr, Option, false, some, List}
use a2a_hub.Prelude.Int.{ℤ}
use a2a_hub.Prelude.Text.{Str, is_empty}
use a2a_hub.Auth.Identity.{identity_of}
use a2a_hub.Auth.Session.{NoSlash}
use a2a_hub.Auth.Tokens.{TokenTable}
use a2a_hub.Auth.Gate.{Proves}
use a2a_hub.Marks.Routes.{context_of}
use a2a_hub.Store.{Sdk, Task, sender_of, get_task}
use a2a_hub.Store.Reading.{get_task_sound}
use a2a_hub.Hub.{App, Hub, Services, create_app, guard}
use a2a_hub.Hub.Visits.{Visit, HasProved}
use a2a_hub.Hub.Addressable.{IsPlain, proven-listed}
use a2a_hub.Hub.Post.{MessageStore, IsFaithful, Running}
use a2a_hub.Hub.Post.Authentic.{Running-IsAuthentic}

get_task_proved :
    (sdk : Sdk) (agent session identity task_id : Str) (task : Task)
    → identity ≡ identity_of agent session
    → NoSlash agent × (is_empty agent ≡ false)
    → get_task sdk task_id (context_of identity) ≡ some task
    → (sdk.fetch identity task_id ≡ some task)
      ⊎ (sdk.fetch agent task_id ≡ some task)
      ⊎ ((sdk.by_id task_id ≡ some task) × (sender_of task.artifacts ≡ some identity))
get_task_proved sdk agent session identity task_id task composed (clean, present) handed =
    rw composed
      (elim (get_task_sound sdk agent session task_id task clean present (rw composed at handed)) [
        | inl own ↦ inl own
        | inr (inl wide) ↦ inr (inl wide)
        | inr (inr sent) ↦ inr (inr sent)
      ])

module _ (services : Services) (tokens : TokenTable) (rpc_url : Str) (max_body_bytes : ℤ)
    (app : App) (made : create_app tokens rpc_url max_body_bytes ≡ some app)
    (plain : IsPlain tokens) where
  module _ {S : Type 0} (store : MessageStore S) (faithful : IsFaithful store) where
    -- Given that the message store of the SDK holds nothing at first, that a task lies in a mailbox
    -- only if it did before the last call on it, or was saved for the caller or under the owner of
    -- an event, that it carries a stamp only if the task of its id did before or the call emitted
    -- it, and that a task found by its id alone lies in some mailbox: in a hub that create_app
    -- builds from a token table whose agents have names that are not empty and have no slash, in
    -- every state that requests lead to from a new database, a task that GetTask hands to an
    -- identity that a further request proves lies in its mailbox, or in its agent's, or was sent by
    -- it; and the sender stamped on the task, if there is one, is an identity that one of the
    -- requests so far proved.
    pub task_read_sound :
        (history : List Visit) (hub : Hub) (s : S)
        → Running services app store history hub s
        → (now : ℕ) (header : Str → Option Str) (identity : Str)
        → (proof : Proves (guard services app now) header identity) → (task_id : Str) (task : Task)
        → get_task (store.view s) task_id (context_of identity) ≡ some task
        → (((store.view s).fetch identity task_id ≡ some task)
            ⊎ ((store.view s).fetch proof.agent task_id ≡ some task)
            ⊎ (sender_of task.artifacts ≡ some identity))
          × ((name : Str)
              → sender_of task.artifacts ≡ some name
              → HasProved services app history name)
    task_read_sound history hub s running now header identity proof task_id task handed =
        let named = plain proof.agent (
          proven-listed services tokens rpc_url max_body_bytes app now header identity made
            proof) in
        let read =
          get_task_proved (store.view s) proof.agent proof.session identity task_id task
            proof.composed named handed in
        let genuine =
          (Running-IsAuthentic services tokens rpc_url max_body_bytes app made plain store faithful
            history hub s running).mail in
        elim read [
          | inl own ↦ (inl own, λ name signed. genuine.sender identity task_id task name own signed)
          | inr (inl wide) ↦ (
            inr (inl wide),
            λ name signed. genuine.sender proof.agent task_id task name wide signed,
          )
          | inr (inr (listed, sent)) ↦
              let (owner, there) = faithful.found s task_id task listed in
              (inr (inr sent), λ name signed. genuine.sender owner task_id task name there signed)
        ]
