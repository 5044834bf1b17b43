-- ===== src/Store/Reading.antt =====
-- Whose tasks a caller reads: its own two mailboxes and what it sent, and nothing else.
use a2a_hub.Prelude.{true, false, ◌≡◌, ◌⊎◌, refl, ap, Option, none, some, [], ◌∷◌, arith}
use a2a_hub.Prelude.Text.{Str, ◌==◌, is_empty, eq_iff}
use a2a_hub.Json.{str}
use a2a_hub.Auth.Identity.{identity_of}
use a2a_hub.Auth.Session.{NoSlash}
use a2a_hub.Auth.Address.{principal_of-identity_of}
use a2a_hub.Executor.{CallContext, hub_owner_resolver}
use a2a_hub.Store.{
  Task, Sdk, sender_of, read_owners, resolved, is_sent_by, first_owned, get_from_mailbox,
  get_as_sender, get_task,
}

abbrev pub first_of {ℓ} : {A : Type ℓ} → Option A → Option A → Option A
first_of none later = later
first_of (some a) later = some a

-- The context of a request that an authenticated session makes, with no delivery under way.
abbrev pub session_context : Str → Str → CallContext
session_context agent session = record {
  user_name = identity_of agent session;
  owner_override = none;
}

identity-ne-agent : (agent session : Str) → identity_of agent session == agent ≡ false
unfolding ◌==◌
identity-ne-agent [] session = refl
identity-ne-agent (c ∷ agent) session = ground (arith, identity-ne-agent agent session)

is_empty-identity : (agent session : Str) → is_empty (identity_of agent session) ≡ false
is_empty-identity [] session = refl
is_empty-identity (c ∷ agent) session = refl

-- A session reads its own mailbox and then its principal's, and no other.
pub read_owners-session :
    (agent session : Str)
    → NoSlash agent
    → read_owners (session_context agent session) ≡ identity_of agent session ∷ agent ∷ []
unfolding read_owners
read_owners-session agent session h =
    rw (principal_of-identity_of agent session h, identity-ne-agent agent session)

pub resolved_self :
    (context : CallContext) (owner : Str) → is_empty owner ≡ false → resolved context owner ≡ owner
unfolding hub_owner_resolver
resolved_self context owner h = rw h

-- While a delivery to `owner` is under way, that owner is the only one read.
read_owners-delivery :
    (context : CallContext) (owner : Str)
    → is_empty owner ≡ false
    → context.owner_override ≡ some (str owner)
    → read_owners context ≡ owner ∷ []
unfolding read_owners
read_owners-delivery context owner full e = rw (e, read_owners, full)

module _ (sdk : Sdk) where
  first_owned-two :
      (context : CallContext) (task_id a b : Str)
      → is_empty a ≡ false
      → is_empty b ≡ false
      → first_owned sdk context task_id (a ∷ b ∷ [])
        ≡ first_of (sdk.fetch a task_id) (sdk.fetch b task_id)
  unfolding first_owned
  first_owned-two context task_id a b fa fb = ground (
    arith,
    ap (λ (o : Str). sdk.fetch o task_id) (resolved_self context a fa),
    ap (λ (o : Str). sdk.fetch o task_id) (resolved_self context b fb),
  )

  -- For a session under a named agent without a slash, the task that it owns under an id is the one
  -- in its own mailbox, or else the one in its agent's mailbox.
  pub get_from_mailbox-session :
      (agent session task_id : Str)
      → NoSlash agent
      → is_empty agent ≡ false
      → get_from_mailbox sdk task_id (session_context agent session)
        ≡ first_of (sdk.fetch (identity_of agent session) task_id) (sdk.fetch agent task_id)
  unfolding get_from_mailbox
  get_from_mailbox-session agent session task_id clean present =
      rw (read_owners-session agent session clean) (
        first_owned-two (session_context agent session) task_id (identity_of agent session) agent
          (is_empty-identity agent session) present)

  is_sent_by_sound :
      (sender : Option Str) (user : Str) → is_sent_by sender user ≡ true → sender ≡ some user
  is_sent_by_sound none user h = cc
  is_sent_by_sound (some sender) user h = ap some ((eq_iff sender user).0 h)

  get_as_sender_sound :
      (task_id : Str) (context : CallContext) (t : Task)
      → get_as_sender sdk task_id context ≡ some t
      → (sdk.by_id task_id ≡ some t) × (sender_of t.artifacts ≡ some context.user_name)
  unfolding get_as_sender
  get_as_sender_sound task_id context t h =
      ground (arith, is_sent_by_sound (sender_of t.artifacts) context.user_name)

  -- For a session under a named agent without a slash, every task that it is handed lies in its own
  -- mailbox, or in its agent's, or names the session itself as its sender.
  pub get_task_sound :
      (agent session task_id : Str) (t : Task)
      → NoSlash agent
      → is_empty agent ≡ false
      → get_task sdk task_id (session_context agent session) ≡ some t
      → (sdk.fetch (identity_of agent session) task_id ≡ some t)
        ⊎ (sdk.fetch agent task_id ≡ some t)
        ⊎ ((sdk.by_id task_id ≡ some t)
            × (sender_of t.artifacts ≡ some (identity_of agent session)))
  unfolding get_task
  get_task_sound agent session task_id t clean present h = ground (
    arith,
    get_from_mailbox-session agent session task_id clean present,
    get_as_sender_sound task_id (session_context agent session) t,
  )

  -- While a delivery to a named owner is under way, a task is read from that owner's mailbox alone,
  -- whoever sent it.
  get_task-delivery :
      (context : CallContext) (owner task_id : Str)
      → is_empty owner ≡ false
      → context.owner_override ≡ some (str owner)
      → get_task sdk task_id context ≡ sdk.fetch owner task_id
  unfolding get_task get_from_mailbox get_as_sender first_owned
  get_task-delivery context owner task_id full e = ground (
    arith,
    read_owners-delivery context owner full e,
    ap (λ (o : Str). sdk.fetch o task_id) (resolved_self context owner full),
  )
