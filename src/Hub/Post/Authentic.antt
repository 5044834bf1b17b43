-- ===== src/Hub/Post/Authentic.antt =====
-- From the first request on, the mail and the marks of the hub are authentic.
use a2a_hub.Prelude.{
  ◌≡◌, ◌⊎◌, refl, sym, subst, inl, inr, some, List, [], ◌∷◌, All, All-map, Option-cases,
}
use a2a_hub.Prelude.Int.{ℤ}
use a2a_hub.Prelude.Text.{Str}
use a2a_hub.Auth.Tokens.{TokenTable}
use a2a_hub.Store.{Sdk, Task, sender_of}
use a2a_hub.Marks.{Row}
use a2a_hub.Marks.Routes.{sender_text}
use a2a_hub.Hub.{App, Hub, create_app, json_rpc, Services}
use a2a_hub.Hub.Addressable.{IsPlain, create_app-known}
use a2a_hub.Hub.Visits.{Visit, visit, HasProved}
use a2a_hub.Hub.Earned.{Earns, IsEarned}
use a2a_hub.Hub.Sound.{Reachable, Reachable-IsSound}
use a2a_hub.Hub.Sound
use a2a_hub.Hub.Post.{MessageStore, IsFaithful, Running, start, then_serve, then_call}
use a2a_hub.Hub.Post.Genuine.{
  IsGenuine, later-IsGenuine, caller-Proves, empty-IsGenuine, call-IsGenuine,
}

-- Each mark names as its maker, and as the sender if it names one, who proved that identity in one of
-- the visits.
abbrev pub AllKnown : Services → App → List Visit → List Row → Type 0
AllKnown services app history = All (λ row.
    HasProved services app history row.identity
    × ((row.sender ≡ []) ⊎ HasProved services app history row.sender))

pub record IsAuthentic (services : Services) (app : App) (history : List Visit) (sdk : Sdk)
    (hub : Hub) : Type 0 where
  pub mail : IsGenuine services app history sdk
  pub marks : AllKnown services app history hub.marks

-- At each of the visits the message store was genuine.
abbrev AllGenuine : Services → App → List Visit → List Visit → Type 0
AllGenuine services app history = All (λ visit. IsGenuine services app history visit.sdk)

sender_text-known :
    (services : Services) (app : App) (history : List Visit) (sdk : Sdk) (owner task_id : Str)
    (task : Task)
    → IsGenuine services app history sdk
    → sdk.fetch owner task_id ≡ some task
    → (sender_text task.artifacts ≡ [])
      ⊎ HasProved services app history (sender_text task.artifacts)
unfolding sender_text
sender_text-known services app history sdk owner task_id task genuine here =
    elim (Option-cases (sender_of task.artifacts)) [
      | inl unsigned ↦ inl (rw (sender_text, unsigned) refl)
      | inr (name, signed) ↦
          inr (rw (sender_text, signed) (genuine.sender owner task_id task name here signed))
    ]

earned-sender :
    (services : Services) (app : App) (history : List Visit) (row : Row) (visit : Visit)
    → IsGenuine services app history visit.sdk
    → Earns services app row.task_id row.identity row.sender visit
    → (row.sender ≡ []) ⊎ HasProved services app history row.sender
earned-sender services app history row visit genuine earned =
    rw earned.recorded (elim earned.received [
      | inl own ↦
          sender_text-known services app history visit.sdk row.identity row.task_id earned.task
            genuine own
      | inr wide ↦
          sender_text-known services app history visit.sdk earned.proof.agent row.task_id
            earned.task genuine wide
    ])

earned-known :
    (services : Services) (app : App) (history : List Visit) (row : Row) (visits : List Visit)
    → AllGenuine services app history visits
    → IsEarned services app visits row
    → HasProved services app visits row.identity
      × ((row.sender ≡ []) ⊎ HasProved services app history row.sender)
earned-known services app history row [] genuine earned = absurd earned
earned-known services app history row (visit ∷ visits) (here, genuine) (inl earned) =
    (inl earned.proof, earned-sender services app history row visit here earned)
earned-known services app history row (visit ∷ visits) (here, genuine) (inr earned) =
    let (proved, sender) = earned-known services app history row visits genuine earned in
    (inr proved, sender)

module _ (services : Services) (tokens : TokenTable) (rpc_url : Str) (max_body_bytes : ℤ)
    (app : App) (made : create_app tokens rpc_url max_body_bytes ≡ some app)
    (plain : IsPlain tokens) where
  module _ {S : Type 0} (store : MessageStore S) (faithful : IsFaithful store) where
    more-AllGenuine :
        (history : List Visit) (visit : Visit)
        → IsGenuine services app history visit.sdk
        → AllGenuine services app history history
        → AllGenuine services app (visit ∷ history) (visit ∷ history)
    more-AllGenuine history visit here before = (
      later-IsGenuine services app history visit visit.sdk here,
      All-map _ _ history (λ v genuine. later-IsGenuine services app history visit v.sdk genuine)
          before,
    )

    Running-Reachable :
        (history : List Visit) (hub : Hub) (s : S)
        → Running services app store history hub s
        → Reachable services app history hub
          × IsGenuine services app history (store.view s)
          × AllGenuine services app history history
    Running-Reachable history hub s start = (
      Sound.start,
      empty-IsGenuine services tokens rpc_url max_body_bytes app made plain store faithful,
      tt,
    )
    Running-Reachable history hub s
          (then_serve {history = past} before now late header scope request) =
        let (reached, genuine, all) = Running-Reachable _ _ s before in
        let this = visit now header scope request (store.view s) in
        (
          Sound.then_serve reached this late,
          later-IsGenuine services app past this (store.view s) genuine,
          more-AllGenuine past this genuine all,
        )
    Running-Reachable history hub s
          (then_call {history = past} {s = s₀} before now late header scope identity passed call s'
            saved) =
        let (reached, genuine, all) = Running-Reachable _ _ s₀ before in
        let this = visit now header scope json_rpc (store.view s₀) in
        (
          Sound.then_serve reached this late,
          call-IsGenuine services tokens rpc_url max_body_bytes app made plain store faithful past
              now header scope identity
              (caller-Proves services app now header scope _ identity passed) call s₀ s' saved
              genuine,
          more-AllGenuine past this genuine all,
        )

    -- Given that the message store of the SDK holds nothing at first, that a task lies in a mailbox
    -- only if it did before the last call on it, or was saved for the caller or under the owner of
    -- an event, that it carries a stamp only if the task of its id did before or the call emitted
    -- it, and that a task found by its id alone lies in some mailbox: in a hub that create_app
    -- builds from a token table whose agents have names that are not empty and have no slash, in
    -- every state that requests lead to from a new database, every task lies in a mailbox that is a
    -- valid recipient; the sender stamped on a task is an identity that one of these requests
    -- proved, by its token and its session header; and each mark names as its maker, and as the
    -- sender if it names one, an identity that one of these requests proved.
    pub Running-IsAuthentic :
        (history : List Visit) (hub : Hub) (s : S)
        → Running services app store history hub s
        → IsAuthentic services app history (store.view s) hub
    Running-IsAuthentic history hub s running =
        let (reached, genuine, all) = Running-Reachable history hub s running in
        let sound =
          Reachable-IsSound services app
            (subst IsPlain (sym (create_app-known tokens rpc_url max_body_bytes app made).0) plain)
            history hub reached in
        record {
          mail = genuine;
          marks =
              All-map _ _ hub.marks
                (λ row earned. earned-known services app history row history all earned)
                sound.earned;
        }
