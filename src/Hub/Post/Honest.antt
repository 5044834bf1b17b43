-- ===== src/Hub/Post/Honest.antt =====
-- What the executor emits: events for the caller or a mailbox that exists, stamped with the caller.
use a2a_hub.Prelude.{
  ◌≡◌, ◌⊎◌, refl, ap, inl, inr, true, Option, none, some, List, [], ◌∷◌, All, All-append,
  Bool-cases,
}
use a2a_hub.Prelude.Text.{Str, is_empty}
use a2a_hub.Json.{str}
use a2a_hub.Auth.Identity.{is_valid_identity}
use a2a_hub.Executor.{
  CallContext, Event, artifact, Emitted, Message, RequestContext, Run, hub_owner_resolver, enqueue,
  ensure_task, route, process, execute, cancel, extract_recipient,
}
use a2a_hub.Marks.Routes.{context_of}
use a2a_hub.Hub.{App, Services}
use a2a_hub.Hub.Post.{Call, sending, cancelling, begun, emitted}

module _ (known : Option (List Str)) (identity : Str) where
  abbrev pub IsSigned : Event → Type 0
  IsSigned (artifact parts from recipient message_id) = from ≡ identity
  IsSigned _ = Unit

  -- The event is for a mailbox of the caller or one that exists, and a stamp on it is the caller's.
  pub record IsHonest (e : Emitted) : Type 0 where
    pub mailbox : (e.owner ≡ identity) ⊎ (is_valid_identity e.owner known ≡ true)
    pub signed : IsSigned e.event

  -- the run is the caller's, and emitted nothing else so far
  record IsClean (run : Run) : Type 0 where
    own : run.call ≡ context_of identity
    emitted_so_far : All IsHonest run.queue

  begun-IsClean : IsClean (begun identity)
  begun-IsClean = record { own = refl; emitted_so_far = tt }

  enqueue-IsHonest :
      (event : Event) (run : Run)
      → (hub_owner_resolver run.call ≡ identity)
        ⊎ (is_valid_identity (hub_owner_resolver run.call) known ≡ true)
      → IsSigned event
      → All IsHonest run.queue
      → All IsHonest (enqueue event run).queue
  enqueue-IsHonest event run mailbox signed h =
      All-append IsHonest run.queue (_ ∷ []) h (record { mailbox = mailbox; signed = signed }, tt)

  own_owner : (run : Run) → IsClean run → hub_owner_resolver run.call ≡ identity
  unfolding hub_owner_resolver
  own_owner run h = rw h.own refl

  own-IsHonest :
      (event : Event) (run : Run)
      → IsSigned event
      → IsClean run
      → All IsHonest (enqueue event run).queue
  own-IsHonest event run signed h =
      enqueue-IsHonest event run (inl (own_owner run h)) signed h.emitted_so_far

  ensure_task-IsClean :
      (context : RequestContext) (run : Run) → IsClean run → IsClean (ensure_task context run)
  unfolding ensure_task
  ensure_task-IsClean context run h = elim (Bool-cases context.has_current_task) [
    | inl there ↦ rw there h
    | inr new ↦ rw new (record { own = h.own; emitted_so_far = own-IsHonest _ run tt h })
  ]

  pinned_owner :
      (recipient : Str)
      → is_valid_identity recipient known ≡ true
      → (hub_owner_resolver (record { user_name = identity; owner_override = some (str recipient) })
          ≡ identity)
        ⊎ (is_valid_identity
              (hub_owner_resolver
                (record { user_name = identity; owner_override = some (str recipient) }))
              known
            ≡ true)
  unfolding hub_owner_resolver
  pinned_owner recipient valid = elim (Bool-cases (is_empty recipient)) [
    | inl blank ↦ inl (rw blank refl)
    | inr full ↦ inr (rw full valid)
  ]

  route-All-IsHonest :
      (repr : Str → Str) (message : Message) (recipient : Option Str) (run : Run)
      → IsClean run
      → All IsHonest (route repr known message recipient run).queue
  unfolding route
  route-All-IsHonest repr message none run h = own-IsHonest _ run tt h
  route-All-IsHonest repr message (some recipient) run h =
      let user : run.call.user_name ≡ identity = ap (λ (c : CallContext). c.user_name) h.own in
      elim (Bool-cases (is_valid_identity recipient known)) [
        | inl valid ↦
            let mailbox = pinned_owner recipient valid in
            let pinned : Run = record run {
              call = record { user_name = identity; owner_override = some (str recipient) };
            } in
            rw (valid, user)
              (enqueue-IsHonest _
                (enqueue (artifact message.parts identity recipient message.message_id) pinned)
                mailbox tt (enqueue-IsHonest _ pinned mailbox refl h.emitted_so_far))
        | inr bad ↦ rw bad (own-IsHonest _ run tt h)
      ]

  process-All-IsHonest :
      (repr : Str → Str) (recipient : Option Str) (message : Option Message) (run : Run)
      → IsClean run
      → All IsHonest (process repr known recipient message run).queue
  unfolding process
  process-All-IsHonest repr recipient none run h = own-IsHonest _ run tt h
  process-All-IsHonest repr recipient (some message) run h =
      route-All-IsHonest repr message recipient run h

-- Every event that a call emits is for the caller or a mailbox that exists, and no stamp on it names
-- anyone but the caller.
pub emitted-All-IsHonest :
    (services : Services) (app : App) (identity : Str) (call : Call)
    → All (IsHonest (some app.known_agents) identity) (emitted services app identity call)
unfolding emitted execute cancel
emitted-All-IsHonest services app identity (sending context) =
    let known = some app.known_agents in
    process-All-IsHonest known identity _ (extract_recipient context) context.message
      (ensure_task context (begun identity))
      (ensure_task-IsClean known identity context (begun identity) (begun-IsClean known identity))
emitted-All-IsHonest services app identity (cancelling context) =
    let known = some app.known_agents in
    own-IsHonest known identity _ (begun identity) tt (begun-IsClean known identity)
