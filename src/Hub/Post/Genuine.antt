-- ===== src/Hub/Post/Genuine.antt =====
-- The mail that the hub holds is genuine: who it is for exists, and who it is from has been here.
use a2a_hub.Prelude.{
  ℕ, ◌≡◌, refl, sym, subst, inl, inr, true, not, ◌&&◌, Option, none, some, List, [], ◌∷◌, All-Some,
  arith, Bool-cases, ap, ◌∙◌,
}
use a2a_hub.Prelude.Int.{ℤ}
use a2a_hub.Prelude.Text.{Str, codes, mem, ◌==◌}
use a2a_hub.Auth.Identity.{is_valid_identity}
use a2a_hub.Auth.Tokens.{TokenTable}
use a2a_hub.Auth.Refusal.{Response, Scope}
use a2a_hub.Auth.Bearer.{Outcome, forwarded, replied, raised, public_paths, bearer_call}
use a2a_hub.Auth.Gate.{Proves, bearer_call_sound}
use a2a_hub.Executor.{Event, new_task, artifact, status, Emitted}
use a2a_hub.Store.{Sdk, Task, sender_of}
use a2a_hub.Hub.Visits.{Visit, visit, HasProved}
use a2a_hub.Hub.{App, Hub, json_rpc, create_app, Services, guard}
use a2a_hub.Hub.Guarded.{unguarded-bearer_call}
use a2a_hub.Hub.Addressable.{IsPlain, proven_is_recipient}
use a2a_hub.Hub.Post.{Call, task_of, let_in, caller, emitted, IsStamp, MessageStore, IsFaithful}
use a2a_hub.Hub.Post.Honest.{IsSigned, IsHonest, emitted-All-IsHonest}

-- Every task lies in a mailbox that can be written to, and its stamp names one who proved itself in
-- one of the visits.
pub record IsGenuine (services : Services) (app : App) (history : List Visit) (sdk : Sdk)
    : Type 0 where
  pub mailbox :
      (owner task_id : Str) (task : Task)
      → sdk.fetch owner task_id ≡ some task
      → is_valid_identity owner (some app.known_agents) ≡ true
  pub sender :
      (owner task_id : Str) (task : Task) (name : Str)
      → sdk.fetch owner task_id ≡ some task
      → sender_of task.artifacts ≡ some name
      → HasProved services app history name

module _ (services : Services) (app : App) (now : ℕ) (header : Str → Option Str) (scope : Scope)
    (hub : Hub) (identity : Str) where
  let_in-Proves :
      (refused : Option Response) (o : Outcome × Hub)
      → bearer_call (guard services app now) scope header hub ≡ o
      → let_in services app refused o ≡ some identity
      → Proves (guard services app now) header identity
  let_in-Proves (some response) o e h = cc h
  let_in-Proves none (replied response, hub') e h = cc h
  let_in-Proves none (raised, hub') e h = cc h
  let_in-Proves none (forwarded user, hub') e h =
      elim (Bool-cases ((scope.kind == codes "http") && not (mem scope.path public_paths))) [
        | inl guarded ↦
            let (name, same, proof) =
              bearer_call_sound (guard services app now) scope header
                (record { http = ground arith; private_path = ground arith }) hub user
                (ap (λ (q : Outcome × Hub). q.0) e) in
            subst (Proves (guard services app now) header) (cc (same, h)) proof
        | inr unseen ↦
            absurd (cc (unguarded-bearer_call services app now header scope hub unseen, e, h))
      ]

  pub caller-Proves :
      caller services app now header scope hub ≡ some identity
      → Proves (guard services app now) header identity
  unfolding caller
  caller-Proves h = let_in-Proves _ _ refl h

-- More visits keep what was genuine.
pub later-IsGenuine :
    (services : Services) (app : App) (history : List Visit) (visit : Visit) (sdk : Sdk)
    → IsGenuine services app history sdk
    → IsGenuine services app (visit ∷ history) sdk
later-IsGenuine services app history visit sdk h = record {
  mailbox = h.mailbox;
  sender =
      λ owner task_id task name here signed. inr (h.sender owner task_id task name here signed);
}

stamp-sender :
    (known : Option (List Str)) (identity name : Str) (event : Event)
    → IsSigned known identity event
    → IsStamp name event
    → name ≡ identity
stamp-sender known identity name (artifact parts from recipient message_id) signed stamp =
    sym stamp ∙ signed
stamp-sender known identity name (new_task task_id context_id) signed stamp = absurd stamp
stamp-sender known identity name (status state notice) signed stamp = absurd stamp

module _ (services : Services) (tokens : TokenTable) (rpc_url : Str) (max_body_bytes : ℤ)
    (app : App) (made : create_app tokens rpc_url max_body_bytes ≡ some app)
    (plain : IsPlain tokens) where
  module _ {S : Type 0} (store : MessageStore S) (faithful : IsFaithful store) where
    pub empty-IsGenuine : IsGenuine services app [] (store.view store.empty)
    empty-IsGenuine = record {
      mailbox = λ owner task_id task h. absurd (cc (h, faithful.nothing owner task_id));
      sender = λ owner task_id task name h from. absurd (cc (h, faithful.nothing owner task_id));
    }

    module _ (history : List Visit) (now : ℕ) (header : Str → Option Str) (scope : Scope)
        (identity : Str) (proof : Proves (guard services app now) header identity) (call : Call)
        (s s' : S)
        (saved : store.saves s identity (task_of call) (emitted services app identity call) s')
        (h : IsGenuine services app history (store.view s)) where
      abbrev queue : List Emitted
      queue = emitted services app identity call

      own_mailbox : is_valid_identity identity (some app.known_agents) ≡ true
      own_mailbox =
          proven_is_recipient services tokens rpc_url max_body_bytes app now header identity made
            plain proof

      event-mailbox :
          (owner : Str) (e : Emitted)
          → IsHonest (some app.known_agents) identity e
          → e.owner ≡ owner
          → is_valid_identity owner (some app.known_agents) ≡ true
      event-mailbox owner e honest same = elim honest.mailbox [
        | inl own ↦ rw (sym same, own) own_mailbox
        | inr valid ↦ rw (sym same) valid
      ]

      pub call-IsGenuine :
          IsGenuine services app
            (visit now header scope json_rpc (store.view s) ∷ history)
            (store.view s')
      call-IsGenuine = record {
        mailbox = λ owner task_id task there.
            elim (faithful.owned s s' identity (task_of call) queue owner task_id task saved
              there) [
                | inl (t, before) ↦ h.mailbox owner task_id t before
                | inr (inl own) ↦ rw own own_mailbox
                | inr (inr now_owned) ↦
                    let (e, honest, same) =
                      All-Some _ _ queue (emitted-All-IsHonest services app identity call)
                        now_owned in
                    event-mailbox owner e honest same
              ];
        sender = λ owner task_id task name there from.
            elim (faithful.stamped s s' identity (task_of call) queue owner task_id task name saved
              there from) [
                | inl (before, t, here, signed) ↦ inr (h.sender before task_id t name here signed)
                | inr now_signed ↦
                    let (e, honest, stamp) =
                      All-Some _ _ queue (emitted-All-IsHonest services app identity call)
                        now_signed in
                    inl (
                      subst (Proves (guard services app now) header)
                        (sym (
                          stamp-sender (some app.known_agents) identity name e.event honest.signed
                            stamp))
                        proof)
              ];
      }
