-- ===== src/Hub/Earned.antt =====
-- Where a mark comes from: a request that proved an identity, for a message in a mailbox of it.
use a2a_hub.Prelude.{
  Nat-cases, ◌≡◌, ◌⊎◌, refl, sym, subst, inl, inr, false, some, List, [], ◌∷◌, arith, Bool-cases,
  All, Some,
}
use a2a_hub.Prelude.Text.{Str, eq_iff, is_empty}
use a2a_hub.Auth.Identity.{identity_of}
use a2a_hub.Auth.Session.{NoSlash}
use a2a_hub.Auth.Gate.{Proves}
use a2a_hub.Store.{Task}
use a2a_hub.Marks.{Row, upsert, set_mark, has_key}
use a2a_hub.Marks.Routes.{sender_text, set_mark_route, Loaded}
use a2a_hub.Marks.Guarded.{IsGranted, set_mark_route_sound, set_mark_route_refused}
use a2a_hub.Hub.{App, Services, guard, mark_set}
use a2a_hub.Hub.Visits.{Visit}

-- The visit asked to mark the message and proved the identity, the message lay then in a mailbox of
-- that caller, and the sender is the one that the message recorded.
pub record Earns (services : Services) (app : App) (task_id identity sender : Str) (visit : Visit)
    : Type 0 where
  pub body : Loaded
  pub asked : visit.request ≡ mark_set task_id body
  pub proof : Proves (guard services app visit.now) visit.header identity
  pub task : Task
  pub received :
      (visit.sdk.fetch identity task_id ≡ some task)
      ⊎ (visit.sdk.fetch proof.agent task_id ≡ some task)
  pub recorded : sender ≡ sender_text task.artifacts

-- One of these visits made the mark.
abbrev pub IsEarned : Services → App → List Visit → Row → Type 0
IsEarned services app history row =
    Some (Earns services app row.task_id row.identity row.sender) history

module _ (services : Services) (app : App) where
  abbrev pub AllEarned : List Visit → List Row → Type 0
  AllEarned history = All (IsEarned services app history)

  upsert-AllEarned :
      (history : List Visit) (new : Row) (rows : List Row)
      → IsEarned services app history new
      → AllEarned history rows
      → AllEarned history (upsert new rows)
  unfolding upsert
  upsert-AllEarned history new [] p h = (p, tt)
  upsert-AllEarned history new (row ∷ rows) p (first, h) =
      elim (Bool-cases (has_key new.task_id new.identity row)) [
        | inl key ↦
            let task : new.task_id ≡ row.task_id = ground (arith, eq_iff row.task_id new.task_id) in
            let name : new.identity ≡ row.identity =
              ground (arith, eq_iff row.identity new.identity) in
            rw key (
              subst (λ t. Some (Earns services app t row.identity new.sender) history) task
                  (subst (λ i. Some (Earns services app new.task_id i new.sender) history) name p),
              h,
            )
        | inr other ↦ rw other (first, upsert-AllEarned history new rows p h)
      ]

  module _ (history : List Visit) (visit : Visit) (task_id identity : Str) (body : Loaded)
      (asked : visit.request ≡ mark_set task_id body) (rows : List Row)
      (proof : Proves (guard services app visit.now) visit.header identity)
      (h : AllEarned (visit ∷ history) rows) where
    granted-AllEarned :
        (after : List Row)
        → IsGranted visit.sdk services.repr visit.now task_id proof.agent proof.session body rows
            after
        → AllEarned (visit ∷ history) after
    unfolding set_mark
    granted-AllEarned after granted = rw granted.written (
        upsert-AllEarned (visit ∷ history) _ rows
          (inl (record {
            body = body;
            asked = asked;
            proof = record {
              agent = proof.agent;
              session = proof.session;
              bearer = proof.bearer;
              declared = proof.declared;
              named = proof.named;
              composed = refl;
            };
            task = granted.task;
            received = granted.received;
            recorded = refl;
          }))
          h)

    -- A request to mark, of a caller that proved its identity, keeps every mark earned.
    pub mark_set-AllEarned :
        NoSlash proof.agent
        → is_empty proof.agent ≡ false
        → AllEarned
            (visit ∷ history)
            (set_mark_route visit.sdk services.repr services.iso services.explain_mark visit.now
              task_id identity body rows).1
    mark_set-AllEarned clean present =
        let named = identity_of proof.agent proof.session in
        let result =
          set_mark_route visit.sdk services.repr services.iso services.explain_mark visit.now
            task_id named body rows in
        subst
          (λ i.
            AllEarned (visit ∷ history)
              (set_mark_route visit.sdk services.repr services.iso services.explain_mark visit.now
                task_id i body rows).1)
          (sym proof.composed)
          (elim (Nat-cases result.0.status_code 200) [
            | inl stored ↦ granted-AllEarned result.1 (
                set_mark_route_sound visit.sdk services.repr services.iso services.explain_mark
                  visit.now task_id proof.agent proof.session clean present body rows stored)
            | inr other ↦
                rw
                  (set_mark_route_refused visit.sdk services.repr services.iso services.explain_mark
                    visit.now task_id proof.agent proof.session clean present body rows other)
                  h
          ])
