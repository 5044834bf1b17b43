-- ===== src/Hub/Guarded.antt =====
-- What a request may change without a caller.
use a2a_hub.Prelude.{
  ℕ, ◌≡◌, ◌≢◌, ◌≤◌, ◌⊎◌, refl, sym, ◌∙◌, subst, inl, inr, false, not, ◌&&◌, Option, none, some,
  arith, ap, Bool-cases, if◌then◌else◌,
}
use a2a_hub.Prelude.Text.{Str, codes, mem, strip, ◌==◌}
use a2a_hub.Auth.Refusal.{Response, Scope, refusal}
use a2a_hub.Prelude.Int.{ℤ}
use a2a_hub.Registry.{Register, touch, is_fresh, written_at}
use a2a_hub.Auth.Tokens.{Resolved, found, type_error}
use a2a_hub.Auth.Bearer.{
  Outcome, forwarded, replied, raised, public_paths, bearer_call, or_empty, Guard, admit,
}
use a2a_hub.Auth.Gate.{
  admitted, IsGuarded, Proves, bearer_call_sound, bearer_call_refused, bearer_call_complete,
}
use a2a_hub.Auth.Body.{body_guard}
use a2a_hub.Auth.Identity.{matches_session}
use a2a_hub.Store.{Sdk}
use a2a_hub.Hub.{
  App, Hub, Request, healthz, agent_card, json_rpc, retirement, declaration_of, status_change,
  agent_list, mark_list, mark_set, mark_get, undecodable, a_declaration, a_status, a_mark, path_of,
  Services, Reply, answered, failed, guard, handle, handle_public, behind_guard, behind_body, serve,
  try_touch,
}

-- Nothing but the route of the health check and that of the agent card is open.
path_of-private :
    (app : App) (request : Request)
    → mem app.rpc_url public_paths ≡ false
    → request ≢ healthz
    → request ≢ agent_card
    → mem (path_of app request) public_paths ≡ false
unfolding path_of mem ◌==◌
path_of-private app healthz closed a b = absurd (a refl)
path_of-private app agent_card closed a b = absurd (b refl)
path_of-private app json_rpc closed a b = closed
path_of-private app retirement closed a b = refl
path_of-private app (declaration_of body) closed a b = refl
path_of-private app (status_change body) closed a b = refl
path_of-private app (agent_list retired quiet_for) closed a b = refl
path_of-private app (mark_list sent) closed a b = refl
path_of-private app (mark_set task_id body) closed a b = refl
path_of-private app (mark_get task_id) closed a b = refl
path_of-private app (undecodable a_declaration) closed a b = refl
path_of-private app (undecodable a_status) closed a b = refl
path_of-private app (undecodable (a_mark task_id)) closed a b = refl

-- The register when the caller's handler begins: the caller is stamped as present, unless the
-- database refuses the stamp.
abbrev pub stamped : Services → ℕ → Str → Register → Register
stamped services now identity register =
    if services.touch_raises now then register else touch now identity register

try_touch-stamped :
    (services : Services) (now : ℕ) (identity : Str) (register : Register)
    → (try_touch services.touch_raises now identity register).1
      ≡ stamped services now identity register
unfolding try_touch touch
try_touch-stamped services now identity register =
    elim (Bool-cases (is_fresh now (written_at identity register.last_write))) [
      | inl fresh ↦ elim (Bool-cases (services.touch_raises now)) [
        | inl raises ↦ rw (fresh, raises) refl
        | inr takes ↦ rw (fresh, takes) refl
      ]
      | inr stale ↦ elim (Bool-cases (services.touch_raises now)) [
        | inl raises ↦ rw (stale, raises) refl
        | inr takes ↦ rw (stale, takes) refl
      ]
    ]

-- What becomes of a request that the guards see: it is handled for a caller that it proves, who is
-- stamped as present if the database takes the stamp, or it is refused, or an exception passes, and
-- then nothing is written.
pub data Served (services : Services) (sdk : Sdk) (app : App) (now : ℕ) (header : Str → Option Str)
    (request : Request) (hub : Hub) : Reply × Hub → Type 0 where
  by_caller :
      (identity : Str)
      → Proves (guard services app now) header identity
      → Served services sdk app now header request hub (
          handle services sdk app now header identity request
            (record hub { register = stamped services now identity hub.register }))
  turned_away :
      (response : Response)
      → 400 ≤ response.status_code
      → Served services sdk app now header request hub (answered response, hub)
  broken : Served services sdk app now header request hub (failed, hub)

too_large_status :
    (max_bytes : ℤ) (rpc_path : Str) (scope : Scope) (response : Response)
    → body_guard max_bytes rpc_path scope ≡ some response
    → 400 ≤ response.status_code
unfolding body_guard refusal
too_large_status max_bytes rpc_path scope response h = ground arith

-- an answer of the guard itself is an error
abbrev IsError : Outcome → Type 0
IsError (replied response) = 400 ≤ response.status_code
IsError _ = Unit

admit-IsError :
    (guard : Guard Hub) (scope : Scope) (header : Str → Option Str) (r : Resolved) (hub : Hub)
    → IsError (admit guard scope header r hub).0
unfolding admit refusal
admit-IsError guard scope header type_error hub = tt
admit-IsError guard scope header (found none) hub = omega arith
admit-IsError guard scope header (found (some agent)) hub =
    elim (Bool-cases (matches_session (strip (or_empty (header (codes "a2a-session")))))) [
      | inl fits ↦ rw fits tt
      | inr bad ↦ rw bad (omega arith)
    ]

-- What the bearer guard does not see passes it without a caller.
pub unguarded-bearer_call :
    (services : Services) (app : App) (now : ℕ) (header : Str → Option Str) (scope : Scope)
    (hub : Hub)
    → ((scope.kind == codes "http") && not (mem scope.path public_paths)) ≡ false
    → bearer_call (guard services app now) scope header hub ≡ (forwarded none, hub)
unfolding bearer_call
unguarded-bearer_call services app now header scope hub unseen = ground arith

module _ (services : Services) (sdk : Sdk) (app : App) (now : ℕ) (header : Str → Option Str) where
  handle_public_keeps :
      (request : Request) (hub : Hub)
      → (handle_public services sdk app now header request hub).1 ≡ hub
  unfolding handle_public
  handle_public_keeps healthz hub = refl
  handle_public_keeps _ hub = refl

  module _ (scope : Scope) (request : Request) (hub : Hub) where
    behind_guard-Served :
        IsGuarded scope
        → (p : Outcome × Hub) → bearer_call (guard services app now) scope header hub ≡ p
        → Served services sdk app now header request hub
            (behind_guard services sdk app now header request p)
    behind_guard-Served guarded (forwarded user, hub') e =
        let (identity, same, proof) =
          bearer_call_sound (guard services app now) scope header guarded hub user
            (ap (λ (q : Outcome × Hub). q.0) e) in
        let whole =
          sym e
          ∙ bearer_call_complete (guard services app now) scope header guarded hub identity proof in
        subst
          (λ p.
            Served services sdk app now header request hub
              (behind_guard services sdk app now header request p))
          (sym whole)
          (subst
            (λ r.
              Served services sdk app now header request hub
                (handle services sdk app now header identity request (record hub { register = r })))
            (sym (try_touch-stamped services now identity hub.register)) (by_caller identity proof))
    behind_guard-Served guarded (replied response, hub') e =
        let kept =
          bearer_call_refused (guard services app now) scope header guarded hub
            (λ user h. cc (e, h)) in
        subst (λ h. Served services sdk app now header request hub (answered response, h))
          (sym kept ∙ ap (λ (q : Outcome × Hub). q.1) e)
          (turned_away response (
            subst (λ (q : Outcome × Hub). IsError q.0)
              (sym (admitted (guard services app now) scope header guarded hub) ∙ e)
              (admit-IsError (guard services app now) scope header _ hub)))
    behind_guard-Served guarded (raised, hub') e =
        let kept =
          bearer_call_refused (guard services app now) scope header guarded hub
            (λ user h. cc (e, h)) in
        subst (λ h. Served services sdk app now header request hub (failed, h))
          (sym kept ∙ ap (λ (q : Outcome × Hub). q.1) e) broken

    behind_body-Served :
        IsGuarded scope
        → (o : Option Response)
        → ((response : Response) → o ≡ some response → 400 ≤ response.status_code)
        → Served services sdk app now header request hub
            (behind_body services sdk app now header request scope hub o)
    behind_body-Served guarded (some response) error = turned_away response (error response refl)
    behind_body-Served guarded none error = behind_guard-Served guarded _ refl

    -- A request that the bearer guard sees is handled for a caller that it proves, who is stamped
    -- as present first unless the database refuses the stamp, in which case the register is as it
    -- was; or it is answered with a status of 400 or more, or an exception passes, and then nothing
    -- is written.
    pub serve-Served :
        IsGuarded scope
        → Served services sdk app now header request hub
            (serve services sdk app now header scope request hub)
    unfolding serve
    serve-Served guarded =
        behind_body-Served guarded _
          (λ response h. too_large_status app.max_body_bytes app.rpc_url scope response h)

    behind_body_unseen :
        (o : Option Response)
        → bearer_call (guard services app now) scope header hub ≡ (forwarded none, hub)
        → (behind_body services sdk app now header request scope hub o).1 ≡ hub
    behind_body_unseen (some response) e = refl
    behind_body_unseen none e = rw e (handle_public_keeps request hub)

    -- Any request is seen by the guards, or leaves the state as it was.
    pub serve_cases :
        Served services sdk app now header request hub
          (serve services sdk app now header scope request hub)
        ⊎ ((serve services sdk app now header scope request hub).1 ≡ hub)
    serve_cases =
        elim (Bool-cases ((scope.kind == codes "http") && not (mem scope.path public_paths))) [
          | inl guarded ↦
              inl (serve-Served (record { http = ground arith; private_path = ground arith }))
          | inr unseen ↦ inr (
              unfold serve in
              behind_body_unseen _ (unguarded-bearer_call services app now header scope hub unseen))
        ]
