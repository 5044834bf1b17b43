-- ===== src/Auth/Gate.antt =====
-- Who gets past the bearer guard, and what it writes.
use a2a_hub.Prelude.{true, false, ◌≡◌, ◌≢◌, inl, inr, refl, Option, none, some, arith, Bool-cases}
use a2a_hub.Prelude.Text.{Str, codes, ◌==◌, strip, mem}
use a2a_hub.Auth.Identity.{matches_session, identity_of}
use a2a_hub.Auth.Session.{
  IsSessionName, strip-IsTrimmed, matches_session_sound, matches_session_complete,
}
use a2a_hub.Auth.Tokens.{Resolved, found, type_error, extract_bearer}
use a2a_hub.Auth.Refusal.{Scope}
use a2a_hub.Auth.Bearer.{
  public_paths, forwarded, resolve_token, or_empty, Guard, stamp, admit, bearer_call,
}

-- The scope is a request on a path that the guard protects.
pub record IsGuarded (scope : Scope) : Type 0 where
  pub http : (scope.kind == codes "http") ≡ true
  pub private_path : mem scope.path public_paths ≡ false

module _ {S : Type 0} where
  -- The request proves an identity: a bearer token of the table, and a session name under it.
  pub record Proves (guard : Guard S) (header : Str → Option Str) (identity : Str) : Type 0 where
    pub agent : Str
    pub session : Str
    pub bearer :
        resolve_token guard.tokens (extract_bearer (header (codes "authorization")))
        ≡ found (some agent)
    pub declared : strip (or_empty (header (codes "a2a-session"))) ≡ session
    pub named : IsSessionName session
    pub composed : identity ≡ identity_of agent session

  module _ (guard : Guard S) (scope : Scope) (header : Str → Option Str) where
    admit_sound :
        (r : Resolved) (s : S) (user : Option Str)
        → (admit guard scope header r s).0 ≡ forwarded user
        → (agent : Str) × (r ≡ found (some agent))
          × IsSessionName (strip (or_empty (header (codes "a2a-session"))))
          × (user ≡ some (identity_of agent (strip (or_empty (header (codes "a2a-session"))))))
    unfolding admit
    admit_sound type_error s user h = cc
    admit_sound (found none) s user h = cc
    admit_sound (found (some agent)) s user h =
        let session = strip (or_empty (header (codes "a2a-session"))) in
        elim (Bool-cases (matches_session session)) [
          | inl fits ↦ (
            agent,
            refl,
            matches_session_sound session
                (strip-IsTrimmed (or_empty (header (codes "a2a-session")))) fits,
            ground arith,
          )
          | inr bad ↦ absurd (ground arith)
        ]

    pub admitted :
        IsGuarded scope
        → (s : S)
        → bearer_call guard scope header s
          ≡ admit guard scope header
              (resolve_token guard.tokens (extract_bearer (header (codes "authorization"))))
              s
    unfolding bearer_call
    admitted g s = rw (g.http, g.private_path)

    -- On a guarded path the application is reached only with an identity that the request proves:
    -- the agent that the token table gives for the request's bearer token, and a legal session name
    -- from the session header.
    pub bearer_call_sound :
        IsGuarded scope
        → (s : S) (user : Option Str) → (bearer_call guard scope header s).0 ≡ forwarded user
        → (identity : Str) × (user ≡ some identity) × Proves guard header identity
    bearer_call_sound g s user h =
        let (agent, known, named, same) =
          admit_sound (resolve_token guard.tokens (extract_bearer (header (codes "authorization"))))
            s user (rw (admitted g s) at h) in
        (
          identity_of agent (strip (or_empty (header (codes "a2a-session")))),
          same,
          record {
            agent = agent;
            session = strip (or_empty (header (codes "a2a-session")));
            bearer = known;
            declared = refl;
            named = named;
            composed = refl;
          },
        )

    -- On a guarded path a request that proves an identity is forwarded under it, and the one thing
    -- written is the stamp of that identity.
    pub bearer_call_complete :
        IsGuarded scope
        → (s : S) (identity : Str) → Proves guard header identity
        → bearer_call guard scope header s
          ≡ (forwarded (some identity), stamp guard.seen identity s)
    bearer_call_complete g s identity p =
        rw (admitted g s, p.bearer, p.composed)
          (unfold admit in rw (p.declared, matches_session_complete p.session p.named))

    admit_refused :
        (r : Resolved) (s : S)
        → ((user : Option Str) → (admit guard scope header r s).0 ≢ forwarded user)
        → (admit guard scope header r s).1 ≡ s
    unfolding admit
    admit_refused type_error s h = refl
    admit_refused (found none) s h = refl
    admit_refused (found (some agent)) s h =
        elim (Bool-cases (matches_session (strip (or_empty (header (codes "a2a-session")))))) [
          | inl fits ↦ absurd (
              h (some (identity_of agent (strip (or_empty (header (codes "a2a-session"))))))
                (rw fits))
          | inr bad ↦ rw bad
        ]

    -- On a guarded path a request that is not forwarded leaves the state, the register of presence
    -- included, as it was.
    pub bearer_call_refused :
        IsGuarded scope
        → (s : S) → ((user : Option Str) → (bearer_call guard scope header s).0 ≢ forwarded user)
        → (bearer_call guard scope header s).1 ≡ s
    bearer_call_refused g s h = rw (admitted g s) (admit_refused _ s (rw (admitted g s) at h))
