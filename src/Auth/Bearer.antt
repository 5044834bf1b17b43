-- ===== src/Auth/Bearer.antt =====
-- src/a2a_hub/auth.py: `BearerAuthMiddleware.__call__`. Starlette's `HTTPConnection.headers.get`
-- is the parameter `header`; the wrapped application is the rest of the run, so a call of it is the
-- outcome `forwarded`, with the user that the middleware put into the scope.
use a2a_hub.Prelude.{Bool, not, Option, none, some, List, [], ◌∷◌, if◌then◌else◌}
use a2a_hub.Prelude.Text.{Str, codes, ◌==◌, is_empty, strip, mem}
use a2a_hub.Auth.Identity.{matches_session, identity_of}
use a2a_hub.Auth.Tokens.{TokenTable, Resolved, found, type_error, resolve, extract_bearer}
use a2a_hub.Auth.Refusal.{Response, Scope, error_body, refusal}

abbrev pub public_paths : List Str
public_paths = codes "/.well-known/agent-card.json" ∷ codes "/healthz" ∷ []

pub data Outcome : Type 0 where
  forwarded : Option Str → Outcome
  replied : Response → Outcome
  raised : Outcome

abbrev pub unauthorized : Response
unauthorized = record {
  content = error_body (codes "unauthorized") (codes "missing or invalid bearer token");
  status_code = 401;
  headers = (codes "WWW-Authenticate", codes "Bearer") ∷ [];
}

abbrev pub session_detail : Str
session_detail =
    codes "the a2a-session header is required and must match ^[A-Za-z0-9][A-Za-z0-9._-]{0,63}$"

-- `registry.resolve(token) if token else None`
abbrev pub resolve_token : TokenTable → Option Str → Resolved
resolve_token tokens none = found none
resolve_token tokens (some token) = if is_empty token then found none else resolve tokens token

-- `(header or "")`
abbrev pub or_empty : Option Str → Str
or_empty none = []
or_empty (some s) = s

-- What holds for the whole middleware: the register's `touch`, which may raise, or none; the token table and the path of the JSON-RPC endpoint.
pub record Guard (S : Type 0) : Type 0 where
  pub tokens : TokenTable
  pub rpc_path : Str
  pub seen : Option (Str → S → Bool × S)

module _ {S : Type 0} where
  -- `await self.seen.touch(identity)`, whose exception is swallowed
  abbrev pub stamp : Option (Str → S → Bool × S) → Str → S → S
  stamp none identity s = s
  stamp (some touch) identity s = (touch identity s).1

  -- from the resolved agent on
  unfoldable pub admit : Guard S → Scope → (Str → Option Str) → Resolved → S → Outcome × S
  admit guard scope header type_error s = (raised, s)
  admit guard scope header (found none) s = (replied unauthorized, s)
  admit guard scope header (found (some agent)) s =
      let session = strip (or_empty (header (codes "a2a-session"))) in
      if not (matches_session session)
      then (
        replied (refusal scope guard.rpc_path 400 (codes "invalid_session") session_detail []),
        s,
      )
      else (
        forwarded (some (identity_of agent session)),
        stamp guard.seen (identity_of agent session) s,
      )

  unfoldable pub bearer_call : Guard S → Scope → (Str → Option Str) → S → Outcome × S
  bearer_call guard scope header s =
      if not (scope.kind == codes "http")
      then (forwarded none, s)
      else if mem scope.path public_paths
      then (forwarded none, s)
      else admit guard scope header
          (resolve_token guard.tokens (extract_bearer (header (codes "authorization")))) s
