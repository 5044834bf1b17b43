-- ===== src/Hub/Addressable.antt =====
-- Whoever the hub lets in can be written to.
use a2a_hub.Prelude.{
  ℕ, ◌⊎◌, ◌≡◌, refl, sym, subst, inl, inr, true, false, Option, none, some, [], ◌∷◌, arith, ap,
}
use a2a_hub.Prelude.Int.{ℤ}
use a2a_hub.Prelude.Text.{Str, codes, mem, is_empty, eq_refl}
use a2a_hub.Auth.Identity.{is_valid_identity, is_valid_cut}
use a2a_hub.Auth.Session.{NoSlash, partition-identity, matches_session_complete}
use a2a_hub.Auth.Tokens.{
  TokenTable, Resolved, found, type_error, resolve_from, resolve, extract_bearer,
}
use a2a_hub.Auth.Bearer.{resolve_token}
use a2a_hub.Auth.Gate.{Proves}
use a2a_hub.Hub.{App, Services, agents_of, create_app, guard}

-- Every agent of the table has a name without a slash.
abbrev pub IsPlain : TokenTable → Type 0
IsPlain tokens =
    (agent : Str) → mem agent (agents_of tokens) ≡ true → NoSlash agent × (is_empty agent ≡ false)

abbrev name_of : Resolved → Option Str
name_of (found match) = match
name_of type_error = none

abbrev app_or : App → Option App → App
app_or default none = default
app_or default (some app) = app

resolve_from-listed :
    (match : Option Str) (tokens : TokenTable) (token agent : Str)
    → resolve_from match tokens token ≡ found (some agent)
    → (match ≡ some agent) ⊎ (mem agent (agents_of tokens) ≡ true)
unfolding resolve_from agents_of mem
resolve_from-listed match [] token agent h = inl (ap name_of h)
resolve_from-listed match ((known, name) ∷ rest) token agent h = ground (
  arith,
  resolve_from-listed (some name) rest token agent,
  resolve_from-listed match rest token agent,
  eq_refl agent,
)

unlocked :
    (tokens : TokenTable) (token agent : Str)
    → resolve_token tokens (some token) ≡ found (some agent)
    → resolve tokens token ≡ found (some agent)
unlocked tokens token agent h = ground arith

pub resolve_token-listed :
    (tokens : TokenTable) (token : Option Str) (agent : Str)
    → resolve_token tokens token ≡ found (some agent)
    → mem agent (agents_of tokens) ≡ true
unfolding resolve
resolve_token-listed tokens none agent h = cc
resolve_token-listed tokens (some token) agent h =
    elim (resolve_from-listed none tokens token agent (unlocked tokens token agent h)) [
      | inl e ↦ cc e
      | inr listed ↦ listed
    ]

pub create_app-known :
    (tokens : TokenTable) (rpc_url : Str) (max_body_bytes : ℤ) (app : App)
    → create_app tokens rpc_url max_body_bytes ≡ some app
    → (app.tokens ≡ tokens) × (app.known_agents ≡ agents_of tokens)
unfolding create_app
create_app-known [] rpc_url max_body_bytes app h = cc
create_app-known (entry ∷ tokens) rpc_url max_body_bytes app h =
    let e = ap (app_or app) h in
    (sym (ap (λ (a : App). a.tokens) e), sym (ap (λ (a : App). a.known_agents) e))

pub proven-listed :
    (services : Services) (tokens : TokenTable) (rpc_url : Str) (max_body_bytes : ℤ) (app : App)
    (now : ℕ) (header : Str → Option Str) (identity : Str)
    → create_app tokens rpc_url max_body_bytes ≡ some app
    → (proof : Proves (guard services app now) header identity)
    → mem proof.agent (agents_of tokens) ≡ true
proven-listed services tokens rpc_url max_body_bytes app now header identity made proof =
    subst (λ table. mem proof.agent (agents_of table) ≡ true)
      (create_app-known tokens rpc_url max_body_bytes app made).0
      (resolve_token-listed app.tokens (extract_bearer (header (codes "authorization"))) proof.agent
        proof.bearer)

-- In a hub that create_app builds from a token table whose agents have names that are not empty and
-- have no slash, the identity that a request proves is a valid recipient of messages.
pub proven_is_recipient :
    (services : Services) (tokens : TokenTable) (rpc_url : Str) (max_body_bytes : ℤ) (app : App)
    (now : ℕ) (header : Str → Option Str) (identity : Str)
    → create_app tokens rpc_url max_body_bytes ≡ some app
    → IsPlain tokens
    → Proves (guard services app now) header identity
    → is_valid_identity identity (some app.known_agents) ≡ true
unfolding is_valid_identity
proven_is_recipient services tokens rpc_url max_body_bytes app now header identity made plain
      proof =
    let known = (create_app-known tokens rpc_url max_body_bytes app made).1 in
    let here =
      proven-listed services tokens rpc_url max_body_bytes app now header identity made proof in
    let (clean, present) = plain proof.agent here in
    rw
      (
        proof.composed,
        partition-identity proof.agent proof.session clean,
        is_valid_cut,
        present,
        known,
        here,
        matches_session_complete proof.session proof.named,
      )
      refl
