-- ===== src/Hub/Startup.antt =====
-- From the environment to the application: a hub that starts can be used, and only by its agents.
use a2a_hub.Prelude.{◌≡◌, ◌≢◌, refl, ap, sym, subst, ◌∙◌, Option, none, some, [], ◌∷◌}
use a2a_hub.Prelude.Int.{ℤ}
use a2a_hub.Prelude.Text.{Str, codes}
use a2a_hub.Environ.{Env, value_of, or_default}
use a2a_hub.Auth.Tokens.{TokenTable}
use a2a_hub.Config.{Parsed, parsed, missing_colon, empty_part, parse_tokens}
use a2a_hub.Config.Environment.{
  Configured, configured, bad_tokens, bad_number, with_numbers, with_tokens, from_env,
}
use a2a_hub.Config.Usable.{IsUsable, parse_tokens-IsUsable}
use a2a_hub.Hub.{App, create_app}

-- `create_app(Settings.from_env())`, `none` where either raises
unfoldable pub start_app : Configured → Option App
start_app (configured settings) =
    create_app settings.tokens settings.rpc_url settings.max_body_bytes
start_app (bad_tokens error) = none
start_app (bad_number value) = none

abbrev app_or : App → Option App → App
app_or default none = default
app_or default (some app) = app

module _ (env : Env) (app : App) where
  numbers-tokens :
      (tokens : TokenTable) (port max_body_bytes : Option ℤ)
      → start_app (with_numbers env tokens port max_body_bytes) ≡ some app
      → (app.tokens ≡ tokens) × (app.tokens ≢ [])
  unfolding start_app create_app
  numbers-tokens tokens none max_body_bytes h = cc h
  numbers-tokens tokens (some port) none h = cc h
  numbers-tokens [] (some port) (some max_body_bytes) h = cc h
  numbers-tokens (entry ∷ tokens) (some port) (some max_body_bytes) h =
      let e = ap (λ o. (app_or app o).tokens) h in (sym e, λ none_left. cc (e ∙ none_left))

  start_parsed :
      (p : Parsed) (raw : Str)
      → parse_tokens raw ≡ p
      → start_app (with_tokens env p) ≡ some app
      → IsUsable app.tokens × (app.tokens ≢ [])
  start_parsed (parsed tokens) raw e h =
      let (same, some_left) = numbers-tokens tokens _ _ h in
      (subst IsUsable (sym same) (parse_tokens-IsUsable raw tokens e), some_left)
  start_parsed (missing_colon entry) raw e h = absurd (unfold start_app in cc h)
  start_parsed (empty_part entry) raw e h = absurd (unfold start_app in cc h)

  -- A hub that starts from an environment has a token, and in its token table each token stands
  -- once and no token or agent is empty.
  pub started-IsUsable :
      start_app (from_env env) ≡ some app → IsUsable app.tokens × (app.tokens ≢ [])
  unfolding from_env
  started-IsUsable h =
      let raw = or_default [] (value_of (codes "A2A_HUB_TOKENS") env) in
      start_parsed (parse_tokens raw) raw refl h
