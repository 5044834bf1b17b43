-- ===== src/Registry/Routes/Kept.antt =====
-- What holds of the register behind a route: it is the old one, or what the operation makes of it.
use a2a_hub.Prelude.{ℕ, Option, none, some}
use a2a_hub.Prelude.Text.{Str, codes}
use a2a_hub.Json.{Json, obj, get}
use a2a_hub.Marks.Routes.{Loaded, not_json, loaded}
use a2a_hub.Registry.{
  Register, Declaration, Cleaned, cleaned, Suspicion, declare, clean_declaration,
}
use a2a_hub.Registry.Changes.{update_status}
use a2a_hub.Registry.Routes.{register_route, store_declaration, status_route, store_status}

module _ (P : Register → Type 0) (repr : Json → Str) (now : ℕ) (identity : Str)
    (register : Register) (same : P register) where
  store_declaration_keeps :
      (explain : Cleaned → Str) (say : Suspicion → Str)
      → ((declaration : Declaration) → P (declare now identity declaration register).1)
      → (c : Cleaned) → P (store_declaration repr explain say now identity c register).1
  unfolding store_declaration
  store_declaration_keeps explain say h (cleaned declaration) = h declaration
  store_declaration_keeps explain say h _ = same

  pub register_route_keeps :
      (explain : Cleaned → Str) (say : Suspicion → Str) (body : Loaded)
      → ((declaration : Declaration) → P (declare now identity declaration register).1)
      → P (register_route repr explain say now identity body register).1
  unfolding register_route
  register_route_keeps explain say (loaded (obj payload)) h =
      store_declaration_keeps explain say h (clean_declaration repr payload)
  register_route_keeps explain say (not_json error) h = same
  register_route_keeps explain say (loaded _) h = same

  store_status_keeps :
      ((status : Json) → P (update_status repr now identity status register).1)
      → (status : Option Json) → P (store_status repr now identity status register).1
  unfolding store_status
  store_status_keeps h none = same
  store_status_keeps h (some status) = h status

  pub status_route_keeps :
      (body : Loaded)
      → ((status : Json) → P (update_status repr now identity status register).1)
      → P (status_route repr now identity body register).1
  unfolding status_route
  status_route_keeps (loaded (obj payload)) h = store_status_keeps h (get (codes "status") payload)
  status_route_keeps (not_json error) h = same
  status_route_keeps (loaded _) h = same
