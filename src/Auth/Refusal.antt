-- ===== src/Auth/Refusal.antt =====
-- src/a2a_hub/auth.py: the responses of the guards, and `refusal`, which shapes one for the
-- surface that the caller hit.
use a2a_hub.Prelude.{ℕ, List, [], ◌∷◌, if◌then◌else◌}
use a2a_hub.Prelude.Int.{negsuc}
use a2a_hub.Prelude.Text.{Str, codes, ◌==◌}
use a2a_hub.Json.{Json, null, num, str, obj, dict}

-- `JSONResponse`
pub record Response : Type 0 where
  pub content : Json
  pub status_code : ℕ
  pub headers : List (Str × Str)

-- What the code reads of an ASGI scope: its type, its path, the raw headers in order.
pub record Scope : Type 0 where
  pub kind : Str
  pub path : Str
  pub headers : List (Str × Str)

-- `{"error": error, "detail": detail}`
abbrev pub error_body : Str → Str → Json
error_body error detail =
    obj (dict ((codes "error", str error) ∷ (codes "detail", str detail) ∷ []))

-- the JSON-RPC envelope around the same keys; -32600 is `JSONRPC_INVALID_REQUEST`
abbrev pub rpc_body : Str → Str → Json
rpc_body error detail = obj (
    dict (
      (codes "jsonrpc", str (codes "2.0"))
      ∷ (codes "id", null)
      ∷ (
        codes "error",
        obj (
            dict (
              (codes "code", num (negsuc 32599))
              ∷ (codes "message", str (codes "Invalid Request"))
              ∷ (codes "data", error_body error detail)
              ∷ [])),
      )
      ∷ []))

unfoldable pub refusal : Scope → Str → ℕ → Str → Str → List (Str × Str) → Response
refusal scope rpc_path status_code error detail headers = record {
  content = if scope.path == rpc_path then rpc_body error detail else error_body error detail;
  status_code = status_code;
  headers = headers;
}
