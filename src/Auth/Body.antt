-- ===== src/Auth/Body.antt =====
-- src/a2a_hub/auth.py: `MaxBodySizeMiddleware.__call__`.
use a2a_hub.Prelude.{Bool, false, ◌&&◌, Option, none, some, List, [], ◌∷◌, ◌++◌, if◌then◌else◌}
use a2a_hub.Prelude.Int.{ℤ, pos, lt_int}
use a2a_hub.Prelude.Text.{Str, codes, ◌==◌}
use a2a_hub.Prelude.Number.{parse_int, show_int}
use a2a_hub.Auth.Refusal.{Response, Scope, refusal}

-- the first `content-length` header, where the loop stops
unfoldable pub content_length : List (Str × Str) → Option Str
content_length [] = none
content_length ((name, value) ∷ rest) =
    if name == codes "content-length" then some value else content_length rest

-- `int(value) > self.max_bytes`, false on a `ValueError`
abbrev pub exceeds : ℤ → Option ℤ → Bool
exceeds max_bytes none = false
exceeds max_bytes (some n) = lt_int max_bytes n

abbrev too_large : ℤ → Option Str → Bool
too_large max_bytes none = false
too_large max_bytes (some value) = exceeds max_bytes (parse_int value)

-- `none` is the call of the wrapped application
unfoldable pub body_guard : ℤ → Str → Scope → Option Response
unfolding content_length refusal parse_int show_int
body_guard max_bytes rpc_path scope =
    if (scope.kind == codes "http")
      && lt_int (pos 0) max_bytes
      && too_large max_bytes (content_length scope.headers)
    then some (
        refusal scope rpc_path 413 (codes "payload_too_large")
          (codes "request body exceeds " ++ show_int max_bytes ++ codes " bytes") [])
    else none
