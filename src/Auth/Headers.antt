-- ===== src/Auth/Headers.antt =====
-- src/a2a_hub/auth.py: `RedactingContextBuilder.build`, on the headers that the SDK's builder
-- copied into the call's state.
use a2a_hub.Prelude.{List, [], ◌∷◌, if◌then◌else◌}
use a2a_hub.Prelude.Text.{Str, codes, mem, lower}

abbrev pub sensitive_headers : List Str
sensitive_headers = codes "authorization" ∷ codes "cookie" ∷ []

-- the loop over a copy of the keys, each sensitive one popped
unfoldable pub redact : List (Str × Str) → List (Str × Str)
unfolding mem lower
redact [] = []
redact ((name, value) ∷ rest) =
    let kept = redact rest in
    if mem (lower name) sensitive_headers then kept else (name, value) ∷ kept
