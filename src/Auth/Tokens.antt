-- ===== src/Auth/Tokens.antt =====
-- src/a2a_hub/auth.py: `TokenRegistry` and `_extract_bearer`. A dict is an association list in
-- insertion order, each key once.
use a2a_hub.Prelude.{
  Bool, not, ◌&&◌, ◌||◌, Option, none, some, List, [], ◌∷◌, leb, if◌then◌else◌, all,
}
use a2a_hub.Prelude.Text.{Str, codes, ◌==◌, is_empty, strip, lower, partition}

abbrev pub TokenTable : Type 0
TokenTable = List (Str × Str)

pub data Resolved : Type 0 where
  found : Option Str → Resolved
  type_error : Resolved

unfoldable pub is_ascii : Str → Bool
is_ascii s = all (λ c. leb c 127) s

-- `hmac.compare_digest` on two texts: it raises unless both are ASCII
unfoldable pub compare_digest : Str → Str → Option Bool
compare_digest a b = if is_ascii a && is_ascii b then some (a == b) else none

-- the loop of `resolve`, with its variable `match`
unfoldable pub resolve_from : Option Str → TokenTable → Str → Resolved
resolve_from match [] token = found match
resolve_from match ((known, agent) ∷ rest) token = elim (compare_digest known token) [
  | none ↦ type_error
  | some same ↦ resolve_from (if same then some agent else match) rest token
]

unfoldable pub resolve : TokenTable → Str → Resolved
unfolding resolve_from
resolve tokens token = resolve_from none tokens token

unfoldable pub replace : TokenTable → TokenTable → TokenTable
replace old tokens = tokens

-- `_extract_bearer`
unfoldable pub extract_bearer : Option Str → Option Str
unfolding partition lower strip
extract_bearer none = none
extract_bearer (some header) =
    let parts = partition b' ' header in
    if is_empty header
    then none
    else if not (lower parts.before == codes "bearer") || is_empty (strip parts.after)
    then none
    else some (strip parts.after)
