-- ===== src/Auth/Lookup.antt =====
-- The constant-time scan of the token table is a dict lookup, on ASCII texts.
use a2a_hub.Prelude.{true, false, ◌≡◌, refl, Option, none, some, [], ◌∷◌, arith, if◌then◌else◌}
use a2a_hub.Prelude.Text.{Str, ◌==◌, eq_iff}
use a2a_hub.Auth.Tokens.{
  TokenTable, found, type_error, is_ascii, compare_digest, resolve_from, resolve,
}

-- `tokens.get(token)`
unfoldable pub lookup : Str → TokenTable → Option Str
lookup token [] = none
lookup token ((known, agent) ∷ rest) = if known == token then some agent else lookup token rest

-- The keys are ASCII, and each stands once.
abbrev pub IsTable : TokenTable → Type 0
IsTable [] = Unit
IsTable ((known, agent) ∷ rest) =
    (is_ascii known ≡ true) × (lookup known rest ≡ none) × IsTable rest

abbrev first_of_two : Option Str → Option Str → Option Str
first_of_two none match = match
first_of_two (some agent) match = some agent

compare_digest_ascii :
    (a b : Str) → is_ascii a ≡ true → is_ascii b ≡ true → compare_digest a b ≡ some (a == b)
unfolding compare_digest
compare_digest_ascii a b p q = ground arith

compare_digest_not_ascii : (a b : Str) → is_ascii b ≡ false → compare_digest a b ≡ none
unfolding compare_digest
compare_digest_not_ascii a b q = ground arith

resolve_from-eq-lookup :
    (match : Option Str) (tokens : TokenTable) (token : Str)
    → IsTable tokens
    → is_ascii token ≡ true
    → resolve_from match tokens token ≡ found (first_of_two (lookup token tokens) match)
unfolding resolve_from lookup
resolve_from-eq-lookup match [] token t a = refl
resolve_from-eq-lookup match ((known, agent) ∷ rest) token (k, once, t) a = ground (
  arith,
  compare_digest_ascii known token k a,
  resolve_from-eq-lookup (some agent) rest token t a,
  resolve_from-eq-lookup match rest token t a,
  eq_iff known token,
)

first_of_two-none : (o : Option Str) → first_of_two o none ≡ o
first_of_two-none none = refl
first_of_two-none (some agent) = refl

-- In a table with ASCII tokens, each once, the constant-time scan over every entry returns for an
-- ASCII token what a lookup in the table returns.
pub resolve-eq-lookup :
    (tokens : TokenTable) (token : Str)
    → IsTable tokens
    → is_ascii token ≡ true
    → resolve tokens token ≡ found (lookup token tokens)
unfolding resolve
resolve-eq-lookup tokens token t a =
    rw (resolve_from-eq-lookup none tokens token t a, first_of_two-none)

-- A token with a code point past 127 makes the scan of a table with an entry raise.
resolve_not_ascii :
    (known agent : Str) (rest : TokenTable) (token : Str)
    → is_ascii token ≡ false
    → resolve ((known, agent) ∷ rest) token ≡ type_error
unfolding resolve resolve_from
resolve_not_ascii known agent rest token a =
    rw (compare_digest_not_ascii known token a, resolve_from)
