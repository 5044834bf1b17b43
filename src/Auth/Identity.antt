-- ===== src/Auth/Identity.antt =====
-- src/a2a_hub/auth.py: identities, `principal` or `principal/session`, and which of them name a
-- mailbox.
use a2a_hub.Prelude.{
  ℕ, zero, suc, Bool, true, false, not, ◌&&◌, ◌||◌, Option, none, some, List, [], ◌∷◌, ◌++◌, nat_eq,
  leb, if◌then◌else◌,
}
use a2a_hub.Prelude.Text.{Str, is_empty, mem, Cut, partition}

abbrev pub slash : ℕ
slash = b'/'

abbrev pub is_alnum : ℕ → Bool
is_alnum c = (leb b'A' c && leb c b'Z') || (leb b'a' c && leb c b'z') || (leb b'0' c && leb c b'9')

abbrev pub is_session_char : ℕ → Bool
is_session_char c = is_alnum c || nat_eq c b'.' || nat_eq c b'_' || nat_eq c b'-'

-- `$` matches at the end and also before one line feed at the end
abbrev pub at_end : Str → Bool
at_end [] = true
at_end (c ∷ []) = nat_eq c 10
at_end (c ∷ d ∷ s) = false

-- `[A-Za-z0-9._-]{0,room}$`
unfoldable pub session_rest : ℕ → Str → Bool
session_rest zero s = at_end s
session_rest (suc room) [] = true
session_rest (suc room) (c ∷ s) = at_end (c ∷ s) || (is_session_char c && session_rest room s)

-- `SESSION_PATTERN.match(s)`
unfoldable pub matches_session : Str → Bool
unfolding session_rest
matches_session [] = false
matches_session (c ∷ s) = is_alnum c && session_rest 63 s

-- `identity.split("/", 1)[0]`
unfoldable pub principal_of : Str → Str
principal_of identity = (partition slash identity).before

-- `principal not in known_principals`, and no test without a set
abbrev pub is_unknown : Option (List Str) → Str → Bool
is_unknown none principal = false
is_unknown (some known) principal = not (mem principal known)

-- the tests of `is_valid_identity` on the parts of the partition
unfoldable pub is_valid_cut : Option (List Str) → Cut → Bool
is_valid_cut known parts =
    if is_empty parts.before
    then false
    else if is_unknown known parts.before
    then false
    else if parts.found && not (matches_session parts.after)
    then false
    else true

unfoldable pub is_valid_identity : Str → Option (List Str) → Bool
unfolding is_valid_cut
is_valid_identity identity known = is_valid_cut known (partition slash identity)

-- `f"{agent}{IDENTITY_SEPARATOR}{session}"`
abbrev pub identity_of : Str → Str → Str
identity_of agent session = agent ++ slash ∷ session
