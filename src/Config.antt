-- ===== src/Config.antt =====
-- src/a2a_hub/config.py: `_parse_tokens`. The dict is an association list in insertion order; an
-- assignment to a key that is there changes its value in place.
pub mod Usable
pub mod Environment
use a2a_hub.Prelude.{Bool, not, ◌||◌, List, [], ◌∷◌, if◌then◌else◌}
use a2a_hub.Prelude.Text.{Str, ◌==◌, is_empty, strip, split, Cut, partition}
use a2a_hub.Auth.Tokens.{TokenTable}

pub data Parsed : Type 0 where
  parsed : TokenTable → Parsed
  missing_colon : (entry : Str) → Parsed
  empty_part : (entry : Str) → Parsed

-- `tokens[token] = agent`
unfoldable pub assign : Str → Str → TokenTable → TokenTable
assign token agent [] = (token, agent) ∷ []
assign token agent ((known, old) ∷ rest) =
    let later = assign token agent rest in
    if known == token then (known, agent) ∷ rest else (known, old) ∷ later

pub data Entry : Type 0 where
  skipped : Entry
  pair : (token agent : Str) → Entry
  bad : Parsed → Entry

-- the body of the loop on a stripped entry
unfoldable pub entry_of : Str → Entry
entry_of entry =
    let cut = partition b':' entry in
    if is_empty entry
    then skipped
    else if not cut.found
    then bad (missing_colon entry)
    else if is_empty (strip cut.before) || is_empty (strip cut.after)
    then bad (empty_part entry)
    else pair (strip cut.before) (strip cut.after)

abbrev pub then_parse : (TokenTable → Parsed) → TokenTable → Entry → Parsed
then_parse later tokens skipped = later tokens
then_parse later tokens (pair token agent) = later (assign token agent tokens)
then_parse later tokens (bad error) = error

-- the loop of `_parse_tokens`
unfoldable pub parse_from : List Str → TokenTable → Parsed
parse_from [] tokens = parsed tokens
parse_from (chunk ∷ chunks) tokens = then_parse (parse_from chunks) tokens (entry_of (strip chunk))

unfoldable pub parse_tokens : Str → Parsed
parse_tokens raw = parse_from (split b',' raw) []
