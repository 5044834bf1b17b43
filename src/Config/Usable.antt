-- ===== src/Config/Usable.antt =====
-- What a token table that was parsed holds.
use a2a_hub.Prelude.{
  false, ◌≡◌, inl, inr, refl, ap, subst, none, some, List, [], ◌∷◌, arith, Bool-cases,
  if◌then◌else◌,
}
use a2a_hub.Prelude.Text.{Str, ◌==◌, eq_iff, is_empty, strip, split}
use a2a_hub.Auth.Tokens.{TokenTable}
use a2a_hub.Auth.Lookup.{lookup}
use a2a_hub.Config.{
  Parsed, parsed, missing_colon, empty_part, assign, Entry, skipped, pair, bad, entry_of,
  then_parse, parse_from, parse_tokens,
}

-- Each token stands once, and neither a token nor an agent is empty.
abbrev pub IsUsable : TokenTable → Type 0
IsUsable [] = Unit
IsUsable ((token, agent) ∷ rest) =
    (is_empty token ≡ false) × (is_empty agent ≡ false) × (lookup token rest ≡ none) × IsUsable rest

lookup-assign :
    (token agent other : Str) (tokens : TokenTable)
    → lookup other (assign token agent tokens)
      ≡ (if token == other then some agent else lookup other tokens)
unfolding lookup assign
lookup-assign token agent other [] = refl
lookup-assign token agent other ((known, old) ∷ rest) = ground (
  arith,
  lookup-assign token agent other rest,
  eq_iff known token,
  eq_iff known other,
  eq_iff token other,
)

assign-IsUsable :
    (token agent : Str) (tokens : TokenTable)
    → is_empty token ≡ false
    → is_empty agent ≡ false
    → IsUsable tokens
    → IsUsable (assign token agent tokens)
unfolding assign
assign-IsUsable token agent [] t a u = (t, a, unfold lookup in refl, tt)
assign-IsUsable token agent ((known, old) ∷ rest) t a (k, o, once, u) =
    elim (Bool-cases (known == token)) [
      | inl same ↦ rw same (k, a, once, u)
      | inr other ↦ rw other (
        k,
        o,
        ground
            (arith, lookup-assign token agent known rest, eq_iff token known, eq_iff known token),
        assign-IsUsable token agent rest t a u,
      )
    ]

entry_of-pair :
    (entry token agent : Str)
    → entry_of entry ≡ pair token agent
    → (is_empty token ≡ false) × (is_empty agent ≡ false)
unfolding entry_of
entry_of-pair entry token agent h = ground arith

entry_of-bad :
    (entry : Str) (error : Parsed) (t : TokenTable)
    → entry_of entry ≡ bad error
    → error ≡ parsed t
    → ⊥
unfolding entry_of
entry_of-bad entry error t h e = ground arith

then_parse-IsUsable :
    (later : TokenTable → Parsed) (entry : Str) (e : Entry) (tokens t : TokenTable)
    → ((s : TokenTable) → IsUsable s → later s ≡ parsed t → IsUsable t)
    → entry_of entry ≡ e
    → IsUsable tokens
    → then_parse later tokens e ≡ parsed t
    → IsUsable t
then_parse-IsUsable later entry skipped tokens t ih e u h = ih tokens u h
then_parse-IsUsable later entry (pair token agent) tokens t ih e u h =
    let (full, named) = entry_of-pair entry token agent e in
    ih (assign token agent tokens) (assign-IsUsable token agent tokens full named u) h
then_parse-IsUsable later entry (bad error) tokens t ih e u h =
    absurd (entry_of-bad entry error t e h)

abbrev table_of : TokenTable → Parsed → TokenTable
table_of default (parsed t) = t
table_of default (missing_colon e) = default
table_of default (empty_part e) = default

parse_from-IsUsable :
    (chunks : List Str) (tokens t : TokenTable)
    → IsUsable tokens
    → parse_from chunks tokens ≡ parsed t
    → IsUsable t
unfolding parse_from
parse_from-IsUsable [] tokens t u h = subst IsUsable (ap (table_of tokens) h) u
parse_from-IsUsable (chunk ∷ chunks) tokens t u h =
    then_parse-IsUsable (parse_from chunks) (strip chunk) (entry_of (strip chunk)) tokens t
      (λ s us hs. parse_from-IsUsable chunks s t us hs) refl u h

-- A token table that is parsed holds each token once, and no empty token or agent.
pub parse_tokens-IsUsable : (raw : Str) (t : TokenTable) → parse_tokens raw ≡ parsed t → IsUsable t
unfolding parse_tokens
parse_tokens-IsUsable raw t h = parse_from-IsUsable (split b',' raw) [] t tt h
