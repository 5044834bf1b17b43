-- ===== src/Examples/Access.antt =====
-- The bearer guard and the token table on concrete requests.
use a2a_hub.Prelude.{
  Bool, true, false, ◌≡◌, ◌≢◌, ◌↔◌, refl, ap, Option, none, some, List, [], ◌∷◌, arith,
  if◌then◌else◌,
}
use a2a_hub.Prelude.Text.{Str, codes, ◌==◌, mem, strip, lstrip, rstrip, lower, partition, is_space}
use a2a_hub.Auth.Identity.{matches_session, session_rest, is_valid_identity}
use a2a_hub.Auth.Tokens.{
  TokenTable, found, is_ascii, compare_digest, resolve_from, resolve, extract_bearer,
}
use a2a_hub.Auth.Refusal.{Scope}
use a2a_hub.Auth.Bearer.{Outcome, forwarded, Guard, admit, bearer_call}
use a2a_hub.Auth.Session.{NoSlash}
use a2a_hub.Auth.Gate.{IsGuarded, Proves, bearer_call_sound, bearer_call_complete}
use a2a_hub.Auth.Lookup.{IsTable, lookup, resolve-eq-lookup}
use a2a_hub.Auth.Address.{NamesMailbox, is_valid_identity_iff}

abbrev pub tokens : TokenTable
tokens = (codes "t1", codes "ana") ∷ (codes "t2", codes "bob") ∷ []

abbrev note : Str → List Str → Bool × List Str
note identity seen = (true, identity ∷ seen)

abbrev guard : Guard (List Str)
guard = record { tokens = tokens; rpc_path = codes "/"; seen = some note }

abbrev pub rpc_scope : Scope
rpc_scope = record { kind = codes "http"; path = codes "/"; headers = [] }

abbrev pub header : Str → Option Str
header name =
    if name == codes "authorization"
    then some (codes "Bearer t2")
    else if name == codes "a2a-session"
    then some (codes " s1 ")
    else none

abbrev no_header : Str → Option Str
no_header name = none

guarded : IsGuarded rpc_scope
unfolding ◌==◌ mem
guarded = record { http = refl; private_path = refl }

bearer_call_test :
    bearer_call guard rpc_scope header [] ≡ (forwarded (some (codes "bob/s1")), codes "bob/s1" ∷ [])
unfolding bearer_call admit ◌==◌ mem extract_bearer resolve resolve_from compare_digest is_ascii
    partition lower strip lstrip rstrip is_space matches_session session_rest
bearer_call_test = refl

bearer_call_sound_example :
    (identity : Str) × (some (codes "bob/s1") ≡ some identity) × Proves guard header identity
bearer_call_sound_example =
    bearer_call_sound guard rpc_scope header guarded [] (some (codes "bob/s1"))
      (ap (λ (r : Outcome × List Str). r.0) bearer_call_test)

proven : Proves guard header (codes "bob/s1")
unfolding ◌==◌ extract_bearer resolve resolve_from compare_digest is_ascii partition lower strip
    lstrip rstrip is_space
proven = record {
  agent = codes "bob";
  session = codes "s1";
  bearer = refl;
  declared = refl;
  named = (refl, (refl, tt), omega arith);
  composed = refl;
}

bearer_call_complete_example :
    bearer_call guard rpc_scope header [] ≡ (forwarded (some (codes "bob/s1")), codes "bob/s1" ∷ [])
bearer_call_complete_example =
    bearer_call_complete guard rpc_scope header guarded [] (codes "bob/s1") proven

refused : (user : Option Str) → (bearer_call guard rpc_scope no_header []).0 ≢ forwarded user
unfolding bearer_call admit ◌==◌ mem extract_bearer
refused user h = cc h

tokens_ok : IsTable tokens
unfolding is_ascii lookup ◌==◌
tokens_ok = (refl, refl, (refl, refl, tt))

t2_ascii : is_ascii (codes "t2") ≡ true
unfolding is_ascii
t2_ascii = refl

resolve-eq-lookup_example : resolve tokens (codes "t2") ≡ found (lookup (codes "t2") tokens)
resolve-eq-lookup_example = resolve-eq-lookup tokens (codes "t2") tokens_ok t2_ascii

not_ascii_test : is_ascii (233 ∷ []) ≡ false
unfolding is_ascii
not_ascii_test = refl

ana_clean : NoSlash (codes "ana")
ana_clean = (ground arith, (ground arith, (ground arith, tt)))

trimmed : is_space b'1' ≡ false
unfolding is_space
trimmed = refl

is_valid_identity_iff_example :
    (is_valid_identity (codes "ana/s1") (some (codes "ana" ∷ [])) ≡ true)
    ↔ NamesMailbox (some (codes "ana" ∷ [])) (codes "ana/s1")
is_valid_identity_iff_example =
    is_valid_identity_iff (some (codes "ana" ∷ [])) (codes "ana/s1") trimmed
