-- ===== src/Examples/Settings.antt =====
-- The token setting and the extension header on concrete texts.
use a2a_hub.Prelude.{◌&&◌, ◌≡◌, refl, [], ◌∷◌, map}
use a2a_hub.Prelude.Text.{codes, ◌==◌, mem, strip, lstrip, rstrip, is_space, split, partition}
use a2a_hub.Auth.Tokens.{TokenTable}
use a2a_hub.Config.{parsed, missing_colon, assign, entry_of, parse_from, parse_tokens}
use a2a_hub.Extensions.{activate_from, activated}
use a2a_hub.Extensions.Negotiated.{IsDistinct, activated_exact}

abbrev table : TokenTable
table = (codes "t1", codes "bob") ∷ (codes "t2", codes "eve") ∷ []

parse_tokens_test : parse_tokens (codes "t1:ana, t2: eve,,t1:bob") ≡ parsed table
unfolding parse_tokens parse_from entry_of assign ◌==◌ strip lstrip rstrip is_space split partition
parse_tokens_test = refl

no_colon_test : parse_tokens (codes "t1:ana,t2") ≡ missing_colon (codes "t2")
unfolding parse_tokens parse_from entry_of assign ◌==◌ strip lstrip rstrip is_space split partition
no_colon_test = refl

activated_test :
    activated (codes "u1" ∷ codes "u2" ∷ []) (codes "u2, x,u2,u1") ≡ codes "u2" ∷ codes "u1" ∷ []
unfolding activated activate_from mem ◌==◌ strip lstrip rstrip is_space split
activated_test = refl

activated_exact_example :
    (mem (codes "u2") (activated (codes "u1" ∷ codes "u2" ∷ []) (codes "u2, x,u2")) ≡ (
      mem (codes "u2") (codes "u1" ∷ codes "u2" ∷ [])
      && mem (codes "u2") (map strip (split b',' (codes "u2, x,u2")))))
    × IsDistinct (activated (codes "u1" ∷ codes "u2" ∷ []) (codes "u2, x,u2"))
activated_exact_example =
    activated_exact (codes "u1" ∷ codes "u2" ∷ []) (codes "u2, x,u2") (codes "u2")
