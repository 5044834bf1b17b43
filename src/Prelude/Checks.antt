-- ===== src/Prelude/Checks.antt =====
-- The text functions on small inputs.
use mathlib.Core.Path.{◌≡◌, refl}
use mathlib.Core.Option.{none, some}
use mathlib.Core.List.{[], ◌∷◌}
use a2a_hub.Prelude.Int.{pos, negsuc}
use a2a_hub.Prelude.Text.{codes, strip, split, lower, join}
use a2a_hub.Prelude.Number.{parse_int}

strip_test : strip (codes "  a b \n") ≡ codes "a b"
unfolding strip
strip_test = refl

split_test : split b',' (codes "a,,b") ≡ codes "a" ∷ [] ∷ codes "b" ∷ []
unfolding split
split_test = refl

join-split_test : join (codes ", ") (split b',' (codes "a,b")) ≡ codes "a, b"
unfolding split join
join-split_test = refl

lower_test : lower (codes "BeaReR") ≡ codes "bearer"
unfolding lower
lower_test = refl

parse_int_tests :
    (parse_int (codes " 1_000\n") ≡ some (pos 1000))
    × (parse_int (codes "-7") ≡ some (negsuc 6))
    × (parse_int (codes "1__0") ≡ none)
    × (parse_int (codes "12k") ≡ none)
unfolding parse_int
parse_int_tests = (refl, refl, refl, refl)
