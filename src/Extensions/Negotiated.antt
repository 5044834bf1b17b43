-- ===== src/Extensions/Negotiated.antt =====
-- Which extensions a response reports as active.
use a2a_hub.Prelude.{
  false, not, ◌&&◌, ◌||◌, ◌≡◌, inl, inr, refl, List, [], ◌∷◌, ◌++◌, map, arith, Bool-cases,
}
use a2a_hub.Prelude.Text.{Str, ◌==◌, eq_iff, mem, strip, split}
use a2a_hub.Extensions.{activate_from, activated}

-- No text stands twice.
abbrev pub IsDistinct : List Str → Type 0
IsDistinct [] = Unit
IsDistinct (t ∷ ts) = (mem t ts ≡ false) × IsDistinct ts

mem-append : (x : Str) (ss ts : List Str) → mem x (ss ++ ts) ≡ (mem x ss || mem x ts)
unfolding mem
mem-append x [] ts = refl
mem-append x (s ∷ ss) ts = ground (arith, mem-append x ss ts)

mem-snoc : (x : Str) (ss : List Str) (t : Str) → mem x (ss ++ t ∷ []) ≡ (mem x ss || (x == t))
unfolding mem
mem-snoc x [] t = ground arith
mem-snoc x (s ∷ ss) t = ground (arith, mem-snoc x ss t)

snoc-IsDistinct :
    (ss : List Str) (t : Str) → mem t ss ≡ false → IsDistinct ss → IsDistinct (ss ++ t ∷ [])
unfolding mem
snoc-IsDistinct [] t new d = (refl, tt)
snoc-IsDistinct (s ∷ ss) t new (once, d) =
    (ground (arith, mem-snoc s ss t, eq_iff s t, eq_iff t s), snoc-IsDistinct ss t (ground arith) d)

mem-activate_from :
    (known active parts : List Str) (uri : Str)
    → mem uri (activate_from known active parts)
      ≡ (mem uri active || (mem uri known && mem uri (map strip parts)))
unfolding mem activate_from
mem-activate_from known active [] uri = ground arith
mem-activate_from known active (part ∷ parts) uri = ground (
  arith,
  mem-activate_from known (active ++ strip part ∷ []) parts uri,
  mem-activate_from known active parts uri,
  mem-snoc uri active (strip part),
  eq_iff uri (strip part),
)

activate_from-IsDistinct :
    (known active parts : List Str)
    → IsDistinct active
    → IsDistinct (activate_from known active parts)
unfolding activate_from
activate_from-IsDistinct known active [] d = d
activate_from-IsDistinct known active (part ∷ parts) d =
    elim (Bool-cases (mem (strip part) known && not (mem (strip part) active))) [
      | inl new ↦ rw new (
          activate_from-IsDistinct known (active ++ strip part ∷ []) parts
            (snoc-IsDistinct active (strip part) (ground arith) d))
      | inr old ↦ rw old (activate_from-IsDistinct known active parts d)
    ]

-- The active extensions are those that the request names, trimmed, between commas and that the
-- server supports, each once.
pub activated_exact :
    (supported : List Str) (raw uri : Str)
    → (mem uri (activated supported raw)
        ≡ (mem uri supported && mem uri (map strip (split b',' raw))))
      × IsDistinct (activated supported raw)
unfolding activated mem
activated_exact supported raw uri = (
  mem-activate_from supported [] (split b',' raw) uri,
  activate_from-IsDistinct supported [] (split b',' raw) tt,
)
