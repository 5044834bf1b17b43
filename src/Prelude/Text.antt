-- ===== src/Prelude/Text.antt =====
-- Python's `str` as the list of its code points, with the methods of `str` that the program calls.
-- `int` reads ASCII digits; the other Unicode digits that Python accepts are left out.
use Prim.Native.Nat.{ℕ, ◌+◌}
use Prim.Native.Char.{code}
use Prim.Native.String.{String}
use mathlib.Core.Path.{◌≡◌, refl}
use mathlib.Core.Logic.{◌↔◌}
use mathlib.Core.Bool.{Bool, true, false, ◌&&◌, ◌||◌}
use mathlib.Core.List.{List, [], ◌∷◌, ◌++◌}
use native.Mathlib.Omega.{arith}
use a2a_hub.Prelude.Tests.{leb, nat_eq, if◌then◌else◌}

abbrev pub Str : Type 0
Str = List ℕ

-- a literal of the source
abbrev pub codes : String → Str
codes String.[] = []
codes (String.◌∷◌ c s) = code c ∷ codes s

infix 50 ◌==◌
unfoldable pub ◌==◌ : Str → Str → Bool
[] == [] = true
[] == (d ∷ t) = false
(c ∷ s) == [] = false
(c ∷ s) == (d ∷ t) = nat_eq c d && (s == t)

eq_sound : (s t : Str) → (s == t) ≡ true → s ≡ t
unfolding ◌==◌
eq_sound [] [] h = refl
eq_sound [] (d ∷ t) h = cc
eq_sound (c ∷ s) [] h = cc
eq_sound (c ∷ s) (d ∷ t) h = ground (arith, eq_sound s t)

pub eq_refl : (s : Str) → (s == s) ≡ true
unfolding ◌==◌
eq_refl [] = refl
eq_refl (c ∷ s) = ground (arith, eq_refl s)

pub eq_iff : (s t : Str) → ((s == t) ≡ true) ↔ (s ≡ t)
eq_iff s t = (eq_sound s t, λ e. rw e (eq_refl t))

-- the truth value of a `str`
abbrev pub is_empty {ℓ} : {A : Type ℓ} → List A → Bool
is_empty [] = true
is_empty (c ∷ s) = false

-- `s in xs`, for a list or a set of texts
unfoldable pub mem : Str → List Str → Bool
mem s [] = false
mem s (t ∷ ts) = (s == t) || mem s ts

-- `c.isspace()`
unfoldable pub is_space : ℕ → Bool
is_space c =
    (leb 9 c && leb c 13)
    || (leb 28 c && leb c 32)
    || nat_eq c 133
    || nat_eq c 160
    || nat_eq c 5760
    || (leb 8192 c && leb c 8202)
    || nat_eq c 8232
    || nat_eq c 8233
    || nat_eq c 8239
    || nat_eq c 8287
    || nat_eq c 12288

unfoldable pub lstrip : Str → Str
lstrip [] = []
lstrip (c ∷ s) = if is_space c then lstrip s else c ∷ s

-- one code point before what `rstrip` left of the rest
abbrev pub rstrip_cons : ℕ → Str → Str
rstrip_cons c [] = if is_space c then [] else c ∷ []
rstrip_cons c (d ∷ s) = c ∷ d ∷ s

unfoldable pub rstrip : Str → Str
rstrip [] = []
rstrip (c ∷ s) = rstrip_cons c (rstrip s)

-- `s.strip()`
unfoldable pub strip : Str → Str
unfolding lstrip rstrip is_space
strip s = rstrip (lstrip s)

-- `s.lower()` on ASCII letters, other code points unchanged. The program compares the result with
-- ASCII words; the one other code point that lower-cases to an ASCII letter alone is the Kelvin sign,
-- which no header name holds and whose letter is in none of the other words.
abbrev to_lower : ℕ → ℕ
to_lower c = if leb b'A' c && leb c b'Z' then c + 32 else c

unfoldable pub lower : Str → Str
lower [] = []
lower (c ∷ s) = to_lower c ∷ lower s

pub record Cut : Type 0 where
  pub before : Str
  pub found : Bool
  pub after : Str

-- `s.partition(c)`; `found` tells whether the second part is the separator or empty
unfoldable pub partition : ℕ → Str → Cut
partition c [] = record { before = []; found = false; after = [] }
partition c (d ∷ s) =
    let rest = partition c s in
    if nat_eq d c
    then record { before = []; found = true; after = s }
    else record rest { before = d ∷ rest.before }

abbrev cons_head : ℕ → List Str → List Str
cons_head c [] = (c ∷ []) ∷ []
cons_head c (p ∷ ps) = (c ∷ p) ∷ ps

-- `s.split(c)`
unfoldable pub split : ℕ → Str → List Str
split c [] = [] ∷ []
split c (d ∷ s) = let rest = split c s in if nat_eq d c then [] ∷ rest else cons_head d rest

-- `s.startswith(t)`
unfoldable pub starts_with : Str → Str → Bool
starts_with s [] = true
starts_with [] (d ∷ t) = false
starts_with (c ∷ s) (d ∷ t) = nat_eq c d && starts_with s t

-- `sep.join(parts)`
unfoldable pub join : Str → List Str → Str
join sep [] = []
join sep (p ∷ []) = p
join sep (p ∷ q ∷ ps) = p ++ sep ++ join sep (q ∷ ps)

-- `s.rstrip(c)` for one code point
abbrev rstrip_char_cons : ℕ → ℕ → Str → Str
rstrip_char_cons c d [] = if nat_eq d c then [] else d ∷ []
rstrip_char_cons c d (e ∷ s) = d ∷ e ∷ s

unfoldable pub rstrip_char : ℕ → Str → Str
rstrip_char c [] = []
rstrip_char c (d ∷ s) = rstrip_char_cons c d (rstrip_char c s)

-- `s.lstrip(c)` for one code point
unfoldable pub lstrip_char : ℕ → Str → Str
lstrip_char c [] = []
lstrip_char c (d ∷ s) = if nat_eq d c then lstrip_char c s else d ∷ s
