-- ===== src/Auth/Trimmed.antt =====
-- Trimming a trimmed text.
use a2a_hub.Prelude.{ℕ, false, ◌≡◌, refl, ap, ◌∙◌, inl, inr, [], ◌∷◌, Bool-cases}
use a2a_hub.Prelude.Text.{Str, is_space, lstrip, rstrip_cons, rstrip, strip}
use a2a_hub.Auth.Session.{IsTrimmed, strip-IsTrimmed}

rstrip_of_IsTrimmed : (s : Str) → IsTrimmed s → rstrip s ≡ s
unfolding rstrip
rstrip_of_IsTrimmed [] t = refl
rstrip_of_IsTrimmed (c ∷ []) t = rw t refl
rstrip_of_IsTrimmed (c ∷ d ∷ s) t = ap (rstrip_cons c) (rstrip_of_IsTrimmed (d ∷ s) t)

lstrip-rstrip_cons :
    (c : ℕ) (s : Str) → is_space c ≡ false → lstrip (rstrip_cons c s) ≡ rstrip_cons c s
unfolding lstrip
lstrip-rstrip_cons c [] other = rw (other, lstrip) (rw other refl)
lstrip-rstrip_cons c (d ∷ s) other = rw other refl

lstrip-rstrip : (s : Str) → lstrip (rstrip (lstrip s)) ≡ rstrip (lstrip s)
unfolding lstrip rstrip
lstrip-rstrip [] = refl
lstrip-rstrip (c ∷ s) = elim (Bool-cases (is_space c)) [
  | inl space ↦ rw space (lstrip-rstrip s)
  | inr other ↦ rw other (lstrip-rstrip_cons c (rstrip s) other)
]

pub strip-strip : (s : Str) → strip (strip s) ≡ strip s
strip-strip s =
    let trimmed = strip-IsTrimmed s in
    unfold strip in (ap rstrip (lstrip-rstrip s) ∙ rstrip_of_IsTrimmed (rstrip (lstrip s)) trimmed)
