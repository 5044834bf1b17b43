-- ===== src/Auth/Session.antt =====
-- Session names and identities: what the pattern accepts and how an identity splits.
use a2a_hub.Prelude.{
  ℕ, zero, suc, ◌≤◌, ◌≡◌, ◌≢◌, refl, inl, inr, true, false, [], ◌∷◌, arith, length, Bool-cases, All,
}
use mathlib.Core.Bool.{and-eq-true_iff}
use a2a_hub.Prelude.Text.{Str, is_space, lstrip, rstrip_cons, rstrip, strip, partition}
use a2a_hub.Auth.Identity.{
  slash, is_alnum, is_session_char, session_rest, matches_session, identity_of,
}

abbrev pub NoSlash : Str → Type 0
NoSlash = All (λ c. c ≢ slash)

-- A session name: a letter or a digit, then at most 63 of the permitted characters.
abbrev pub IsSessionName : Str → Type 0
IsSessionName [] = ⊥
IsSessionName (c ∷ s) =
    (is_alnum c ≡ true) × All (λ d. is_session_char d ≡ true) s × (length s ≤ 63)

-- The text does not end with white space.
abbrev pub IsTrimmed : Str → Type 0
IsTrimmed [] = Unit
IsTrimmed (c ∷ []) = is_space c ≡ false
IsTrimmed (c ∷ d ∷ s) = IsTrimmed (d ∷ s)

rstrip_cons-IsTrimmed : (c : ℕ) (r : Str) → IsTrimmed r → IsTrimmed (rstrip_cons c r)
rstrip_cons-IsTrimmed c [] h = elim (Bool-cases (is_space c)) [
  | inl space ↦ rw space tt
  | inr other ↦ rw other other
]
rstrip_cons-IsTrimmed c (d ∷ r) h = h

rstrip-IsTrimmed : (s : Str) → IsTrimmed (rstrip s)
unfolding rstrip
rstrip-IsTrimmed [] = tt
rstrip-IsTrimmed (c ∷ s) = rstrip_cons-IsTrimmed c (rstrip s) (rstrip-IsTrimmed s)

pub strip-IsTrimmed : (s : Str) → IsTrimmed (strip s)
unfolding strip
strip-IsTrimmed s = rstrip-IsTrimmed (lstrip s)

session_rest_sound :
    (room : ℕ) (s : Str)
    → IsTrimmed s
    → session_rest room s ≡ true
    → All (λ d. is_session_char d ≡ true) s × (length s ≤ room)
unfolding session_rest is_space
session_rest_sound zero [] t h = (tt, omega arith)
session_rest_sound zero (c ∷ []) t h = ground arith
session_rest_sound zero (c ∷ d ∷ s) t h = cc
session_rest_sound (suc room) [] t h = (tt, omega arith)
session_rest_sound (suc room) (c ∷ []) t h = ground arith
session_rest_sound (suc room) (c ∷ d ∷ s) t h = ground (arith, session_rest_sound room (d ∷ s) t)

pub IsTrimmed-tail : (c : ℕ) (s : Str) → IsTrimmed (c ∷ s) → IsTrimmed s
IsTrimmed-tail c [] h = tt
IsTrimmed-tail c (d ∷ s) h = h

-- On trimmed text the pattern accepts exactly the session names: the line feed that `$` would
-- let through is gone.
pub matches_session_sound : (s : Str) → IsTrimmed s → matches_session s ≡ true → IsSessionName s
unfolding matches_session
matches_session_sound [] t h = cc
matches_session_sound (c ∷ s) t h =
    let (first, rest) = (and-eq-true_iff _ _).0 h in
    let (chars, fits) = session_rest_sound 63 s (IsTrimmed-tail c s t) rest in (first, chars, fits)

session_rest_complete :
    (room : ℕ) (s : Str)
    → All (λ d. is_session_char d ≡ true) s
    → length s ≤ room
    → session_rest room s ≡ true
unfolding session_rest
session_rest_complete zero [] a h = refl
session_rest_complete zero (c ∷ s) a h = absurd (omega arith)
session_rest_complete (suc room) [] a h = refl
session_rest_complete (suc room) (c ∷ s) a h = ground (arith, session_rest_complete room s a.1)

pub matches_session_complete : (s : Str) → IsSessionName s → matches_session s ≡ true
unfolding matches_session
matches_session_complete [] h = elim h [ ]
matches_session_complete (c ∷ s) (first, rest, fits) =
    rw (first, session_rest_complete 63 s rest fits)

-- Without a slash in front, the partition of `agent/session` is the two parts.
pub partition-identity :
    (agent session : Str)
    → NoSlash agent
    → partition slash (identity_of agent session)
      ≡ record { before = agent; found = true; after = session }
unfolding partition
partition-identity [] session h = refl
partition-identity (c ∷ agent) session (hc, h) = ground (arith, partition-identity agent session h)

pub partition-NoSlash :
    (agent : Str)
    → NoSlash agent
    → partition slash agent ≡ record { before = agent; found = false; after = [] }
unfolding partition
partition-NoSlash [] h = refl
partition-NoSlash (c ∷ agent) (hc, h) = ground (arith, partition-NoSlash agent h)
