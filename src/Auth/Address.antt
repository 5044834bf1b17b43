-- ===== src/Auth/Address.antt =====
-- Which texts name a mailbox, and whose mailbox an identity is.
use a2a_hub.Prelude.{
  true, false, ◌≡◌, ◌⊎◌, ◌↔◌, inl, inr, refl, ap, subst, Option, none, some, List, [], ◌∷◌, arith,
  nat_eq, Bool-cases,
}
use a2a_hub.Prelude.Text.{Str, is_empty, mem, Cut, partition}
use a2a_hub.Auth.Identity.{
  slash, principal_of, is_unknown, is_valid_cut, is_valid_identity, identity_of,
}
use a2a_hub.Auth.Session.{
  NoSlash, IsSessionName, IsTrimmed, IsTrimmed-tail, matches_session_sound,
  matches_session_complete, partition-identity, partition-NoSlash,
}

-- An identity belongs to the agent that it was composed with, if the agent's name has no slash.
pub principal_of-identity_of :
    (agent session : Str) → NoSlash agent → principal_of (identity_of agent session) ≡ agent
unfolding principal_of
principal_of-identity_of agent session h =
    ap (λ (c : Cut). c.before) (partition-identity agent session h)

principal_of-NoSlash : (agent : Str) → NoSlash agent → principal_of agent ≡ agent
unfolding principal_of
principal_of-NoSlash agent h = ap (λ (c : Cut). c.before) (partition-NoSlash agent h)

-- A partition cuts at the first slash, if there is one.
pub record IsCut (s : Str) (cut : Cut) : Type 0 where
  pub clean : NoSlash cut.before
  pub split : cut.found ≡ true → s ≡ identity_of cut.before cut.after
  pub whole : cut.found ≡ false → s ≡ cut.before

partition-IsCut : (s : Str) → IsCut s (partition slash s)
unfolding partition
partition-IsCut [] = record { clean = tt; split = λ h. cc; whole = λ h. refl }
partition-IsCut (c ∷ s) =
    let ih = partition-IsCut s in
    elim (Bool-cases (nat_eq c slash)) [
      | inl here ↦ rw here (record { clean = tt; split = λ h. ground arith; whole = λ h. cc })
      | inr other ↦ rw other (record {
        clean = (ground arith, ih.clean);
        split = λ h. ap (◌∷◌ c) (ih.split h);
        whole = λ h. ap (◌∷◌ c) (ih.whole h);
      })
    ]

abbrev pub IsKnown : Option (List Str) → Str → Type 0
IsKnown none principal = Unit
IsKnown (some known) principal = mem principal known ≡ true

-- The text is a known principal, or a session under a known principal.
pub record NamesMailbox (known : Option (List Str)) (r : Str) : Type 0 where
  pub principal : Str
  pub clean : NoSlash principal
  pub present : is_empty principal ≡ false
  pub listed : IsKnown known principal
  pub shape :
      (r ≡ principal)
      ⊎ ((session : Str) × (r ≡ identity_of principal session) × IsSessionName session)

IsTrimmed-identity :
    (agent session : Str) → IsTrimmed (identity_of agent session) → IsTrimmed session
IsTrimmed-identity [] session h = IsTrimmed-tail slash session h
IsTrimmed-identity (c ∷ agent) session h =
    IsTrimmed-identity agent session (IsTrimmed-tail c (identity_of agent session) h)

listed_of : (known : Option (List Str)) (p : Str) → is_unknown known p ≡ false → IsKnown known p
listed_of none p h = tt
listed_of (some known) p h = ground arith

unlisted : (known : Option (List Str)) (p : Str) → IsKnown known p → is_unknown known p ≡ false
unlisted none p h = refl
unlisted (some known) p h = rw h

valid_parts :
    (known : Option (List Str)) (r : Str) (cut : Cut)
    → IsCut r cut
    → IsTrimmed r
    → is_valid_cut known cut ≡ true
    → NamesMailbox known r
unfolding is_valid_cut
valid_parts known r cut c t h = record {
  principal = cut.before;
  clean = c.clean;
  present = ground arith;
  listed = listed_of known cut.before (ground arith);
  shape = elim (Bool-cases cut.found) [
    | inl split ↦ inr (
      cut.after,
      c.split split,
      matches_session_sound cut.after
          (IsTrimmed-identity cut.before cut.after (subst IsTrimmed (c.split split) t))
          (ground arith),
    )
    | inr whole ↦ inl (c.whole whole)
  ];
}

valid_shape :
    (known : Option (List Str)) (r p : Str)
    → NoSlash p
    → is_empty p ≡ false
    → IsKnown known p
    → (r ≡ p) ⊎ ((session : Str) × (r ≡ identity_of p session) × IsSessionName session)
    → is_valid_identity r known ≡ true
unfolding is_valid_identity
valid_shape known r p clean present listed (inl whole) =
    rw (whole, partition-NoSlash p clean, present, unlisted known p listed)
valid_shape known r p clean present listed (inr (session, split, named)) = rw (
  split,
  partition-identity p session clean,
  present,
  unlisted known p listed,
  matches_session_complete session named,
)

-- A trimmed text is accepted as a recipient exactly if it names a mailbox: a known principal that
-- is not empty, or a legal session name under one.
pub is_valid_identity_iff :
    (known : Option (List Str)) (r : Str)
    → IsTrimmed r
    → (is_valid_identity r known ≡ true) ↔ NamesMailbox known r
is_valid_identity_iff known r t = (
  λ h.
      valid_parts known r (partition slash r) (partition-IsCut r) t (unfold is_valid_identity in h),
  λ m. valid_shape known r m.principal m.clean m.present m.listed m.shape,
)
