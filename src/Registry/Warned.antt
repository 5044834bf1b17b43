-- ===== src/Registry/Warned.antt =====
-- What a declaration is warned of.
use a2a_hub.Prelude.{
  ℕ, Bool, true, false, not, ◌&&◌, ◌||◌, ◌≡◌, refl, sym, ap, ◌∙◌, inl, inr, Bool-cases, Option,
  none, some, List, [], ◌∷◌, ◌++◌, any, keep_if, arith, if◌then◌else◌,
}
use a2a_hub.Prelude.Text.{Str, codes, ◌==◌, eq_iff}
use a2a_hub.Registry.{
  Row, Declaration, Register, declare, Suspicion, shared_session, other_manager, is_current,
  is_changed, is_within, age_seconds, reuse_window_seconds, manager_window_seconds, warnings_of,
  warnings_for,
}
use a2a_hub.Registry.Presence.{find}
use a2a_hub.Registry.Declared.{IsKeyed}

abbrev pub is_shared : Suspicion → Bool
is_shared (shared_session age role projects) = true
is_shared (other_manager identity age) = false

-- the managers that are named
abbrev pub managers : List Suspicion → List Str
managers [] = []
managers (shared_session age role projects ∷ rest) = managers rest
managers (other_manager identity age ∷ rest) = identity ∷ managers rest

abbrev pub identities : List Row → List Str
identities [] = []
identities (row ∷ rows) = row.identity ∷ identities rows

module _ (identity : Str) (declaration : Declaration) (now : ℕ) where
  -- The row is not retired and was declared, as something else, less than 15 minutes ago.
  abbrev pub is_taken_over : Option Row → Bool
  is_taken_over none = false
  is_taken_over (some row) =
      is_current row
      && is_changed row declaration
      && is_within reuse_window_seconds (age_seconds row.declared_at now)

  -- Both are managers, and the other is not retired and was seen less than an hour ago.
  abbrev pub is_rival : Row → Bool
  is_rival row =
      is_current row
      && not (row.identity == identity)
      && (declaration.role == codes "manager")
      && (row.role == codes "manager")
      && is_within manager_window_seconds (age_seconds row.last_seen now)

  abbrev warned : List Row → List Suspicion
  warned = warnings_for identity declaration now

  any-append :
      (xs ys : List Suspicion) → any is_shared (xs ++ ys) ≡ any is_shared xs || any is_shared ys
  any-append [] ys = refl
  any-append (x ∷ xs) ys = ground (arith, any-append xs ys)

  managers-append : (xs ys : List Suspicion) → managers (xs ++ ys) ≡ managers xs ++ managers ys
  managers-append [] ys = refl
  managers-append (shared_session age role projects ∷ xs) ys = managers-append xs ys
  managers-append (other_manager name age ∷ xs) ys = ap (◌∷◌ name) (managers-append xs ys)

  abbrev is_replaced : Row → Bool
  is_replaced row =
      is_changed row declaration && is_within reuse_window_seconds (age_seconds row.declared_at now)

  shared-warnings_of :
      (row : Row)
      → any is_shared (warnings_of identity declaration now row)
        ≡ (row.identity == identity) && is_replaced row
  unfolding warnings_of
  shared-warnings_of row = ground arith

  managers-warnings_of :
      (row : Row)
      → managers (warnings_of identity declaration now row) ≡ (
          if not (row.identity == identity)
            && (declaration.role == codes "manager")
            && (row.role == codes "manager")
            && is_within manager_window_seconds (age_seconds row.last_seen now)
          then row.identity ∷ []
          else [])
  unfolding warnings_of
  managers-warnings_of row = ground arith

  absent_unshared :
      (rows : List Row) → find identity rows ≡ none → any is_shared (warned rows) ≡ false
  unfolding find warnings_for
  absent_unshared [] h = refl
  absent_unshared (row ∷ rows) h = ground (
    arith,
    h,
    absent_unshared rows,
    shared-warnings_of row,
    any-append (warnings_of identity declaration now row) (warned rows),
  )

  shared_exact :
      (rows : List Row)
      → IsKeyed rows
      → any is_shared (warned rows) ≡ is_taken_over (find identity rows)
  unfolding find warnings_for
  shared_exact [] h = refl
  shared_exact (row ∷ rows) (once, h) = elim (Bool-cases (row.identity == identity)) [
    | inl own ↦
        let alone =
          absent_unshared rows
            (ap (λ name. find name rows) (sym ((eq_iff row.identity identity).0 own)) ∙ once) in
        ground (
          arith,
          own,
          alone,
          shared-warnings_of row,
          any-append (warnings_of identity declaration now row) (warned rows),
        )
    | inr other ↦ ground (
      arith,
      other,
      shared_exact rows h,
      shared-warnings_of row,
      any-append (warnings_of identity declaration now row) (warned rows),
    )
  ]

  managers_exact : (rows : List Row) → managers (warned rows) ≡ identities (keep_if is_rival rows)
  unfolding warnings_for
  managers_exact [] = refl
  managers_exact (row ∷ rows) = ground (
    arith,
    managers_exact rows,
    managers-warnings_of row,
    managers-append (warnings_of identity declaration now row) (warned rows),
  )

  -- In a register with one row for each identity, a declaration is warned of a shared session
  -- exactly if the caller's row is not retired and was declared, with another role or other
  -- projects, less than 900 seconds ago; and the managers of which it is warned are, in the order
  -- of the rows, the other managers that are not retired and were seen less than 3600 seconds ago,
  -- if it declares a manager, and none otherwise.
  pub declare_warnings :
      (register : Register)
      → IsKeyed register.rows
      → (any is_shared (declare now identity declaration register).0
          ≡ is_taken_over (find identity register.rows))
        × (managers (declare now identity declaration register).0
            ≡ identities (keep_if is_rival register.rows))
  unfolding declare
  declare_warnings register keyed = (shared_exact register.rows keyed, managers_exact register.rows)
