-- ===== src/Registry/Declared.antt =====
-- What a declaration, a retirement and a change of status do to the register.
use a2a_hub.Prelude.{
  ℕ, Bool, false, ◌≡◌, inl, inr, refl, ap, Option, none, some, List, [], ◌∷◌, arith, Bool-cases,
  if◌then◌else◌,
}
use a2a_hub.Prelude.Text.{Str, ◌==◌, eq_iff}
use a2a_hub.Json.{Json}
use a2a_hub.Registry.{
  Row, Register, Declaration, declared_row, declare, is_current, trim, max_field,
}
use a2a_hub.Registry.Changes.{update, hits, retire, has_declared, with_status, update_status}
use a2a_hub.Registry.Presence.{find, changed, find-upsert}

-- No two rows have one identity.
abbrev pub IsKeyed : List Row → Type 0
IsKeyed [] = Unit
IsKeyed (row ∷ rows) = (find row.identity rows ≡ none) × IsKeyed rows

-- the row satisfies the condition of a statement
abbrev pub passes : (Row → Bool) → Option Row → Bool
passes p none = false
passes p (some row) = p row

-- what an update makes of a row
abbrev pub updated : (Row → Bool) → (Row → Row) → Option Row → Option Row
updated p change none = none
updated p change (some row) = if p row then some (change row) else some row

pub updated_idle :
    (p : Row → Bool) (change : Row → Row) (row : Option Row)
    → passes p row ≡ false
    → updated p change row ≡ row
updated_idle p change none h = refl
updated_idle p change (some row) h = rw h

hits-missing :
    (identity : Str) (p : Row → Bool) (rows : List Row)
    → find identity rows ≡ none
    → hits identity p rows ≡ false
unfolding hits find
hits-missing identity p [] h = refl
hits-missing identity p (row ∷ rows) h = ground (arith, hits-missing identity p rows)

hits-find :
    (identity : Str) (p : Row → Bool) (rows : List Row)
    → IsKeyed rows
    → hits identity p rows ≡ passes p (find identity rows)
unfolding hits find
hits-find identity p [] k = refl
hits-find identity p (row ∷ rows) (once, k) =
    ground (
      arith,
      hits-find identity p rows k,
      hits-missing identity p rows,
      eq_iff row.identity identity,
    )

pub find-update :
    (identity : Str) (p : Row → Bool) (change : Row → Row) (other : Str) (rows : List Row)
    → ((row : Row) → (change row).identity ≡ row.identity)
    → IsKeyed rows
    → find other (update identity p change rows)
      ≡ (if identity == other then updated p change (find other rows) else find other rows)
unfolding update find
find-update identity p change other [] kept k = ground arith
find-update identity p change other (row ∷ rows) kept (once, k) = ground (
  arith,
  find-update identity p change other rows kept k,
  kept row,
  eq_iff row.identity identity,
  eq_iff row.identity other,
  eq_iff identity other,
)

find-identity :
    (other : Str) (rows : List Row) (row : Row) → find other rows ≡ some row → row.identity ≡ other
unfolding find
find-identity other [] row h = cc
find-identity other (first ∷ rows) row h =
    ground (arith, find-identity other rows row, eq_iff first.identity other)

declared_changed :
    (now : ℕ) (identity : Str) (declaration : Declaration) (old : Option Row)
    → ((row : Row) → old ≡ some row → row.identity ≡ identity)
    → changed
        (λ row. declared_row row.identity declaration now)
        (declared_row identity declaration now)
        old
      ≡ some (declared_row identity declaration now)
declared_changed now identity declaration none named = refl
declared_changed now identity declaration (some row) named =
    ap (λ (i : Str). some (declared_row i declaration now)) (named row refl)

-- After a declaration the caller's row holds what was declared, seen now and not retired, whatever
-- it was before, and every other row is as it was.
pub find-declare :
    (now : ℕ) (identity : Str) (declaration : Declaration) (register : Register) (other : Str)
    → find other (declare now identity declaration register).1.rows ≡ (
        if identity == other
        then some (declared_row identity declaration now)
        else find other register.rows)
unfolding declare
find-declare now identity declaration register other = ground (
  arith,
  find-upsert identity (λ row. declared_row row.identity declaration now)
      (declared_row identity declaration now) other register.rows refl (λ row. refl),
  eq_iff identity other,
  declared_changed now identity declaration (find identity register.rows)
      (find-identity identity register.rows),
)

module _ (now : ℕ) (identity : Str) (register : Register) (keyed : IsKeyed register.rows) where
  -- In a register with one row for each identity, a retirement succeeds exactly if the caller's row
  -- is there and not retired; it then marks that row as retired now, and no row is changed
  -- otherwise.
  pub retire_lem :
      (other : Str)
      → ((retire now identity register).0 ≡ passes is_current (find identity register.rows))
        × (find other (retire now identity register).1.rows ≡ (
            if identity == other
            then updated is_current
                (λ row. record row { retired_at = some now })
                (find other register.rows)
            else find other register.rows))
  unfolding retire
  retire_lem other = (
    hits-find identity is_current register.rows keyed,
    find-update identity is_current (λ row. record row { retired_at = some now }) other
        register.rows (λ row. refl) keyed,
  )

  -- In a register with one row for each identity, a change of status succeeds exactly if the caller
  -- has declared itself; it then writes the trimmed text and stamps the caller's row, and no row is
  -- changed otherwise.
  pub update_status_lem :
      (repr : Json → Str) (status : Json) (other : Str)
      → ((update_status repr now identity status register).0 ≡ (
          if passes has_declared (find identity register.rows)
          then some (trim repr max_field (some status))
          else none))
        × (find other (update_status repr now identity status register).1.rows ≡ (
            if identity == other
            then updated has_declared
                (with_status now (trim repr max_field (some status)))
                (find other register.rows)
            else find other register.rows))
  unfolding update_status
  update_status_lem repr status other =
      let agree = hits-find identity has_declared register.rows keyed in
      elim (Bool-cases (hits identity has_declared register.rows)) [
        | inl hit ↦ (
          rw (← agree, hit),
          rw hit (
              find-update identity has_declared
                (with_status now (trim repr max_field (some status))) other register.rows
                (λ row. refl) keyed),
        )
        | inr miss ↦ (
          rw (← agree, miss),
          rw miss (
              ground (
                arith,
                agree,
                eq_iff identity other,
                updated_idle has_declared (with_status now (trim repr max_field (some status)))
                    (find identity register.rows),
              )),
        )
      ]
