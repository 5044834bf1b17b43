-- ===== src/Registry/Keyed.antt =====
-- The register keeps one row for each identity.
use a2a_hub.Prelude.{
  ℕ, Bool, ◌&&◌, ◌≡◌, inl, inr, refl, none, some, List, [], ◌∷◌, arith, Bool-cases,
}
use a2a_hub.Prelude.Text.{Str, ◌==◌, eq_iff}
use a2a_hub.Json.{Json}
use a2a_hub.Registry.{
  Row, Register, Declaration, upsert, declare, is_current, trim, max_field, touch, is_fresh,
  written_at,
}
use a2a_hub.Registry.Changes.{update, hits, retire, has_declared, with_status, update_status}
use a2a_hub.Registry.Presence.{find, find-upsert}
use a2a_hub.Registry.Declared.{IsKeyed}

upsert-IsKeyed :
    (identity : Str) (change : Row → Row) (new : Row) (rows : List Row)
    → new.identity ≡ identity
    → ((row : Row) → (change row).identity ≡ row.identity)
    → IsKeyed rows
    → IsKeyed (upsert identity change new rows)
unfolding upsert
upsert-IsKeyed identity change new [] named kept k = (unfold find in refl, tt)
upsert-IsKeyed identity change new (row ∷ rows) named kept (once, k) =
    elim (Bool-cases (row.identity == identity)) [
      | inl same ↦ rw same (rw (kept row) once, k)
      | inr differs ↦ rw differs (
        ground (
          arith,
          find-upsert identity change new row.identity rows named kept,
          eq_iff row.identity identity,
          eq_iff identity row.identity,
        ),
        upsert-IsKeyed identity change new rows named kept k,
      )
    ]

find-update-missing :
    (identity : Str) (p : Row → Bool) (change : Row → Row) (other : Str) (rows : List Row)
    → ((row : Row) → (change row).identity ≡ row.identity)
    → find other rows ≡ none
    → find other (update identity p change rows) ≡ none
unfolding update find
find-update-missing identity p change other [] kept h = refl
find-update-missing identity p change other (row ∷ rows) kept h =
    ground (arith, find-update-missing identity p change other rows kept, kept row)

update-IsKeyed :
    (identity : Str) (p : Row → Bool) (change : Row → Row) (rows : List Row)
    → ((row : Row) → (change row).identity ≡ row.identity)
    → IsKeyed rows
    → IsKeyed (update identity p change rows)
unfolding update
update-IsKeyed identity p change [] kept k = tt
update-IsKeyed identity p change (row ∷ rows) kept (once, k) =
    let later = update-IsKeyed identity p change rows kept k in
    let unique = find-update-missing identity p change row.identity rows kept once in
    elim (Bool-cases ((row.identity == identity) && p row)) [
      | inl hit ↦ rw hit (rw (kept row) unique, later)
      | inr miss ↦ rw miss (unique, later)
    ]

module _ (now : ℕ) (identity : Str) (register : Register) (keyed : IsKeyed register.rows) where
  pub touch-IsKeyed : IsKeyed (touch now identity register).rows
  unfolding touch
  touch-IsKeyed = elim (Bool-cases (is_fresh now (written_at identity register.last_write))) [
    | inl fresh ↦ rw fresh keyed
    | inr stale ↦ rw stale (upsert-IsKeyed identity _ _ register.rows refl (λ row. refl) keyed)
  ]

  pub declare-IsKeyed :
      (declaration : Declaration) → IsKeyed (declare now identity declaration register).1.rows
  unfolding declare
  declare-IsKeyed declaration = upsert-IsKeyed identity _ _ register.rows refl (λ row. refl) keyed

  pub retire-IsKeyed : IsKeyed (retire now identity register).1.rows
  unfolding retire
  retire-IsKeyed = update-IsKeyed identity is_current _ register.rows (λ row. refl) keyed

  pub update_status-IsKeyed :
      (repr : Json → Str) (status : Json)
      → IsKeyed (update_status repr now identity status register).1.rows
  unfolding update_status
  update_status-IsKeyed repr status = elim (Bool-cases (hits identity has_declared register.rows)) [
    | inl hit ↦ rw hit (
        update-IsKeyed identity has_declared (with_status now (trim repr max_field (some status)))
          register.rows (λ row. refl) keyed)
    | inr miss ↦ rw miss keyed
  ]

-- A touch, a declaration, a retirement and a change of status each keep one row for each identity.
changes_keep-IsKeyed :
    (repr : Json → Str) (now : ℕ) (identity : Str) (declaration : Declaration) (status : Json)
    (register : Register)
    → IsKeyed register.rows
    → IsKeyed (touch now identity register).rows
      × IsKeyed (declare now identity declaration register).1.rows
      × IsKeyed (retire now identity register).1.rows
      × IsKeyed (update_status repr now identity status register).1.rows
changes_keep-IsKeyed repr now identity declaration status register keyed = (
  touch-IsKeyed now identity register keyed,
  declare-IsKeyed now identity register keyed declaration,
  retire-IsKeyed now identity register keyed,
  update_status-IsKeyed now identity register keyed repr status,
)
