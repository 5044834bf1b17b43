-- ===== src/Registry/Backed.antt =====
-- The cache of writes stays backed by the table, whatever is written to the register.
use a2a_hub.Prelude.{ℕ, ◌≤◌, Bool, ◌≡◌, inl, inr, refl, Option, none, some, arith, Bool-cases}
use a2a_hub.Prelude.Text.{Str, ◌==◌}
use a2a_hub.Json.{Json}
use a2a_hub.Registry.{
  Row, Register, Declaration, declare, touch, is_fresh, written_at, is_current, trim, max_field,
}
use a2a_hub.Registry.Changes.{retire, update_status, hits, has_declared, with_status}
use a2a_hub.Registry.Presence.{find, SeenSince, IsBacked, written_at-write_at}
use a2a_hub.Registry.Declared.{IsKeyed, updated, find-declare, find-update}

-- No cached write lies after the instant.
abbrev pub IsPast : ℕ → Register → Type 0
IsPast now register =
    (identity : Str) (at : ℕ) → written_at identity register.last_write ≡ some at → at ≤ now

module _ (now : ℕ) (identity : Str) (register : Register) where
  pub touch-IsPast : IsPast now register → IsPast now (touch now identity register)
  unfolding touch
  touch-IsPast past = elim (Bool-cases (is_fresh now (written_at identity register.last_write))) [
    | inl fresh ↦ rw fresh past
    | inr stale ↦ rw stale λ other at h. elim (Bool-cases (identity == other)) [
      | inl same ↦ ground (arith, written_at-write_at identity now other register.last_write)
      | inr differs ↦
          past other at (ground (arith, written_at-write_at identity now other register.last_write))
    ]
  ]

  module _ (past : IsPast now register) (backed : IsBacked register) where
    pub declare-IsBacked :
        (declaration : Declaration) → IsBacked (declare now identity declaration register).1
    declare-IsBacked declaration other at h =
        rw (find-declare now identity declaration register other)
          (elim (Bool-cases (identity == other)) [
            | inl same ↦ rw same (now, refl, past other at (unfold declare in h))
            | inr differs ↦ rw differs (backed other at (unfold declare in h))
          ])

    updated-SeenSince :
        (p : Row → Bool) (change : Row → Row) (at : ℕ) (row : Option Row)
        → ((row : Row) → SeenSince at (some row) → SeenSince at (some (change row)))
        → SeenSince at row
        → SeenSince at (updated p change row)
    updated-SeenSince p change at none kept h = elim h [ ]
    updated-SeenSince p change at (some row) kept h = elim (Bool-cases (p row)) [
      | inl hit ↦ rw hit (kept row h)
      | inr miss ↦ rw miss h
    ]

    module _ (keyed : IsKeyed register.rows) where
      pub retire-IsBacked : IsBacked (retire now identity register).1
      unfolding retire
      retire-IsBacked other at h =
          rw
            (find-update identity is_current (λ row. record row { retired_at = some now }) other
              register.rows (λ row. refl) keyed)
            (elim (Bool-cases (identity == other)) [
              | inl same ↦ rw same (
                  updated-SeenSince is_current _ at (find other register.rows) (λ row seen. seen)
                    (backed other at h))
              | inr differs ↦ rw differs (backed other at h)
            ])

      pub update_status-IsBacked :
          (repr : Json → Str) (status : Json)
          → IsBacked (update_status repr now identity status register).1
      unfolding update_status
      update_status-IsBacked repr status =
          elim (Bool-cases (hits identity has_declared register.rows)) [
            | inl hit ↦ rw hit λ other at h.
                rw
                  (find-update identity has_declared
                    (with_status now (trim repr max_field (some status))) other register.rows
                    (λ row. refl) keyed)
                  (elim (Bool-cases (identity == other)) [
                    | inl same ↦ rw same (
                        updated-SeenSince has_declared _ at (find other register.rows)
                          (λ row seen. (now, refl, past other at h)) (backed other at h))
                    | inr differs ↦ rw differs (backed other at h)
                  ])
            | inr miss ↦ rw miss backed
          ]
