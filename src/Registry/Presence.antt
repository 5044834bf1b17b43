-- ===== src/Registry/Presence.antt =====
-- When an agent was last seen: the register's cache of writes never makes it stale.
use a2a_hub.Prelude.{
  ℕ, ◌+◌, ◌*◌, ◌≤◌, ◌<◌, true, ◌≡◌, inl, inr, refl, ap, Option, none, some, List, [], ◌∷◌, arith,
  Bool-cases, Option-cases, if◌then◌else◌,
}
use a2a_hub.Prelude.Text.{Str, ◌==◌, eq_iff, eq_refl}
use a2a_hub.Registry.{
  Row, Register, written_at, write_at, seen_row, upsert, is_fresh, touch, second,
  touch_interval_seconds,
}

-- the row of an identity
unfoldable pub find : Str → List Row → Option Row
find identity [] = none
find identity (row ∷ rows) = if row.identity == identity then some row else find identity rows

-- what an upsert makes of the row that was there
abbrev pub changed : (Row → Row) → Row → Option Row → Option Row
changed change new none = some new
changed change new (some row) = some (change row)

pub find-upsert :
    (identity : Str) (change : Row → Row) (new : Row) (other : Str) (rows : List Row)
    → new.identity ≡ identity
    → ((row : Row) → (change row).identity ≡ row.identity)
    → find other (upsert identity change new rows)
      ≡ (if identity == other then changed change new (find other rows) else find other rows)
unfolding find upsert
find-upsert identity change new other [] named kept = ground (arith, eq_iff identity other)
find-upsert identity change new other (row ∷ rows) named kept = ground (
  arith,
  find-upsert identity change new other rows named kept,
  kept row,
  eq_iff row.identity identity,
  eq_iff row.identity other,
  eq_iff identity other,
)

pub written_at-write_at :
    (identity : Str) (now : ℕ) (other : Str) (writes : List (Str × ℕ))
    → written_at other (write_at identity now writes)
      ≡ (if identity == other then some now else written_at other writes)
unfolding written_at write_at
written_at-write_at identity now other [] = refl
written_at-write_at identity now other ((known, at) ∷ rest) = ground (
  arith,
  written_at-write_at identity now other rest,
  eq_iff known identity,
  eq_iff known other,
  eq_iff identity other,
)

-- A row was last seen at that instant or later.
abbrev pub SeenSince : ℕ → Option Row → Type 0
SeenSince at none = ⊥
SeenSince at (some row) = (seen : ℕ) × (row.last_seen ≡ some seen) × (at ≤ seen)

-- The cache of writes never runs ahead of the table.
abbrev pub IsBacked : Register → Type 0
IsBacked register =
    (identity : Str) (at : ℕ)
    → written_at identity register.last_write ≡ some at
    → SeenSince at (find identity register.rows)

seen_after :
    (now : ℕ) (identity : Str) (old : Option Row)
    → SeenSince now
        (changed (λ row. record row { last_seen = some now }) (seen_row identity now) old)
seen_after now identity none = (now, refl, omega arith)
seen_after now identity (some row) = (now, refl, omega arith)

-- The identity has a row that was seen less than the interval ago.
abbrev pub IsPresent : ℕ → Option Row → Type 0
IsPresent now none = ⊥
IsPresent now (some row) =
    (seen : ℕ) × (row.last_seen ≡ some seen) × (now < seen + touch_interval_seconds * second)

IsPresent-of_since :
    (now at : ℕ) (row : Option Row)
    → now < at + touch_interval_seconds * second
    → SeenSince at row
    → IsPresent now row
IsPresent-of_since now at none close since = elim since [ ]
IsPresent-of_since now at (some row) close (seen, e, late) = (seen, e, omega arith)

module _ (now : ℕ) (identity : Str) (register : Register) where
  abbrev pub rows_after : List Row
  rows_after =
      upsert identity (λ row. record row { last_seen = some now }) (seen_row identity now)
        register.rows

  pub find-touched :
      (other : Str)
      → find other rows_after ≡ (
          if identity == other
          then changed
              (λ row. record row { last_seen = some now })
              (seen_row identity now)
              (find other register.rows)
          else find other register.rows)
  find-touched other =
      find-upsert identity (λ row. record row { last_seen = some now }) (seen_row identity now)
        other register.rows refl (λ row. refl)

  pub fresh_seen :
      IsBacked register
      → is_fresh now (written_at identity register.last_write) ≡ true
      → IsPresent now (find identity register.rows)
  fresh_seen backed h = elim (Option-cases (written_at identity register.last_write)) [
    | inl unknown ↦ cc (ap (is_fresh now) unknown, h)
    | inr (at, known) ↦ IsPresent-of_since now at _ (ground arith) (backed identity at known)
  ]

  -- If the cache of writes is backed by the table, then after touch the table says that the
  -- identity was seen less than 60 seconds ago, whether the write was made or left out.
  pub touch_seen :
      IsBacked register → IsPresent now (find identity (touch now identity register).rows)
  unfolding touch
  touch_seen backed = elim (Bool-cases (is_fresh now (written_at identity register.last_write))) [
    | inl fresh ↦ rw fresh (fresh_seen backed fresh)
    | inr stale ↦
        rw (stale, find-touched identity, eq_refl identity)
          (IsPresent-of_since now now _ (omega arith)
            (seen_after now identity (find identity register.rows)))
  ]

  -- A touch keeps the cache of writes backed by the table: each row was seen at the cached instant
  -- or later.
  pub touch-IsBacked : IsBacked register → IsBacked (touch now identity register)
  unfolding touch
  touch-IsBacked backed =
      elim (Bool-cases (is_fresh now (written_at identity register.last_write))) [
        | inl fresh ↦ rw fresh backed
        | inr stale ↦ rw stale λ other at h. elim (Bool-cases (identity == other)) [
          | inl same ↦
              let instant : now ≡ at =
                ground (arith, written_at-write_at identity now other register.last_write) in
              rw (find-touched other, same, ← instant)
                (seen_after now identity (find other register.rows))
          | inr differs ↦
              rw (find-touched other, differs)
                (backed other at
                  (ground (arith, written_at-write_at identity now other register.last_write)))
        ]
      ]

  -- A touch of an identity leaves a row that any identity had in place and changes nothing of it
  -- but the instant when it was last seen.
  touch_keeps :
      (other : Str) (row : Row)
      → find other register.rows ≡ some row
      → (row' : Row) × (find other (touch now identity register).rows ≡ some row')
        × (row' ≡ record row { last_seen = row'.last_seen })
  unfolding touch
  touch_keeps other row h =
      elim (Bool-cases (is_fresh now (written_at identity register.last_write))) [
        | inl fresh ↦ (row, rw fresh h, refl)
        | inr stale ↦ elim (Bool-cases (identity == other)) [
          | inl same ↦
              (record row { last_seen = some now }, rw (stale, find-touched other, same, h), refl)
          | inr differs ↦ (row, rw (stale, find-touched other, differs) h, refl)
        ]
      ]
