-- ===== src/Registry/Contract/Steps.antt =====
-- Each operation of src/a2a_hub/registry.py is one that the contract allows.
use mathlib.Core.Path.{fun_ext}
use a2a_hub.Prelude.{
  ℕ, ◌≡◌, inl, inr, refl, sym, ap, subst, ◌∙◌, Bool, true, false, Option, none, some, arith,
  Bool-cases, Option-cases, if◌then◌else◌,
}
use a2a_hub.Prelude.Text.{Str, ◌==◌, eq_iff}
use a2a_hub.Json.{Json}
use a2a_hub.Registry.{
  Row, Register, Declaration, seen_row, touch, is_fresh, written_at, is_current, trim, max_field,
  declare,
}
use a2a_hub.Registry.Changes.{retire, update_status, has_declared, with_status}
use a2a_hub.Registry.Presence.{find, changed, IsBacked, fresh_seen, find-touched, rows_after}
use a2a_hub.Registry.Declared.{
  IsKeyed, passes, updated, updated_idle, find-declare, retire_lem, update_status_lem,
}
use a2a_hub.Registry.Contract.{
  Change, done, touching, retiring, declaring, reporting, Answer, was_retired, reported, Entries,
  with_entry, seen_entry, IsGone, IsUndeclared, Allows, touch_written, touch_left_out, declared,
  retired, gone, told, undeclared,
}

-- the contract's view of a register
abbrev pub entries_of : Register → Entries
entries_of register other = find other register.rows

Allows-to :
    (repr : Json → Str) (before : Entries) (change : Change) (answer : Answer)
    (after after' : Entries)
    → ((other : Str) → after other ≡ after' other)
    → Allows repr before change answer after
    → Allows repr before change answer after'
Allows-to repr before change answer after after' same =
    subst (λ e. Allows repr before change answer e) (fun_ext same)

changed-seen :
    (now : ℕ) (identity : Str) (old : Option Row)
    → changed (λ row. record row { last_seen = some now }) (seen_row identity now) old
      ≡ some (seen_entry now identity old)
changed-seen now identity none = refl
changed-seen now identity (some row) = refl

-- what an update of the entry of an identity makes of the entries
abbrev revised : Str → (Row → Bool) → (Row → Row) → Entries → Entries
revised identity p change before other =
    if identity == other then updated p change (before other) else before other

abbrev still_here : Option ℕ → Bool
still_here at = elim at [ none ↦ true | some instant ↦ false ]

abbrev is_some : Option ℕ → Bool
is_some at = elim at [ none ↦ false | some instant ↦ true ]

entry_same :
    (identity other : Str) (before : Entries)
    → identity == other ≡ true
    → before other ≡ before identity
entry_same identity other before same = ap before (sym ((eq_iff identity other).0 same))

revised_hit :
    (identity : Str) (p : Row → Bool) (change : Row → Row) (before : Entries) (row : Row)
    → before identity ≡ some row
    → p row ≡ true
    → (other : Str)
    → with_entry identity (change row) before other ≡ revised identity p change before other
revised_hit identity p change before row h hit other = elim (Bool-cases (identity == other)) [
  | inl same ↦ rw (same, entry_same identity other before same, h, hit) refl
  | inr differs ↦ rw differs refl
]

revised_missed :
    (identity : Str) (p : Row → Bool) (change : Row → Row) (before : Entries)
    → passes p (before identity) ≡ false
    → (other : Str) → before other ≡ revised identity p change before other
revised_missed identity p change before miss other = elim (Bool-cases (identity == other)) [
  | inl same ↦
      rw (same, entry_same identity other before same)
        (sym (updated_idle p change (before identity) miss))
  | inr differs ↦ rw differs refl
]

module _ (repr : Json → Str) (now : ℕ) (identity : Str) (before after : Entries) where
  abbrev IsAfter : (Row → Bool) → (Row → Row) → Type 0
  IsAfter p change = (other : Str) → after other ≡ revised identity p change before other

  refused-Allows :
      (p : Row → Bool) (change : Row → Row) (kind : Change) (answer : Answer)
      → passes p (before identity) ≡ false
      → IsAfter p change
      → Allows repr before kind answer before
      → Allows repr before kind answer after
  refused-Allows p change kind answer miss law =
      Allows-to repr before kind answer before after
        λ other. revised_missed identity p change before miss other ∙ sym (law other)

  accepted-Allows :
      (p : Row → Bool) (change : Row → Row) (kind : Change) (answer : Answer) (row : Row)
      → before identity ≡ some row
      → p row ≡ true
      → IsAfter p change
      → Allows repr before kind answer (with_entry identity (change row) before)
      → Allows repr before kind answer after
  accepted-Allows p change kind answer row h hit law =
      Allows-to repr before kind answer (with_entry identity (change row) before) after
        λ other. revised_hit identity p change before row h hit other ∙ sym (law other)

  retired-Allows :
      (old : Option Row) (answer : Bool)
      → before identity ≡ old
      → answer ≡ passes is_current old
      → IsAfter is_current (λ row. record row { retired_at = some now })
      → Allows repr before (retiring now identity) (was_retired answer) after
  retired-Allows none answer h said law = rw said (
      refused-Allows is_current _ _ _ (ap (passes is_current) h) law
        (gone now identity (subst IsGone (sym h) tt)))
  retired-Allows (some row) answer h said law = elim (Option-cases row.retired_at) [
    | inl current ↦
        let hit : is_current row ≡ true = ap still_here current in
        rw (said, hit)
          (accepted-Allows is_current _ _ _ row h hit law (retired now identity row h current))
    | inr (at, e) ↦
        let miss : is_current row ≡ false = ap still_here e in
        rw (said, miss)
          (refused-Allows is_current _ _ _ (ap (passes is_current) h ∙ miss) law
            (gone now identity (subst IsGone (sym h) (at, e))))
  ]

  reported-Allows :
      (status : Json) (old : Option Row) (answer : Option Str)
      → before identity ≡ old
      → answer
        ≡ (if passes has_declared old then some (trim repr max_field (some status)) else none)
      → IsAfter has_declared (with_status now (trim repr max_field (some status)))
      → Allows repr before (reporting now identity status) (reported answer) after
  reported-Allows status none answer h said law = rw said (
      refused-Allows has_declared _ _ _ (ap (passes has_declared) h) law
        (undeclared now identity status (subst IsUndeclared (sym h) tt)))
  reported-Allows status (some row) answer h said law = elim (Option-cases row.declared_at) [
    | inl never ↦
        let miss : has_declared row ≡ false = ap is_some never in
        rw (said, miss)
          (refused-Allows has_declared _ _ _ (ap (passes has_declared) h ∙ miss) law
            (undeclared now identity status (subst IsUndeclared (sym h) never)))
    | inr (at, e) ↦
        let hit : has_declared row ≡ true = ap is_some e in
        rw (said, hit)
          (accepted-Allows has_declared _ _ _ row h hit law (told now identity status row at h e))
  ]

module _ (repr : Json → Str) (now : ℕ) (identity : Str) (register : Register) where
  pub touch-Allows :
      IsBacked register
      → Allows repr
          (entries_of register)
          (touching now identity)
          done
          (entries_of (touch now identity register))
  unfolding touch
  touch-Allows backed = elim (Bool-cases (is_fresh now (written_at identity register.last_write))) [
    | inl fresh ↦
        rw fresh (touch_left_out now identity (fresh_seen now identity register backed fresh))
    | inr stale ↦
        rw stale
          (Allows-to repr _ _ _ _ _ (λ other. touched_entry other) (touch_written now identity))
  ]
    where
      touched_entry :
          (other : Str)
          → with_entry identity
              (seen_entry now identity (find identity register.rows))
              (entries_of register)
              other
            ≡ find other (rows_after now identity register)
      touched_entry other = ground (
        arith,
        eq_iff identity other,
        find-touched now identity register other,
        changed-seen now identity (find other register.rows),
      )

  pub declare-Allows :
      (declaration : Declaration)
      → Allows repr
          (entries_of register)
          (declaring now identity declaration)
          done
          (entries_of (declare now identity declaration register).1)
  declare-Allows declaration =
      Allows-to repr _ _ _ _ _ (λ other. sym (find-declare now identity declaration register other))
        (declared now identity declaration)

  module _ (keyed : IsKeyed register.rows) where
    pub retire-Allows :
        Allows repr
          (entries_of register)
          (retiring now identity)
          (was_retired (retire now identity register).0)
          (entries_of (retire now identity register).1)
    retire-Allows =
        retired-Allows repr now identity (entries_of register) _ (find identity register.rows) _
          refl (retire_lem now identity register keyed identity).0
          (λ other. (retire_lem now identity register keyed other).1)

    pub update_status-Allows :
        (status : Json)
        → Allows repr
            (entries_of register)
            (reporting now identity status)
            (reported (update_status repr now identity status register).0)
            (entries_of (update_status repr now identity status register).1)
    update_status-Allows status =
        let law = update_status_lem now identity register keyed repr status in
        reported-Allows repr now identity (entries_of register) _ status
          (find identity register.rows) _ refl (law identity).0 (λ other. (law other).1)
