-- ===== src/Registry/Contract.antt =====
-- The contract of src/a2a_hub/registry.py beside its code: the register as a client may think of it,
-- one entry for each identity and no table, no order of rows and no cache of writes.
pub mod Steps
pub mod Met
use a2a_hub.Prelude.{
  ℕ, ◌≤◌, ◌≡◌, ◌⊎◌, Bool, true, false, Option, none, some, List, [], ◌∷◌, if◌then◌else◌,
}
use a2a_hub.Prelude.Text.{Str, ◌==◌}
use a2a_hub.Json.{Json}
use a2a_hub.Registry.{
  Row, Register, Declaration, Suspicion, declared_row, seen_row, trim, max_field, touch, declare,
}
use a2a_hub.Registry.Changes.{retire, update_status, with_status}
use a2a_hub.Registry.Presence.{changed, IsPresent}

-- What happens to a register. After `restarting`, a new process stands on the same table.
pub data Change : Type 0 where
  touching retiring : (now : ℕ) (identity : Str) → Change
  declaring : (now : ℕ) (identity : Str) → Declaration → Change
  reporting : (now : ℕ) (identity : Str) → Json → Change
  restarting : Change

-- what the caller learns; a declaration's warnings are left out
pub data Answer : Type 0 where
  done : Answer
  was_retired : Bool → Answer
  reported : Option Str → Answer

-- the instant of the latest change
abbrev pub clock_after : ℕ → Change → ℕ
clock_after clock (touching now identity) = now
clock_after clock (retiring now identity) = now
clock_after clock (declaring now identity declaration) = now
clock_after clock (reporting now identity status) = now
clock_after clock restarting = clock

-- no change is earlier than the one before
abbrev pub IsOrdered : ℕ → List Change → Type 0
IsOrdered clock [] = Unit
IsOrdered clock (change ∷ changes) =
    (clock ≤ clock_after clock change) × IsOrdered (clock_after clock change) changes

-- `AgentRegistry.__init__`, over a table
unfoldable pub new_register : List Row → Register
new_register rows = record { rows = rows; last_write = [] }

module _ (repr : Json → Str) where
  unfoldable pub perform : Change → Register → Answer × Register
  perform (touching now identity) register = (done, touch now identity register)
  perform (retiring now identity) register =
      let result = retire now identity register in (was_retired result.0, result.1)
  perform (declaring now identity declaration) register =
      (done, (declare now identity declaration register).1)
  perform (reporting now identity status) register =
      let result = update_status repr now identity status register in (reported result.0, result.1)
  perform restarting register = (done, new_register register.rows)

  unfoldable pub perform_all : List Change → Register → List Answer × Register
  perform_all [] register = ([], register)
  perform_all (change ∷ changes) register =
      let first = perform change register in
      let later = perform_all changes first.1 in (first.0 ∷ later.0, later.1)

-- the entry of each identity
abbrev pub Entries : Type 0
Entries = Str → Option Row

abbrev pub with_entry : Str → Row → Entries → Entries
with_entry identity row entries other = if identity == other then some row else entries other

-- the entry of an identity that is seen
abbrev pub seen_entry : ℕ → Str → Option Row → Row
seen_entry now identity none = seen_row identity now
seen_entry now identity (some row) = record row { last_seen = some now }

-- The entry is missing or retired.
abbrev pub IsGone : Option Row → Type 0
IsGone none = Unit
IsGone (some row) = (at : ℕ) × (row.retired_at ≡ some at)

-- The identity has not declared itself.
abbrev pub IsUndeclared : Option Row → Type 0
IsUndeclared none = Unit
IsUndeclared (some row) = row.declared_at ≡ none

-- The entries before a change, its answer and the entries after it.
pub data Allows (repr : Json → Str) (before : Entries) : Change → Answer → Entries → Type 0 where
  touch_written :
      (now : ℕ) (identity : Str)
      → Allows repr before
          (touching now identity)
          done
          (with_entry identity (seen_entry now identity (before identity)) before)
  touch_left_out :
      (now : ℕ) (identity : Str)
      → IsPresent now (before identity)
      → Allows repr before (touching now identity) done before
  declared :
      (now : ℕ) (identity : Str) (declaration : Declaration)
      → Allows repr before
          (declaring now identity declaration)
          done
          (with_entry identity (declared_row identity declaration now) before)
  retired :
      (now : ℕ) (identity : Str) (row : Row)
      → before identity ≡ some row
      → row.retired_at ≡ none
      → Allows repr before
          (retiring now identity)
          (was_retired true)
          (with_entry identity (record row { retired_at = some now }) before)
  gone :
      (now : ℕ) (identity : Str)
      → IsGone (before identity)
      → Allows repr before (retiring now identity) (was_retired false) before
  told :
      (now : ℕ) (identity : Str) (status : Json) (row : Row) (at : ℕ)
      → before identity ≡ some row
      → row.declared_at ≡ some at
      → Allows repr before
          (reporting now identity status)
          (reported (some (trim repr max_field (some status))))
          (with_entry identity (with_status now (trim repr max_field (some status)) row) before)
  undeclared :
      (now : ℕ) (identity : Str) (status : Json)
      → IsUndeclared (before identity)
      → Allows repr before (reporting now identity status) (reported none) before
  restarted : Allows repr before restarting done before

-- the changes one after another
pub data AllowsAll (repr : Json → Str)
    : Entries → List Change → List Answer → Entries → Type 0 where
  end : {entries : Entries} → AllowsAll repr entries [] [] entries
  next :
      {before between after : Entries} {change : Change} {answer : Answer} {changes : List Change}
      {answers : List Answer}
      → Allows repr before change answer between
      → AllowsAll repr between changes answers after
      → AllowsAll repr before (change ∷ changes) (answer ∷ answers) after
