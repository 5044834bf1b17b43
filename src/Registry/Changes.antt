-- ===== src/Registry/Changes.antt =====
-- src/a2a_hub/registry.py: `retire`, `update_status` and `list_agents`.
use a2a_hub.Prelude.{
  ℕ, Bool, true, false, not, ◌&&◌, ◌||◌, Option, none, some, List, [], ◌∷◌, if◌then◌else◌,
}
use a2a_hub.Prelude.Int.{ℤ, lt_int}
use a2a_hub.Prelude.Text.{Str, ◌==◌, is_empty}
use a2a_hub.Json.{Json}
use a2a_hub.Registry.{Row, Register, trim, max_field, age_seconds, is_current}

-- `UPDATE ... WHERE identity = ? AND p`
unfoldable pub update : Str → (Row → Bool) → (Row → Row) → List Row → List Row
update identity p change [] = []
update identity p change (row ∷ rows) =
    let later = update identity p change rows in
    if (row.identity == identity) && p row then change row ∷ later else row ∷ later

-- `rowcount > 0` of that statement
unfoldable pub hits : Str → (Row → Bool) → List Row → Bool
hits identity p [] = false
hits identity p (row ∷ rows) =
    let later = hits identity p rows in if (row.identity == identity) && p row then true else later

unfoldable pub retire : ℕ → Str → Register → Bool × Register
retire now identity register = (
  hits identity is_current register.rows,
  record register {
    rows = update identity is_current (λ row. record row { retired_at = some now }) register.rows;
  },
)

-- `declared_at IS NOT NULL`
abbrev pub has_declared : Row → Bool
has_declared row = elim row.declared_at [ none ↦ false | some at ↦ true ]

abbrev pub with_status : ℕ → Str → Row → Row
with_status now text row = record row {
  status = text;
  declared_at = some now;
  last_seen = some now;
}

-- `none` is `NotRegisteredError`, with which the transaction is rolled back
unfoldable pub update_status : (Json → Str) → ℕ → Str → Json → Register → Option Str × Register
update_status repr now identity status register =
    let text = trim repr max_field (some status) in
    if hits identity has_declared register.rows
    then (
      some text,
      record register { rows = update identity has_declared (with_status now text) register.rows },
    )
    else (none, register)

-- One entry of the listing; `none` is JSON's null.
pub record Agent : Type 0 where
  pub identity : Str
  pub role : Option Str
  pub host : Option Str
  pub projects : List Str
  pub status : Option Str
  pub declared : Bool
  pub declared_at : Option ℕ
  pub last_seen : Option ℕ
  pub last_seen_seconds : Option ℤ
  pub retired_at : Option ℕ

-- `s or None`
abbrev pub text_or_none : Str → Option Str
text_or_none s = if is_empty s then none else some s

abbrev pub agent_of : ℕ → Row → Agent
agent_of now row = record {
  identity = row.identity;
  role = text_or_none row.role;
  host = text_or_none row.host;
  projects = row.projects;
  status = text_or_none row.status;
  declared = has_declared row;
  declared_at = row.declared_at;
  last_seen = row.last_seen;
  last_seen_seconds = age_seconds row.last_seen now;
  retired_at = row.retired_at;
}

-- `quiet_for is not None and age is not None and age < quiet_for`
abbrev pub is_active : Option ℤ → Option ℤ → Bool
is_active none age = false
is_active (some quiet_for) none = false
is_active (some quiet_for) (some age) = lt_int age quiet_for

-- the rows that the listing's query and its loop keep
abbrev pub is_listed : ℕ → Bool → Option ℤ → Row → Bool
is_listed now include_retired quiet_for row =
    (include_retired || is_current row) && not (is_active quiet_for (age_seconds row.last_seen now))

-- the query's condition
unfoldable pub selected : Bool → List Row → List Row
selected include_retired [] = []
selected include_retired (row ∷ rows) =
    let later = selected include_retired rows in
    if include_retired || is_current row then row ∷ later else later

-- the loop
unfoldable pub listed : ℕ → Option ℤ → List Row → List Agent
listed now quiet_for [] = []
listed now quiet_for (row ∷ rows) =
    let later = listed now quiet_for rows in
    if is_active quiet_for (age_seconds row.last_seen now) then later else agent_of now row ∷ later

-- `recent_first` is `ORDER BY last_seen DESC`
unfoldable pub list_agents : (List Row → List Row) → ℕ → Bool → Option ℤ → Register → List Agent
list_agents recent_first now include_retired quiet_for register =
    listed now quiet_for (recent_first (selected include_retired register.rows))
