-- ===== src/Registry.antt =====
-- src/a2a_hub/registry.py: the register of agents. The table `agent_registrations` is the list of its
-- rows, keyed by identity; an instant is a number of microseconds. The column `projects` holds the
-- JSON of a list of texts and stands here as that list.
pub mod Changes
pub mod Presence
pub mod Routes
pub mod Declared
pub mod Keyed
pub mod Accepted
pub mod Listed
pub mod Backed
pub mod Kept
pub mod Warned
pub mod Contract
use a2a_hub.Prelude.{
  ℕ, ◌+◌, ◌*◌, Bool, true, false, not, ◌&&◌, ◌||◌, Option, none, some, List, [], ◌∷◌, ◌++◌, take,
  ltb, keep_if, if◌then◌else◌,
}
use a2a_hub.Prelude.Int.{ℤ, pos, lt_int, trunc_diff}
use a2a_hub.Prelude.Text.{Str, codes, ◌==◌, is_empty, mem, strip}
use a2a_hub.Json.{Json, str, arr, items, Fields, get, truth, text_or_empty}

abbrev pub roles : List Str
roles = codes "manager" ∷ codes "project" ∷ codes "watch" ∷ []

abbrev pub max_field : ℕ
max_field = 200

abbrev pub max_projects : ℕ
max_projects = 20

abbrev pub second : ℕ
second = 1000000

abbrev pub touch_interval_seconds : ℕ
touch_interval_seconds = 60

abbrev pub reuse_window_seconds : ℕ
reuse_window_seconds = 900

abbrev pub manager_window_seconds : ℕ
manager_window_seconds = 3600

pub record Row : Type 0 where
  pub identity : Str
  pub role : Str
  pub host : Str
  pub projects : List Str
  pub status : Str
  pub declared_at : Option ℕ
  pub last_seen : Option ℕ
  pub retired_at : Option ℕ

pub record Declaration : Type 0 where
  pub role : Str
  pub host : Str
  pub projects : List Str
  pub status : Str

pub data Cleaned : Type 0 where
  cleaned : Declaration → Cleaned
  bad_role : Str → Cleaned
  bad_projects : Cleaned

-- `repr` is Python's `repr` of a list or a dict
module _ (repr : Json → Str) where
  -- `_trim`
  unfoldable pub trim : ℕ → Option Json → Str
  trim limit value = take limit (strip (text_or_empty repr value))

  -- `payload.get("projects") or []`, a text as a list of one, `none` for what is no list
  unfoldable pub raw_projects : Option Json → Option (List Json)
  raw_projects none = some []
  raw_projects (some (str s)) = if is_empty s then some [] else some (str s ∷ [])
  raw_projects (some (arr vs)) = some (items vs)
  raw_projects (some v) = if truth v then none else some []

  unfoldable pub trim_projects : List Json → List Str
  trim_projects [] = []
  trim_projects (p ∷ ps) =
      let later = trim_projects ps in
      if is_empty (trim max_field (some p)) then later else trim max_field (some p) ∷ later

  -- from the projects on, the role being a known one
  unfoldable pub clean_projects : Str → Fields → Option (List Json) → Cleaned
  clean_projects role payload none = bad_projects
  clean_projects role payload (some raw) = cleaned (record {
    role = role;
    host = trim max_field (get (codes "host") payload);
    projects = trim_projects (take max_projects raw);
    status = trim max_field (get (codes "status") payload);
  })

  unfoldable pub clean_declaration : Fields → Cleaned
  clean_declaration payload =
      let role = trim 32 (get (codes "role") payload) in
      if not (mem role roles)
      then bad_role role
      else clean_projects role payload (raw_projects (get (codes "projects") payload))

-- The table, and `_last_write` with its keys in insertion order.
pub record Register : Type 0 where
  pub rows : List Row
  pub last_write : List (Str × ℕ)

unfoldable pub written_at : Str → List (Str × ℕ) → Option ℕ
written_at identity [] = none
written_at identity ((known, at) ∷ rest) =
    if known == identity then some at else written_at identity rest

unfoldable pub write_at : Str → ℕ → List (Str × ℕ) → List (Str × ℕ)
write_at identity now [] = (identity, now) ∷ []
write_at identity now ((known, at) ∷ rest) =
    let later = write_at identity now rest in
    if known == identity then (known, now) ∷ rest else (known, at) ∷ later

-- a row that `touch` inserts, with the defaults of the table
abbrev pub seen_row : Str → ℕ → Row
seen_row identity now = record {
  identity = identity;
  role = [];
  host = [];
  projects = [];
  status = [];
  declared_at = none;
  last_seen = some now;
  retired_at = none;
}

-- `INSERT ... ON CONFLICT (identity) DO UPDATE`: the row of the identity is changed, or inserted
unfoldable pub upsert : Str → (Row → Row) → Row → List Row → List Row
upsert identity change new [] = new ∷ []
upsert identity change new (row ∷ rows) =
    let later = upsert identity change new rows in
    if row.identity == identity then change row ∷ rows else row ∷ later

abbrev pub is_fresh : ℕ → Option ℕ → Bool
is_fresh now none = false
is_fresh now (some written) = ltb now (written + touch_interval_seconds * second)

unfoldable pub touch : ℕ → Str → Register → Register
touch now identity register =
    if is_fresh now (written_at identity register.last_write) then register else record {
      rows =
          upsert identity (λ row. record row { last_seen = some now }) (seen_row identity now)
            register.rows;
      last_write = write_at identity now register.last_write;
    }

-- `_age_seconds`
abbrev pub age_seconds : Option ℕ → ℕ → Option ℤ
age_seconds none now = none
age_seconds (some at) now = some (trunc_diff second now at)

-- `age is not None and age < window`
abbrev pub is_within : ℕ → Option ℤ → Bool
is_within window none = false
is_within window (some age) = lt_int age (pos window)

abbrev pub is_current : Row → Bool
is_current row = elim row.retired_at [ none ↦ true | some at ↦ false ]

abbrev pub same_texts : List Str → List Str → Bool
same_texts [] [] = true
same_texts [] (t ∷ ts) = false
same_texts (s ∷ ss) [] = false
same_texts (s ∷ ss) (t ∷ ts) = (s == t) && same_texts ss ts

pub data Suspicion : Type 0 where
  shared_session : (age : Option ℤ) (role : Str) (projects : List Str) → Suspicion
  other_manager : (identity : Str) (age : Option ℤ) → Suspicion

abbrev pub is_changed : Row → Declaration → Bool
is_changed row declaration =
    not (row.role == declaration.role) || not (same_texts row.projects declaration.projects)

-- what one row adds to the warnings
unfoldable pub warnings_of : Str → Declaration → ℕ → Row → List Suspicion
warnings_of identity declaration now row =
    let declared_age = age_seconds row.declared_at now in
    let seen_age = age_seconds row.last_seen now in
    if row.identity == identity
    then (if is_changed row declaration && is_within reuse_window_seconds declared_age
        then shared_session declared_age row.role row.projects ∷ []
        else [])
    else if (declaration.role == codes "manager")
        && (row.role == codes "manager")
        && is_within manager_window_seconds seen_age
    then other_manager row.identity seen_age ∷ []
    else []

-- the loop of `_warnings_for`, over the rows that are not retired
unfoldable pub warnings_for : Str → Declaration → ℕ → List Row → List Suspicion
warnings_for identity declaration now [] = []
warnings_for identity declaration now (row ∷ rows) =
    let later = warnings_for identity declaration now rows in
    if is_current row then warnings_of identity declaration now row ++ later else later

abbrev pub declared_row : Str → Declaration → ℕ → Row
declared_row identity declaration now = record {
  identity = identity;
  role = declaration.role;
  host = declaration.host;
  projects = declaration.projects;
  status = declaration.status;
  declared_at = some now;
  last_seen = some now;
  retired_at = none;
}

unfoldable pub declare : ℕ → Str → Declaration → Register → List Suspicion × Register
declare now identity declaration register = (
  warnings_for identity declaration now register.rows,
  record register {
    rows =
        upsert identity (λ row. declared_row row.identity declaration now)
          (declared_row identity declaration now) register.rows;
  },
)
