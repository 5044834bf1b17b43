-- ===== src/Client/Agents/Flags.antt =====
-- What the client's listing says of a row of the hub's register.
use a2a_hub.Prelude.{ℕ, ◌≡◌, refl, Bool, not, true, false, Option, none, some, List, if◌then◌else◌}
use a2a_hub.Prelude.Int.{ℤ, lt_int, add_negate, trunc_diff}
use a2a_hub.Prelude.Text.{Str, is_empty, ◌==◌}
use a2a_hub.Json.{get}
use a2a_hub.Registry.{Row, second, age_seconds, is_current}
use a2a_hub.Registry.Changes.{agent_of, has_declared}
use a2a_hub.Registry.Routes.{agent_json}
use a2a_hub.Client.Effect.{ok}
use a2a_hub.Client.Agents.{
  AgentLine, undeclared_line, declared_line, read_agent, status_age, status_is_older, is_silent,
  silent_after, status_stale_after,
}

-- `between` reads what `iso` prints.
pub record IsClock (iso : ℕ → Str) (between : Str → Str → Option ℤ) : Type 0 where
  pub shown : (at : ℕ) → is_empty (iso at) ≡ false
  pub apart : (a b : ℕ) → between (iso a) (iso b) ≡ some (trunc_diff second a b)

abbrev pub is_some : Option Str → Bool
is_some none = false
is_some (some text) = true

-- more than an hour since the row was seen
abbrev pub is_quiet : ℕ → Option ℕ → Bool
is_quiet now none = false
is_quiet now (some at) = lt_int silent_after (trunc_diff second now at)

-- seen more than six hours after it said what it says
abbrev pub is_outdated : Option ℕ → Option ℕ → Bool
is_outdated (some declared) (some at) = lt_int status_stale_after (trunc_diff second at declared)
is_outdated _ _ = false

-- The line of a row: of one that is declared, how long ago it was seen, whether that is long, whether
-- it is retired, and whether what it says is old.
abbrev pub IsLineOf : ℕ → Row → AgentLine → Type 0
IsLineOf now row (undeclared_line seen) =
    (has_declared row ≡ false) × (seen ≡ age_seconds row.last_seen now)
IsLineOf now row (declared_line seen silent withdrawn stale) =
    (has_declared row ≡ true)
    × (seen ≡ age_seconds row.last_seen now)
    × (silent ≡ is_quiet now row.last_seen)
    × (withdrawn ≡ not (is_current row))
    × (is_some stale ≡ is_outdated row.declared_at row.last_seen)

is_some_if : (b : Bool) (text : Str) → is_some (if b then some text else none) ≡ b
is_some_if true text = refl
is_some_if false text = refl

module _ (iso : ℕ → Str) (between : Str → Str → Option ℤ) (clock : IsClock iso between) (now : ℕ)
    (identity role host : Str) (projects : List Str) (status : Str) where
  abbrev row_of : (declared_at last_seen retired_at : Option ℕ) → Row
  row_of declared_at last_seen retired_at = record {
    identity = identity;
    role = role;
    host = host;
    projects = projects;
    status = status;
    declared_at = declared_at;
    last_seen = last_seen;
    retired_at = retired_at;
  }

  row_line :
      (d l r : Option ℕ)
      → (line : AgentLine) × (read_agent between (agent_json iso (agent_of now (row_of d l r)))
          ≡ ok line)
        × IsLineOf now (row_of d l r) line
  unfolding read_agent get ◌==◌ status_age status_is_older is_silent
  row_line none none r = (undeclared_line none, refl, (refl, refl))
  row_line none (some l) r = (undeclared_line (some (trunc_diff second now l)), refl, (refl, refl))
  row_line (some d) none none =
      rw (clock.shown d) (declared_line none false false none, refl, (refl, refl, refl, refl, refl))
  row_line (some d) none (some r) =
      rw (clock.shown d, clock.shown r)
        (declared_line none false true none, refl, (refl, refl, refl, refl, refl))
  row_line (some d) (some l) none =
      rw (clock.shown d, clock.shown l, clock.apart l d, add_negate)
        (_, refl, (refl, refl, refl, refl, is_some_if _ _))
  row_line (some d) (some l) (some r) =
      rw (clock.shown d, clock.shown l, clock.apart l d, clock.shown r, add_negate)
        (_, refl, (refl, refl, refl, refl, is_some_if _ _))

module _ (iso : ℕ → Str) (between : Str → Str → Option ℤ) (clock : IsClock iso between)
    (now : ℕ) where
  -- If the client reads the instants that the hub prints, the line for a row of the register shows
  -- its age, that it is silent exactly if it was seen more than an hour ago, that it is retired
  -- exactly if it is, and that its words are old exactly if it was last seen more than six hours
  -- after them; for a row that is not declared it shows the age alone.
  pub read_agent_lem :
      (row : Row)
      → (line : AgentLine) × (read_agent between (agent_json iso (agent_of now row)) ≡ ok line)
        × IsLineOf now row line
  read_agent_lem row =
      row_line iso between clock now row.identity row.role row.host row.projects row.status
        row.declared_at row.last_seen row.retired_at
