-- ===== src/Examples/Lines.antt =====
-- The line of an agent that declared itself seven hours before it was last seen.
use a2a_hub.Prelude.{ℕ, ◌≡◌, refl, Option, none, some, [], ◌∷◌}
use a2a_hub.Prelude.Int.{ℤ, trunc_diff}
use a2a_hub.Prelude.Text.{Str, codes}
use a2a_hub.Registry.{Row, second}
use a2a_hub.Registry.Changes.{agent_of}
use a2a_hub.Registry.Routes.{agent_json}
use a2a_hub.Client.Effect.{ok}
use a2a_hub.Client.Agents.{AgentLine, read_agent}
use a2a_hub.Client.Agents.Flags.{IsClock, IsLineOf, read_agent_lem}

-- an instant as one code point
abbrev iso : ℕ → Str
iso at = at ∷ []

abbrev between : Str → Str → Option ℤ
between (a ∷ []) (b ∷ []) = some (trunc_diff second a b)
between _ _ = none

clock : IsClock iso between
clock = record { shown = λ at. refl; apart = λ a b. refl }

abbrev quiet_row : Row
quiet_row = record {
  identity = codes "ana/s1";
  role = codes "project";
  host = codes "ns1";
  projects = codes "hub" ∷ [];
  status = codes "tick";
  declared_at = some 1000000;
  last_seen = some 25201000000;
  retired_at = none;
}

read_agent_lem_example :
    (line : AgentLine) × (read_agent between (agent_json iso (agent_of 30000000000 quiet_row))
      ≡ ok line)
    × IsLineOf 30000000000 quiet_row line
read_agent_lem_example = read_agent_lem iso between clock 30000000000 quiet_row
