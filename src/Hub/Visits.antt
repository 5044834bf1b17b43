-- ===== src/Hub/Visits.antt =====
-- The requests that a hub of src/a2a_hub/app.py has had.
use a2a_hub.Prelude.{ℕ, Option, Some, List, [], ◌∷◌}
use a2a_hub.Prelude.Text.{Str}
use a2a_hub.Auth.Refusal.{Scope}
use a2a_hub.Auth.Gate.{Proves}
use a2a_hub.Store.{Sdk}
use a2a_hub.Hub.{App, Request, Services, guard}

-- A request, with its instant and the message store at that instant.
pub record Visit : Type 0 where
  pub now : ℕ
  pub header : Str → Option Str
  pub scope : Scope
  pub request : Request
  pub sdk : Sdk

abbrev pub visit : ℕ → (Str → Option Str) → Scope → Request → Sdk → Visit
visit now header scope request sdk = record {
  now = now;
  header = header;
  scope = scope;
  request = request;
  sdk = sdk;
}

-- the instant of the latest of the visits
abbrev pub clock_of : List Visit → ℕ
clock_of [] = 0
clock_of (visit ∷ history) = visit.now

-- One of these visits proved the identity.
abbrev pub HasProved : Services → App → List Visit → Str → Type 0
HasProved services app history identity =
    Some (λ visit. Proves (guard services app visit.now) visit.header identity) history
