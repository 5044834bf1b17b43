-- ===== src/Examples/Warned.antt =====
-- A manager declares itself as a project, beside another manager.
use a2a_hub.Prelude.{◌≡◌, refl, some, none, [], ◌∷◌, any, keep_if}
use a2a_hub.Prelude.Text.{codes, ◌==◌}
use a2a_hub.Registry.{Row, Declaration, Register, declare, warnings_for, warnings_of}
use a2a_hub.Registry.Presence.{find}
use a2a_hub.Registry.Declared.{IsKeyed}
use a2a_hub.Registry.Warned.{
  is_shared, managers, identities, is_taken_over, is_rival, declare_warnings,
}

abbrev manager_row : Row
manager_row = record {
  identity = codes "ana/s1";
  role = codes "manager";
  host = [];
  projects = codes "hub" ∷ [];
  status = [];
  declared_at = some 5;
  last_seen = some 5;
  retired_at = none;
}

abbrev two_managers : Register
two_managers = record {
  rows = manager_row ∷ record manager_row { identity = codes "bob/s2" } ∷ [];
  last_write = [];
}

keyed : IsKeyed two_managers.rows
unfolding find ◌==◌
keyed = (refl, (refl, tt))

abbrev moved : Declaration
moved = record { role = codes "manager"; host = []; projects = codes "docs" ∷ []; status = [] }

declare_warnings_example :
    (any is_shared (declare 9 (codes "ana/s1") moved two_managers).0
      ≡ is_taken_over (codes "ana/s1") moved 9 (find (codes "ana/s1") two_managers.rows))
    × (managers (declare 9 (codes "ana/s1") moved two_managers).0
        ≡ identities (keep_if (is_rival (codes "ana/s1") moved 9) two_managers.rows))
declare_warnings_example = declare_warnings (codes "ana/s1") moved 9 two_managers keyed

named_test : managers (declare 9 (codes "ana/s1") moved two_managers).0 ≡ codes "bob/s2" ∷ []
unfolding declare warnings_for warnings_of ◌==◌
named_test = refl
