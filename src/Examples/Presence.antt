-- ===== src/Examples/Presence.antt =====
-- The register with one agent that declares itself and is seen again.
use mathlib.Core.List.{Perm}
use mathlib.Core.List.Perm
use a2a_hub.Prelude.{◌⊎◌, ◌≡◌, ◌≢◌, refl, inl, inr, Bool-cases, some, [], ◌∷◌, arith}
use a2a_hub.Prelude.Text.{Str, codes, ◌==◌, mem, strip, lstrip, rstrip, is_space}
use a2a_hub.Json.{Json, str, obj, arr, array, dict, Fields, get, text_or_empty}
use a2a_hub.Marks.Routes.{Loaded, loaded}
use a2a_hub.Registry.{
  Row, Register, Declaration, Cleaned, cleaned, trim, raw_projects, trim_projects, clean_projects,
  clean_declaration, written_at, touch, Suspicion, seen_row,
}
use a2a_hub.Registry.Changes.{hits, retire, update_status}
use a2a_hub.Prelude.{map, keep_if, false}
use a2a_hub.Prelude.Int.{pos}
use a2a_hub.Registry.Changes.{agent_of, list_agents}
use a2a_hub.Registry.Listed.{is_wanted, list_agents_exact}
use a2a_hub.Registry.Presence.{find, IsBacked, IsPresent, touch_seen}
use a2a_hub.Registry.Declared.{IsKeyed}
use a2a_hub.Registry.Accepted.{IsBounded, clean_declaration_sound}
use a2a_hub.Registry.Routes.{
  register_route, store_declaration, status_route, store_status, retire_route,
}
use a2a_hub.Registry.Routes.Refused.{refused_routes_keep}

abbrev no_repr : Json → Str
no_repr v = []

abbrev no_words : Cleaned → Str
no_words c = []

abbrev no_warning : Suspicion → Str
no_warning s = []

abbrev asked : Fields
asked = dict (
    (codes "role", str (codes " manager "))
    ∷ (codes "projects", arr (array (str (codes "hub") ∷ str (codes " ") ∷ [])))
    ∷ [])

abbrev manager : Declaration
manager = record { role = codes "manager"; host = []; projects = codes "hub" ∷ []; status = [] }

abbrev ana : Str
ana = codes "ana/s1"

abbrev ana_row : Row
ana_row = seen_row ana 5

abbrev seen_once : Register
seen_once = record { rows = ana_row ∷ []; last_write = (ana, 5) ∷ [] }

backed : IsBacked seen_once
unfolding written_at find
backed identity at h = elim (Bool-cases (ana == identity)) [
  | inl same ↦ rw same (5, refl, ground arith)
  | inr other ↦ absurd (ground arith)
]

keyed : IsKeyed seen_once.rows
unfolding find
keyed = (refl, tt)

touch_seen_example : IsPresent 70000000 (find ana (touch 70000000 ana seen_once).rows)
touch_seen_example = touch_seen 70000000 ana seen_once backed

find_test : find ana seen_once.rows ≡ some ana_row
unfolding find ◌==◌
find_test = refl

clean_declaration_test : clean_declaration no_repr asked ≡ cleaned manager
unfolding clean_declaration clean_projects raw_projects trim_projects trim text_or_empty get ◌==◌
    mem strip lstrip rstrip is_space
clean_declaration_test = refl

clean_declaration_sound_example : IsBounded manager
clean_declaration_sound_example =
    clean_declaration_sound no_repr asked manager clean_declaration_test

register_test :
    (register_route no_repr no_words no_warning 9 ana (loaded (obj asked)) seen_once).0.status_code
    ≡ 200
unfolding register_route store_declaration clean_declaration clean_projects raw_projects
    trim_projects trim text_or_empty get ◌==◌ mem strip lstrip rstrip is_space
register_test = refl

abbrev no_role : Loaded
no_role = loaded (obj (dict []))

no_role_test :
    (register_route no_repr no_words no_warning 9 ana no_role seen_once).0.status_code ≢ 200
unfolding register_route store_declaration clean_declaration trim text_or_empty get ◌==◌ mem strip
    lstrip rstrip
no_role_test h = omega (arith, h)

abbrev busy : Loaded
busy = loaded (obj (dict ((codes "status", str (codes "busy")) ∷ [])))

undeclared_test : (status_route no_repr 9 ana busy seen_once).0.status_code ≢ 200
unfolding status_route store_status update_status hits get ◌==◌
undeclared_test h = omega (arith, h)

unknown_test : (retire_route 9 (codes "bob/s1") seen_once).0.status_code ≢ 200
unfolding retire_route retire hits ◌==◌
unknown_test h = omega (arith, h)

list_agents_exact_example :
    Perm
      (list_agents (λ rows. rows) 90000000 false (some (pos 60)) seen_once)
      (map (agent_of 90000000) (keep_if (is_wanted 90000000 false (some 60)) seen_once.rows))
list_agents_exact_example =
    list_agents_exact 90000000 (some 60) (λ rows. rows) (omega arith) (λ rows. Perm.refl rows) false
      seen_once

refused_routes_keep_example :
    (((register_route no_repr no_words no_warning 9 ana busy seen_once).0.status_code ≡ 200)
      ⊎ ((register_route no_repr no_words no_warning 9 ana busy seen_once).1 ≡ seen_once))
    × (((status_route no_repr 9 ana busy seen_once).0.status_code ≡ 200)
        ⊎ ((status_route no_repr 9 ana busy seen_once).1 ≡ seen_once))
    × (((retire_route 9 ana seen_once).0.status_code ≡ 200)
        ⊎ ((retire_route 9 ana seen_once).1.rows ≡ seen_once.rows))
refused_routes_keep_example = refused_routes_keep no_repr no_words no_warning 9 ana busy seen_once
