-- ===== src/Registry/Accepted.antt =====
-- What `clean_declaration` accepts.
use a2a_hub.Prelude.{
  ℕ, ◌≤◌, true, false, ◌≡◌, inl, inr, ap, subst, Option, none, some, List, [], ◌∷◌, arith, length,
  take, length-take, Bool-cases, All,
}
use a2a_hub.Prelude.Text.{Str, codes, is_empty, mem, strip}
use a2a_hub.Json.{Json, Fields, get, text_or_empty}
use a2a_hub.Registry.{
  Declaration, Cleaned, cleaned, bad_role, bad_projects, roles, max_field, max_projects, trim,
  raw_projects, trim_projects, clean_projects, clean_declaration,
}

-- The role is a known one and the fields are within their bounds.
pub record IsBounded (d : Declaration) : Type 0 where
  pub known : mem d.role roles ≡ true
  pub host : length d.host ≤ max_field
  pub status : length d.status ≤ max_field
  pub few : length d.projects ≤ max_projects
  pub projects : All (λ p. (is_empty p ≡ false) × (length p ≤ max_field)) d.projects

abbrev declaration_of : Declaration → Cleaned → Declaration
declaration_of default (cleaned d) = d
declaration_of default (bad_role r) = default
declaration_of default bad_projects = default

module _ (repr : Json → Str) where
  length-trim : (limit : ℕ) (v : Option Json) → length (trim repr limit v) ≤ limit
  unfolding trim
  length-trim limit v = ground (arith, length-take limit (strip (text_or_empty repr v)))

  length-trim_projects : (ps : List Json) → length (trim_projects repr ps) ≤ length ps
  unfolding trim_projects
  length-trim_projects [] = omega arith
  length-trim_projects (p ∷ ps) = ground (arith, length-trim_projects ps)

  trim_projects-All :
      (ps : List Json)
      → All (λ p. (is_empty p ≡ false) × (length p ≤ max_field)) (trim_projects repr ps)
  unfolding trim_projects
  trim_projects-All [] = tt
  trim_projects-All (p ∷ ps) = elim (Bool-cases (is_empty (trim repr max_field (some p)))) [
    | inl blank ↦ rw blank (trim_projects-All ps)
    | inr full ↦ rw full ((full, length-trim max_field (some p)), trim_projects-All ps)
  ]

  clean_projects_sound :
      (role : Str) (payload : Fields) (raw : Option (List Json)) (d : Declaration)
      → mem role roles ≡ true
      → clean_projects repr role payload raw ≡ cleaned d
      → IsBounded d
  unfolding clean_projects
  clean_projects_sound role payload none d known h = cc
  clean_projects_sound role payload (some raw) d known h =
      subst IsBounded (ap (declaration_of d) h) (record {
        known = known;
        host = length-trim max_field (get (codes "host") payload);
        status = length-trim max_field (get (codes "status") payload);
        few =
            omega
              (arith, length-trim_projects (take max_projects raw), length-take max_projects raw);
        projects = trim_projects-All (take max_projects raw);
      })

  -- An accepted declaration has one of the three roles, a host and a status of at most 200
  -- characters, and at most 20 projects, none of them empty or longer than 200 characters.
  pub clean_declaration_sound :
      (payload : Fields) (d : Declaration)
      → clean_declaration repr payload ≡ cleaned d
      → IsBounded d
  unfolding clean_declaration
  clean_declaration_sound payload d h =
      elim (Bool-cases (mem (trim repr 32 (get (codes "role") payload)) roles)) [
        | inl known ↦
            clean_projects_sound (trim repr 32 (get (codes "role") payload)) payload
              (raw_projects repr (get (codes "projects") payload)) d known
              (rw (known, clean_declaration) at h)
        | inr unknown ↦ absurd (ground arith)
      ]
