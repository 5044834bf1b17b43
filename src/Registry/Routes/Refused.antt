-- ===== src/Registry/Routes/Refused.antt =====
-- Which answers of the register's routes write, and what.
use a2a_hub.Prelude.{
  Nat-cases, ◌⊎◌, ℕ, Bool, false, ◌≡◌, ◌≢◌, inl, inr, refl, Option, none, some, List, [], ◌∷◌,
  arith, Bool-cases,
}
use a2a_hub.Prelude.Text.{Str, codes}
use a2a_hub.Json.{Json, obj, Fields, get}
use a2a_hub.Marks.Routes.{Loaded, not_json, loaded}
use a2a_hub.Registry.{
  Row, Register, Declaration, Cleaned, cleaned, bad_role, bad_projects, clean_declaration,
  Suspicion, declare, is_current,
}
use a2a_hub.Registry.Changes.{update, hits, retire, has_declared, update_status}
use a2a_hub.Registry.Routes.{
  store_declaration, register_route, store_status, status_route, retire_route,
}

-- The body is an object with a declaration that is accepted, and it is declared under the caller's
-- name.
pub record IsDeclared (repr : Json → Str) (now : ℕ) (identity : Str) (body : Loaded)
    (register after : Register) : Type 0 where
  pub payload : Fields
  pub declaration : Declaration
  pub object : body ≡ loaded (obj payload)
  pub accepted : clean_declaration repr payload ≡ cleaned declaration
  pub written : after ≡ (declare now identity declaration register).1

update-missed :
    (identity : Str) (p : Row → Bool) (change : Row → Row) (rows : List Row)
    → hits identity p rows ≡ false
    → update identity p change rows ≡ rows
unfolding update hits
update-missed identity p change [] h = refl
update-missed identity p change (row ∷ rows) h =
    ground (arith, update-missed identity p change rows)

module _ (repr : Json → Str) (explain : Cleaned → Str) (say : Suspicion → Str) (now : ℕ)
    (identity : Str) where
  store_declaration_sound :
      (payload : Fields) (c : Cleaned) (register : Register)
      → clean_declaration repr payload ≡ c
      → (store_declaration repr explain say now identity c register).0.status_code ≡ 200
      → IsDeclared repr now identity
          (loaded (obj payload))
          register
          (store_declaration repr explain say now identity c register).1
  unfolding store_declaration
  store_declaration_sound payload (cleaned d) register e h = record {
    payload = payload;
    declaration = d;
    object = refl;
    accepted = e;
    written = refl;
  }
  store_declaration_sound payload (bad_role r) register e h = absurd (omega arith)
  store_declaration_sound payload bad_projects register e h = absurd (omega arith)

  -- A declaration is answered with status 200 only if the body is an object that is accepted; what
  -- it says is then declared under the caller's own name.
  pub register_route_sound :
      (body : Loaded) (register : Register)
      → (register_route repr explain say now identity body register).0.status_code ≡ 200
      → IsDeclared repr now identity body register
          (register_route repr explain say now identity body register).1
  unfolding register_route
  register_route_sound (loaded (obj payload)) register h =
      store_declaration_sound payload (clean_declaration repr payload) register refl h
  register_route_sound (not_json error) register h = absurd (omega arith)
  register_route_sound (loaded _) register h = absurd (omega arith)

  store_declaration_refused :
      (c : Cleaned) (register : Register)
      → (store_declaration repr explain say now identity c register).0.status_code ≢ 200
      → (store_declaration repr explain say now identity c register).1 ≡ register
  unfolding store_declaration
  store_declaration_refused (cleaned d) register h = absurd (h refl)
  store_declaration_refused (bad_role r) register h = refl
  store_declaration_refused bad_projects register h = refl

  -- An answer to a declaration other than status 200 leaves the register as it was.
  register_route_refused :
      (body : Loaded) (register : Register)
      → (register_route repr explain say now identity body register).0.status_code ≢ 200
      → (register_route repr explain say now identity body register).1 ≡ register
  unfolding register_route
  register_route_refused (loaded (obj payload)) register h =
      store_declaration_refused (clean_declaration repr payload) register h
  register_route_refused (not_json error) register h = refl
  register_route_refused (loaded _) register h = refl

module _ (repr : Json → Str) (now : ℕ) (identity : Str) where
  store_status_refused :
      (status : Option Json) (register : Register)
      → (store_status repr now identity status register).0.status_code ≢ 200
      → (store_status repr now identity status register).1 ≡ register
  unfolding store_status update_status
  store_status_refused none register h = refl
  store_status_refused (some status) register h =
      elim (Bool-cases (hits identity has_declared register.rows)) [
        | inl hit ↦ absurd (h (rw hit refl))
        | inr miss ↦ rw miss refl
      ]

  -- An answer to a change of status other than status 200 leaves the register as it was.
  status_route_refused :
      (body : Loaded) (register : Register)
      → (status_route repr now identity body register).0.status_code ≢ 200
      → (status_route repr now identity body register).1 ≡ register
  unfolding status_route
  status_route_refused (loaded (obj payload)) register h =
      store_status_refused (get (codes "status") payload) register h
  status_route_refused (not_json error) register h = refl
  status_route_refused (loaded _) register h = refl

module _ (now : ℕ) (identity : Str) where
  -- An answer to a retirement other than status 200 leaves the table as it was.
  retire_route_refused :
      (register : Register)
      → (retire_route now identity register).0.status_code ≢ 200
      → (retire_route now identity register).1.rows ≡ register.rows
  unfolding retire_route retire
  retire_route_refused register h = elim (Bool-cases (hits identity is_current register.rows)) [
    | inl hit ↦ absurd (h (rw hit refl))
    | inr miss ↦ update-missed identity is_current _ register.rows miss
  ]

-- success, or nothing happened
kept_or {ℓ} :
    {A : Type ℓ} (status_code : ℕ) (after before : A)
    → (status_code ≢ 200 → after ≡ before)
    → (status_code ≡ 200) ⊎ (after ≡ before)
kept_or status_code after before h = elim (Nat-cases status_code 200) [
  | inl same ↦ inl same
  | inr other ↦ inr (h other)
]

-- A declaration, a change of status and a retirement are each answered with status 200 or leave the
-- rows of the register as they were.
pub refused_routes_keep :
    (repr : Json → Str) (explain : Cleaned → Str) (say : Suspicion → Str) (now : ℕ) (identity : Str)
    (body : Loaded) (register : Register)
    → (((register_route repr explain say now identity body register).0.status_code ≡ 200)
        ⊎ ((register_route repr explain say now identity body register).1 ≡ register))
      × (((status_route repr now identity body register).0.status_code ≡ 200)
          ⊎ ((status_route repr now identity body register).1 ≡ register))
      × (((retire_route now identity register).0.status_code ≡ 200)
          ⊎ ((retire_route now identity register).1.rows ≡ register.rows))
refused_routes_keep repr explain say now identity body register = (
  kept_or _ _ _ (register_route_refused repr explain say now identity body register),
  kept_or _ _ _ (status_route_refused repr now identity body register),
  kept_or _ _ _ (retire_route_refused now identity register),
)
