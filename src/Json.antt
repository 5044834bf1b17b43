-- ===== src/Json.antt =====
-- JSON values as `json.loads` returns them and as the routes build them. A number is an integer:
-- no field that the program reads or writes holds a fraction.
use a2a_hub.Prelude.{
  ◌≡◌, refl, ap, zero, suc, Bool, true, false, not, Option, none, some, List, [], ◌∷◌,
  if◌then◌else◌,
}
use a2a_hub.Prelude.Int.{ℤ, pos, negsuc}
use a2a_hub.Prelude.Text.{Str, codes, ◌==◌, is_empty}
use a2a_hub.Prelude.Number.{show_int}

mutual
  pub data Json : Type 0 where
    null : Json
    bool : Bool → Json
    num : ℤ → Json
    str : Str → Json
    arr : Items → Json
    obj : Fields → Json

  pub data Items : Type 0 where
    nil : Items
    cons : Json → Items → Items

  pub data Fields : Type 0 where
    end : Fields
    field : Str → Json → Fields → Fields

-- `[v, ...]`
abbrev pub array : List Json → Items
array [] = nil
array (v ∷ vs) = cons v (array vs)

-- `{k: v, ...}`
abbrev pub dict : List (Str × Json) → Fields
dict [] = end
dict ((k, v) ∷ kvs) = field k v (dict kvs)

abbrev pub items : Items → List Json
items nil = []
items (cons v vs) = v ∷ items vs

pub items-array : (vs : List Json) → items (array vs) ≡ vs
items-array [] = refl
items-array (v ∷ vs) = ap (◌∷◌ v) (items-array vs)

-- `d.get(k)`; a decoded dict has each key once
unfoldable pub get : Str → Fields → Option Json
get k end = none
get k (field j v fs) = if j == k then some v else get k fs

abbrev int_truth : ℤ → Bool
int_truth (pos zero) = false
int_truth (pos (suc n)) = true
int_truth (negsuc n) = true

-- `bool(v)`
abbrev pub truth : Json → Bool
truth null = false
truth (bool b) = b
truth (num n) = int_truth n
truth (str s) = not (is_empty s)
truth (arr nil) = false
truth (arr (cons v vs)) = true
truth (obj end) = false
truth (obj (field k v fs)) = true

-- `str(v)`; `repr` prints a list or a dict
abbrev pub to_text : (Json → Str) → Json → Str
to_text repr null = codes "None"
to_text repr (bool true) = codes "True"
to_text repr (bool false) = codes "False"
to_text repr (num n) = show_int n
to_text repr (str s) = s
to_text repr (arr vs) = repr (arr vs)
to_text repr (obj fs) = repr (obj fs)

-- `str(v or "")`
unfoldable pub text_or_empty : (Json → Str) → Option Json → Str
text_or_empty repr none = []
text_or_empty repr (some v) = if truth v then to_text repr v else []
