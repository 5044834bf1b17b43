-- ===== src/Prune/Listing.antt =====
-- .github/scripts/prune_plan.py: `flatten`, `tags` and the file of live trees, on decoded JSON. `none` is
-- an exception, there or where the first version is read.
use a2a_hub.Prelude.{◌≡◌, refl, Option, none, some, List, [], ◌∷◌, ◌++◌, map, if◌then◌else◌}
use a2a_hub.Prelude.Text.{Str, codes, is_empty, strip}
use a2a_hub.Json.{Json, null, str, arr, obj, Fields, end, array, items, items-array, get}

abbrev prepend : List Json → Option (List Json) → Option (List Json)
prepend page none = none
prepend page (some versions) = some (page ++ versions)

-- the comprehension over the pages
unfoldable pub join_pages : List Json → Option (List Json)
join_pages [] = some []
join_pages (arr page ∷ pages) = prepend (items page) (join_pages pages)
join_pages (_ ∷ pages) = none

unfoldable pub flatten : List Json → Option (List Json)
flatten [] = some []
flatten (arr page ∷ pages) = join_pages (arr page ∷ pages)
flatten (version ∷ versions) = some (version ∷ versions)

-- `d.get(key, {})`
abbrev pub dict_in : Str → Option Fields → Option Fields
dict_in key none = none
dict_in key (some fields) = elim (get key fields) [
  | none ↦ some end
  | some (obj inner) ↦ some inner
  | some _ ↦ none
]

abbrev texts_in : List Json → Option (List Str)
texts_in [] = some []
texts_in (str s ∷ vs) = elim (texts_in vs) [ some rest ↦ some (s ∷ rest) | none ↦ none ]
texts_in (v ∷ vs) = none

-- `d.get("tags", []) or []`
abbrev tags_in : Option Fields → Option (List Str)
tags_in none = none
tags_in (some fields) = elim (get (codes "tags") fields) [
  | none ↦ some []
  | some null ↦ some []
  | some (arr vs) ↦ texts_in (items vs)
  | some _ ↦ none
]

-- `tags`
unfoldable pub tags_of : Json → Option (List Str)
tags_of (obj version) =
    tags_in (dict_in (codes "container") (dict_in (codes "metadata") (some version)))
tags_of _ = none

-- the set of the stripped lines of the file that are not blank
unfoldable pub live_trees_of : List Str → List Str
live_trees_of [] = []
live_trees_of (line ∷ lines) =
    let later = live_trees_of lines in if is_empty (strip line) then later else strip line ∷ later

abbrev pub page_json : List Json → Json
page_json page = arr (array page)

abbrev pub concat : List (List Json) → List Json
concat [] = []
concat (page ∷ pages) = page ++ concat pages

join_pages-map : (pages : List (List Json)) → join_pages (map page_json pages) ≡ some (concat pages)
unfolding join_pages
join_pages-map [] = refl
join_pages-map (page ∷ pages) = rw (items-array page, join_pages-map pages) refl

-- The pages of a listing are read as the listing.
flatten-pages : (pages : List (List Json)) → flatten (map page_json pages) ≡ some (concat pages)
unfolding flatten
flatten-pages [] = refl
flatten-pages (page ∷ pages) = join_pages-map (page ∷ pages)
