-- ===== src/Client/Tasks.antt =====
-- src/a2a_hub/client.py: `format_task`. `none` is an exception, as of a method that a value of another
-- type has not.
pub mod Shown
use a2a_hub.Prelude.{
  ℕ, zero, suc, ◌-◌, Bool, true, false, Option, none, some, List, [], ◌∷◌, ◌++◌, length, take, map,
  nat_eq, if◌then◌else◌,
}
use a2a_hub.Prelude.Text.{Str, codes, rstrip, strip, starts_with, join, partition}
use a2a_hub.Json.{Json, str, arr, obj, Fields, end, items, get, to_text}

-- `d.get(key, default)` of a text and of a dict, and of a list that is iterated: an item of a dict or
-- of a text is a text, which has no `get`
abbrev text_or : Str → Option Json → Option Str
text_or default none = some default
text_or default (some (str s)) = some s
text_or default (some _) = none

abbrev dict_or : Option Json → Option Fields
dict_or none = some end
dict_or (some (obj fields)) = some fields
dict_or (some _) = none

abbrev list_or : Option Json → Option (List Json)
list_or none = some []
list_or (some (arr vs)) = some (items vs)
list_or (some (obj end)) = some []
list_or (some (str [])) = some []
list_or (some _) = none

infixl 5 ◌>>=◌
abbrev ◌>>=◌ : {A B : Type 0} → Option A → (A → Option B) → Option B
none >>= f = none
some a >>= f = f a

-- `s.replace(old, "")`, where `skipped` code points of an occurrence are still to be left out
unfoldable pub remove_from : ℕ → Str → Str → Str
remove_from skipped old [] = []
remove_from (suc skipped) old (c ∷ s) = remove_from skipped old s
remove_from zero old (c ∷ s) =
    let found = starts_with (c ∷ s) old in
    let rest = remove_from (if found then length old - 1 else 0) old s in
    if found then rest else c ∷ rest

-- `s.replace("T", " ")`
unfoldable pub space_for_t : Str → Str
space_for_t [] = []
space_for_t (c ∷ s) = (if nat_eq c b'T' then b' ' else c) ∷ space_for_t s

-- `{s:<width}`
unfoldable pub padded : ℕ → Str → Str
padded zero s = s
padded (suc width) [] = b' ' ∷ padded width []
padded (suc width) (c ∷ s) = c ∷ padded width s

-- what follows the id in its line
abbrev after_id : (state when : Str) → Str
after_id state when =
    b' '
    ∷ (padded 9 (remove_from 0 (codes "TASK_STATE_") state) ++ b' ' ∷ space_for_t (take 19 when))

abbrev pub head_line : (id state when : Str) → Str
head_line id state when = rstrip (b'[' ∷ (id ++ b']' ∷ after_id state when))

module _ (repr : Json → Str) where
  -- `task.get(key, "?")` in a formatted string
  abbrev shown_or : Option Json → Str
  shown_or none = codes "?"
  shown_or (some v) = to_text repr v

  abbrev part_text : Json → Option Str
  part_text (obj part) = text_or [] (get (codes "text") part)
  part_text _ = none

  unfoldable pub part_texts : List Json → Option (List Str)
  part_texts [] = some []
  part_texts (part ∷ parts) = do
    text ← part_text part
    texts ← part_texts parts
    some (text ∷ texts)

  abbrev artifact_fields : Fields → Option Str
  artifact_fields artifact = do
    metadata ← dict_or (get (codes "metadata") artifact)
    parts ← list_or (get (codes "parts") artifact)
    texts ← part_texts parts
    some (
        codes "    from "
        ++ (shown_or (get (codes "sender") metadata)
            ++ codes ": "
            ++ strip (join (codes " ") texts)))

  abbrev artifact_line : Json → Option Str
  artifact_line (obj artifact) = artifact_fields artifact
  artifact_line _ = none

  unfoldable pub artifact_lines : List Json → Option (List Str)
  artifact_lines [] = some []
  artifact_lines (artifact ∷ artifacts) = do
    line ← artifact_line artifact
    lines ← artifact_lines artifacts
    some (line ∷ lines)

  unfoldable pub format_task : Fields → Option Str
  format_task task = do
    status ← dict_or (get (codes "status") task)
    state ← text_or (codes "?") (get (codes "state") status)
    when ← text_or [] (get (codes "timestamp") status)
    artifacts ← list_or (get (codes "artifacts") task)
    lines ← artifact_lines artifacts
    some (join (codes "\n") (head_line (shown_or (get (codes "id") task)) state when ∷ lines))

-- what stands between the brackets of a line
abbrev pub id_shown : Str → Str
id_shown [] = []
id_shown (c ∷ line) = (partition b']' line).before
