-- ===== src/Client/Reading.antt =====
-- src/a2a_hub/client.py: `list_all_tasks` and `split_by_mailbox`. A field of an answer that has
-- another type than the protocol gives it is an exception here.
pub mod Ends
pub mod Counted
pub mod Turns
pub mod Whole
use a2a_hub.Prelude.{
  ℕ, zero, suc, ◌+◌, Bool, true, false, ◌||◌, Option, none, some, List, [], ◌∷◌, ◌++◌, leb,
  if◌then◌else◌,
}
use a2a_hub.Prelude.Int.{ℤ, pos}
use a2a_hub.Prelude.Number.{parse_int}
use a2a_hub.Prelude.Text.{Str, codes, ◌==◌, is_empty, mem}
use a2a_hub.Json.{Json, null, num, str, arr, obj, Fields, end, items, get, truth}
use a2a_hub.Client.Effect.{Outcome, ok, crashed, World, M, pure, ◌>>=◌, of}
use a2a_hub.Client.Calls.{HubClient, list_tasks}

-- what `list_all_tasks` reads of one page
pub record Page : Type 0 where
  pub tasks : List Json
  pub total : ℤ
  pub next : Str

-- `page.get("tasks", [])`
abbrev pub tasks_in : Option Json → Outcome (List Json)
tasks_in none = ok []
tasks_in (some (arr vs)) = ok (items vs)
tasks_in (some _) = crashed

abbrev int_or_crash : Option ℤ → Outcome ℤ
int_or_crash none = crashed
int_or_crash (some n) = ok n

-- `int(page.get("totalSize", 0))`
abbrev pub total_in : Option Json → Outcome ℤ
total_in none = ok (pos 0)
total_in (some (num n)) = ok n
total_in (some (str s)) = int_or_crash (parse_int s)
total_in (some _) = crashed

-- `page.get("nextPageToken") or ""`
abbrev pub next_in : Option Json → Outcome Str
next_in none = ok []
next_in (some null) = ok []
next_in (some (str token)) = ok token
next_in (some _) = crashed

abbrev with_next : List Json → ℤ → Outcome Str → Outcome Page
with_next tasks total (ok next) = ok (record { tasks = tasks; total = total; next = next })
with_next tasks total _ = crashed

abbrev with_total : List Json → Outcome ℤ → Outcome Str → Outcome Page
with_total tasks (ok total) next = with_next tasks total next
with_total tasks _ next = crashed

abbrev with_tasks : Outcome (List Json) → Outcome ℤ → Outcome Str → Outcome Page
with_tasks (ok tasks) total next = with_total tasks total next
with_tasks _ total next = crashed

unfoldable pub page_of : Json → Outcome Page
page_of (obj page) =
    with_tasks (tasks_in (get (codes "tasks") page)) (total_in (get (codes "totalSize") page))
      (next_in (get (codes "nextPageToken") page))
page_of _ = crashed

-- The result of `list_all_tasks`, whose `nextPageToken` is always "".
pub record Walked : Type 0 where
  pub tasks : List Json
  pub total : ℤ
  pub pages : ℕ
  pub incomplete : Bool

module _ {S : Type 0} (fetch : Str → M S Page) (max_pages : ℕ) where
  -- The loop: `token` is the one to ask for, and `none` is out of fuel.
  unfoldable pub walk : ℕ → List Json → List Str → ℕ → Str → M S (Option Walked)
  walk zero tasks seen pages token = pure none
  walk (suc fuel) tasks seen pages token = fetch token >>= λ page. elim (is_empty page.next) [
    | true ↦ pure (
        some (record {
          tasks = tasks ++ page.tasks;
          total = page.total;
          pages = suc pages;
          incomplete = false;
        }))
    | false ↦ elim (mem page.next seen || leb max_pages (suc pages)) [
      | true ↦ pure (
          some (record {
            tasks = tasks ++ page.tasks;
            total = page.total;
            pages = suc pages;
            incomplete = true;
          }))
      | false ↦ walk fuel (tasks ++ page.tasks) (page.next ∷ seen) (suc pages) page.next
    ]
  ]

  unfoldable pub walk_all : M S (Option Walked)
  walk_all = walk (suc max_pages) [] [] 0 []

module _ {S : Type 0} (repr : Json → Str) (client : HubClient S) where
  -- `self.list_tasks(include_artifacts, page_size=page_size, page_token=token or None)`
  unfoldable pub fetch_page : Bool → ℕ → Str → M S Page
  fetch_page include_artifacts page_size token =
      list_tasks repr client include_artifacts (some page_size) token >>= λ page. of (page_of page)

  unfoldable pub list_all_tasks : Bool → (page_size max_pages : ℕ) → M S (Option Walked)
  list_all_tasks include_artifacts page_size max_pages =
      walk_all (fetch_page include_artifacts page_size) max_pages

-- `(artifact.get("metadata") or {}).get("recipient")`
unfoldable pub recipient_of : Json → Option Json
recipient_of (obj artifact) = elim (get (codes "metadata") artifact) [
  | some (obj metadata) ↦ get (codes "recipient") metadata
  | _ ↦ none
]
recipient_of _ = none

abbrev is_true : Option Json → Bool
is_true none = false
is_true (some v) = truth v

-- the loop over a task's artifacts, with its variable `recipient`
unfoldable pub find_recipient : List Json → Option Json → Option Json
find_recipient [] recipient = recipient
find_recipient (artifact ∷ artifacts) recipient =
    let found = recipient_of artifact in
    let later = find_recipient artifacts found in if is_true found then found else later

abbrev artifacts_in : Option Json → List Json
artifacts_in (some (arr vs)) = items vs
artifacts_in _ = []

unfoldable pub task_recipient : Json → Option Json
task_recipient (obj task) = find_recipient (artifacts_in (get (codes "artifacts") task)) none
task_recipient _ = none

-- `recipient == name`
abbrev pub is_named : Option Json → Str → Bool
is_named (some (str s)) name = s == name
is_named _ name = false

pub record Split : Type 0 where
  pub session : ℕ
  pub broadcast : ℕ
  pub unclassified : ℕ

-- the loop of `split_by_mailbox`
unfoldable pub split_from : List Json → (identity principal : Str) → Split → Split
split_from [] identity principal counts = counts
split_from (task ∷ tasks) identity principal counts = split_from tasks identity principal (
    if is_named (task_recipient task) identity
    then record counts { session = counts.session + 1 }
    else if is_named (task_recipient task) principal
    then record counts { broadcast = counts.broadcast + 1 }
    else record counts { unclassified = counts.unclassified + 1 })

unfoldable pub split_by_mailbox : List Json → (identity principal : Str) → Split
split_by_mailbox tasks identity principal =
    split_from tasks identity principal (record { session = 0; broadcast = 0; unclassified = 0 })
