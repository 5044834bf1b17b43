-- ===== src/Store/Listing.antt =====
-- src/a2a_hub/store.py: `HubTaskStore.list` over several mailboxes, and its cursor. The text of a
-- cursor (JSON in base64) is the parameter `Codec`.
pub mod Order
pub mod Pages
pub mod Steps
pub mod Growth
pub mod Speed
pub mod Walk
use a2a_hub.Prelude.{
  ℕ, ◌+◌, Bool, not, ◌&&◌, ◌||◌, Option, none, some, List, [], ◌∷◌, ◌++◌, map, ltb, nat_eq, length,
  take, drop, any, if◌then◌else◌,
}
use a2a_hub.Prelude.Int.{ℤ, pos, negsuc}
use a2a_hub.Prelude.Text.{Str, codes, ◌==◌, is_empty}
use a2a_hub.Json.{Fields}
use a2a_hub.Executor.{CallContext}
use a2a_hub.Store.{Task, ListRequest, ListResponse, Sdk, read_owners, resolved}

-- `d.get(k)` for a dict with text keys
unfoldable pub lookup {ℓ} : {V : Type ℓ} → Str → List (Str × V) → Option V
lookup k [] = none
lookup k ((j, v) ∷ rest) = if j == k then some v else lookup k rest

pub record Cursor : Type 0 where
  pub tokens : List (Str × Str)
  pub skip : ℕ
  pub totals : List (Str × ℕ)

-- What a token's JSON holds, before `max(0, ...)`.
pub record RawCursor : Type 0 where
  pub t : List (Str × Str)
  pub s : ℤ
  pub n : List (Str × ℕ)

-- `pack` is `_encode_cursor`; `unpack` is the body of the `try`, `none` where it raises.
pub record Codec : Type 0 where
  pub pack : Cursor → Str
  pub unpack : Str → Option RawCursor

abbrev pub exhausted : Str
exhausted = codes "-"

abbrev pub default_page_size : ℕ
default_page_size = 50

abbrev pub start_cursor : Cursor
start_cursor = record { tokens = []; skip = 0; totals = [] }

abbrev pub max_zero : ℤ → ℕ
max_zero (pos n) = n
max_zero (negsuc n) = 0

unfoldable pub decode_cursor : Codec → Str → Cursor
decode_cursor codec token = if is_empty token then start_cursor else elim (codec.unpack token) [
  | none ↦ start_cursor
  | some raw ↦ record { tokens = raw.t; skip = max_zero raw.s; totals = raw.n }
]

-- `key(a) > key(b)` for the key (seconds, nanos)
abbrev pub is_newer : Task → Task → Bool
is_newer a b = ltb b.seconds a.seconds || (nat_eq a.seconds b.seconds && ltb b.nanos a.nanos)

unfoldable pub insert_task : Task → List Task → List Task
insert_task task [] = task ∷ []
insert_task task (other ∷ rest) =
    let later = insert_task task rest in
    if is_newer other task then other ∷ later else task ∷ other ∷ rest

-- `tasks.sort(key=..., reverse=True)`, which keeps the order of tasks with one key
unfoldable pub sort_tasks : List Task → List Task
sort_tasks [] = []
sort_tasks (task ∷ tasks) = insert_task task (sort_tasks tasks)

-- the tasks of all responses, in the order of the owners
abbrev pub gather : (Str → List Task) → List Str → List Task
gather tasks_of [] = []
gather tasks_of (owner ∷ owners) = tasks_of owner ++ gather tasks_of owners

abbrev pub text_or : Str → Option Str → Str
text_or default none = default
text_or default (some s) = s

abbrev pub number_or : ℕ → Option ℕ → ℕ
number_or default none = default
number_or default (some n) = n

-- `params.page_size or DEFAULT_LIST_TASKS_PAGE_SIZE`
abbrev pub page_size_of : ListRequest → ℕ
page_size_of params = if nat_eq params.page_size 0 then default_page_size else params.page_size

-- `token or EXHAUSTED`
abbrev pub or_exhausted : Str → Str
or_exhausted token = if is_empty token then exhausted else token

abbrev pub sum_totals : List (Str × ℕ) → ℕ
sum_totals [] = 0
sum_totals ((owner, n) ∷ rest) = n + sum_totals rest

-- `any(token != EXHAUSTED for token in forward.values())`
abbrev pub has_more : List (Str × Str) → Bool
has_more = any (λ entry. not (entry.1 == exhausted))

-- `size` is the page size in force and `filters` the rest of the request, which is copied
module _ (sdk : Sdk) (size : ℕ) (filters : Fields) (context : CallContext) where
  -- `super().list(sub, ...)` for one owner, from a token on
  unfoldable pub ask : (owner token : Str) → ListResponse
  ask owner token =
      sdk.page (record { page_size = size; page_token = token; filters = filters })
        (resolved context owner)

  unfoldable pub answer_to : (owner token : Str) → ListResponse
  answer_to owner token =
      if token == exhausted
      then record { tasks = []; total_size = 0; next_page_token = []; page_size = size }
      else ask owner token

  -- one owner's entry of `responses`
  unfoldable pub respond : Cursor → Str → ListResponse
  respond cursor owner = answer_to owner (text_or [] (lookup owner cursor.tokens))

  -- the merged batch, newest first
  unfoldable pub batch : List Str → Cursor → List Task
  batch owners cursor = sort_tasks (gather (λ owner. (respond cursor owner).tasks) owners)

  unfoldable pub totals_of : List Str → Cursor → List (Str × ℕ)
  totals_of owners cursor =
      map
        (λ owner. (owner, number_or (respond cursor owner).total_size (lookup owner cursor.totals)))
        owners

  unfoldable pub forward : List Str → Cursor → List (Str × Str)
  forward owners cursor =
      map (λ owner. (owner, or_exhausted (respond cursor owner).next_page_token)) owners

module _ (sdk : Sdk) (codec : Codec) (size : ℕ) (filters : Fields) (context : CallContext) where
  -- more of this batch to hand out before fetching the next one
  abbrev pub within_cursor : List Str → Cursor → Cursor
  within_cursor owners cursor = record {
    tokens = cursor.tokens;
    skip = cursor.skip + size;
    totals = totals_of sdk size filters context owners cursor;
  }

  -- the batch is exhausted: each mailbox's own token is carried forward
  abbrev pub beyond_cursor : List Str → Cursor → Cursor
  beyond_cursor owners cursor = record {
    tokens = forward sdk size filters context owners cursor;
    skip = 0;
    totals = totals_of sdk size filters context owners cursor;
  }

  unfoldable pub next_token : List Str → Cursor → Str
  next_token owners cursor =
      if ltb (cursor.skip + size) (length (batch sdk size filters context owners cursor))
      then codec.pack (within_cursor owners cursor)
      else if has_more (forward sdk size filters context owners cursor)
      then codec.pack (beyond_cursor owners cursor)
      else []

  unfoldable pub merged : List Str → Cursor → ListResponse
  merged owners cursor = record {
    tasks = take size (drop cursor.skip (batch sdk size filters context owners cursor));
    total_size = sum_totals (totals_of sdk size filters context owners cursor);
    next_page_token = next_token owners cursor;
    page_size = size;
  }

module _ (sdk : Sdk) (codec : Codec) (params : ListRequest) (context : CallContext) where
  abbrev pub list_owners : List Str → ListResponse
  list_owners (owner ∷ []) = sdk.page params (resolved context owner)
  list_owners owners =
      merged sdk codec (page_size_of params) params.filters context owners
        (decode_cursor codec params.page_token)

  -- `list`
  unfoldable pub list_tasks : ListResponse
  list_tasks = list_owners (read_owners context)
