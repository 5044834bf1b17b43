-- ===== src/Examples/Pages.antt =====
-- A listing of two mailboxes that the SDK pages through, read to its end.
use mathlib.Core.List.{Perm}
use a2a_hub.Prelude.{
  true, false, ◌<◌, ℕ, zero, suc, ◌≡◌, refl, ap, ◌∙◌, Option, none, some, List, [], ◌∷◌, ◌++◌,
  arith, length, take, drop, if◌then◌else◌,
}
use a2a_hub.Prelude.Int.{pos}
use a2a_hub.Prelude.Text.{Str, codes, ◌==◌, is_empty}
use a2a_hub.Json.{end}
use a2a_hub.Executor.{CallContext, hub_owner_resolver}
use a2a_hub.Store.{Task, ListRequest, Sdk, resolved}
use a2a_hub.Store.Reading.{session_context}
use a2a_hub.Store.Listing.{RawCursor, Codec, ask, exhausted}
use a2a_hub.Store.Listing.Pages.{IsPaged}
use a2a_hub.Store.Listing.Steps.{IsCodec}
use a2a_hub.Store.Listing.Walk.{read_all, read_all_complete}
use a2a_hub.Examples.Reads.{sent_task, ana-NoSlash}

-- A cursor as a text: the skip, the number of tokens, and each key and token behind its length.
abbrev put : List (Str × Str) → Str
put [] = []
put ((k, v) ∷ entries) = length k ∷ (k ++ (length v ∷ (v ++ put entries)))

abbrev pair : (Str → List (Str × Str)) → Str → Str → List (Str × Str)
pair later k [] = []
pair later k (p ∷ t) = (k, take p t) ∷ later (drop p t)

abbrev read : ℕ → Str → List (Str × Str)
read zero s = []
read (suc n) [] = []
read (suc n) (m ∷ s) = pair (read n) (take m s) (drop m s)

abbrev unpack : Str → Option RawCursor
unpack [] = none
unpack (skip ∷ []) = none
unpack (skip ∷ n ∷ s) = some (record { t = read n s; s = pos skip; n = [] })

abbrev pub codec : Codec
codec = record { pack = λ c. c.skip ∷ length c.tokens ∷ put c.tokens; unpack = unpack }

take_front : (k s : Str) → take (length k) (k ++ s) ≡ k
take_front [] s = ground arith
take_front (c ∷ k) s = ground (arith, take_front k s)

drop_front : (k s : Str) → drop (length k) (k ++ s) ≡ s
drop_front [] s = ground arith
drop_front (c ∷ k) s = ground (arith, drop_front k s)

pair_step :
    (later : Str → List (Str × Str)) (k v s : Str)
    → pair later
        (take (length k) (k ++ (length v ∷ (v ++ s))))
        (drop (length k) (k ++ (length v ∷ (v ++ s))))
      ≡ (k, v) ∷ later s
pair_step later k v s =
    rw
      (
        drop_front k (length v ∷ (v ++ s)),
        take_front k (length v ∷ (v ++ s)),
        drop_front v s,
        take_front v s,
      )
      refl

read-put : (entries : List (Str × Str)) → read (length entries) (put entries) ≡ entries
read-put [] = refl
read-put ((k, v) ∷ entries) =
    pair_step (read (length entries)) k v (put entries) ∙ ap (◌∷◌ (k, v)) (read-put entries)

pub codec-IsCodec : IsCodec codec
codec-IsCodec = record {
  full = λ c. refl;
  raw = λ c. record { t = c.tokens; s = pos c.skip; n = [] };
  unpacked = λ c.
      ap (λ (t : List (Str × Str)). some (record { t = t; s = pos c.skip; n = [] }))
        (read-put c.tokens);
  skip = λ c. refl;
  tokens = λ c k. refl;
}

abbrev second_token : Str
second_token = codes "2"

abbrev pub held : (owner : Str) (token : Str) → List Task
held owner token =
    if is_empty token
    then sent_task owner (codes "bob") ∷ sent_task owner (codes "eve") ∷ []
    else sent_task owner (codes "eve") ∷ []

-- two tasks in every mailbox, one on a page
abbrev pub paged_sdk : Sdk
paged_sdk = record {
  fetch = λ owner id. none;
  by_id = λ id. none;
  page = λ params owner.
      if is_empty params.page_token
      then record {
        tasks = sent_task owner (codes "bob") ∷ [];
        total_size = 2;
        next_page_token = second_token;
        page_size = 1;
      }
      else record {
        tasks = sent_task owner (codes "eve") ∷ [];
        total_size = 2;
        next_page_token = [];
        page_size = 1;
      };
}

abbrev pub one_each : ListRequest
one_each = record { page_size = 1; page_token = []; filters = end }

abbrev pub ana : CallContext
ana = session_context (codes "ana") (codes "s1")

pub paged_last :
    (owner token : Str)
    → is_empty (ask paged_sdk 1 end ana owner token).next_page_token ≡ true
    → held (resolved ana owner) token ≡ (ask paged_sdk 1 end ana owner token).tasks
unfolding ask ◌==◌
paged_last owner token h = ground arith

pub paged_more :
    (owner token : Str)
    → is_empty (ask paged_sdk 1 end ana owner token).next_page_token ≡ false
    → held (resolved ana owner) token
      ≡ (ask paged_sdk 1 end ana owner token).tasks
        ++ held (resolved ana owner) (ask paged_sdk 1 end ana owner token).next_page_token
unfolding ask ◌==◌
paged_more owner token h = ground arith

pub paged_grows : (owner token : Str) → 0 < length (ask paged_sdk 1 end ana owner token).tasks
unfolding ask ◌==◌
paged_grows owner token = ground arith

pub paged_unmarked :
    (owner token : Str)
    → ((ask paged_sdk 1 end ana owner token).next_page_token == exhausted) ≡ false
unfolding ask ◌==◌
paged_unmarked owner token = ground arith

unfoldable pub paged : IsPaged paged_sdk 1 end ana
paged = record {
  rest = λ owner token. held (resolved ana owner) token;
  last = paged_last;
  more = paged_more;
  grows = λ owner token h. paged_grows owner token;
  unmarked = paged_unmarked;
}

read_all_complete_example :
    (tasks : List Task) × (read_all paged_sdk codec one_each ana 5 [] ≡ some tasks)
    × Perm tasks (held (codes "ana/s1") [] ++ held (codes "ana") [])
unfolding paged hub_owner_resolver
read_all_complete_example =
    read_all_complete paged_sdk codec one_each (codes "ana") (codes "s1") ana-NoSlash paged
      codec-IsCodec 5 (omega arith)
