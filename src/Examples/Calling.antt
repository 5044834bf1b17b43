-- ===== src/Examples/Calling.antt =====
-- The client on concrete command lines, and against a hub with two tasks in each mailbox.
use mathlib.Core.List.{Perm}
use a2a_hub.Prelude.{
  ◌+◌, ◌≡◌, refl, ap, true, false, Option, none, some, List, [], ◌∷◌, ◌++◌, map, arith, length,
  keep_if, not, ◌&&◌,
}
use a2a_hub.Prelude.Int.{pos}
use a2a_hub.Prelude.Text.{Str, codes, ◌==◌, mem, starts_with}
use a2a_hub.Json.{Json, obj, arr, str, num, dict, array, items, items-array, get}
use a2a_hub.Executor.{hub_owner_resolver}
use a2a_hub.Marks.Routes.{text_lt}
use a2a_hub.Store.{Task, ListResponse}
use a2a_hub.Store.Listing.{ask}
use a2a_hub.Store.Listing.Speed.{IsFull}
use a2a_hub.Client.Effect.{ok, World, Transport}
use a2a_hub.Client.Settings.{ClientConfig}
use a2a_hub.Client.Calls.{HubClient, exchange, rpc}
use a2a_hub.Client.Arguments.{take_session, known_flags, unknown_flags}
use a2a_hub.Client.Host.{Host}
use a2a_hub.Client.Inbox.{unprocessed, is_closed_task, is_history}
use a2a_hub.Client.Inbox.Hidden.{unprocessed_exact}
use a2a_hub.Client.Main.{main, asks_help}
use a2a_hub.Client.Main.Mistyped.{send_flag}
use a2a_hub.Client.Main.Idle.{IsIdle, mistyped, main_idle}
use a2a_hub.Client.Reading.{
  Page, Walked, page_of, fetch_page, list_all_tasks, split_by_mailbox, split_from, task_recipient,
  find_recipient, recipient_of,
}
use a2a_hub.Client.Reading.Ends.{Ends, list_all_tasks-Ends}
use a2a_hub.Client.Reading.Whole.{Reaches, page_shown, list_all_tasks_whole}
use a2a_hub.Examples.Pages.{codec, paged_sdk, one_each, ana, held, codec-IsCodec, paged}
use a2a_hub.Examples.Reads.{ana-NoSlash}

abbrev pub no_repr : Json → Str
no_repr v = []

abbrev encode : Task → Json
encode task = obj (dict ((codes "id", str task.id) ∷ []))

abbrev encode_id : Str → Json
encode_id id = obj (dict ((codes "id", str id) ∷ []))

abbrev shown : ListResponse → Json
shown response = obj (
    dict (
      (codes "tasks", arr (array (map encode response.tasks)))
      ∷ (codes "totalSize", num (pos response.total_size))
      ∷ (codes "nextPageToken", str response.next_page_token)
      ∷ []))

abbrev token_in : Option Json → Str
token_in (some (obj params)) = elim (get (codes "pageToken") params) [
  | some (str token) ↦ token
  | _ ↦ []
]
token_in _ = []

abbrev asked_token : Option Json → Str
asked_token (some (obj body)) = token_in (get (codes "params") body)
asked_token _ = []

abbrev serve : Str → ListResponse
serve token =
    a2a_hub.Store.Listing.list_tasks paged_sdk codec (record one_each { page_token = token }) ana

abbrev to_hub : Transport (Unit {0})
to_hub url body headers s =
    (some (obj (dict ((codes "result", shown (serve (asked_token body))) ∷ []))), s)

abbrev config : ClientConfig
config = record {
  url = codes "http://hub/";
  agent = codes "ana";
  token = codes "t1";
  session = codes "s1";
  session_from_shared_file = false;
}

abbrev pub client : HubClient (Unit {0})
client = record { config = config; transport = to_hub }

abbrev pub world : World (Unit {0})
world = record { hub = tt; printed = [] }

abbrev page_at : Str → List Json → Page
page_at token tasks = record {
  tasks = tasks;
  total = pos (serve token).total_size;
  next = (serve token).next_page_token;
}

answered :
    (token : Str) (w : World (Unit {0}))
    → fetch_page no_repr client true 1 token w
      ≡ (ok (page_shown encode (λ response. pos response.total_size) (serve token)), w)
unfolding fetch_page a2a_hub.Client.Calls.list_tasks rpc exchange page_of get ◌==◌
answered [] w =
    ap (λ (tasks : List Json). (ok (page_at [] tasks), w))
      (items-array (map encode (serve []).tasks))
answered (c ∷ token) w =
    ap (λ (tasks : List Json). (ok (page_at (c ∷ token) tasks), w))
      (items-array (map encode (serve (c ∷ token)).tasks))

reaches : Reaches (fetch_page no_repr client true 1) serve encode
reaches = record {
  total = λ response. pos response.total_size;
  after = λ token w. w;
  answers = answered;
}

paged-IsFull : IsFull paged_sdk 1 a2a_hub.Json.end ana
unfolding ask
paged-IsFull owner token h = ground arith

list_all_tasks_whole_example :
    (walked : Walked) × (w' : World (Unit {0})) × (rest : List Task) × (list_all_tasks no_repr
        client true 1 9 world
      ≡ (ok (some walked), w'))
    × (walked.incomplete ≡ false)
    × (walked.tasks ≡ map encode rest)
    × Perm rest (held (codes "ana/s1") [] ++ held (codes "ana") [])
unfolding paged hub_owner_resolver
list_all_tasks_whole_example =
    list_all_tasks_whole no_repr client true 1 encode paged_sdk codec one_each (codes "ana")
      (codes "s1") ana-NoSlash paged codec-IsCodec paged-IsFull reaches 9 world (omega arith)

list_all_tasks-Ends_example :
    Ends 3 (fetch_page no_repr client true 1) (list_all_tasks no_repr client true 1 3 world)
list_all_tasks-Ends_example = list_all_tasks-Ends no_repr client true 1 3 world

abbrev addressed_to : Str → Json
addressed_to recipient = obj (
    dict (
      (
        codes "artifacts",
        arr (
            array (
              obj (
                dict
                  ((codes "metadata", obj (dict ((codes "recipient", str recipient) ∷ []))) ∷ []))
              ∷ [])),
      )
      ∷ []))

abbrev mailbox : List Json
mailbox = addressed_to (codes "ana") ∷ addressed_to (codes "ana/s1") ∷ obj (dict []) ∷ []

split_by_mailbox_test :
    split_by_mailbox mailbox (codes "ana/s1") (codes "ana")
    ≡ record { session = 1; broadcast = 1; unclassified = 1 }
unfolding split_by_mailbox split_from task_recipient find_recipient recipient_of get ◌==◌
split_by_mailbox_test = refl

abbrev old_task : Json
old_task = obj (
    dict (
      (codes "id", str (codes "t0"))
      ∷ (codes "status", obj (dict ((codes "timestamp", str (codes "2026-08-01")) ∷ [])))
      ∷ []))

abbrev pending : List Json
pending = encode_id (codes "t1") ∷ encode_id (codes "t2") ∷ old_task ∷ []

unprocessed_exact_example :
    ((unprocessed (codes "t1" ∷ []) pending).tasks
      ≡ keep_if
          (λ task. not (is_closed_task (codes "t1" ∷ []) task) && not (is_history task))
          pending)
    × ((unprocessed (codes "t1" ∷ []) pending).hidden_closed
        ≡ length (keep_if (is_closed_task (codes "t1" ∷ [])) pending))
    × (length (unprocessed (codes "t1" ∷ []) pending).tasks
          + ((unprocessed (codes "t1" ∷ []) pending).hidden_closed
              + (unprocessed (codes "t1" ∷ []) pending).hidden_pre_cutoff)
        ≡ 3)
unprocessed_exact_example = unprocessed_exact (codes "t1" ∷ []) pending

unprocessed_test :
    unprocessed (codes "t1" ∷ []) pending
    ≡ record { tasks = encode_id (codes "t2") ∷ []; hidden_closed = 1; hidden_pre_cutoff = 1 }
unfolding unprocessed get ◌==◌ mem text_lt
unprocessed_test = refl

abbrev pub host : Host
host = record {
  environ = [];
  config_path = codes "agent.env";
  config_lines = none;
  hostname = codes "ns1";
  fresh_id = codes "0a";
  read_text = λ path. none;
  repr = no_repr;
  quote = λ s. s;
}

-- `a2a-client send bob --body-fil x`
abbrev misspelled : List Str
misspelled = codes "send" ∷ codes "bob" ∷ codes "--body-fil" ∷ codes "x" ∷ []

misspelled-IsIdle : IsIdle misspelled 1
unfolding take_session asks_help unknown_flags known_flags ◌==◌ mem starts_with
misspelled-IsIdle = mistyped refl refl refl (send_flag (refl, refl) refl)

main_idle_example :
    ((main host none to_hub misspelled world).0 ≡ ok 1)
    × ((main host none to_hub misspelled world).1.hub ≡ tt)
main_idle_example = main_idle host none to_hub misspelled 1 world misspelled-IsIdle
