-- ===== src/Client/Marking.antt =====
-- The client's calls on marks against the routes of src/a2a_hub/routes_marks.py.
pub mod Asked
pub mod Kept
use mathlib.Core.List.{Perm, Mem, mem-cons_self, mem-cons_of_mem}
use mathlib.Core.List.Perm
use a2a_hub.Prelude.{
  ℕ, ◌≤◌, ◌≡◌, refl, sym, ap, subst, ◌∙◌, inl, inr, true, false, Bool-cases, Option, none, some,
  List, [], ◌∷◌, ◌++◌, arith, if◌then◌else◌, length, take, map, leb,
}
use a2a_hub.Prelude.Text.{
  Str, codes, ◌==◌, eq_iff, eq_refl, is_empty, strip, lower, join, rstrip_char,
}
use a2a_hub.Json.{Json, Fields, str, obj, arr, array, dict, get, text_or_empty}
use a2a_hub.Auth.Refusal.{Response}
use a2a_hub.Auth.Trimmed.{strip-strip}
use a2a_hub.Store.{Task, Sdk, get_from_mailbox, get_task}
use a2a_hub.Marks.{
  MarkState, processed, discarded, awaiting, state_text, min_detail, max_detail, Mark, clean,
  CleanResult, clean_mark, Row, Orders, rows_where, get_marks, set_mark,
}
use a2a_hub.Marks.Clean.{clean_mark_complete}
use a2a_hub.Marks.Routes.{
  loaded, context_of, sender_text, row_json, marks_json, set_mark_route, get_mark_route, check_mark,
  store_mark,
}
use a2a_hub.Marks.Table.{find, find-set_mark}
use a2a_hub.Client.Effect.{Outcome, ok, Line, marked_as, World, M, ◌>>=◌, continue, Transport}
use a2a_hub.Client.Calls.{HubClient, headers_of, exchange, http_result, http, mark, mark_of}
use a2a_hub.Client.Command.{mark_command, record_mark}
use a2a_hub.Client.Arguments.{free_text_or_refuse}
use a2a_hub.Client.Host.{Host, field_of}

-- what `urlopen` makes of an answer: it raises on an error status
abbrev pub received : Response → Option Json
received response = if leb 400 response.status_code then none else some response.content

module _ {S : Type 0} (client : HubClient S) where
  abbrev pub url_at : Str → Str
  url_at path = rstrip_char b'/' client.config.url ++ path

  abbrev pub sent : Str → Option Json → S → Option Json × S
  sent path body = client.transport (url_at path) body (headers_of client.config)

  http_result_of_payload :
      (repr : Json → Str) (payload : Fields)
      → get (codes "error") payload ≡ none
      → http_result repr client payload ≡ ok payload
  http_result_of_payload repr payload fine = rw (http_result, fine) refl

  pub http_answered :
      (repr : Json → Str) (path : Str) (body : Option Json) (payload : Fields) (w : World S)
      → (sent path body w.hub).0 ≡ some (obj payload)
      → get (codes "error") payload ≡ none
      → http repr client path body w ≡ (ok payload, record w { hub = (sent path body w.hub).1 })
  unfolding http exchange
  http_answered repr path body payload w answer fine = rw answer (
      ap (λ (o : Outcome Fields). (o, record w { hub = (sent path body w.hub).1 }))
        (http_result_of_payload repr payload fine))

abbrev pub path_of_mark : Str → Str
path_of_mark task_id = codes "/messages/" ++ task_id ++ codes "/mark"

-- The client's calls on the marks of a message reach the routes, at the instant given and as this
-- caller; `rows` is the table of marks in a state behind the transport.
pub record ServesMarks {S : Type 0} (client : HubClient S) (sdk : Sdk) (repr : Json → Str)
    (iso : ℕ → Str) (explain : CleanResult → Str) (orders : Orders) (now : ℕ)
    (identity task_id : Str) (rows : S → List Row) : Type 0 where
  pub posted :
      (body : Json) (s : S)
      → ((sent client (path_of_mark task_id) (some body) s).0
          ≡ received
              (set_mark_route sdk repr iso explain now task_id identity (loaded body) (rows s)).0)
        × (rows (sent client (path_of_mark task_id) (some body) s).1
            ≡ (set_mark_route sdk repr iso explain now task_id identity (loaded body) (rows s)).1)
  pub read :
      (s : S)
      → ((sent client (path_of_mark task_id) none s).0
          ≡ received (get_mark_route sdk repr iso explain orders task_id identity (rows s)))
        × (rows (sent client (path_of_mark task_id) none s).1 ≡ rows s)
