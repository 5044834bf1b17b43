-- ===== src/Examples/Marking.antt =====
-- `processed` of a message, by a client whose transport is the routes themselves.
use mathlib.Core.List.{Mem}
use mathlib.Core.List.Perm
use a2a_hub.Prelude.{length, take, map, ◌≤◌, ℕ, ◌≡◌, refl, none, some, List, [], ◌∷◌, arith}
use a2a_hub.Prelude.Text.{
  Str, codes, ◌==◌, strip, lstrip, rstrip, is_space, join, partition, starts_with,
}
use a2a_hub.Json.{str, obj, arr, array, dict}
use a2a_hub.Auth.Identity.{principal_of}
use a2a_hub.Executor.{hub_owner_resolver}
use a2a_hub.Store.{get_from_mailbox, first_owned, read_owners}
use a2a_hub.Marks.{CleanResult, Row, Orders, processed}
use a2a_hub.Marks.Routes.{loaded, context_of, sender_text, row_json, set_mark_route, get_mark_route}
use a2a_hub.Client.Effect.{ok, World, Transport, marked_as}
use a2a_hub.Client.Arguments.{free_text_or_refuse}
use a2a_hub.Client.Calls.{HubClient, mark_of}
use a2a_hub.Client.Command.{mark_command}
use a2a_hub.Client.Marking.{received, ServesMarks}
use a2a_hub.Client.Marking.Kept.{mark_command_kept}
use a2a_hub.Examples.Calling.{client, host, no_repr}
use a2a_hub.Examples.Reads.{small_sdk, sent_task}

abbrev no_iso : ℕ → Str
no_iso at = []

abbrev no_words : CleanResult → Str
no_words c = []

abbrev as_stored : Orders
as_stored = record { oldest_first = λ rows. rows; newest_first = λ rows. rows }

-- the routes on the message `in`, for `ana/s1`
abbrev to_routes : Transport (List Row)
to_routes url (some body) headers rows =
    let result =
      set_mark_route small_sdk no_repr no_iso no_words 9 (codes "in") (codes "ana/s1") (loaded body)
        rows in
    (received result.0, result.1)
to_routes url none headers rows = (
  received (
      get_mark_route small_sdk no_repr no_iso no_words as_stored (codes "in") (codes "ana/s1")
        rows),
  rows,
)

abbrev ana_client : HubClient (List Row)
ana_client = record { config = client.config; transport = to_routes }

abbrev table_of : List Row → List Row
table_of rows = rows

serves :
    ServesMarks ana_client small_sdk no_repr no_iso no_words as_stored 9
      (codes "ana/s1")
      (codes "in")
      table_of
serves = record { posted = λ body rows. (refl, refl); read = λ rows. (refl, refl) }

in_mailbox :
    get_from_mailbox small_sdk (codes "in") (context_of (codes "ana/s1"))
    ≡ some (sent_task (codes "in") (codes "bob/s2"))
unfolding get_from_mailbox first_owned read_owners hub_owner_resolver principal_of partition ◌==◌
in_mailbox = refl

abbrev words : List Str
words = codes "done" ∷ codes "and merged" ∷ []

plain_words :
    free_text_or_refuse
      (codes "processed")
      words
      (codes "usage: a2a-client processed <task-id> <text...>")
    ≡ ok words
unfolding free_text_or_refuse ◌==◌ starts_with
plain_words = refl

long_enough : 8 ≤ length (strip (join (codes " ") words))
unfolding strip lstrip rstrip is_space join
long_enough = omega arith

abbrev untouched : World (List Row)
untouched = record { hub = []; printed = [] }

abbrev done_row : Row
done_row = record {
  task_id = codes "in";
  identity = codes "ana/s1";
  state = processed;
  detail = take 2000 (strip (join (codes " ") words));
  sender = sender_text (sent_task (codes "in") (codes "bob/s2")).artifacts;
  marked_at = 9;
}

abbrev after : World (List Row)
after = record {
  hub =
      (set_mark_route small_sdk no_repr no_iso no_words 9 (codes "in") (codes "ana/s1")
        (loaded (
          obj (
            dict (
              (codes "state", str (codes "processed"))
              ∷ (codes "detail", str (strip (join (codes " ") words)))
              ∷ []))))
        []).1;
  printed = marked_as (str (codes "processed")) (str (codes "in")) ∷ [];
}

mark_command_kept_example :
    (shown : List Row) × (mark_command host ana_client
        (codes "processed")
        (codes "in" ∷ words)
        untouched
      ≡ (ok 0, after))
    × ((mark_of no_repr ana_client (codes "in") after).0
        ≡ ok (
            dict (
              (codes "task_id", str (codes "in"))
              ∷ (codes "marks", arr (array (map (row_json no_iso) shown)))
              ∷ [])))
    × Mem done_row shown
mark_command_kept_example =
    mark_command_kept host ana_client small_sdk no_iso no_words as_stored 9 (codes "ana/s1")
      (codes "in") table_of serves (sent_task (codes "in") (codes "bob/s2")) in_mailbox processed
      (λ rows. Perm.refl rows) words words untouched plain_words long_enough
