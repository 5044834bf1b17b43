-- ===== src/Examples/Marked.antt =====
-- Marking a message, refused and granted, and the table of marks.
use mathlib.Core.List.Perm
use a2a_hub.Prelude.{ℕ, ◌≤◌, ◌≡◌, ◌≢◌, refl, List, [], ◌∷◌, arith, length, take}
use a2a_hub.Prelude.Text.{Str, codes, ◌==◌, mem, lower, strip, lstrip, rstrip, is_space, partition}
use a2a_hub.Json.{Json, str, obj, dict, Fields, get, text_or_empty}
use a2a_hub.Auth.Identity.{principal_of}
use a2a_hub.Executor.{hub_owner_resolver}
use a2a_hub.Store.{read_owners, first_owned, get_from_mailbox}
use a2a_hub.Marks.{
  processed, awaiting, state_of_text, Mark, CleanResult, clean, clean_detail, clean_mark, Row,
  marked_by, min_detail, max_detail,
}
use a2a_hub.Marks.Table.{find, IsKeyed}
use a2a_hub.Marks.Clean.{clean_mark_sound}
use a2a_hub.Marks.Routes.{loaded, closed_ids, store_mark, check_mark, set_mark_route}
use a2a_hub.Marks.Guarded.{IsGranted, set_mark_route_sound}
use a2a_hub.Executor.{struct_to_dict}
use a2a_hub.Store.{sender_in, sender_of, get_as_sender, get_task}
use a2a_hub.Marks.{Orders, get_marks, rows_where}
use a2a_hub.Marks.Routes.{reply, marks_json, own_as_sender, get_mark_route}
use a2a_hub.Prelude.{true, ◌↔◌}
use a2a_hub.Marks.Closed.{IsClosing, closed_ids_iff}
use a2a_hub.Marks.Shown.{IsShown, get_mark_route_sound}
use a2a_hub.Examples.Reads.{small_sdk, ana-NoSlash}

abbrev no_repr : Json → Str
no_repr v = []

abbrev no_iso : ℕ → Str
no_iso n = []

abbrev no_words : CleanResult → Str
no_words r = []

abbrev asked : Fields
asked =
    dict (
      (codes "state", str (codes " Processed")) ∷ (codes "detail", str (codes "see issue 40")) ∷ [])

abbrev done : Mark
done = record { state = processed; detail = codes "see issue 40" }

abbrev parked : Row
parked = record {
  task_id = codes "in";
  identity = codes "ana/s2";
  state = awaiting;
  detail = codes "who pays?";
  sender = codes "bob/s2";
  marked_at = 3;
}

clean_mark_test : clean_mark no_repr asked ≡ clean done
unfolding clean_mark clean_detail state_of_text text_or_empty get ◌==◌ lower strip lstrip rstrip
    is_space
clean_mark_test = refl

clean_mark_sound_example :
    (lower (strip (text_or_empty no_repr (get (codes "state") asked))) ≡ codes "processed")
    × (codes "see issue 40"
        ≡ take max_detail (strip (text_or_empty no_repr (get (codes "detail") asked))))
    × (min_detail ≤ 12)
    × (12 ≤ max_detail)
clean_mark_sound_example = clean_mark_sound no_repr asked done clean_mark_test

state_test : lower (strip (text_or_empty no_repr (get (codes "state") asked))) ≡ codes "processed"
unfolding text_or_empty get ◌==◌ lower strip lstrip rstrip is_space
state_test = refl

detail_test : min_detail ≤ length (strip (text_or_empty no_repr (get (codes "detail") asked)))
unfolding text_or_empty get ◌==◌ strip lstrip rstrip is_space
detail_test = omega arith

abbrev rows : List Row
rows = parked ∷ []

status_test :
    (set_mark_route small_sdk no_repr no_iso no_words 9
      (codes "in")
      (codes "ana/s1")
      (loaded (obj asked))
      rows).0.status_code
    ≡ 200
unfolding set_mark_route check_mark store_mark clean_mark clean_detail state_of_text text_or_empty
    get ◌==◌ lower strip lstrip rstrip is_space get_from_mailbox first_owned read_owners
    hub_owner_resolver principal_of partition
status_test = refl

set_mark_route_sound_example :
    IsGranted small_sdk no_repr 9
      (codes "in")
      (codes "ana")
      (codes "s1")
      (loaded (obj asked))
      rows
      (set_mark_route small_sdk no_repr no_iso no_words 9
        (codes "in")
        (codes "ana/s1")
        (loaded (obj asked))
        rows).1
set_mark_route_sound_example =
    set_mark_route_sound small_sdk no_repr no_iso no_words 9 (codes "in") (codes "ana") (codes "s1")
      ana-NoSlash refl (loaded (obj asked)) rows status_test

-- the sender of a message may not mark it
refused_test :
    (set_mark_route small_sdk no_repr no_iso no_words 9
      (codes "out")
      (codes "ana/s1")
      (loaded (obj asked))
      rows).0.status_code
    ≢ 200
unfolding set_mark_route check_mark store_mark clean_mark clean_detail state_of_text text_or_empty
    get ◌==◌ lower strip lstrip rstrip is_space get_from_mailbox first_owned read_owners
    hub_owner_resolver principal_of partition
refused_test h = omega (arith, h)

keyed : IsKeyed rows
unfolding find
keyed = (refl, tt)

closed_ids_iff_example :
    (mem (codes "in") (closed_ids (marked_by (codes "ana/s2") rows)) ≡ true)
    ↔ IsClosing (find (codes "in") (codes "ana/s2") rows)
closed_ids_iff_example = closed_ids_iff (codes "in") (codes "ana/s2") rows keyed

abbrev as_stored : Orders
as_stored = record { oldest_first = λ rs. rs; newest_first = λ rs. rs }

sender_status_test :
    (get_mark_route small_sdk no_repr no_iso no_words as_stored
      (codes "in")
      (codes "bob/s2")
      rows).status_code
    ≡ 200
unfolding get_mark_route get_task get_from_mailbox get_as_sender first_owned read_owners
    hub_owner_resolver principal_of partition sender_of sender_in struct_to_dict get get_marks
    rows_where own_as_sender ◌==◌
sender_status_test = refl

get_mark_route_sound_example :
    (shown : List Row) × (get_mark_route small_sdk no_repr no_iso no_words as_stored
        (codes "in")
        (codes "bob/s2")
        rows
      ≡ reply 200 (marks_json no_iso (codes "in") shown))
    × IsShown small_sdk (codes "in") (codes "bob/s2") rows shown
get_mark_route_sound_example =
    get_mark_route_sound small_sdk no_repr no_iso no_words as_stored (λ rs. Perm.refl rs)
      (codes "in") (codes "bob/s2") rows sender_status_test
