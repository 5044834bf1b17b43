-- ===== src/Examples/Posting.antt =====
-- A message store that keeps a list of deliveries, and a hub that runs on it.
use a2a_hub.Prelude.{
  ◌≡◌, ◌⊎◌, refl, sym, inl, inr, ◌&&◌, Bool-cases, Option, none, some, List, [], ◌∷◌, Some, arith,
  if◌then◌else◌, ap, ◌∙◌,
}
use a2a_hub.Prelude.Text.{
  Str, codes, ◌==◌, eq_iff, mem, strip, lstrip, rstrip, is_space, lower, partition,
}
use a2a_hub.Json.{str, obj, dict, get}
use a2a_hub.Auth.Identity.{
  principal_of, is_valid_identity, is_valid_cut, matches_session, session_rest,
}
use a2a_hub.Auth.Tokens.{extract_bearer, resolve, resolve_from, compare_digest, is_ascii}
use a2a_hub.Auth.Bearer.{bearer_call, admit}
use a2a_hub.Auth.Body.{body_guard}
use a2a_hub.Executor.{
  Event, new_task, artifact, status, Emitted, struct_to_dict, execute, process, route, ensure_task,
  extract_recipient, first_recipient, recipient_in, hub_owner_resolver,
}
use a2a_hub.Prelude.Int.{pos}
use a2a_hub.Marks.Routes.{loaded, context_of}
use a2a_hub.Store.{
  Task, sender_of, sender_in, get_task, get_from_mailbox, get_as_sender, first_owned, read_owners,
}
use a2a_hub.Hub.{Hub, new_hub, Request, json_rpc, mark_set, serve}
use a2a_hub.Hub.Post.{
  Call, sending, caller, emitted, IsStamp, MessageStore, IsFaithful, Running, start, then_serve,
  then_call,
}
use a2a_hub.Hub.Post.Read.{task_read_sound}
use a2a_hub.Hub.Visits.{Visit, visit, HasProved}
use a2a_hub.Hub.Post.Authentic.{IsAuthentic, Running-IsAuthentic}
use a2a_hub.Examples.Access.{tokens, header, rpc_scope}
use a2a_hub.Examples.Deliveries.{request_to}
use a2a_hub.Examples.Reads.{sent_task}
use a2a_hub.Examples.Serving.{services, app, created, plain, proven, mark_scope}

record Delivery : Type 0 where
  owner : Str
  id : Str
  from : Str

-- an artifact is a delivery
abbrev delivered : Str → Str → Event → List Delivery → List Delivery
delivered owner id (artifact parts from recipient message_id) kept =
    record { owner = owner; id = id; from = from } ∷ kept
delivered owner id _ kept = kept

deliver_all : Str → List Emitted → List Delivery → List Delivery
deliver_all id [] kept = kept
deliver_all id (e ∷ queue) kept = delivered e.owner id e.event (deliver_all id queue kept)

fetch_delivery : List Delivery → Str → Str → Option Task
fetch_delivery [] owner id = none
fetch_delivery (d ∷ kept) owner id =
    if (d.owner == owner) && (d.id == id)
    then some (sent_task id d.from)
    else fetch_delivery kept owner id

abbrev list_store : MessageStore (List Delivery)
list_store = record {
  empty = [];
  view = λ kept. record {
    fetch = fetch_delivery kept;
    by_id = λ id. none;
    page = λ params owner. record {
      tasks = [];
      total_size = 0;
      next_page_token = [];
      page_size = params.page_size;
    };
  };
  saves = λ kept identity id queue after. after ≡ deliver_all id queue kept;
}

step_owned :
    (o id owner task_id : Str) (event : Event) (kept : List Delivery) (task : Task)
    → fetch_delivery (delivered o id event kept) owner task_id ≡ some task
    → (fetch_delivery kept owner task_id ≡ some task) ⊎ (o ≡ owner)
unfolding fetch_delivery
step_owned o id owner task_id (artifact parts from recipient message_id) kept task h =
    elim (Bool-cases (o == owner)) [
      | inl same ↦ inr ((eq_iff o owner).0 same)
      | inr other ↦ inl (ground (arith, h, other))
    ]
step_owned o id owner task_id (new_task t c) kept task h = inl h
step_owned o id owner task_id (status state notice) kept task h = inl h

deliver_all_owned :
    (id owner task_id : Str) (queue : List Emitted) (kept : List Delivery) (task : Task)
    → fetch_delivery (deliver_all id queue kept) owner task_id ≡ some task
    → (fetch_delivery kept owner task_id ≡ some task) ⊎ Some (λ e. e.owner ≡ owner) queue
unfolding deliver_all
deliver_all_owned id owner task_id [] kept task h = inl h
deliver_all_owned id owner task_id (e ∷ queue) kept task h =
    elim (step_owned e.owner id owner task_id e.event _ task h) [
      | inr same ↦ inr (inl same)
      | inl before ↦ elim (deliver_all_owned id owner task_id queue kept task before) [
        | inl old ↦ inl old
        | inr later ↦ inr (inr later)
      ]
    ]

sent_task-sender :
    (id from sender : Str) → sender_of (sent_task id from).artifacts ≡ some sender → from ≡ sender
unfolding sender_of sender_in struct_to_dict get ◌==◌
sent_task-sender id from sender h = ground (arith, h)

step_stamped :
    (o id owner task_id : Str) (event : Event) (kept : List Delivery) (task : Task) (sender : Str)
    → fetch_delivery (delivered o id event kept) owner task_id ≡ some task
    → sender_of task.artifacts ≡ some sender
    → (fetch_delivery kept owner task_id ≡ some task) ⊎ IsStamp sender event
unfolding fetch_delivery
step_stamped o id owner task_id (artifact parts from recipient message_id) kept task sender h
      signed =
    elim (Bool-cases ((o == owner) && (id == task_id))) [
      | inl here ↦
          let same : sent_task task_id from ≡ task = cc (rw here at h) in
          inr (
            sent_task-sender task_id from sender
              (ap (λ (t : Task). sender_of t.artifacts) same ∙ signed))
      | inr other ↦ inl (rw other at h)
    ]
step_stamped o id owner task_id (new_task t c) kept task sender h signed = inl h
step_stamped o id owner task_id (status state notice) kept task sender h signed = inl h

deliver_all_stamped :
    (id owner task_id : Str) (queue : List Emitted) (kept : List Delivery) (task : Task)
    (sender : Str)
    → fetch_delivery (deliver_all id queue kept) owner task_id ≡ some task
    → sender_of task.artifacts ≡ some sender
    → (fetch_delivery kept owner task_id ≡ some task) ⊎ Some (λ e. IsStamp sender e.event) queue
unfolding deliver_all
deliver_all_stamped id owner task_id [] kept task sender h signed = inl h
deliver_all_stamped id owner task_id (e ∷ queue) kept task sender h signed =
    elim (step_stamped e.owner id owner task_id e.event _ task sender h signed) [
      | inr stamp ↦ inr (inl stamp)
      | inl before ↦
          elim (deliver_all_stamped id owner task_id queue kept task sender before signed) [
            | inl old ↦ inl old
            | inr later ↦ inr (inr later)
          ]
    ]

faithful : IsFaithful list_store
unfolding fetch_delivery
faithful = record {
  nothing = λ owner task_id. refl;
  found = λ kept task_id task h. absurd (cc h);
  owned = λ kept after identity id queue owner task_id task saved here.
      elim (deliver_all_owned id owner task_id queue kept task
        (ap (λ s. fetch_delivery s owner task_id) (sym saved) ∙ here)) [
          | inl old ↦ inl (task, old)
          | inr event ↦ inr (inr event)
        ];
  stamped = λ kept after identity id queue owner task_id task sender saved here signed.
      elim (deliver_all_stamped id owner task_id queue kept task sender
        (ap (λ s. fetch_delivery s owner task_id) (sym saved) ∙ here) signed) [
          | inl old ↦ inl (owner, task, old, signed)
          | inr stamp ↦ inr stamp
        ];
}

-- `bob/s1` writes to the mailbox of `bob`
abbrev letter : Call
letter = sending (request_to (codes " bob "))

abbrev with_letter : List Delivery
with_letter = deliver_all (codes "t1") (emitted services app (codes "bob/s1") letter) []

letter_test :
    with_letter ≡ (record { owner = codes "bob"; id = codes "t1"; from = codes "bob/s1" }) ∷ []
unfolding deliver_all emitted execute process route ensure_task extract_recipient first_recipient
    recipient_in struct_to_dict hub_owner_resolver get ◌==◌ strip lstrip rstrip is_space
    is_valid_identity is_valid_cut mem partition
letter_test = refl

caller_test : caller services app 7 header rpc_scope new_hub ≡ some (codes "bob/s1")
unfolding caller body_guard bearer_call admit ◌==◌ mem extract_bearer resolve resolve_from
    compare_digest is_ascii partition lower strip lstrip rstrip is_space matches_session
    session_rest
caller_test = refl

abbrev after_letter : Hub
after_letter = (serve services (list_store.view []) app 7 header rpc_scope json_rpc new_hub).1

abbrev after_mark : Hub
after_mark =
    (serve services (list_store.view with_letter) app 9 header mark_scope
      (mark_set (codes "t1") (
        loaded (
          obj (
            dict (
              (codes "state", str (codes "processed"))
              ∷ (codes "detail", str (codes "done and merged"))
              ∷ [])))))
      after_letter).1

abbrev mark_request : Request
mark_request = mark_set (codes "t1") (
    loaded (
      obj (
        dict (
          (codes "state", str (codes "processed"))
          ∷ (codes "detail", str (codes "done and merged"))
          ∷ []))))

abbrev two_visits : List Visit
two_visits =
    visit 9 header mark_scope mark_request (list_store.view with_letter)
    ∷ visit 7 header rpc_scope json_rpc (list_store.view [])
    ∷ []

letter_and_mark : Running services app list_store two_visits after_mark with_letter
letter_and_mark =
    then_serve
      (then_call start 7 (omega arith) header rpc_scope (codes "bob/s1") caller_test letter
        with_letter refl)
      9 (omega arith) header mark_scope mark_request

Running-IsAuthentic_example :
    IsAuthentic services app two_visits (list_store.view with_letter) after_mark
Running-IsAuthentic_example =
    Running-IsAuthentic services tokens (codes "/") (pos 1048576) app created plain list_store
      faithful two_visits after_mark with_letter letter_and_mark

abbrev the_letter : Task
the_letter = sent_task (codes "t1") (codes "bob/s1")

letter_handed :
    get_task (list_store.view with_letter) (codes "t1") (context_of (codes "bob/s1"))
    ≡ some the_letter
unfolding get_task get_from_mailbox get_as_sender first_owned read_owners hub_owner_resolver
    principal_of partition fetch_delivery ◌==◌
letter_handed = rw letter_test refl

task_read_sound_example :
    (((list_store.view with_letter).fetch (codes "bob/s1") (codes "t1") ≡ some the_letter)
      ⊎ ((list_store.view with_letter).fetch proven.agent (codes "t1") ≡ some the_letter)
      ⊎ (sender_of the_letter.artifacts ≡ some (codes "bob/s1")))
    × ((name : Str)
        → sender_of the_letter.artifacts ≡ some name
        → HasProved services app two_visits name)
task_read_sound_example =
    task_read_sound services tokens (codes "/") (pos 1048576) app created plain list_store faithful
      two_visits after_mark with_letter letter_and_mark 7 header (codes "bob/s1") proven
      (codes "t1") the_letter letter_handed
