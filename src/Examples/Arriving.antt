-- ===== src/Examples/Arriving.antt =====
-- A message from `ana/s1` that reaches `bob/s2`.
use a2a_hub.Prelude.{
  ◌≡◌, refl, sym, ap, ◌∙◌, inl, inr, true, Bool, Bool-cases, ◌&&◌, Option, none, some, List, [],
  ◌∷◌, ◌++◌, arith, if◌then◌else◌,
}
use a2a_hub.Prelude.Text.{
  Str, codes, ◌==◌, eq_iff, lower, mem, strip, lstrip, rstrip, is_space, partition,
}
use a2a_hub.Json.{Fields, str, obj, dict, get, text_or_empty}
use a2a_hub.Auth.Identity.{is_valid_identity, is_valid_cut, matches_session, session_rest}
use a2a_hub.Executor.{
  artifact, Emitted, struct_to_dict, hub_owner_resolver, recipient_in, first_recipient,
  extract_recipient, ensure_task, route, process, execute,
}
use a2a_hub.Store.{Task, Sdk, sender_of, sender_in, get_from_mailbox, get_task}
use a2a_hub.Store.Reading.{session_context}
use a2a_hub.Marks.{processed, clean, clean_mark, clean_detail, state_of_text}
use a2a_hub.Marks.Routes.{loaded, set_mark_route}
use a2a_hub.Marks.Table.{find}
use a2a_hub.Hub.Arrival.{Saves, delivered_readable, delivered_markable}
use a2a_hub.Examples.Deliveries.{principals, quote, request_to, fresh, deliverable}
use a2a_hub.Examples.Reads.{sent_task}
use a2a_hub.Examples.Serving.{bob-NoSlash, services}

-- the message of the run is stored for `bob/s2`
abbrev stored_sdk : Sdk
stored_sdk = record {
  fetch =
      λ owner id. if owner == codes "bob/s2" then some (sent_task id (codes "ana/s1")) else none;
  by_id = λ id. none;
  page = λ params owner. record { tasks = []; total_size = 0; next_page_token = []; page_size = 1 };
}

abbrev is_stored : Emitted → Bool
is_stored emitted = elim emitted.event [
  | artifact parts sender recipient message_id ↦
      (emitted.owner == codes "bob/s2") && (sender == codes "ana/s1")
  | _ ↦ true
]

abbrev all_stored : List Emitted → Bool
all_stored [] = true
all_stored (e ∷ queue) = is_stored e && all_stored queue

stored_at :
    (before after : List Emitted) (e : Emitted)
    → all_stored (before ++ e ∷ after) ≡ true
    → is_stored e ≡ true
stored_at [] after e h = ground (arith, h)
stored_at (b ∷ before) after e h = stored_at before after e (ground (arith, h))

run_stored :
    all_stored (execute quote principals (request_to (codes " bob/s2 ")) fresh).queue ≡ true
unfolding execute process route ensure_task extract_recipient first_recipient recipient_in
    struct_to_dict hub_owner_resolver get ◌==◌ strip lstrip rstrip is_space is_valid_identity
    is_valid_cut matches_session session_rest mem partition
run_stored = refl

sender_test :
    (id : Str) → sender_of (sent_task id (codes "ana/s1")).artifacts ≡ some (codes "ana/s1")
unfolding sender_of sender_in struct_to_dict get ◌==◌
sender_test id = refl

abbrev task_or : Task → Option Task → Task
task_or default none = default
task_or default (some task) = task

only_task :
    (owner : Str) (t : Task)
    → stored_sdk.fetch owner (codes "t1") ≡ some t
    → t ≡ sent_task (codes "t1") (codes "ana/s1")
only_task owner t h = elim (Bool-cases (owner == codes "bob/s2")) [
  | inl his ↦ sym (ap (task_or t) (rw his at h))
  | inr other ↦ absurd (cc (rw other at h))
]

saves :
    Saves stored_sdk
      (codes "t1")
      (execute quote principals (request_to (codes " bob/s2 ")) fresh).queue
saves = record {
  saved = λ before after parts owner sender recipient message_id same signed.
      let here =
        stored_at before after
          (record { owner = owner; event = artifact parts sender recipient message_id })
          (ap all_stored (sym same) ∙ run_stored) in
      (
        sent_task (codes "t1") (codes "ana/s1"),
        ground (arith, here),
        sender_test (codes "t1")
            ∙ ap some (sym ((eq_iff sender (codes "ana/s1")).0 (ground (arith, here)))),
      );
  one_task = λ a b t u first second. only_task a t first ∙ sym (only_task b u second);
}

delivered_readable_example :
    (task : Task) × (get_task stored_sdk (codes "t1") (session_context (codes "bob") (codes "s2"))
      ≡ some task)
    × (get_from_mailbox stored_sdk (codes "t1") (session_context (codes "bob") (codes "s2"))
        ≡ some task)
    × (sender_of task.artifacts ≡ some (codes "ana/s1"))
delivered_readable_example =
    delivered_readable quote principals (request_to (codes " bob/s2 ")) fresh refl deliverable
      stored_sdk saves (codes "bob") (codes "s2") bob-NoSlash refl (inl refl)

abbrev done : Fields
done = dict (
    (codes "state", str (codes "processed")) ∷ (codes "detail", str (codes "done and merged")) ∷ [])

done_clean :
    clean_mark services.repr done
    ≡ clean (record { state = processed; detail = codes "done and merged" })
unfolding clean_mark clean_detail state_of_text text_or_empty get ◌==◌ lower strip lstrip rstrip
    is_space
done_clean = refl

delivered_markable_example :
    ((set_mark_route stored_sdk services.repr services.iso services.explain_mark 9
        (codes "t1")
        (codes "bob/s2")
        (loaded (obj done))
        []).0.status_code
      ≡ 200)
    × (find
          (codes "t1")
          (codes "bob/s2")
          (set_mark_route stored_sdk services.repr services.iso services.explain_mark 9
            (codes "t1")
            (codes "bob/s2")
            (loaded (obj done))
            []).1
        ≡ some (record {
          task_id = codes "t1";
          identity = codes "bob/s2";
          state = processed;
          detail = codes "done and merged";
          sender = codes "ana/s1";
          marked_at = 9;
        }))
delivered_markable_example =
    delivered_markable quote principals (request_to (codes " bob/s2 ")) fresh refl deliverable
      stored_sdk saves services 9 (codes "bob") (codes "s2") done
      (record { state = processed; detail = codes "done and merged" }) [] bob-NoSlash refl
      (inl refl) done_clean
