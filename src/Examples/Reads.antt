-- ===== src/Examples/Reads.antt =====
-- What one session reads of a store with two messages.
use a2a_hub.Prelude.{◌≡◌, ◌⊎◌, refl, Option, none, some, [], ◌∷◌, ◌&&◌, arith, if◌then◌else◌}
use a2a_hub.Prelude.Text.{Str, codes, ◌==◌, partition}
use a2a_hub.Json.{str, dict, get}
use a2a_hub.Auth.Identity.{principal_of}
use a2a_hub.Auth.Session.{NoSlash}
use a2a_hub.Executor.{CallContext, hub_owner_resolver, struct_to_dict}
use a2a_hub.Store.{
  Task, Sdk, sender_in, sender_of, read_owners, first_owned, get_from_mailbox, get_as_sender,
  get_task,
}
use a2a_hub.Store.Reading.{session_context, get_task_sound}

abbrev pub sent_task : (id sender : Str) → Task
sent_task id sender = record {
  id = id;
  artifacts =
      (record { parts = []; metadata = some (dict ((codes "sender", str sender) ∷ [])) }) ∷ [];
  seconds = 5;
  nanos = 0;
}

-- `in` is from bob to ana, `out` from ana to bob
abbrev pub by_id : Str → Option Task
by_id id =
    if id == codes "in"
    then some (sent_task id (codes "bob/s2"))
    else if id == codes "out"
    then some (sent_task id (codes "ana/s1"))
    else none

abbrev pub fetch : (owner id : Str) → Option Task
fetch owner id =
    if (owner == codes "ana") && (id == codes "in")
    then by_id id
    else if (owner == codes "bob") && (id == codes "out")
    then by_id id
    else none

abbrev pub small_sdk : Sdk
small_sdk = record {
  fetch = fetch;
  by_id = by_id;
  page = λ params owner. record {
    tasks = [];
    total_size = 0;
    next_page_token = [];
    page_size = params.page_size;
  };
}

pub ana-NoSlash : NoSlash (codes "ana")
ana-NoSlash = (ground arith, (ground arith, (ground arith, tt)))

get_task_test :
    get_task small_sdk (codes "out") (session_context (codes "ana") (codes "s1"))
    ≡ some (sent_task (codes "out") (codes "ana/s1"))
unfolding get_task get_from_mailbox get_as_sender first_owned read_owners hub_owner_resolver
    principal_of partition sender_of sender_in struct_to_dict get ◌==◌
get_task_test = refl

get_task_sound_example :
    (fetch (codes "ana/s1") (codes "out") ≡ some (sent_task (codes "out") (codes "ana/s1")))
    ⊎ (fetch (codes "ana") (codes "out") ≡ some (sent_task (codes "out") (codes "ana/s1")))
    ⊎ ((by_id (codes "out") ≡ some (sent_task (codes "out") (codes "ana/s1")))
        × (sender_of (sent_task (codes "out") (codes "ana/s1")).artifacts ≡ some (codes "ana/s1")))
get_task_sound_example =
    get_task_sound small_sdk (codes "ana") (codes "s1") (codes "out")
      (sent_task (codes "out") (codes "ana/s1")) ana-NoSlash refl get_task_test

abbrev delivering : CallContext
delivering = record { user_name = codes "ana/s1"; owner_override = some (str (codes "bob")) }
