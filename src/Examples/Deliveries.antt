-- ===== src/Examples/Deliveries.antt =====
-- The executor on a message that is delivered and on one that is not.
use a2a_hub.Prelude.{true, false, ◌≡◌, refl, Option, none, some, List, [], ◌∷◌}
use a2a_hub.Prelude.Text.{Str, codes, ◌==◌, strip, lstrip, rstrip, is_space, mem, partition}
use a2a_hub.Json.{str, dict, end, get}
use a2a_hub.Auth.Identity.{is_valid_identity, is_valid_cut, matches_session, session_rest}
use a2a_hub.Auth.Address.{NamesMailbox, is_valid_identity_iff}
use a2a_hub.Executor.{
  Message, RequestContext, Run, struct_to_dict, recipient_in, first_recipient, extract_recipient,
  ensure_task, execute,
}
use a2a_hub.Executor.Delivery.{IsDeliverable, Delivers, Rejects, execute-Delivers, execute-Rejects}

abbrev pub principals : Option (List Str)
principals = some (codes "ana" ∷ codes "bob" ∷ [])

abbrev pub quote : Str → Str
quote s = s

abbrev pub message_to : Str → Message
message_to recipient = record {
  message_id = codes "m1";
  parts = str (codes "hello") ∷ [];
  metadata = some (dict ((codes "recipient", str recipient) ∷ []));
}

abbrev pub request_to : Str → RequestContext
request_to recipient = record {
  task_id = codes "t1";
  context_id = codes "c1";
  message = some (message_to recipient);
  metadata = some end;
  has_current_task = false;
}

abbrev pub fresh : Run
fresh = record {
  call = record { user_name = codes "ana/s1"; owner_override = none };
  queue = [];
  log = [];
}

pub extract_recipient_test :
    extract_recipient (request_to (codes " bob/s2 ")) ≡ some (codes "bob/s2")
unfolding extract_recipient first_recipient recipient_in struct_to_dict get ◌==◌ strip lstrip rstrip
    is_space
extract_recipient_test = refl

bob_trimmed : is_space b'2' ≡ false
unfolding is_space
bob_trimmed = refl

bob_valid : is_valid_identity (codes "bob/s2") principals ≡ true
unfolding is_valid_identity is_valid_cut matches_session session_rest mem ◌==◌ partition
bob_valid = refl

pub bob_mailbox : NamesMailbox principals (codes "bob/s2")
bob_mailbox = (is_valid_identity_iff principals (codes "bob/s2") bob_trimmed).0 bob_valid

abbrev pub deliverable : IsDeliverable principals (request_to (codes " bob/s2 "))
deliverable = record {
  message = message_to (codes " bob/s2 ");
  recipient = codes "bob/s2";
  carried = refl;
  addressed = extract_recipient_test;
  mailbox = bob_mailbox;
}

execute-Delivers_example :
    Delivers
      (message_to (codes " bob/s2 "))
      (codes "bob/s2")
      (ensure_task (request_to (codes " bob/s2 ")) fresh)
      (execute quote principals (request_to (codes " bob/s2 ")) fresh)
execute-Delivers_example =
    execute-Delivers quote principals (request_to (codes " bob/s2 ")) fresh deliverable

no_recipient_test : extract_recipient (request_to (codes "  ")) ≡ none
unfolding extract_recipient first_recipient recipient_in struct_to_dict get ◌==◌ strip lstrip rstrip
    is_space
no_recipient_test = refl

undeliverable : ¬ IsDeliverable principals (request_to (codes "  "))
undeliverable d = cc (no_recipient_test, d.addressed)

execute-Rejects_example :
    Rejects
      (ensure_task (request_to (codes "  ")) fresh)
      (execute quote principals (request_to (codes "  ")) fresh)
execute-Rejects_example =
    execute-Rejects quote principals (request_to (codes "  ")) fresh undeliverable
