-- ===== src/Examples/Serving.antt =====
-- Requests to a hub with two agents.
use a2a_hub.Prelude.{
  ◌≡◌, inl, inr, refl, sym, subst, true, false, some, List, [], ◌∷◌, arith, Bool-cases,
}
use a2a_hub.Prelude.Int.{pos}
use a2a_hub.Prelude.Text.{
  codes, ◌==◌, eq_iff, is_empty, mem, strip, lstrip, rstrip, lower, partition, is_space,
}
use a2a_hub.Json.{obj, str, dict}
use a2a_hub.Auth.Identity.{is_valid_identity}
use a2a_hub.Auth.Tokens.{extract_bearer, resolve, resolve_from, compare_digest, is_ascii}
use a2a_hub.Auth.Refusal.{Scope}
use a2a_hub.Auth.Session.{NoSlash}
use a2a_hub.Auth.Gate.{IsGuarded, Proves}
use a2a_hub.Marks.Routes.{loaded}
use a2a_hub.Store.{Sdk}
use a2a_hub.Hub.{
  App, Hub, new_hub, try_touch, handle, undecodable, a_status, failed, create_app, agents_of,
  Services, guard, retirement, mark_set, serve,
}
use a2a_hub.Registry.{written_at}
use a2a_hub.Hub.Guarded.{Served, serve-Served}
use a2a_hub.Hub.Addressable.{IsPlain, proven_is_recipient}
use a2a_hub.Hub.Visits.{Visit, visit}
use a2a_hub.Hub.Sound.{Reachable, start, then_serve, IsSound, Reachable-IsSound}
use a2a_hub.Examples.Access.{tokens, header}
use a2a_hub.Examples.Pages.{paged_sdk}
use a2a_hub.Examples.Reads.{ana-NoSlash, sent_task}

abbrev pub services : Services
services = record {
  repr = λ v. [];
  quote = λ s. s;
  iso = λ at. [];
  explain_declaration = λ c. [];
  say = λ w. [];
  explain_mark = λ c. [];
  orders = record { oldest_first = λ rows. rows; newest_first = λ rows. rows };
  recent_first = λ rows. rows;
  touch_raises = λ now. false;
}

abbrev pub app : App
app = record {
  tokens = tokens;
  rpc_url = codes "/";
  max_body_bytes = pos 1048576;
  known_agents = codes "ana" ∷ codes "bob" ∷ [];
}

pub created : create_app tokens (codes "/") (pos 1048576) ≡ some app
unfolding create_app agents_of
created = refl

pub bob-NoSlash : NoSlash (codes "bob")
bob-NoSlash = (ground arith, (ground arith, (ground arith, tt)))

pub plain : IsPlain tokens
unfolding agents_of mem
plain agent h = elim (Bool-cases (agent == codes "ana")) [
  | inl first ↦
      subst (λ a. NoSlash a × (is_empty a ≡ false)) (sym ((eq_iff agent (codes "ana")).0 first))
        (ana-NoSlash, refl)
  | inr other ↦
      subst (λ a. NoSlash a × (is_empty a ≡ false))
        (sym ((eq_iff agent (codes "bob")).0 (ground arith))) (bob-NoSlash, refl)
]

pub proven : Proves (guard services app 7) header (codes "bob/s1")
unfolding ◌==◌ extract_bearer resolve resolve_from compare_digest is_ascii partition lower strip
    lstrip rstrip is_space
proven = record {
  agent = codes "bob";
  session = codes "s1";
  bearer = refl;
  declared = refl;
  named = (refl, (refl, tt), omega arith);
  composed = refl;
}

proven_is_recipient_example :
    is_valid_identity (codes "bob/s1") (some (codes "ana" ∷ codes "bob" ∷ [])) ≡ true
proven_is_recipient_example =
    proven_is_recipient services tokens (codes "/") (pos 1048576) app 7 header (codes "bob/s1")
      created plain proven

abbrev retire_scope : Scope
retire_scope = record { kind = codes "http"; path = codes "/agents/retire"; headers = [] }

abbrev pub mark_scope : Scope
mark_scope = record { kind = codes "http"; path = codes "/messages/t1/mark"; headers = [] }

guarded : IsGuarded retire_scope
unfolding ◌==◌ mem
guarded = record { http = refl; private_path = refl }

serve-Served_example :
    Served services paged_sdk app 7 header retirement new_hub
      (serve services paged_sdk app 7 header retire_scope retirement new_hub)
serve-Served_example =
    serve-Served services paged_sdk app 7 header retire_scope retirement new_hub guarded

-- a store in which every message was received by everyone
abbrev full_sdk : Sdk
full_sdk = record paged_sdk { fetch = λ owner id. some (sent_task id (codes "ana/s1")) }

abbrev visits : List Visit
visits =
    visit 9 header mark_scope
      (mark_set (codes "t1") (
        loaded (
          obj (
            dict (
              (codes "state", str (codes "processed"))
              ∷ (codes "detail", str (codes "done and merged"))
              ∷ [])))))
      full_sdk
    ∷ visit 7 header retire_scope retirement paged_sdk
    ∷ []

abbrev after_two : Hub
after_two =
    (serve services full_sdk app 9 header mark_scope
      (mark_set (codes "t1") (
        loaded (
          obj (
            dict (
              (codes "state", str (codes "processed"))
              ∷ (codes "detail", str (codes "done and merged"))
              ∷ [])))))
      (serve services paged_sdk app 7 header retire_scope retirement new_hub).1).1

two_requests : Reachable services app visits after_two
two_requests = then_serve (then_serve start _ (omega arith)) _ (omega arith)

Reachable-IsSound_example : IsSound services app visits after_two
Reachable-IsSound_example = Reachable-IsSound services app plain visits after_two two_requests

-- the database refuses the stamp, and neither the row nor the cache is written
refused_stamp_test :
    try_touch (λ now. true) 7 (codes "bob/s1") new_hub.register ≡ (true, new_hub.register)
unfolding try_touch written_at
refused_stamp_test = refl

undecodable_test :
    handle services paged_sdk app 7 header (codes "bob/s1") (undecodable a_status) new_hub
    ≡ (failed, new_hub)
unfolding handle
undecodable_test = refl
