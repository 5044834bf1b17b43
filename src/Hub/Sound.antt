-- ===== src/Hub/Sound.antt =====
-- The states that the hub reaches from a new database, and what holds in all of them.
use a2a_hub.Prelude.{ℕ, ◌≤◌, inl, inr, ◌≡◌, refl, List, [], ◌∷◌, arith, Bool-cases, All-map}
use a2a_hub.Prelude.Text.{Str}
use a2a_hub.Auth.Gate.{Proves}
use a2a_hub.Marks.Table.{set_mark-IsKeyed}
use a2a_hub.Marks.Guarded.{set_mark_route_keeps}
use a2a_hub.Marks.Routes.{Loaded, set_mark_route}
use a2a_hub.Registry.Kept.{
  IsKept, later-IsKept, touch-IsKept, declare-IsKept, retire-IsKept, update_status-IsKept,
}
use a2a_hub.Registry.Routes.{retire_route}
use a2a_hub.Registry.Routes.Kept.{register_route_keeps, status_route_keeps}
use a2a_hub.Registry.{Register, written_at}
use a2a_hub.Hub.{
  App, Hub, new_hub, Request, healthz, agent_card, json_rpc, retirement, declaration_of,
  status_change, agent_list, mark_list, mark_set, mark_get, undecodable, Services, Reply, guard,
  handle, serve,
}
use a2a_hub.Hub.Guarded.{stamped, Served, by_caller, turned_away, broken, serve_cases}
use a2a_hub.Hub.Visits.{Visit, clock_of}
use a2a_hub.Hub.Earned.{AllEarned, mark_set-AllEarned}
use a2a_hub.Hub.Addressable.{IsPlain, resolve_token-listed}

-- The requests so far, the latest first, and the state after them. No request is earlier than the one
-- before, and the message store is at each of them in any state.
pub data Reachable (services : Services) (app : App) : List Visit → Hub → Type 0 where
  start : Reachable services app [] new_hub
  then_serve :
      {history : List Visit} {hub : Hub}
      → Reachable services app history hub
      → (visit : Visit) → clock_of history ≤ visit.now
      → Reachable services app
          (visit ∷ history)
          (serve services visit.sdk app visit.now visit.header visit.scope visit.request hub).1

pub record IsSound (services : Services) (app : App) (history : List Visit) (hub : Hub)
    : Type 0 where
  pub kept : IsKept (clock_of history) hub.register
  pub one_mark : a2a_hub.Marks.Table.IsKeyed hub.marks
  pub earned : AllEarned services app history hub.marks

module _ (services : Services) (app : App) (plain : IsPlain app.tokens) where
  with_register-IsSound :
      (history : List Visit) (hub : Hub) (register' : Register)
      → IsKept (clock_of history) register'
      → IsSound services app history hub
      → IsSound services app history (record hub { register = register' })
  with_register-IsSound history hub register' kept h = record {
    kept = kept;
    one_mark = h.one_mark;
    earned = h.earned;
  }

  module _ (history : List Visit) (visit : Visit) (identity : Str)
      (proof : Proves (guard services app visit.now) visit.header identity) where
    mark_set-one :
        (task_id : Str) (body : Loaded) (rows : List a2a_hub.Marks.Row)
        → a2a_hub.Marks.Table.IsKeyed rows
        → a2a_hub.Marks.Table.IsKeyed
            (set_mark_route visit.sdk services.repr services.iso services.explain_mark visit.now
              task_id identity body rows).1
    mark_set-one task_id body rows h =
        set_mark_route_keeps a2a_hub.Marks.Table.IsKeyed visit.sdk services.repr services.iso
          services.explain_mark visit.now task_id identity rows h
          (λ mark sender. set_mark-IsKeyed visit.now task_id identity sender mark rows h) body

    handle-IsSound :
        (request : Request) (hub : Hub)
        → visit.request ≡ request
        → IsSound services app (visit ∷ history) hub
        → IsSound services app
            (visit ∷ history)
            (handle services visit.sdk app visit.now visit.header identity request hub).1
    unfolding handle
    handle-IsSound healthz hub asked h = h
    handle-IsSound agent_card hub asked h = h
    handle-IsSound json_rpc hub asked h = h
    handle-IsSound retirement hub asked h =
        with_register-IsSound (visit ∷ history) hub _
          (unfold retire_route in retire-IsKept visit.now identity hub.register h.kept) h
    handle-IsSound (declaration_of body) hub asked h =
        with_register-IsSound (visit ∷ history) hub _
          (register_route_keeps (IsKept visit.now) services.repr visit.now identity hub.register
            h.kept services.explain_declaration services.say body
            (declare-IsKept visit.now identity hub.register h.kept))
          h
    handle-IsSound (status_change body) hub asked h =
        with_register-IsSound (visit ∷ history) hub _
          (status_route_keeps (IsKept visit.now) services.repr visit.now identity hub.register
            h.kept body (update_status-IsKept visit.now identity hub.register h.kept services.repr))
          h
    handle-IsSound (agent_list retired quiet_for) hub asked h = h
    handle-IsSound (mark_list sent) hub asked h = h
    handle-IsSound (mark_set task_id body) hub asked h =
        let (clean, present) =
          plain proof.agent (resolve_token-listed app.tokens _ proof.agent proof.bearer) in
        record {
          kept = h.kept;
          one_mark = mark_set-one task_id body hub.marks h.one_mark;
          earned =
              mark_set-AllEarned services app history visit task_id identity body asked hub.marks
                proof h.earned clean present;
        }
    handle-IsSound (mark_get task_id) hub asked h = h
    handle-IsSound (undecodable route) hub asked h = h

  later-IsSound :
      (history : List Visit) (visit : Visit) (hub : Hub)
      → clock_of history ≤ visit.now
      → IsSound services app history hub
      → IsSound services app (visit ∷ history) hub
  later-IsSound history visit hub late h = record {
    kept = later-IsKept (clock_of history) visit.now hub.register late h.kept;
    one_mark = h.one_mark;
    earned = All-map _ _ hub.marks (λ row before. inr before) h.earned;
  }

  stamped-IsKept :
      (now : ℕ) (identity : Str) (register : Register)
      → IsKept now register
      → IsKept now (stamped services now identity register)
  stamped-IsKept now identity register h = elim (Bool-cases (services.touch_raises now)) [
    | inl raises ↦ rw raises h
    | inr takes ↦ rw takes (touch-IsKept now identity register h)
  ]

  Served-IsSound :
      (history : List Visit) (visit : Visit) (hub : Hub)
      → IsSound services app (visit ∷ history) hub
      → (r : Reply × Hub) → Served services visit.sdk app visit.now visit.header visit.request hub r
      → IsSound services app (visit ∷ history) r.1
  Served-IsSound history visit hub h r (by_caller identity proof) =
      handle-IsSound history visit identity proof visit.request _ refl (
        with_register-IsSound (visit ∷ history) hub _
          (stamped-IsKept visit.now identity hub.register h.kept) h)
  Served-IsSound history visit hub h r (turned_away response error) = h
  Served-IsSound history visit hub h r broken = h

  -- If every agent of the token table has a name that is not empty and has no slash, then in every
  -- state that requests lead to from a new database, whatever the message store is at each of them
  -- and whether or not the database takes the stamp of presence, no request being earlier than the
  -- one before: the register has one row for each identity, and its cache of writes shows no
  -- instant that the table does not; the marks have one row for each message and identity; and for
  -- each mark one of these requests asked to mark that message, proved the identity that the mark
  -- names, came while the message lay in a mailbox of that caller, and the mark names the sender
  -- that the message recorded then.
  pub Reachable-IsSound :
      (history : List Visit) (hub : Hub)
      → Reachable services app history hub
      → IsSound services app history hub
  Reachable-IsSound history hub start = record {
    kept = record {
      one_row = tt;
      past = λ identity at e. absurd (unfold written_at in ground (arith, e));
      backed = λ identity at e. absurd (unfold written_at in ground (arith, e));
    };
    one_mark = tt;
    earned = tt;
  }
  Reachable-IsSound history hub (then_serve before visit late) =
      let h = later-IsSound _ visit _ late (Reachable-IsSound _ _ before) in
      elim (serve_cases services visit.sdk app visit.now visit.header visit.scope visit.request _) [
        | inl served ↦ Served-IsSound _ visit _ h _ served
        | inr kept ↦ rw kept h
      ]
