-- ===== src/Client/Reading/Whole.antt =====
-- `list_all_tasks` against the hub: the client reads its whole mailbox.
use mathlib.Core.List.{Perm}
use mathlib.Core.List.Perm
use a2a_hub.Prelude.{
  ◌∙◌, ℕ, zero, suc, ◌+◌, ◌*◌, ◌≤◌, ◌<◌, Bool, false, ◌≡◌, inl, inr, refl, sym, ap, some, List, [],
  ◌∷◌, ◌++◌, append_assoc, map, arith, length, length-append, leb, Bool-cases, All,
}
use a2a_hub.Prelude.Int.{ℤ}
use a2a_hub.Prelude.Text.{Str, is_empty}
use a2a_hub.Json.{Json}
use a2a_hub.Auth.Identity.{identity_of}
use a2a_hub.Auth.Session.{NoSlash}
use a2a_hub.Executor.{CallContext}
use a2a_hub.Store.{Task, ListRequest, ListResponse, Sdk}
use a2a_hub.Store.Reading.{session_context}
use a2a_hub.Store.Listing.{Codec, decode_cursor, page_size_of, merged, list_tasks}
use a2a_hub.Store.Listing.Order.{Perm-length}
use a2a_hub.Store.Listing.Pages.{IsPaged}
use a2a_hub.Store.Listing.Steps.{IsCodec, page_step, page_last}
use a2a_hub.Store.Listing.Speed.{IsFull, cost, page_pays}
use a2a_hub.Store.Listing.Walk.{due, due_at_start, list_tasks-merged, size_pos}
use a2a_hub.Client.Effect.{ok, World, M}
use a2a_hub.Client.Calls.{HubClient}
use a2a_hub.Client.Reading.{Page, Walked, walk, walk_all, fetch_page, list_all_tasks}
use a2a_hub.Client.Reading.Turns.{
  lighter_new, lighter-All, lighter_weak, budget_left, budget_pos, walk_last, walk_more,
}

-- What a client sees of a response of the hub, `encode` being the JSON of a task.
abbrev pub page_shown : (Task → Json) → (ListResponse → ℤ) → ListResponse → Page
page_shown encode total response = record {
  tasks = map encode response.tasks;
  total = total response;
  next = response.next_page_token;
}

-- Every call for a page is answered with the hub's page for its token.
pub record Reaches {S : Type 0} (fetch : Str → M S Page) (serve : Str → ListResponse)
    (encode : Task → Json) : Type 0 where
  pub total : ListResponse → ℤ
  pub after : Str → World S → World S
  pub answers :
      (token : Str) (w : World S)
      → fetch token w ≡ (ok (page_shown encode total (serve token)), after token w)

map-append : (f : Task → Json) (xs ys : List Task) → map f (xs ++ ys) ≡ map f xs ++ map f ys
map-append f [] ys = refl
map-append f (x ∷ xs) ys = ap (◌∷◌ (f x)) (map-append f xs ys)

module _ {S : Type 0} (fetch : Str → M S Page) (encode : Task → Json) (sdk : Sdk) (codec : Codec)
    (params : ListRequest) (agent session : Str) (clean : NoSlash agent)
    (law : IsPaged sdk (page_size_of params) params.filters (session_context agent session))
    (faithful : IsCodec codec)
    (full : IsFull sdk (page_size_of params) params.filters (session_context agent session))
    (reaches : Reaches fetch
      (λ token.
        list_tasks sdk codec (record params { page_token = token }) (session_context agent session))
      encode)
    (max_pages : ℕ) where
  abbrev caller : CallContext
  caller = session_context agent session

  abbrev size : ℕ
  size = page_size_of params

  abbrev owners : List Str
  owners = identity_of agent session ∷ agent ∷ []

  abbrev served : Str → ListResponse
  served token = merged sdk codec size params.filters caller owners (decode_cursor codec token)

  abbrev left_at : Str → List Task
  left_at token = due sdk codec params agent session clean law faithful (decode_cursor codec token)

  abbrev weight_of : Str → ℕ
  weight_of token =
      cost sdk size params.filters caller law codec faithful full owners (decode_cursor codec token)

  fetched :
      (token : Str) (w : World S)
      → fetch token w ≡ (ok (page_shown encode reaches.total (served token)), reaches.after token w)
  fetched token w =
      rw (← list_tasks-merged sdk codec params agent session clean law faithful token)
        (reaches.answers token w)

  walk_whole :
      (fuel k : ℕ) (tasks : List Json) (seen : List Str) (pages : ℕ) (token : Str) (w : World S)
      → weight_of token < size * k
      → k < fuel
      → max_pages ≡ pages + k
      → All (λ t. weight_of token ≤ weight_of t) seen
      → (walked : Walked) × (w' : World S) × (rest : List Task) × (walk fetch max_pages fuel tasks
            seen pages token w
          ≡ (ok (some walked), w'))
        × (walked.incomplete ≡ false)
        × (walked.tasks ≡ tasks ++ map encode rest)
        × Perm rest (left_at token)
  walk_whole zero k tasks seen pages token w cheap fuelled budget apart = absurd (omega arith)
  walk_whole (suc fuel) zero tasks seen pages token w cheap fuelled budget apart =
      absurd (omega (arith, budget_pos size zero (weight_of token) cheap))
  walk_whole (suc fuel) (suc k) tasks seen pages token w cheap fuelled budget apart =
      let next = (served token).next_page_token in
      elim (Bool-cases (is_empty next)) [
        | inl last ↦ (
          record {
            tasks = tasks ++ map encode (served token).tasks;
            total = reaches.total (served token);
            pages = suc pages;
            incomplete = false;
          },
          reaches.after token w,
          (served token).tasks,
          walk_last fetch max_pages fuel tasks seen pages token w (reaches.after token w)
              (page_shown encode reaches.total (served token)) (fetched token w) last,
          refl,
          refl,
          Perm.symm (
              page_last sdk size params.filters caller law codec faithful owners
                (decode_cursor codec token) last),
        )
        | inr more ↦
            let c = decode_cursor codec token in
            let pays =
              page_pays sdk size params.filters caller law codec faithful full owners c more in
            let wide = size_pos sdk codec params agent session clean law faithful in
            let apart' = lighter-All weight_of token next seen (omega (arith, pays, wide)) apart in
            let fresh = lighter_new weight_of next seen apart' in
            let cheap' = budget_left size k (weight_of token) (weight_of next) pays cheap in
            let early : leb max_pages (suc pages) ≡ false =
              ground (arith, budget, budget_pos size k (weight_of next) cheap') in
            let (walked, w', rest, runs, whole, shown, same) =
              walk_whole fuel k (tasks ++ map encode (served token).tasks) (next ∷ seen) (suc pages)
                next (reaches.after token w) cheap' (omega (arith, fuelled)) (omega (arith, budget))
                (omega arith, lighter_weak weight_of next seen apart') in
            (
              walked,
              w',
              (served token).tasks ++ rest,
              walk_more fetch max_pages fuel tasks seen pages token w (reaches.after token w)
                    (page_shown encode reaches.total (served token)) (fetched token w) more fresh
                    early
                  ∙ runs,
              whole,
              shown
                  ∙ append_assoc tasks (map encode (served token).tasks) (map encode rest)
                  ∙ ap (◌++◌ tasks) (sym (map-append encode (served token).tasks rest)),
              Perm.trans (Perm.append_left (served token).tasks same) (
                  Perm.symm
                    (page_step sdk size params.filters caller law codec faithful owners c more)),
            )
      ]

module _ {S : Type 0} (repr : Json → Str) (client : HubClient S) (include_artifacts : Bool)
    (page_size : ℕ) (encode : Task → Json) (sdk : Sdk) (codec : Codec) (params : ListRequest)
    (agent session : Str) (clean : NoSlash agent)
    (law : IsPaged sdk (page_size_of params) params.filters (session_context agent session))
    (faithful : IsCodec codec)
    (full : IsFull sdk (page_size_of params) params.filters (session_context agent session))
    (reaches : Reaches
      (fetch_page repr client include_artifacts page_size)
      (λ token.
        list_tasks sdk codec (record params { page_token = token }) (session_context agent session))
      encode) where
  -- For a session under an agent whose name has no slash, given that the SDK pages through each
  -- mailbox and fills the pages that are followed by another, that cursors survive their encoding,
  -- and that the client's calls reach the hub: if twice the number of tasks in the two mailboxes is
  -- less than the page size times the bound on pages, list_all_tasks returns a result that is not
  -- incomplete and holds exactly the tasks of the session's mailbox and of its agent's.
  pub list_all_tasks_whole :
      (max_pages : ℕ) (w : World S)
      → 2 * (length (law.rest (identity_of agent session) []) + length (law.rest agent []))
        < page_size_of params * max_pages
      → (walked : Walked) × (w' : World S) × (rest : List Task) × (list_all_tasks repr client
            include_artifacts page_size max_pages w
          ≡ (ok (some walked), w'))
        × (walked.incomplete ≡ false)
        × (walked.tasks ≡ map encode rest)
        × Perm rest (law.rest (identity_of agent session) [] ++ law.rest agent [])
  unfolding list_all_tasks walk_all decode_cursor
  list_all_tasks_whole max_pages w enough =
      let start = due_at_start sdk codec params agent session clean law faithful in
      let (walked, w', rest, runs, whole, shown, same) =
        walk_whole (fetch_page repr client include_artifacts page_size) encode sdk codec params
          agent session clean law faithful full reaches max_pages (suc max_pages) max_pages [] [] 0
          [] w
          (omega (
            arith,
            enough,
            Perm-length start,
            length-append (law.rest (identity_of agent session) []) (law.rest agent []),
          ))
          (omega arith) (omega arith) tt in
      (walked, w', rest, runs, whole, shown, Perm.trans same start)
