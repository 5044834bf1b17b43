-- ===== src/Store/Listing/Walk.antt =====
-- Following the page tokens of the merged listing from the first page to the last.
use mathlib.Core.List.{Perm}
use mathlib.Core.List.Perm
use mathlib.Core.Option
use a2a_hub.Prelude.{
  ℕ, zero, suc, ◌+◌, ◌<◌, ◌≡◌, inl, inr, refl, Option, none, some, List, [], ◌∷◌, ◌++◌, append-nil,
  arith, length, length-append, Bool-cases, if◌then◌else◌,
}
use a2a_hub.Prelude.Text.{Str, is_empty}
use a2a_hub.Auth.Identity.{identity_of}
use a2a_hub.Auth.Session.{NoSlash}
use a2a_hub.Executor.{CallContext}
use a2a_hub.Store.{Task, ListRequest, ListResponse, Sdk}
use a2a_hub.Store.Reading.{session_context, read_owners-session}
use a2a_hub.Store.Listing.{
  lookup, Cursor, Codec, start_cursor, decode_cursor, page_size_of, merged, list_tasks,
}
use a2a_hub.Store.Listing.Order.{Perm-length}
use a2a_hub.Store.Listing.Pages.{IsPaged, left, left_open, pending, pending_fresh}
use a2a_hub.Store.Listing.Steps.{IsCodec, page_step, page_last}
use a2a_hub.Store.Listing.Growth.{page_grows, IsInside}

-- A reader that asks for the page behind each token until there is none; `none` is out of fuel.
unfoldable pub read_all :
    Sdk → Codec → ListRequest → CallContext → ℕ → (token : Str) → Option (List Task)
read_all sdk codec params context zero token = none
read_all sdk codec params context (suc fuel) token =
    let page = list_tasks sdk codec (record params { page_token = token }) context in
    let later =
      Option.map (λ tasks. page.tasks ++ tasks)
        (read_all sdk codec params context fuel page.next_page_token) in
    if is_empty page.next_page_token then some page.tasks else later

module _ (sdk : Sdk) (codec : Codec) (params : ListRequest) (agent session : Str)
    (clean : NoSlash agent)
    (law : IsPaged sdk (page_size_of params) params.filters (session_context agent session))
    (faithful : IsCodec codec) where
  abbrev size : ℕ
  size = page_size_of params

  abbrev caller : CallContext
  caller = session_context agent session

  abbrev owners : List Str
  owners = identity_of agent session ∷ agent ∷ []

  abbrev page_at : Cursor → ListResponse
  page_at c = merged sdk codec size params.filters caller owners c

  abbrev pub due : Cursor → List Task
  due c = pending sdk size params.filters caller law owners c

  pub size_pos : 0 < size
  size_pos = ground arith

  pub list_tasks-merged :
      (token : Str)
      → list_tasks sdk codec (record params { page_token = token }) caller
        ≡ page_at (decode_cursor codec token)
  unfolding list_tasks
  list_tasks-merged token = rw (read_owners-session agent session clean)

  read_from :
      (fuel : ℕ) (token : Str)
      → IsInside sdk size params.filters caller law codec faithful owners
          (decode_cursor codec token)
      → length (due (decode_cursor codec token)) < fuel
      → (tasks : List Task) × (read_all sdk codec params caller fuel token ≡ some tasks)
        × Perm tasks (due (decode_cursor codec token))
  unfolding read_all
  read_from zero token at enough = absurd (omega arith)
  read_from (suc fuel) token at enough =
      let c = decode_cursor codec token in
      elim (Bool-cases (is_empty (page_at c).next_page_token)) [
        | inl last ↦ (
          (page_at c).tasks,
          rw (list_tasks-merged token, last) refl,
          Perm.symm (page_last sdk size params.filters caller law codec faithful owners c last),
        )
        | inr more ↦
            let (some_tasks, inside) =
              page_grows sdk size params.filters caller law codec faithful owners c size_pos at
                more in
            let step = page_step sdk size params.filters caller law codec faithful owners c more in
            let n = (page_at c).next_page_token in
            let (rest, got, same) = read_from fuel n inside (
              omega (
                arith,
                Perm-length step,
                length-append (page_at c).tasks (due (decode_cursor codec n)),
                some_tasks,
                enough,
              )) in
            (
              (page_at c).tasks ++ rest,
              rw (list_tasks-merged token, more, got),
              Perm.trans (Perm.append_left (page_at c).tasks same) (Perm.symm step),
            )
      ]

  pub due_at_start :
      Perm (due start_cursor) (law.rest (identity_of agent session) [] ++ law.rest agent [])
  unfolding lookup
  due_at_start =
      rw
        (
          ← left_open sdk size params.filters caller law (identity_of agent session),
          ← left_open sdk size params.filters caller law agent,
          ← append-nil (left sdk size params.filters caller law agent []),
        )
        (pending_fresh sdk size params.filters caller law owners start_cursor refl)

  -- For a session under an agent whose name has no slash, given that the SDK pages through each
  -- mailbox, that cursors survive their encoding, and fuel above the number of tasks in the two
  -- mailboxes, following the page tokens from the first page ends and hands out exactly the tasks
  -- of the session's mailbox and of its agent's mailbox, each as often as it stands there.
  pub read_all_complete :
      (fuel : ℕ)
      → length (law.rest (identity_of agent session) []) + length (law.rest agent []) < fuel
      → (tasks : List Task) × (read_all sdk codec params caller fuel [] ≡ some tasks)
        × Perm tasks (law.rest (identity_of agent session) [] ++ law.rest agent [])
  unfolding decode_cursor
  read_all_complete fuel enough =
      let (tasks, got, same) = read_from fuel [] (inl refl) (
        omega (
          arith,
          Perm-length due_at_start,
          length-append (law.rest (identity_of agent session) []) (law.rest agent []),
          enough,
        )) in
      (tasks, got, Perm.trans same due_at_start)
