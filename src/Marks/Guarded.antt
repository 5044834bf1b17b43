-- ===== src/Marks/Guarded.antt =====
-- Who may write a mark.
use a2a_hub.Prelude.{
  ℕ, false, ◌≡◌, ◌≢◌, ◌⊎◌, inl, inr, refl, sym, ◌∙◌, Option, none, some, List, arith,
}
use a2a_hub.Prelude.Text.{Str, is_empty}
use a2a_hub.Json.{Json, obj, Fields}
use a2a_hub.Auth.Identity.{identity_of}
use a2a_hub.Auth.Session.{NoSlash}
use a2a_hub.Store.{Task, Sdk, get_from_mailbox}
use a2a_hub.Store.Reading.{first_of, get_from_mailbox-session}
use a2a_hub.Marks.{Mark, CleanResult, clean, bad_state, short_detail, clean_mark, Row, set_mark}
use a2a_hub.Marks.Routes.{
  Loaded, not_json, loaded, sender_text, context_of, store_mark, check_mark, set_mark_route,
}

-- A request to mark that was granted: the body is an object that holds a mark, the message lies in
-- a mailbox of the caller, and the mark is written under the caller's own name, with the sender that
-- the message records.
pub record IsGranted (sdk : Sdk) (repr : Json → Str) (now : ℕ) (task_id agent session : Str)
    (body : Loaded) (rows after : List Row) : Type 0 where
  pub payload : Fields
  pub mark : Mark
  pub task : Task
  pub object : body ≡ loaded (obj payload)
  pub cleaned : clean_mark repr payload ≡ clean mark
  pub received :
      (sdk.fetch (identity_of agent session) task_id ≡ some task)
      ⊎ (sdk.fetch agent task_id ≡ some task)
  pub written :
      after
      ≡ set_mark now task_id (identity_of agent session) mark (sender_text task.artifacts) rows

module _ (sdk : Sdk) (repr : Json → Str) (iso : ℕ → Str) (explain : CleanResult → Str) (now : ℕ)
    (task_id agent session : Str) (clean_agent : NoSlash agent)
    (present : is_empty agent ≡ false) where
  abbrev identity : Str
  identity = identity_of agent session

  first_of_sound :
      (a b : Option Task) (t : Task) → first_of a b ≡ some t → (a ≡ some t) ⊎ (b ≡ some t)
  first_of_sound none b t h = inr h
  first_of_sound (some a) b t h = inl h

  store_mark_sound :
      (payload : Fields) (mark : Mark) (found : Option Task) (rows : List Row)
      → clean_mark repr payload ≡ clean mark
      → get_from_mailbox sdk task_id (context_of identity) ≡ found
      → (store_mark sdk repr iso explain now task_id identity mark found rows).0.status_code ≡ 200
      → IsGranted sdk repr now task_id agent session
          (loaded (obj payload))
          rows
          (store_mark sdk repr iso explain now task_id identity mark found rows).1
  unfolding store_mark
  store_mark_sound payload mark none rows cleaned owned h = absurd (omega arith)
  store_mark_sound payload mark (some task) rows cleaned owned h = record {
    payload = payload;
    mark = mark;
    task = task;
    object = refl;
    cleaned = cleaned;
    received =
        first_of_sound _ _ task
          (sym (get_from_mailbox-session sdk agent session task_id clean_agent present) ∙ owned);
    written = refl;
  }

  check_mark_sound :
      (payload : Fields) (r : CleanResult) (rows : List Row)
      → clean_mark repr payload ≡ r
      → (check_mark sdk repr iso explain now task_id identity r rows).0.status_code ≡ 200
      → IsGranted sdk repr now task_id agent session
          (loaded (obj payload))
          rows
          (check_mark sdk repr iso explain now task_id identity r rows).1
  unfolding check_mark
  check_mark_sound payload (clean mark) rows cleaned h =
      store_mark_sound payload mark (get_from_mailbox sdk task_id (context_of identity)) rows
        cleaned refl h
  check_mark_sound payload (bad_state s) rows cleaned h = absurd (omega arith)
  check_mark_sound payload (short_detail s n) rows cleaned h = absurd (omega arith)

  -- For a session under a named agent without a slash, a mark is stored with status 200 only if the
  -- body is an object with a valid mark and the message lies in a mailbox of the caller; it is then
  -- written under the caller's own identity, with the sender that the message records.
  pub set_mark_route_sound :
      (body : Loaded) (rows : List Row)
      → (set_mark_route sdk repr iso explain now task_id identity body rows).0.status_code ≡ 200
      → IsGranted sdk repr now task_id agent session body rows
          (set_mark_route sdk repr iso explain now task_id identity body rows).1
  unfolding set_mark_route
  set_mark_route_sound (loaded (obj payload)) rows h =
      check_mark_sound payload (clean_mark repr payload) rows refl h
  set_mark_route_sound (not_json error) rows h = absurd (omega arith)
  set_mark_route_sound (loaded _) rows h = absurd (omega arith)

  check_mark_refused :
      (r : CleanResult) (rows : List Row)
      → (check_mark sdk repr iso explain now task_id identity r rows).0.status_code ≢ 200
      → (check_mark sdk repr iso explain now task_id identity r rows).1 ≡ rows
  unfolding check_mark store_mark
  check_mark_refused (clean mark) rows h = ground arith
  check_mark_refused (bad_state s) rows h = refl
  check_mark_refused (short_detail s n) rows h = refl

  -- For a session under a named agent without a slash, an answer to a request to mark other than
  -- status 200 leaves the table of marks as it was.
  pub set_mark_route_refused :
      (body : Loaded) (rows : List Row)
      → (set_mark_route sdk repr iso explain now task_id identity body rows).0.status_code ≢ 200
      → (set_mark_route sdk repr iso explain now task_id identity body rows).1 ≡ rows
  unfolding set_mark_route
  set_mark_route_refused (loaded (obj payload)) rows h =
      check_mark_refused (clean_mark repr payload) rows h
  set_mark_route_refused (not_json error) rows h = refl
  set_mark_route_refused (loaded _) rows h = refl

-- What holds of the table, and of what a write by the caller makes of it, holds after the request.
module _ (P : List Row → Type 0) (sdk : Sdk) (repr : Json → Str) (iso : ℕ → Str)
    (explain : CleanResult → Str) (now : ℕ) (task_id identity : Str) (rows : List Row)
    (same : P rows)
    (stored : (mark : Mark) (sender : Str)
      → P (set_mark now task_id identity mark sender rows)) where
  check_mark_keeps :
      (r : CleanResult) → P (check_mark sdk repr iso explain now task_id identity r rows).1
  unfolding check_mark
  check_mark_keeps (clean mark) =
      elim (get_from_mailbox sdk task_id (context_of identity))
        as (λ found. P (store_mark sdk repr iso explain now task_id identity mark found rows).1) [
          | none ↦ unfold store_mark in same
          | some task ↦ unfold store_mark in stored mark (sender_text task.artifacts)
        ]
  check_mark_keeps (bad_state s) = same
  check_mark_keeps (short_detail s n) = same

  pub set_mark_route_keeps :
      (body : Loaded) → P (set_mark_route sdk repr iso explain now task_id identity body rows).1
  unfolding set_mark_route
  set_mark_route_keeps (loaded (obj payload)) = check_mark_keeps (clean_mark repr payload)
  set_mark_route_keeps (not_json error) = same
  set_mark_route_keeps (loaded _) = same
