-- ===== src/Store/Listing/Pages.antt =====
-- What a cursor of the merged listing still has to hand out, given that the SDK pages through each
-- mailbox.
use mathlib.Core.Path.{fun_ext}
use mathlib.Core.List.{Perm}
use mathlib.Core.List.Perm
use a2a_hub.Prelude.{
  ℕ, ◌<◌, ◌≡◌, inl, inr, refl, ap, true, false, not, Option, some, List, [], ◌∷◌, ◌++◌, append-nil,
  arith, length, drop, Bool-cases, if◌then◌else◌,
}
use a2a_hub.Prelude.Text.{Str, ◌==◌, eq_iff, eq_refl, is_empty, mem}
use a2a_hub.Json.{Fields}
use a2a_hub.Executor.{CallContext}
use a2a_hub.Store.{Task, ListResponse, Sdk}
use a2a_hub.Store.Listing.{
  lookup, Cursor, exhausted, gather, text_or, or_exhausted, ask, answer_to, respond, batch, forward,
  has_more,
}
use a2a_hub.Store.Listing.Order.{sort_tasks-perm, gather-append-perm, gather_congr}

pub or_exhausted_full : (t : Str) → not (or_exhausted t == exhausted) ≡ true → is_empty t ≡ false
or_exhausted_full [] h = cc (eq_refl exhausted)
or_exhausted_full (c ∷ t) h = refl

module _ (sdk : Sdk) (size : ℕ) (filters : Fields) (context : CallContext) where
  -- The SDK pages through each mailbox, which does not change meanwhile: from a token on there is a
  -- list of tasks, a page is its beginning, and the rest is what follows from the page's next token.
  -- A page with a next token is not empty, and no token of the SDK is the hub's mark.
  pub record IsPaged : Type 0 where
    pub rest : (owner token : Str) → List Task
    pub last :
        (owner token : Str)
        → is_empty (ask sdk size filters context owner token).next_page_token ≡ true
        → rest owner token ≡ (ask sdk size filters context owner token).tasks
    pub more :
        (owner token : Str)
        → is_empty (ask sdk size filters context owner token).next_page_token ≡ false
        → rest owner token
          ≡ (ask sdk size filters context owner token).tasks
            ++ rest owner (ask sdk size filters context owner token).next_page_token
    pub grows :
        (owner token : Str)
        → is_empty (ask sdk size filters context owner token).next_page_token ≡ false
        → 0 < length (ask sdk size filters context owner token).tasks
    pub unmarked :
        (owner token : Str)
        → (ask sdk size filters context owner token).next_page_token == exhausted ≡ false

module _ (sdk : Sdk) (size : ℕ) (filters : Fields) (context : CallContext)
    (law : IsPaged sdk size filters context) where
  -- what a mailbox still holds behind a token of a cursor
  pub left : Str → Str → List Task
  left owner token = if token == exhausted then [] else law.rest owner token

  abbrev answer_of : Cursor → Str → ListResponse
  answer_of cursor owner = respond sdk size filters context cursor owner

  abbrev next_of : Cursor → Str → Str
  next_of cursor owner = or_exhausted (answer_of cursor owner).next_page_token

  -- what a cursor still has to hand out: the rest of its batch, and what lies behind the batch
  pub pending : List Str → Cursor → List Task
  pending owners cursor =
      drop cursor.skip (batch sdk size filters context owners cursor)
      ++ gather (λ o. left o (next_of cursor o)) owners

  pub left_open : (owner : Str) → left owner [] ≡ law.rest owner []
  unfolding left ◌==◌
  left_open owner = refl

  left-exhausted : (owner : Str) → left owner exhausted ≡ []
  unfolding left
  left-exhausted owner = rw (eq_refl exhausted)

  asked_left :
      (owner token : Str)
      → law.rest owner token
        ≡ (ask sdk size filters context owner token).tasks
          ++ left owner (or_exhausted (ask sdk size filters context owner token).next_page_token)
  unfolding left
  asked_left owner token =
      elim (Bool-cases (is_empty (ask sdk size filters context owner token).next_page_token)) [
        | inl done ↦ rw (done, eq_refl exhausted, law.last owner token done, append-nil)
        | inr more ↦ rw (more, law.unmarked owner token, law.more owner token more)
      ]

  answered_left :
      (owner token : Str)
      → left owner token
        ≡ (answer_to sdk size filters context owner token).tasks
          ++ left owner
              (or_exhausted (answer_to sdk size filters context owner token).next_page_token)
  unfolding answer_to
  answered_left owner token = elim (Bool-cases (token == exhausted)) [
    | inl marked ↦ rw (marked, left-exhausted owner) (unfold left in rw marked)
    | inr open_token ↦ rw open_token (unfold left in rw open_token (asked_left owner token))
  ]

  respond_left :
      (cursor : Cursor) (owner : Str)
      → left owner (text_or [] (lookup owner cursor.tokens))
        ≡ (answer_of cursor owner).tasks ++ left owner (next_of cursor owner)
  unfolding respond
  respond_left cursor owner = answered_left owner (text_or [] (lookup owner cursor.tokens))

  -- A cursor that has handed out nothing of its batch still owes what lies behind its tokens.
  pub pending_fresh :
      (owners : List Str) (cursor : Cursor)
      → cursor.skip ≡ 0
      → Perm
          (pending owners cursor)
          (gather (λ o. left o (text_or [] (lookup o cursor.tokens))) owners)
  unfolding pending batch respond
  pending_fresh owners cursor zero_skip =
      rw
        (
          zero_skip,
          gather_congr (λ o. left o (text_or [] (lookup o cursor.tokens)))
              (λ o. (answer_of cursor o).tasks ++ left o (next_of cursor o)) owners
              (λ o _. respond_left cursor o),
        )
        (Perm.trans
          (Perm.append_right _ (sort_tasks-perm (gather (λ o. (answer_of cursor o).tasks) owners)))
          (Perm.symm (
            gather-append-perm (λ o. (answer_of cursor o).tasks) (λ o. left o (next_of cursor o))
              owners)))

  -- Only the entries of the tokens count.
  pub respond_same :
      (c d : Cursor)
      → ((k : Str) → lookup k c.tokens ≡ lookup k d.tokens)
      → answer_of c ≡ answer_of d
  unfolding respond
  respond_same c d same =
      fun_ext
        λ o. ap (λ (t : Option Str). answer_to sdk size filters context o (text_or [] t)) (same o)

  pub pending_lem :
      (owners : List Str) (c : Cursor)
      → pending owners c
        ≡ drop c.skip (batch sdk size filters context owners c)
          ++ gather (λ o. left o (next_of c o)) owners
  unfolding pending
  pending_lem owners c = refl

  pub pending_same :
      (owners : List Str) (c d : Cursor)
      → ((k : Str) → lookup k c.tokens ≡ lookup k d.tokens)
      → pending owners d
        ≡ drop d.skip (batch sdk size filters context owners c)
          ++ gather (λ o. left o (next_of c o)) owners
  unfolding pending batch
  pending_same owners c d same = rw (respond_same c d same)

  pub lookup-forward :
      (o : Str) (owners : List Str) (cursor : Cursor)
      → mem o owners ≡ true
      → lookup o (forward sdk size filters context owners cursor) ≡ some (next_of cursor o)
  unfolding forward lookup mem
  lookup-forward o [] cursor m = cc
  lookup-forward o (p ∷ owners) cursor m = elim (Bool-cases (p == o)) [
    | inl same ↦ rw same (ap (λ q. some (next_of cursor q)) ((eq_iff p o).0 same))
    | inr other ↦ rw other (lookup-forward o owners cursor (ground (arith, eq_iff p o, eq_iff o p)))
  ]

  pub nothing_left :
      (owners : List Str) (cursor : Cursor)
      → has_more (forward sdk size filters context owners cursor) ≡ false
      → gather (λ o. left o (next_of cursor o)) owners ≡ []
  unfolding forward left
  nothing_left [] cursor h = refl
  nothing_left (o ∷ owners) cursor h = ground (arith, nothing_left owners cursor)

  -- A mailbox with a next token has sent tasks.
  pub asks_more :
      (cursor : Cursor) (o : Str)
      → not (next_of cursor o == exhausted) ≡ true
      → 0 < length (answer_of cursor o).tasks
  unfolding respond answer_to
  asks_more cursor o h = elim (Bool-cases (text_or [] (lookup o cursor.tokens) == exhausted)) [
    | inl marked ↦ cc (or_exhausted_full [] (rw marked at h))
    | inr open_token ↦ rw open_token (
        law.grows o (text_or [] (lookup o cursor.tokens))
          (or_exhausted_full _ (rw open_token at h)))
  ]
