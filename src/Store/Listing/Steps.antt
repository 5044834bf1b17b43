-- ===== src/Store/Listing/Steps.antt =====
-- One page of the merged listing: what a cursor has pending is the page and what its next token has
-- pending.
use mathlib.Core.List.{Perm}
use mathlib.Core.List.Perm
use a2a_hub.Prelude.{
  ℕ, ◌+◌, ◌≤◌, ◌<◌, ◌≡◌, inl, inr, sym, ap, subst, ◌∙◌, true, false, some, List, [], ◌++◌,
  append_assoc, append-nil, arith, ltb, length, take, drop, take-append-drop, length-drop,
  Bool-cases, drop-drop, take_of_length-le,
}
use a2a_hub.Prelude.Int.{pos}
use a2a_hub.Prelude.Text.{Str, is_empty}
use a2a_hub.Json.{Fields}
use a2a_hub.Executor.{CallContext}
use a2a_hub.Store.{Task, ListResponse, Sdk}
use a2a_hub.Store.Listing.{
  lookup, Cursor, RawCursor, Codec, decode_cursor, text_or, or_exhausted, respond, batch, forward,
  has_more, next_token, merged, within_cursor, beyond_cursor,
}
use a2a_hub.Store.Listing.Order.{gather_congr}
use a2a_hub.Store.Listing.Pages.{
  IsPaged, left, pending, pending_lem, pending_same, pending_fresh, lookup-forward, nothing_left,
}

-- A packed cursor is not empty, and unpacks to the same skip and to dicts with the same entries.
pub record IsCodec (codec : Codec) : Type 0 where
  pub full : (c : Cursor) → is_empty (codec.pack c) ≡ false
  pub raw : Cursor → RawCursor
  pub unpacked : (c : Cursor) → codec.unpack (codec.pack c) ≡ some (raw c)
  pub skip : (c : Cursor) → (raw c).s ≡ pos c.skip
  pub tokens : (c : Cursor) (k : Str) → lookup k (raw c).t ≡ lookup k c.tokens

module _ (sdk : Sdk) (size : ℕ) (filters : Fields) (context : CallContext)
    (law : IsPaged sdk size filters context) where
  abbrev pub owed : List Str → Cursor → List Task
  owed owners c = pending sdk size filters context law owners c

  module _ (codec : Codec) (faithful : IsCodec codec) where
    unfoldable pub packed : Cursor → Cursor
    packed c = decode_cursor codec (codec.pack c)

    pub packed_tokens : (c : Cursor) (k : Str) → lookup k c.tokens ≡ lookup k (packed c).tokens
    unfolding packed decode_cursor
    packed_tokens c k = rw (faithful.full c, faithful.unpacked c) (sym (faithful.tokens c k))

    pub packed_skip : (c : Cursor) → (packed c).skip ≡ c.skip
    unfolding packed decode_cursor
    packed_skip c = rw (faithful.full c, faithful.unpacked c) (rw (faithful.skip c))

    -- the page is cut from the middle of the batch
    within_batch :
        (owners : List Str) (c n : Cursor)
        → ((k : Str) → lookup k c.tokens ≡ lookup k n.tokens)
        → n.skip ≡ c.skip + size
        → owed owners c
          ≡ take size (drop c.skip (batch sdk size filters context owners c)) ++ owed owners n
    within_batch owners c n same later =
        rw
          (
            pending_same sdk size filters context law owners c n same,
            later,
            ← drop-drop c.skip size (batch sdk size filters context owners c),
            ← append_assoc,
            take-append-drop,
          )
          (pending_lem sdk size filters context law owners c)

    -- the page ends the batch, and the mailboxes' own tokens go on
    after_batch :
        (owners : List Str) (c n : Cursor)
        → length (batch sdk size filters context owners c) ≤ c.skip + size
        → n.skip ≡ 0
        → ((k : Str) → lookup k (forward sdk size filters context owners c) ≡ lookup k n.tokens)
        → Perm
            (owed owners c)
            (take size (drop c.skip (batch sdk size filters context owners c)) ++ owed owners n)
    after_batch owners c n short start same =
        let b = batch sdk size filters context owners c in
        let behind =
          subst (λ (ts : List Task). Perm (owed owners n) ts)
            (gather_congr
              (λ o. left sdk size filters context law o (text_or [] (lookup o n.tokens)))
              (λ o.
                left sdk size filters context law o
                  (or_exhausted (respond sdk size filters context c o).next_page_token))
              owners
              (λ o m.
                ap (λ t. left sdk size filters context law o (text_or [] t))
                  (sym (same o) ∙ lookup-forward sdk size filters context law o owners c m)))
            (pending_fresh sdk size filters context law owners n start) in
        rw
          (
            pending_lem sdk size filters context law owners c,
            take_of_length-le size (drop c.skip b) (omega (arith, length-drop c.skip b)),
          )
          (Perm.append_left (drop c.skip b) (Perm.symm behind))

    abbrev pub within : List Str → Cursor → Cursor
    within owners c = within_cursor sdk codec size filters context owners c

    abbrev pub beyond : List Str → Cursor → Cursor
    beyond owners c = beyond_cursor sdk codec size filters context owners c

    abbrev pub page : List Str → Cursor → ListResponse
    page owners c = merged sdk codec size filters context owners c

    -- the three ways in which a page ends
    pub data Ending (owners : List Str) (c : Cursor) (token : Str) : Type 0 where
      inner :
          c.skip + size < length (batch sdk size filters context owners c)
          → token ≡ codec.pack (within owners c)
          → Ending owners c token
      outer :
          length (batch sdk size filters context owners c) ≤ c.skip + size
          → has_more (forward sdk size filters context owners c) ≡ true
          → token ≡ codec.pack (beyond owners c)
          → Ending owners c token
      final :
          length (batch sdk size filters context owners c) ≤ c.skip + size
          → has_more (forward sdk size filters context owners c) ≡ false
          → token ≡ []
          → Ending owners c token

    pub ending :
        (owners : List Str) (c : Cursor)
        → Ending owners c (next_token sdk codec size filters context owners c)
    unfolding next_token
    ending owners c =
        elim (Bool-cases (ltb (c.skip + size) (length (batch sdk size filters context owners c)))) [
          | inl inside ↦ inner (ground arith) (rw inside)
          | inr ends ↦ elim (Bool-cases (has_more (forward sdk size filters context owners c))) [
            | inl more ↦ outer (ground arith) more (rw (ends, more))
            | inr none_left ↦ final (ground arith) none_left (rw (ends, none_left))
          ]
        ]

    step_at :
        (owners : List Str) (c : Cursor) (token : Str)
        → Ending owners c token
        → is_empty token ≡ false
        → Perm (owed owners c) (
            take size (drop c.skip (batch sdk size filters context owners c))
            ++ owed owners (decode_cursor codec token))
    unfolding packed
    step_at owners c token (inner inside e) h =
        rw
          (
            e,
            within_batch owners c (packed (within owners c)) (packed_tokens (within owners c))
                (packed_skip (within owners c)),
          )
          (Perm.refl _)
    step_at owners c token (outer short more e) h = rw e (
        after_batch owners c (packed (beyond owners c)) short (packed_skip (beyond owners c))
          (packed_tokens (beyond owners c)))
    step_at owners c token (final short done e) h = cc (ap (λ (t : Str). is_empty t) e)

    last_at :
        (owners : List Str) (c : Cursor) (token : Str)
        → Ending owners c token
        → is_empty token ≡ true
        → Perm (owed owners c) (take size (drop c.skip (batch sdk size filters context owners c)))
    last_at owners c token (inner inside e) h =
        cc (ap (λ (t : Str). is_empty t) e, faithful.full (within owners c))
    last_at owners c token (outer short more e) h =
        cc (ap (λ (t : Str). is_empty t) e, faithful.full (beyond owners c))
    last_at owners c token (final short done e) h =
        let b = batch sdk size filters context owners c in
        rw
          (
            pending_lem sdk size filters context law owners c,
            nothing_left sdk size filters context law owners c done,
            append-nil,
            take_of_length-le size (drop c.skip b) (omega (arith, length-drop c.skip b)),
          )
          (Perm.refl (drop c.skip b))

    -- A page that is followed by another hands out a part of what was pending, and the rest is what
    -- the cursor of its next token has pending.
    pub page_step :
        (owners : List Str) (c : Cursor)
        → is_empty (page owners c).next_page_token ≡ false
        → Perm (owed owners c) (
            (page owners c).tasks
            ++ owed owners (decode_cursor codec (page owners c).next_page_token))
    unfolding merged
    page_step owners c h = step_at owners c _ (ending owners c) h

    -- The last page hands out all that was pending.
    pub page_last :
        (owners : List Str) (c : Cursor)
        → is_empty (page owners c).next_page_token ≡ true
        → Perm (owed owners c) (page owners c).tasks
    unfolding merged
    page_last owners c h = last_at owners c _ (ending owners c) h
