-- ===== src/Store/Listing/Speed.antt =====
-- How many pages a listing takes, given that the SDK fills the pages that are followed by another.
use a2a_hub.Prelude.{
  ℕ, zero, suc, ◌+◌, ◌*◌, ◌≤◌, ◌≡◌, inl, inr, refl, sym, ap, ◌∙◌, true, false, not, List, [], ◌∷◌,
  arith, length, take, drop, length-drop, length-take, Bool-cases, length-append,
}
use a2a_hub.Prelude.Text.{Str, ◌==◌, is_empty}
use a2a_hub.Json.{Fields}
use a2a_hub.Executor.{CallContext}
use a2a_hub.Store.{Sdk}
use a2a_hub.Store.Listing.{
  lookup, Cursor, Codec, exhausted, decode_cursor, gather, text_or, or_exhausted, ask, answer_to,
  respond, batch, forward, has_more, merged,
}
use a2a_hub.Store.Listing.Order.{Perm-length}
use a2a_hub.Store.Listing.Pages.{IsPaged, or_exhausted_full}
use a2a_hub.Store.Listing.Steps.{
  IsCodec, packed, packed_skip, Ending, inner, outer, final, ending, beyond, page, page_step, owed,
}
use a2a_hub.Store.Listing.Growth.{length-batch}

-- A page of the SDK with a next token holds as many tasks as were asked for.
abbrev pub IsFull : Sdk → ℕ → Fields → CallContext → Type 0
IsFull sdk size filters context =
    (owner token : Str)
    → is_empty (ask sdk size filters context owner token).next_page_token ≡ false
    → size ≤ length (ask sdk size filters context owner token).tasks

-- `size` inside a batch, and 0 at the start of one
abbrev pub begun : ℕ → ℕ → ℕ
begun size zero = 0
begun size (suc skip) = size

begun-le : (size skip : ℕ) → begun size skip ≤ size
begun-le size zero = omega arith
begun-le size (suc skip) = omega arith

module _ (sdk : Sdk) (size : ℕ) (filters : Fields) (context : CallContext)
    (law : IsPaged sdk size filters context) (codec : Codec) (faithful : IsCodec codec)
    (full : IsFull sdk size filters context) where
  asks_full :
      (c : Cursor) (o : Str)
      → not (or_exhausted (respond sdk size filters context c o).next_page_token == exhausted)
        ≡ true
      → size ≤ length (respond sdk size filters context c o).tasks
  unfolding respond answer_to
  asks_full c o h = elim (Bool-cases (text_or [] (lookup o c.tokens) == exhausted)) [
    | inl marked ↦ cc (or_exhausted_full [] (rw marked at h))
    | inr open_token ↦
        rw open_token
          (full o (text_or [] (lookup o c.tokens)) (or_exhausted_full _ (rw open_token at h)))
  ]

  gather_full :
      (owners : List Str) (c : Cursor)
      → has_more (forward sdk size filters context owners c) ≡ true
      → size ≤ length (gather (λ o. (respond sdk size filters context c o).tasks) owners)
  unfolding forward
  gather_full [] c h = cc
  gather_full (o ∷ owners) c h =
      let here = (respond sdk size filters context c o).tasks in
      let later = gather (λ p. (respond sdk size filters context c p).tasks) owners in
      elim (Bool-cases
        (not (or_exhausted (respond sdk size filters context c o).next_page_token == exhausted))) [
          | inl more ↦ omega (arith, asks_full c o more, length-append here later)
          | inr done ↦ omega (arith, gather_full owners c (ground arith), length-append here later)
        ]

  -- What a cursor still costs: a page pays `size`, and each task pays twice.
  abbrev pub cost : List Str → Cursor → ℕ
  cost owners c = 2 * length (owed sdk size filters context law owners c) + begun size c.skip

  abbrev window : List Str → Cursor → ℕ
  window owners c = length (take size (drop c.skip (batch sdk size filters context owners c)))

  outer_pays :
      (skip : ℕ) (taken left all : ℕ)
      → taken + left ≡ all
      → (skip ≡ 0 → size ≤ taken)
      → size + 2 * left ≤ 2 * all + begun size skip
  outer_pays zero taken left all e h = let f = h refl in omega (arith, e, f)
  outer_pays (suc skip) taken left all e h = omega (arith, e)

  pays_at :
      (owners : List Str) (c : Cursor) (token : Str)
      → Ending sdk size filters context law codec faithful owners c token
      → is_empty token ≡ false
      → length (owed sdk size filters context law owners c)
        ≡ window owners c
          + length (owed sdk size filters context law owners (decode_cursor codec token))
      → size + cost owners (decode_cursor codec token) ≤ cost owners c
  unfolding packed
  pays_at owners c token (inner inside e) h split =
      let b = batch sdk size filters context owners c in
      omega (
        arith,
        split,
        inside,
        begun-le size (decode_cursor codec token).skip,
        length-take size (drop c.skip b),
        length-drop c.skip b,
      )
  pays_at owners c token (outer short more e) h split =
      let b = batch sdk size filters context owners c in
      let fresh : (decode_cursor codec token).skip ≡ 0 = rw e (
        packed_skip sdk size filters context law codec faithful
          (beyond sdk size filters context law codec faithful owners c)) in
      let start : begun size (decode_cursor codec token).skip ≡ 0 = ap (begun size) fresh in
      omega (
        arith,
        start,
        outer_pays c.skip (window owners c)
            (length (owed sdk size filters context law owners (decode_cursor codec token)))
            (length (owed sdk size filters context law owners c)) (sym split)
            (λ z. omega (
              arith,
              z,
              length-take size (drop c.skip b),
              length-drop c.skip b,
              length-batch sdk size filters context law codec faithful owners c,
              gather_full owners c more,
            )),
      )
  pays_at owners c token (final short done e) h split = cc (ap (λ (t : Str). is_empty t) e)

  -- A page that is followed by another lowers the cost by the size of a page.
  pub page_pays :
      (owners : List Str) (c : Cursor)
      → is_empty (page sdk size filters context law codec faithful owners c).next_page_token ≡ false
      → size
          + cost owners (
              decode_cursor codec
                (page sdk size filters context law codec faithful owners c).next_page_token)
        ≤ cost owners c
  unfolding merged
  page_pays owners c h =
      pays_at owners c _ (ending sdk size filters context law codec faithful owners c) h (
        Perm-length (page_step sdk size filters context law codec faithful owners c h)
        ∙ length-append (page sdk size filters context law codec faithful owners c).tasks _)
