-- ===== src/Store/Listing/Growth.antt =====
-- Pages that are followed by another are not empty, and their cursors stay inside the batch.
use a2a_hub.Prelude.{
  ℕ, ◌<◌, ◌≡◌, ◌⊎◌, inl, inr, sym, ap, true, false, not, List, [], ◌∷◌, arith, length, take, drop,
  length-drop, Bool-cases, length-take_pos, length-append,
}
use a2a_hub.Prelude.Text.{Str, ◌==◌, is_empty}
use a2a_hub.Json.{Fields}
use a2a_hub.Executor.{CallContext}
use a2a_hub.Store.{ListResponse, Sdk}
use a2a_hub.Store.Listing.{
  lookup, Cursor, Codec, exhausted, decode_cursor, gather, sort_tasks, or_exhausted, respond, batch,
  forward, has_more, merged,
}
use a2a_hub.Store.Listing.Order.{sort_tasks-perm, Perm-length}
use a2a_hub.Store.Listing.Pages.{IsPaged, asks_more, respond_same}
use a2a_hub.Store.Listing.Steps.{
  IsCodec, packed, packed_tokens, packed_skip, Ending, inner, outer, final, ending, within, beyond,
  page,
}

module _ (sdk : Sdk) (size : ℕ) (filters : Fields) (context : CallContext)
    (law : IsPaged sdk size filters context) (codec : Codec) (faithful : IsCodec codec) where
  -- A cursor stays inside its batch.
  abbrev pub IsInside : List Str → Cursor → Type 0
  IsInside owners cursor =
      (cursor.skip ≡ 0) ⊎ (cursor.skip < length (batch sdk size filters context owners cursor))

  gather_grows :
      (owners : List Str) (c : Cursor)
      → has_more (forward sdk size filters context owners c) ≡ true
      → 0 < length (gather (λ o. (respond sdk size filters context c o).tasks) owners)
  unfolding forward
  gather_grows [] c h = cc
  gather_grows (o ∷ owners) c h =
      let here = (respond sdk size filters context c o).tasks in
      let later = gather (λ p. (respond sdk size filters context c p).tasks) owners in
      elim (Bool-cases
        (not (or_exhausted (respond sdk size filters context c o).next_page_token == exhausted))) [
          | inl more ↦
              omega
                (arith, asks_more sdk size filters context law c o more, length-append here later)
          | inr done ↦ omega (arith, gather_grows owners c (ground arith), length-append here later)
        ]

  pub length-batch :
      (owners : List Str) (c : Cursor)
      → length (batch sdk size filters context owners c)
        ≡ length (gather (λ o. (respond sdk size filters context c o).tasks) owners)
  unfolding batch
  length-batch owners c = Perm-length (sort_tasks-perm _)

  length-batch-packed :
      (owners : List Str) (c n : Cursor)
      → ((k : Str) → lookup k c.tokens ≡ lookup k n.tokens)
      → length (batch sdk size filters context owners n)
        ≡ length (batch sdk size filters context owners c)
  unfolding batch
  length-batch-packed owners c n same =
      ap (λ (r : Str → ListResponse). length (sort_tasks (gather (λ o. (r o).tasks) owners)))
        (sym (respond_same sdk size filters context law c n same))

  grows_at :
      (owners : List Str) (c : Cursor) (token : Str)
      → Ending sdk size filters context law codec faithful owners c token
      → 0 < size
      → IsInside owners c
      → is_empty token ≡ false
      → (0 < length (take size (drop c.skip (batch sdk size filters context owners c))))
        × IsInside owners (decode_cursor codec token)
  unfolding packed
  grows_at owners c token (inner inside e) wide at h =
      let b = batch sdk size filters context owners c in
      let n = within sdk size filters context law codec faithful owners c in
      (
        length-take_pos size (drop c.skip b) wide (omega (arith, length-drop c.skip b)),
        rw e (
            inr (
              omega (
                arith,
                packed_skip sdk size filters context law codec faithful n,
                length-batch-packed owners c (packed sdk size filters context law codec faithful n)
                    (packed_tokens sdk size filters context law codec faithful n),
                inside,
              ))),
      )
  grows_at owners c token (outer short more e) wide at h =
      let b = batch sdk size filters context owners c in
      (
        length-take_pos size (drop c.skip b) wide (
            omega (arith, length-drop c.skip b, length-batch owners c, gather_grows owners c more)),
        rw e (
            inl (
              packed_skip sdk size filters context law codec faithful
                (beyond sdk size filters context law codec faithful owners c))),
      )
  grows_at owners c token (final short done e) wide at h = cc (ap (λ (t : Str). is_empty t) e)

  -- A page that is followed by another is not empty, and the next cursor is inside its batch.
  pub page_grows :
      (owners : List Str) (c : Cursor)
      → 0 < size
      → IsInside owners c
      → is_empty (page sdk size filters context law codec faithful owners c).next_page_token ≡ false
      → (0 < length (page sdk size filters context law codec faithful owners c).tasks)
        × IsInside owners (
            decode_cursor codec
              (page sdk size filters context law codec faithful owners c).next_page_token)
  unfolding merged
  page_grows owners c wide at h =
      grows_at owners c _ (ending sdk size filters context law codec faithful owners c) wide at h
