-- ===== src/Marks/Clean.antt =====
-- What `clean_mark` accepts.
use a2a_hub.Prelude.{
  ◌≤◌, false, ◌≡◌, inl, inr, refl, ap, ◌∙◌, some, arith, Option-cases, Bool-cases, length, take,
  ltb, length-take,
}
use a2a_hub.Prelude.Text.{Str, codes, ◌==◌, eq_iff, strip, lower}
use a2a_hub.Json.{Json, Fields, get, text_or_empty}
use a2a_hub.Marks.{
  MarkState, processed, discarded, awaiting, state_text, state_of_text, min_detail, max_detail,
  Mark, clean, clean_detail, clean_mark,
}

state_of_text_sound :
    (s : Str) (state : MarkState) → state_of_text s ≡ some state → s ≡ state_text state
unfolding state_of_text
state_of_text_sound s processed h =
    ground (
      arith,
      eq_iff s (codes "processed"),
      eq_iff s (codes "discarded"),
      eq_iff s (codes "awaiting"),
    )
state_of_text_sound s discarded h =
    ground (
      arith,
      eq_iff s (codes "processed"),
      eq_iff s (codes "discarded"),
      eq_iff s (codes "awaiting"),
    )
state_of_text_sound s awaiting h =
    ground (
      arith,
      eq_iff s (codes "processed"),
      eq_iff s (codes "discarded"),
      eq_iff s (codes "awaiting"),
    )

state_of_text-state_text : (state : MarkState) → state_of_text (state_text state) ≡ some state
unfolding state_of_text ◌==◌
state_of_text-state_text processed = refl
state_of_text-state_text discarded = refl
state_of_text-state_text awaiting = refl

clean_detail_sound :
    (state : MarkState) (detail : Str) (mark : Mark)
    → clean_detail state detail ≡ clean mark
    → (state ≡ mark.state)
      × (mark.detail ≡ take max_detail detail)
      × (min_detail ≤ length mark.detail)
      × (length mark.detail ≤ max_detail)
unfolding clean_detail
clean_detail_sound state detail mark h = elim (Bool-cases (ltb (length detail) min_detail)) [
  | inl short ↦ absurd (ground arith)
  | inr enough ↦
      let same : clean (record { state = state; detail = take max_detail detail }) ≡ clean mark =
        rw (enough, clean_detail) at h in
      let cut : mark.detail ≡ take max_detail detail = cc in
      let size = length-take max_detail detail in
      (cc, cut, rw cut (ground (arith, size)), rw cut (ground (arith, size)))
]

clean_detail_complete :
    (state : MarkState) (detail : Str)
    → min_detail ≤ length detail
    → clean_detail state detail ≡ clean (record { state = state; detail = take max_detail detail })
unfolding clean_detail
clean_detail_complete state detail d =
    let enough : ltb (length detail) min_detail ≡ false = ground arith in rw enough refl

module _ (repr : Json → Str) (payload : Fields) where
  abbrev asked_state : Str
  asked_state = lower (strip (text_or_empty repr (get (codes "state") payload)))

  abbrev asked_detail : Str
  asked_detail = strip (text_or_empty repr (get (codes "detail") payload))

  -- An accepted mark has the state that was asked for, and as its detail the first 2000 characters
  -- of one of at least 8 characters.
  pub clean_mark_sound :
      (mark : Mark)
      → clean_mark repr payload ≡ clean mark
      → (asked_state ≡ state_text mark.state)
        × (mark.detail ≡ take max_detail asked_detail)
        × (min_detail ≤ length mark.detail)
        × (length mark.detail ≤ max_detail)
  unfolding clean_mark
  clean_mark_sound mark h = elim (Option-cases (state_of_text asked_state)) [
    | inl unknown ↦ absurd (ground arith)
    | inr (state, known) ↦
        let (same, cut, low, high) =
          clean_detail_sound state asked_detail mark (rw (known, clean_mark) at h) in
        (
          state_of_text_sound asked_state state known ∙ ap (λ (t : MarkState). state_text t) same,
          cut,
          low,
          high,
        )
  ]

  -- A request with a known state and a detail of at least 8 characters is accepted.
  pub clean_mark_complete :
      (state : MarkState)
      → asked_state ≡ state_text state
      → min_detail ≤ length asked_detail
      → clean_mark repr payload
        ≡ clean (record { state = state; detail = take max_detail asked_detail })
  unfolding clean_mark
  clean_mark_complete state s d =
      rw (s, clean_mark, state_of_text-state_text state)
        (clean_detail_complete state asked_detail d)
