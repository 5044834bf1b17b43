-- ===== src/Examples/Listed.antt =====
-- The line of a message in a listing.
use a2a_hub.Prelude.{◌≡◌, ◌≢◌, refl, some, All, arith, [], ◌∷◌}
use a2a_hub.Prelude.Text.{Str, codes, ◌==◌, rstrip, strip, lstrip, is_space, starts_with, join}
use a2a_hub.Json.{str, arr, obj, Fields, array, dict, get}
use a2a_hub.Client.Tasks.{
  remove_from, space_for_t, padded, part_texts, artifact_lines, format_task, id_shown,
}
use a2a_hub.Client.Tasks.Shown.{id_shown-format_task}
use a2a_hub.Examples.Calling.{no_repr}

abbrev greeting : Fields
greeting = dict (
    (codes "id", str (codes "t-17"))
    ∷ (
      codes "status",
      obj (
          dict (
            (codes "state", str (codes "TASK_STATE_COMPLETED"))
            ∷ (codes "timestamp", str (codes "2026-08-11T10:02:03.456Z"))
            ∷ [])),
    )
    ∷ (
      codes "artifacts",
      arr (
          array (
            obj (
              dict (
                (codes "metadata", obj (dict ((codes "sender", str (codes "bob/s2")) ∷ [])))
                ∷ (
                  codes "parts",
                  arr (array (obj (dict ((codes "text", str (codes " hi")) ∷ [])) ∷ [])),
                )
                ∷ []))
            ∷ [])),
    )
    ∷ [])

abbrev line : Str
line = codes "[t-17] COMPLETED 2026-08-11 10:02:03\n    from bob/s2: hi"

line_test : format_task no_repr greeting ≡ some line
unfolding format_task artifact_lines part_texts remove_from space_for_t padded get ◌==◌ rstrip strip
    lstrip is_space starts_with join
line_test = refl

plain_id : All (λ d. d ≢ b']') (codes "t-17")
plain_id = (ground arith, (ground arith, (ground arith, (ground arith, tt))))

id_shown-format_task_example : id_shown line ≡ codes "t-17"
unfolding get ◌==◌
id_shown-format_task_example =
    id_shown-format_task no_repr greeting (codes "t-17") line refl plain_id line_test
