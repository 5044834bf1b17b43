-- ===== src/Client/Reading/Counted.antt =====
-- What `split_by_mailbox` counts.
use a2a_hub.Prelude.{◌+◌, Bool, not, ◌&&◌, ◌≡◌, List, [], ◌∷◌, arith, length, keep_if}
use a2a_hub.Prelude.Text.{Str}
use a2a_hub.Json.{Json}
use a2a_hub.Client.Reading.{is_named, task_recipient, Split, split_from, split_by_mailbox}

abbrev pub to_session : Str → Json → Bool
to_session identity task = is_named (task_recipient task) identity

abbrev pub to_agent : Str → Str → Json → Bool
to_agent identity principal task =
    not (to_session identity task) && is_named (task_recipient task) principal

abbrev pub to_nobody : Str → Str → Json → Bool
to_nobody identity principal task =
    not (to_session identity task) && not (is_named (task_recipient task) principal)

module _ (identity principal : Str) where
  split_from-counts :
      (tasks : List Json) (counts : Split)
      → ((split_from tasks identity principal counts).session
          ≡ counts.session + length (keep_if (to_session identity) tasks))
        × ((split_from tasks identity principal counts).broadcast
            ≡ counts.broadcast + length (keep_if (to_agent identity principal) tasks))
        × ((split_from tasks identity principal counts).unclassified
            ≡ counts.unclassified + length (keep_if (to_nobody identity principal) tasks))
  unfolding split_from
  split_from-counts [] counts = (omega arith, omega arith, omega arith)
  split_from-counts (task ∷ tasks) counts = ground (
    arith,
    split_from-counts tasks (record counts { session = counts.session + 1 }),
    split_from-counts tasks (record counts { broadcast = counts.broadcast + 1 }),
    split_from-counts tasks (record counts { unclassified = counts.unclassified + 1 }),
  )

  three_ways :
      (tasks : List Json)
      → length (keep_if (to_session identity) tasks)
          + length (keep_if (to_agent identity principal) tasks)
          + length (keep_if (to_nobody identity principal) tasks)
        ≡ length tasks
  three_ways [] = omega arith
  three_ways (task ∷ tasks) = ground (arith, three_ways tasks)

  -- split_by_mailbox counts for the session the tasks whose recipient is its identity, for the
  -- agent those of the others whose recipient is the agent, and every task once.
  pub split_by_mailbox_exact :
      (tasks : List Json)
      → let split = split_by_mailbox tasks identity principal in
        (split.session ≡ length (keep_if (to_session identity) tasks))
        × (split.broadcast ≡ length (keep_if (to_agent identity principal) tasks))
        × (split.session + split.broadcast + split.unclassified ≡ length tasks)
  unfolding split_by_mailbox
  split_by_mailbox_exact tasks =
      let counts =
        split_from-counts tasks (record { session = 0; broadcast = 0; unclassified = 0 }) in
      (omega (arith, counts), omega (arith, counts), omega (arith, counts, three_ways tasks))
