-- ===== src/Client/Inbox/Hidden.antt =====
-- What `inbox --unprocessed` shows, and how much it says it hides.
use a2a_hub.Prelude.{◌≡◌, ◌+◌, refl, arith, not, ◌&&◌, List, [], ◌∷◌, length, keep_if}
use a2a_hub.Prelude.Text.{Str}
use a2a_hub.Json.{Json}
use a2a_hub.Client.Inbox.{unprocessed, is_closed_task, is_history}

-- inbox --unprocessed shows, in the order of the mailbox, the tasks that are neither closed nor
-- from before there were marks; it counts the closed ones as hidden; and those it shows and those
-- it counts are together the whole mailbox.
pub unprocessed_exact :
    (closed : List Str) (tasks : List Json)
    → ((unprocessed closed tasks).tasks
        ≡ keep_if (λ task. not (is_closed_task closed task) && not (is_history task)) tasks)
      × ((unprocessed closed tasks).hidden_closed ≡ length (keep_if (is_closed_task closed) tasks))
      × (length (unprocessed closed tasks).tasks
            + ((unprocessed closed tasks).hidden_closed
                + (unprocessed closed tasks).hidden_pre_cutoff)
          ≡ length tasks)
unfolding unprocessed
unprocessed_exact closed [] = (refl, refl, refl)
unprocessed_exact closed (task ∷ tasks) =
    let (kept, hidden, counts) = unprocessed_exact closed tasks in
    ground (arith, kept, hidden, counts)
