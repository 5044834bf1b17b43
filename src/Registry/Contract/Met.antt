-- ===== src/Registry/Contract/Met.antt =====
-- The register of src/a2a_hub/registry.py keeps its contract.
use a2a_hub.Prelude.{ℕ, ◌≤◌, List, [], ◌∷◌}
use a2a_hub.Prelude.Text.{Str}
use a2a_hub.Json.{Json}
use a2a_hub.Registry.{Row, Register}
use a2a_hub.Registry.Declared.{IsKeyed}
use a2a_hub.Registry.Kept.{
  IsKept, later-IsKept, empty_cache-IsKept, touch-IsKept, declare-IsKept, retire-IsKept,
  update_status-IsKept,
}
use a2a_hub.Registry.Contract.{
  Change, touching, retiring, declaring, reporting, restarting, clock_after, IsOrdered,
  new_register, perform, perform_all, Allows, restarted, AllowsAll, end, next,
}
use a2a_hub.Registry.Contract.Steps.{
  entries_of, touch-Allows, declare-Allows, retire-Allows, update_status-Allows,
}

module _ (repr : Json → Str) where
  perform-Allows :
      (clock : ℕ) (change : Change) (register : Register)
      → IsKept clock register
      → Allows repr
          (entries_of register)
          change
          (perform repr change register).0
          (entries_of (perform repr change register).1)
  unfolding perform new_register
  perform-Allows clock (touching now identity) register h =
      touch-Allows repr now identity register h.backed
  perform-Allows clock (retiring now identity) register h =
      retire-Allows repr now identity register h.one_row
  perform-Allows clock (declaring now identity declaration) register h =
      declare-Allows repr now identity register declaration
  perform-Allows clock (reporting now identity status) register h =
      update_status-Allows repr now identity register h.one_row status
  perform-Allows clock restarting register h = restarted

  perform-IsKept :
      (clock : ℕ) (change : Change) (register : Register)
      → clock ≤ clock_after clock change
      → IsKept clock register
      → IsKept (clock_after clock change) (perform repr change register).1
  unfolding perform new_register
  perform-IsKept clock (touching now identity) register ordered h =
      touch-IsKept now identity register (later-IsKept clock now register ordered h)
  perform-IsKept clock (retiring now identity) register ordered h =
      retire-IsKept now identity register (later-IsKept clock now register ordered h)
  perform-IsKept clock (declaring now identity declaration) register ordered h =
      declare-IsKept now identity register (later-IsKept clock now register ordered h) declaration
  perform-IsKept clock (reporting now identity status) register ordered h =
      update_status-IsKept now identity register (later-IsKept clock now register ordered h) repr
        status
  perform-IsKept clock restarting register ordered h =
      empty_cache-IsKept clock register.rows h.one_row

  run-AllowsAll :
      (clock : ℕ) (changes : List Change) (register : Register)
      → IsOrdered clock changes
      → IsKept clock register
      → AllowsAll repr
          (entries_of register)
          changes
          (perform_all repr changes register).0
          (entries_of (perform_all repr changes register).1)
  unfolding perform_all
  run-AllowsAll clock [] register ordered h = end
  run-AllowsAll clock (change ∷ changes) register (first, ordered) h =
      next (perform-Allows clock change register h) (
        run-AllowsAll (clock_after clock change) changes (perform repr change register).1 ordered
          (perform-IsKept clock change register first h))

  -- From a new register over a table with one row for each identity, any touches, declarations,
  -- retirements, changes of status and restarts, none earlier than the one before, have answers and
  -- lead to entries that the contract allows, one after another: no entry but the caller's changes;
  -- a touch stamps it, or is left out if it was seen less than 60 seconds before; a declaration
  -- replaces it; a retirement succeeds on an entry that is not retired and on no other, and stamps
  -- it; a change of status succeeds on an entry that has declared itself and on no other, and
  -- writes the trimmed text; and a restart changes nothing.
  pub perform_all-AllowsAll :
      (changes : List Change) (rows : List Row)
      → IsOrdered 0 changes
      → IsKeyed rows
      → AllowsAll repr
          (entries_of (new_register rows))
          changes
          (perform_all repr changes (new_register rows)).0
          (entries_of (perform_all repr changes (new_register rows)).1)
  perform_all-AllowsAll changes rows ordered keyed =
      run-AllowsAll 0 changes (new_register rows) ordered
        (unfold new_register in empty_cache-IsKept 0 rows keyed)
