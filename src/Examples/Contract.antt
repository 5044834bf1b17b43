-- ===== src/Examples/Contract.antt =====
-- A register with one agent, through a declaration, a change of status, a retirement and a restart.
use a2a_hub.Prelude.{◌≡◌, refl, true, false, some, none, List, [], ◌∷◌, arith}
use a2a_hub.Prelude.Text.{Str, codes, ◌==◌, strip, lstrip, rstrip, is_space}
use a2a_hub.Json.{Json, str, text_or_empty}
use a2a_hub.Registry.{
  Row, Declaration, seen_row, touch, upsert, written_at, write_at, declare, trim,
}
use a2a_hub.Registry.Changes.{update, hits, retire, update_status}
use a2a_hub.Registry.Presence.{find}
use a2a_hub.Registry.Declared.{IsKeyed}
use a2a_hub.Registry.Contract.{
  Change, touching, retiring, declaring, reporting, restarting, done, was_retired, reported,
  IsOrdered, new_register, perform, perform_all, AllowsAll,
}
use a2a_hub.Registry.Contract.Steps.{entries_of}
use a2a_hub.Registry.Contract.Met.{perform_all-AllowsAll}

abbrev no_repr : Json → Str
no_repr v = []

abbrev ana : Str
ana = codes "ana/s1"

abbrev one_row : List Row
one_row = seen_row ana 5 ∷ []

abbrev worker : Declaration
worker = record { role = codes "project"; host = []; projects = codes "hub" ∷ []; status = [] }

abbrev day : List Change
day =
    touching 7 ana
    ∷ reporting 8 ana (str (codes "early"))
    ∷ declaring 9 ana worker
    ∷ reporting 9 ana (str (codes " busy "))
    ∷ retiring 11 ana
    ∷ restarting
    ∷ retiring 12 ana
    ∷ []

day-IsOrdered : IsOrdered 0 day
day-IsOrdered = (
  omega arith,
  (omega arith, (omega arith, (omega arith, (omega arith, (omega arith, (omega arith, tt)))))),
)

one_row-IsKeyed : IsKeyed one_row
unfolding find
one_row-IsKeyed = (refl, tt)

perform_all-AllowsAll_example :
    AllowsAll no_repr
      (entries_of (new_register one_row))
      day
      (perform_all no_repr day (new_register one_row)).0
      (entries_of (perform_all no_repr day (new_register one_row)).1)
perform_all-AllowsAll_example =
    perform_all-AllowsAll no_repr day one_row day-IsOrdered one_row-IsKeyed

answers_test :
    (perform_all no_repr day (new_register one_row)).0
    ≡ done
      ∷ reported none
      ∷ done
      ∷ reported (some (codes "busy"))
      ∷ was_retired true
      ∷ done
      ∷ was_retired false
      ∷ []
unfolding perform_all perform new_register touch retire declare update_status hits update upsert
    written_at write_at trim strip lstrip rstrip is_space text_or_empty ◌==◌
answers_test = refl
