-- ===== src/Registry/Listed.antt =====
-- Which agents a listing holds.
use mathlib.Core.Path.{fun_ext}
use mathlib.Core.List.{Perm, filter_map}
use mathlib.Core.List.Perm
use Prim.Native.Nat.{◌/◌}
use a2a_hub.Prelude.{
  ℕ, Bool, ◌||◌, ◌≡◌, ◌+◌, ◌*◌, ◌-◌, ◌<◌, ltb, leb, zero, suc, arith, true, false, not, ◌&&◌, inl,
  inr, refl, ap, Option, none, some, List, [], ◌∷◌, map, keep_if, Bool-cases, if◌then◌else◌,
}
use a2a_hub.Prelude.Int.{ℤ, pos, neg, lt_int, trunc_diff}
use a2a_hub.Registry.{Row, Register, age_seconds, is_current, second}
use a2a_hub.Registry.Changes.{Agent, agent_of, is_active, is_listed, selected, listed, list_agents}

module _ (now : ℕ) (quiet_for : Option ℤ) where
  abbrev entry : Row → Option Agent
  entry row =
      if is_active quiet_for (age_seconds row.last_seen now) then none else some (agent_of now row)

  listed-filter_map : (rows : List Row) → listed now quiet_for rows ≡ filter_map entry rows
  unfolding listed filter_map
  listed-filter_map [] = refl
  listed-filter_map (row ∷ rows) =
      elim (Bool-cases (is_active quiet_for (age_seconds row.last_seen now))) [
        | inl active ↦ rw active (listed-filter_map rows)
        | inr quiet ↦ rw quiet (ap (◌∷◌ (agent_of now row)) (listed-filter_map rows))
      ]

  listed-selected :
      (include_retired : Bool) (rows : List Row)
      → listed now quiet_for (selected include_retired rows)
        ≡ map (agent_of now) (keep_if (is_listed now include_retired quiet_for) rows)
  unfolding listed selected
  listed-selected include_retired [] = refl
  listed-selected include_retired (row ∷ rows) =
      let ih = listed-selected include_retired rows in
      elim (Bool-cases (include_retired || is_current row)) [
        | inl present ↦ elim (Bool-cases (is_active quiet_for (age_seconds row.last_seen now))) [
          | inl active ↦ rw (present, active) ih
          | inr quiet ↦ rw (present, quiet) (ap (◌∷◌ (agent_of now row)) ih)
        ]
        | inr retired ↦ rw retired ih
      ]

  list_agents_kept :
      (recent_first : List Row → List Row)
      → ((rows : List Row) → Perm (recent_first rows) rows)
      → (include_retired : Bool) (register : Register)
      → Perm
          (list_agents recent_first now include_retired quiet_for register)
          (map (agent_of now) (keep_if (is_listed now include_retired quiet_for) register.rows))
  unfolding list_agents
  list_agents_kept recent_first sorts include_retired register =
      rw
        (
          ← listed-selected include_retired register.rows,
          listed-filter_map (recent_first (selected include_retired register.rows)),
          listed-filter_map (selected include_retired register.rows),
        )
        (Perm.filter_map entry (sorts (selected include_retired register.rows)))

-- less than so many seconds before `now`, or after it
abbrev pub seen_within : ℕ → Option ℕ → Option ℕ → Bool
seen_within now none at = false
seen_within now (some seconds) none = false
seen_within now (some seconds) (some at) = ltb now (at + seconds * second)

-- the row belongs into the listing
abbrev pub is_wanted : ℕ → Bool → Option ℕ → Row → Bool
is_wanted now include_retired quiet row =
    (include_retired || elim row.retired_at [ none ↦ true | some at ↦ false ])
    && not (seen_within now quiet row.last_seen)

abbrev pub IsPositive : Option ℕ → Type 0
IsPositive none = Unit
IsPositive (some seconds) = 0 < seconds

neg_is_less : (k n : ℕ) → 0 < n → lt_int (neg k) (pos n) ≡ true
neg_is_less zero n h = ground (arith, h)
neg_is_less (suc k) n h = refl

age-seen_within :
    (now seconds at : ℕ)
    → 0 < seconds
    → lt_int (trunc_diff second now at) (pos seconds) ≡ ltb now (at + seconds * second)
age-seen_within now seconds at h = elim (Bool-cases (leb at now)) [
  | inl past ↦ rw past (ground (arith, past))
  | inr future ↦ rw (future, neg_is_less ((at - now) / second) seconds h) (ground (arith, future))
]

-- the listing's argument
abbrev pub as_int : Option ℕ → Option ℤ
as_int none = none
as_int (some seconds) = some (pos seconds)

is_active-seen_within :
    (now : ℕ) (quiet at : Option ℕ)
    → IsPositive quiet
    → is_active (as_int quiet) (age_seconds at now) ≡ seen_within now quiet at
is_active-seen_within now none at h = refl
is_active-seen_within now (some seconds) none h = refl
is_active-seen_within now (some seconds) (some at) h = age-seen_within now seconds at h

is_listed-is_wanted :
    (now : ℕ) (include_retired : Bool) (quiet : Option ℕ)
    → IsPositive quiet
    → is_listed now include_retired (as_int quiet) ≡ is_wanted now include_retired quiet
is_listed-is_wanted now include_retired quiet h =
    fun_ext λ row. rw (is_active-seen_within now quiet row.last_seen h) refl

-- If the database's ordering of rows keeps every row, and the number of quiet seconds, if one is
-- given, is not 0: the listing of agents holds exactly the rows that are not retired, or any if
-- those are asked for, and that were never seen, or last seen at least that number of seconds
-- before now if one is given, each row once.
pub list_agents_exact :
    (now : ℕ) (quiet : Option ℕ) (recent_first : List Row → List Row)
    → IsPositive quiet
    → ((rows : List Row) → Perm (recent_first rows) rows)
    → (include_retired : Bool) (register : Register)
    → Perm
        (list_agents recent_first now include_retired (as_int quiet) register)
        (map (agent_of now) (keep_if (is_wanted now include_retired quiet) register.rows))
list_agents_exact now quiet recent_first positive sorts include_retired register =
    rw (← is_listed-is_wanted now include_retired quiet positive)
      (list_agents_kept now (as_int quiet) recent_first sorts include_retired register)
