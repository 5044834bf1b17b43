-- ===== src/Registry/Kept.antt =====
-- What holds of the register of src/a2a_hub/registry.py after every change.
use a2a_hub.Prelude.{ℕ, ◌≤◌, inl, inr, List, [], arith, Bool-cases}
use a2a_hub.Prelude.Text.{Str}
use a2a_hub.Json.{Json}
use a2a_hub.Registry.{Row, Register, Declaration, declare, touch, written_at}
use a2a_hub.Registry.Changes.{retire, update_status, hits, has_declared}
use a2a_hub.Registry.Backed.{
  IsPast, touch-IsPast, declare-IsBacked, retire-IsBacked, update_status-IsBacked,
}
use a2a_hub.Registry.Keyed.{touch-IsKeyed, declare-IsKeyed, retire-IsKeyed, update_status-IsKeyed}
use a2a_hub.Registry.Presence.{IsBacked, touch-IsBacked}
use a2a_hub.Registry.Declared.{IsKeyed}

-- The register and its cache: one row for each identity, and no cached write that lies in the future
-- or that the table does not show.
pub record IsKept (clock : ℕ) (register : Register) : Type 0 where
  pub one_row : IsKeyed register.rows
  pub past : IsPast clock register
  pub backed : IsBacked register

pub later-IsKept :
    (clock now : ℕ) (register : Register)
    → clock ≤ now
    → IsKept clock register
    → IsKept now register
later-IsKept clock now register ordered h = record {
  one_row = h.one_row;
  past = λ identity at written. omega (arith, h.past identity at written, ordered);
  backed = h.backed;
}

pub empty_cache-IsKept :
    (clock : ℕ) (rows : List Row)
    → IsKeyed rows
    → IsKept clock (record { rows = rows; last_write = [] })
unfolding written_at
empty_cache-IsKept clock rows keyed = record {
  one_row = keyed;
  past = λ identity at written. cc written;
  backed = λ identity at written. cc written;
}

module _ (now : ℕ) (identity : Str) (register : Register) (h : IsKept now register) where
  pub touch-IsKept : IsKept now (touch now identity register)
  touch-IsKept = record {
    one_row = touch-IsKeyed now identity register h.one_row;
    past = touch-IsPast now identity register h.past;
    backed = touch-IsBacked now identity register h.backed;
  }

  pub declare-IsKept :
      (declaration : Declaration) → IsKept now (declare now identity declaration register).1
  declare-IsKept declaration = record {
    one_row = declare-IsKeyed now identity register h.one_row declaration;
    past = unfold declare in h.past;
    backed = declare-IsBacked now identity register h.past h.backed declaration;
  }

  pub retire-IsKept : IsKept now (retire now identity register).1
  retire-IsKept = record {
    one_row = retire-IsKeyed now identity register h.one_row;
    past = unfold retire in h.past;
    backed = retire-IsBacked now identity register h.past h.backed h.one_row;
  }

  update_status-IsPast :
      (repr : Json → Str) (status : Json)
      → IsPast now (update_status repr now identity status register).1
  unfolding update_status
  update_status-IsPast repr status = elim (Bool-cases (hits identity has_declared register.rows)) [
    | inl hit ↦ rw hit h.past
    | inr miss ↦ rw miss h.past
  ]

  pub update_status-IsKept :
      (repr : Json → Str) (status : Json)
      → IsKept now (update_status repr now identity status register).1
  update_status-IsKept repr status = record {
    one_row = update_status-IsKeyed now identity register h.one_row repr status;
    past = update_status-IsPast repr status;
    backed = update_status-IsBacked now identity register h.past h.backed h.one_row repr status;
  }
