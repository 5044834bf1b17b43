-- ===== src/Client/Marking/Asked.antt =====
-- What the routes read in the body of a client's mark.
use a2a_hub.Prelude.{◌≤◌, ◌≡◌, refl, false, [], ◌∷◌, arith, length}
use a2a_hub.Prelude.Text.{Str, codes, ◌==◌, is_empty, strip, lower}
use a2a_hub.Json.{Json, Fields, str, dict, get, text_or_empty}
use a2a_hub.Marks.{MarkState, processed, discarded, awaiting, state_text, min_detail}

-- the body of the client's request
abbrev pub mark_body : MarkState → Str → Fields
mark_body state detail =
    dict ((codes "state", str (state_text state)) ∷ (codes "detail", str detail) ∷ [])

pub state_text-asked :
    (repr : Json → Str) (state : MarkState) (detail : Str)
    → lower (strip (text_or_empty repr (get (codes "state") (mark_body state detail))))
      ≡ state_text state
unfolding get text_or_empty ◌==◌ strip lower
state_text-asked repr processed detail = refl
state_text-asked repr discarded detail = refl
state_text-asked repr awaiting detail = refl

pub detail-asked :
    (repr : Json → Str) (state : MarkState) (detail : Str)
    → is_empty detail ≡ false
    → text_or_empty repr (get (codes "detail") (mark_body state detail)) ≡ detail
unfolding get text_or_empty ◌==◌
detail-asked repr state detail full = rw full refl

pub full_of_long : (detail : Str) → min_detail ≤ length detail → is_empty detail ≡ false
full_of_long [] long = absurd (omega (arith, long))
full_of_long (c ∷ detail) long = refl
