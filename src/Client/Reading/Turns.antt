-- ===== src/Client/Reading/Turns.antt =====
-- One turn of the loop of `list_all_tasks`, and what it leaves of a budget of pages.
use native.Mathlib.Nat.{mul-suc, mul-zero}
use a2a_hub.Prelude.{
  ◌∙◌, ℕ, zero, suc, ◌+◌, ◌*◌, ◌≤◌, ◌<◌, Bool, true, false, ◌||◌, ◌≡◌, inl, inr, refl, ap, Option,
  some, List, [], ◌∷◌, ◌++◌, arith, leb, Bool-cases, All,
}
use a2a_hub.Prelude.Text.{Str, ◌==◌, eq_iff, is_empty, mem}
use a2a_hub.Json.{Json}
use a2a_hub.Client.Effect.{ok, World, M}
use a2a_hub.Client.Reading.{Page, Walked, walk}

module _ (weight : Str → ℕ) where
  pub lighter_new :
      (token : Str) (seen : List Str)
      → All (λ t. weight token < weight t) seen
      → mem token seen ≡ false
  unfolding mem
  lighter_new token [] h = refl
  lighter_new token (t ∷ seen) (less, h) = elim (Bool-cases (token == t)) [
    | inl same ↦
        let e : token ≡ t = (eq_iff token t).0 same in
        let f : weight token ≡ weight t = ap weight e in absurd (omega (arith, f, less))
    | inr other ↦ rw other (lighter_new token seen h)
  ]

  pub lighter-All :
      (a b : Str) (seen : List Str)
      → weight b < weight a
      → All (λ t. weight a ≤ weight t) seen
      → All (λ t. weight b < weight t) seen
  lighter-All a b [] h k = tt
  lighter-All a b (t ∷ seen) h (less, k) = (omega (arith, h, less), lighter-All a b seen h k)

  pub lighter_weak :
      (b : Str) (seen : List Str)
      → All (λ t. weight b < weight t) seen
      → All (λ t. weight b ≤ weight t) seen
  lighter_weak b [] k = tt
  lighter_weak b (t ∷ seen) (less, k) = (omega (arith, less), lighter_weak b seen k)

-- one page less of the budget
pub budget_left :
    (size k spent next : ℕ) → size + next ≤ spent → spent < size * suc k → next < size * k
budget_left size k spent next pays h = let e = mul-suc size k in omega (arith, pays, h, e)

pub budget_pos : (size k next : ℕ) → next < size * k → 0 < k
budget_pos size zero next h = let e = mul-zero size in absurd (omega (arith, h, e))
budget_pos size (suc k) next h = omega arith

module _ {S : Type 0} where
  pick_true :
      (b : Bool) (f g : M S (Option Walked)) (w : World S)
      → b ≡ true
      → (elim b as (λ (c : Bool). M S (Option Walked)) [ true ↦ f | false ↦ g ]) w ≡ f w
  pick_true true f g w h = refl
  pick_true false f g w h = cc

  pick_false :
      (b : Bool) (f g : M S (Option Walked)) (w : World S)
      → b ≡ false
      → (elim b as (λ (c : Bool). M S (Option Walked)) [ true ↦ f | false ↦ g ]) w ≡ g w
  pick_false true f g w h = cc
  pick_false false f g w h = refl

module _ {S : Type 0} (fetch : Str → M S Page) (max_pages fuel : ℕ) (tasks : List Json)
    (seen : List Str) (pages : ℕ) (token : Str) (w w' : World S) (page : Page)
    (got : fetch token w ≡ (ok page, w')) where
  pub walk_last :
      is_empty page.next ≡ true
      → walk fetch max_pages (suc fuel) tasks seen pages token w ≡ (
        ok (
            some (record {
              tasks = tasks ++ page.tasks;
              total = page.total;
              pages = suc pages;
              incomplete = false;
            })),
        w',
      )
  unfolding walk
  walk_last last = rw got (pick_true (is_empty page.next) _ _ w' last)

  pub walk_more :
      is_empty page.next ≡ false
      → mem page.next seen ≡ false
      → leb max_pages (suc pages) ≡ false
      → walk fetch max_pages (suc fuel) tasks seen pages token w
        ≡ walk fetch max_pages fuel
            (tasks ++ page.tasks)
            (page.next ∷ seen)
            (suc pages)
            page.next
            w'
  unfolding walk
  walk_more more fresh early = rw got (
      pick_false (is_empty page.next) _ _ w' more
      ∙ pick_false (mem page.next seen || leb max_pages (suc pages)) _ _ w' (rw fresh early))
