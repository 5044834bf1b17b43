-- ===== src/Client/Reading/Ends.antt =====
-- `list_all_tasks` ends, having asked for at most as many pages as it is allowed.
use a2a_hub.Prelude.{
  ℕ, zero, suc, ◌+◌, ◌≤◌, ◌<◌, Bool, true, false, ◌||◌, ◌≡◌, refl, Option, none, some, List, [],
  ◌∷◌, ◌++◌, arith, leb,
}
use a2a_hub.Prelude.Text.{Str, is_empty, mem}
use a2a_hub.Json.{Json}
use a2a_hub.Client.Effect.{Outcome, ok, refused, crashed, World, M, continue}
use a2a_hub.Client.Calls.{HubClient}
use a2a_hub.Client.Reading.{Page, Walked, walk, walk_all, fetch_page, list_all_tasks}

-- At least one page was read and at most `bound`; or the last thing done was a call for a page, which
-- raised the exception.
abbrev pub Ends : {S : Type 0} → ℕ → (Str → M S Page) → Outcome (Option Walked) × World S → Type 0
Ends bound fetch (ok none, w) = ⊥
Ends bound fetch (ok (some walked), w) = (1 ≤ walked.pages) × (walked.pages ≤ bound)
Ends bound fetch (refused e, w) =
    (token : Str) × (before : World _) × (fetch token before ≡ (refused e, w))
Ends bound fetch (crashed, w) =
    (token : Str) × (before : World _) × (fetch token before ≡ (crashed, w))

-- `max(1, n)`
abbrev pub at_least_one : ℕ → ℕ
at_least_one zero = 1
at_least_one (suc n) = suc n

spent : (n k : ℕ) → k < at_least_one n → n < k → ⊥
spent zero k a b = omega (arith, a, b)
spent (suc n) k a b = omega (arith, a, b)

lt-at_least_one : (n k : ℕ) → k < n → k < at_least_one n
lt-at_least_one zero k h = absurd (omega (arith, h))
lt-at_least_one (suc n) k h = h

zero-lt-at_least_one : (n : ℕ) → 0 < at_least_one n
zero-lt-at_least_one zero = omega arith
zero-lt-at_least_one (suc n) = omega arith

module _ {S : Type 0} (fetch : Str → M S Page) (bound : ℕ) where
  continue-Ends :
      (token : Str) (before : World S) (r : Outcome Page × World S) (f : Page → M S (Option Walked))
      → fetch token before ≡ r
      → ((page : Page) (w : World S) → Ends bound fetch (f page w))
      → Ends bound fetch (continue r f)
  continue-Ends token before (ok page, w) f e h = h page w
  continue-Ends token before (refused error, w) f e h = (token, before, e)
  continue-Ends token before (crashed, w) f e h = (token, before, e)

  branch-Ends :
      (b : Bool) (f g : M S (Option Walked)) (w : World S)
      → (b ≡ true → Ends bound fetch (f w))
      → (b ≡ false → Ends bound fetch (g w))
      → Ends bound fetch
          ((elim b as (λ (c : Bool). M S (Option Walked)) [ true ↦ f | false ↦ g ]) w)
  branch-Ends true f g w yes_ no_ = yes_ refl
  branch-Ends false f g w yes_ no_ = no_ refl

module _ {S : Type 0} (fetch : Str → M S Page) (max_pages : ℕ) where
  walk-Ends :
      (fuel : ℕ) (tasks : List Json) (seen : List Str) (pages : ℕ) (token : Str) (w : World S)
      → pages < at_least_one max_pages
      → max_pages < pages + fuel
      → Ends (at_least_one max_pages) fetch (walk fetch max_pages fuel tasks seen pages token w)
  unfolding walk
  walk-Ends zero tasks seen pages token w early enough =
      absurd (spent max_pages pages early (omega (arith, enough)))
  walk-Ends (suc fuel) tasks seen pages token w early enough =
      continue-Ends fetch (at_least_one max_pages) token w (fetch token w) _ refl λ page w'.
        branch-Ends fetch (at_least_one max_pages) (is_empty page.next) _ _ w'
          (λ last. (omega arith, omega (arith, early)))
          λ more.
            branch-Ends fetch (at_least_one max_pages)
              (mem page.next seen || leb max_pages (suc pages)) _ _ w'
              (λ stop. (omega arith, omega (arith, early)))
              λ on.
                walk-Ends fuel (tasks ++ page.tasks) (page.next ∷ seen) (suc pages) page.next w'
                  (lt-at_least_one max_pages (suc pages) (ground (arith, on)))
                  (omega (arith, enough))

module _ {S : Type 0} (repr : Json → Str) (client : HubClient S) where
  -- Whatever the hub answers, list_all_tasks ends: it returns a result after at least one page and
  -- at most as many as the bound, a bound of 0 counting as 1, or the last thing that it did was a
  -- call for a page, which raised the exception that it ends with.
  pub list_all_tasks-Ends :
      (include_artifacts : Bool) (page_size max_pages : ℕ) (w : World S)
      → Ends
          (at_least_one max_pages)
          (fetch_page repr client include_artifacts page_size)
          (list_all_tasks repr client include_artifacts page_size max_pages w)
  unfolding list_all_tasks walk_all
  list_all_tasks-Ends include_artifacts page_size max_pages w =
      walk-Ends (fetch_page repr client include_artifacts page_size) max_pages (suc max_pages) [] []
        0 [] w (zero-lt-at_least_one max_pages) (omega arith)
