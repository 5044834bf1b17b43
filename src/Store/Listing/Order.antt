-- ===== src/Store/Listing/Order.antt =====
-- Sorting a batch and gathering the mailboxes keep the tasks as a multiset.
use mathlib.Core.Logic.{∥∥₁_elim}
use mathlib.Core.List.{Perm, Permᴰ, perm_append_comm}
use mathlib.Core.List.Perm
use native.Mathlib.Nat.{ℕ_set}
use mathlib.Core.Path.{ap₂}
use a2a_hub.Prelude.{
  inl, inr, suc, ◌≡◌, refl, ap, ◌∙◌, true, List, [], ◌∷◌, ◌++◌, append_assoc, arith, length,
  Bool-cases,
}
use a2a_hub.Prelude.Text.{Str, eq_refl, mem}
use a2a_hub.Store.{Task}
use a2a_hub.Store.Listing.{is_newer, insert_task, sort_tasks, gather}

insert_task-perm : (t : Task) (ts : List Task) → Perm (insert_task t ts) (t ∷ ts)
unfolding insert_task
insert_task-perm t [] = Perm.refl (t ∷ [])
insert_task-perm t (u ∷ ts) = elim (Bool-cases (is_newer u t)) [
  | inl newer ↦ rw newer (Perm.trans (Perm.cons u (insert_task-perm t ts)) (Perm.swap t u ts))
  | inr older ↦ rw older (Perm.refl (t ∷ u ∷ ts))
]

pub sort_tasks-perm : (ts : List Task) → Perm (sort_tasks ts) ts
unfolding sort_tasks
sort_tasks-perm [] = Perm.refl []
sort_tasks-perm (t ∷ ts) =
    Perm.trans (insert_task-perm t (sort_tasks ts)) (Perm.cons t (sort_tasks-perm ts))

regroup : (a b c d : List Task) → (a ++ b) ++ (c ++ d) ≡ a ++ ((b ++ c) ++ d)
regroup a b c d = simp append_assoc

swap_middle : (a b c d : List Task) → Perm ((a ++ b) ++ (c ++ d)) ((a ++ c) ++ (b ++ d))
swap_middle a b c d =
    rw (regroup a b c d, regroup a c b d)
      (Perm.append_left a (Perm.append_right d (perm_append_comm b c)))

pub gather-append-perm :
    (f g : Str → List Task) (owners : List Str)
    → Perm (gather (λ o. f o ++ g o) owners) (gather f owners ++ gather g owners)
gather-append-perm f g [] = Perm.refl []
gather-append-perm f g (o ∷ owners) =
    Perm.trans (Perm.append_left (f o ++ g o) (gather-append-perm f g owners))
      (swap_middle (f o) (g o) (gather f owners) (gather g owners))

mem_first : (o : Str) (owners : List Str) → mem o (o ∷ owners) ≡ true
unfolding mem
mem_first o owners = rw (eq_refl o)

mem_later : (p o : Str) (owners : List Str) → mem p owners ≡ true → mem p (o ∷ owners) ≡ true
unfolding mem
mem_later p o owners m = ground arith

pub gather_congr :
    (f g : Str → List Task) (owners : List Str)
    → ((o : Str) → mem o owners ≡ true → f o ≡ g o)
    → gather f owners ≡ gather g owners
gather_congr f g [] h = refl
gather_congr f g (o ∷ owners) h =
    ap₂ ◌++◌ (h o (mem_first o owners))
      (gather_congr f g owners (λ p m. h p (mem_later p o owners m)))

Permᴰ-length : {xs ys : List Task} → Permᴰ xs ys → length xs ≡ length ys
Permᴰ-length Permᴰ.nil = refl
Permᴰ-length (Permᴰ.cons e p) = ap suc (Permᴰ-length p)
Permᴰ-length (Permᴰ.swap e f) = refl
Permᴰ-length (Permᴰ.trans p q) = Permᴰ-length p ∙ Permᴰ-length q

pub Perm-length : {xs ys : List Task} → Perm xs ys → length xs ≡ length ys
Perm-length {xs} {ys} p = ∥∥₁_elim p (ℕ_set (length xs) (length ys)) Permᴰ-length
