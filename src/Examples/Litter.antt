-- ===== src/Examples/Litter.antt =====
-- A listing with litter, a live tree, the deployed image and one of its children.
use a2a_hub.Prelude.{ℕ, false, ◌≡◌, ◌↔◌, refl, List, [], ◌∷◌, All}
use a2a_hub.Prelude.Int.{pos, lt_int}
use a2a_hub.Prelude.Text.{Str, codes, ◌==◌, mem, starts_with}
use a2a_hub.Prune.{
  Version, age_days, delete, judge, judge_trees, classify, classify_from, confirm, plan_main,
}
use a2a_hub.Prune.Litter.{IsLitter, judge_iff, plan_main_safe}

abbrev version : Str → List Str → Version
version name tags = record { id = pos 7; tags = tags; created_at = 0; name = name }

abbrev litter : Version
litter = version (codes "d1") (codes "tree-aa" ∷ [])

abbrev listing : List Version
listing =
    litter
    ∷ version (codes "d2") (codes "tree-bb" ∷ [])
    ∷ version (codes "d3") (codes "sha-1" ∷ codes "tree-cc" ∷ [])
    ∷ version (codes "d4") []
    ∷ []

abbrev live : List Str
live = codes "bb" ∷ []

abbrev ten_days : ℕ
ten_days = 864000000000

plan_main_test :
    (plan_main live (codes "d3") (pos 7) ten_days (codes "sha-1") listing).1.deleted ≡ litter ∷ []
unfolding plan_main classify classify_from judge judge_trees age_days mem starts_with ◌==◌
plan_main_test = refl

plan_main_safe_example :
    All
      (λ v. (confirm live (codes "d3") v ≡ 0) × (lt_int (age_days v ten_days) (pos 7) ≡ false))
      (plan_main live (codes "d3") (pos 7) ten_days (codes "sha-1") listing).1.deleted
plan_main_safe_example = plan_main_safe live (codes "d3") (pos 7) ten_days (codes "sha-1") listing

judge_iff_example :
    (judge live (codes "d3") (pos 7) ten_days litter ≡ delete)
    ↔ (IsLitter live (codes "d3") litter × (lt_int (age_days litter ten_days) (pos 7) ≡ false))
judge_iff_example = judge_iff live (codes "d3") (pos 7) ten_days litter
