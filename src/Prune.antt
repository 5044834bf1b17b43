-- ===== src/Prune.antt =====
-- .github/scripts/prune_plan.py and .github/scripts/confirm_deletable.py: which container versions
-- may be deleted. A version is its record of the listing; an instant is a number of microseconds.
pub mod Litter
pub mod Listing
use a2a_hub.Prelude.{
  ℕ, ◌+◌, ◌-◌, ◌*◌, ◌/◌, Bool, true, false, not, ◌&&◌, ◌||◌, Option, none, some, List, [], ◌∷◌,
  ◌++◌, any, all, keep_if, drop, leb, if◌then◌else◌,
}
use a2a_hub.Prelude.Int.{ℤ, pos, neg, negsuc, lt_int}
use a2a_hub.Prelude.Text.{Str, codes, ◌==◌, is_empty, mem, starts_with}

pub record Version : Type 0 where
  pub id : ℤ
  pub tags : List Str
  pub created_at : ℕ
  pub name : Str

abbrev pub day : ℕ
day = 86400000000

-- `(now - created).days`, rounded down
unfoldable pub age_days : Version → ℕ → ℤ
age_days version now =
    if leb version.created_at now
    then pos ((now - version.created_at) / day)
    else negsuc ((version.created_at - now - 1) / day)

abbrev pub is_promoted_tag : Str → Bool
is_promoted_tag t = (t == codes "latest") || starts_with t (codes "sha-")

abbrev pub is_tree_tag : Str → Bool
is_tree_tag t = starts_with t (codes "tree-")

-- `t[len("tree-"):] in live_trees`
abbrev pub is_live_tag : List Str → Str → Bool
is_live_tag live_trees t = mem (drop 5 t) live_trees

pub data Reason : Type 0 where
  pinned untagged promoted unrecognised : Reason
  referenced : (tags : List Str) → Reason
  young : (age : ℤ) → Reason

pub data Verdict : Type 0 where
  delete : Verdict
  keep : Reason → Verdict

pub record Plan : Type 0 where
  pub deleted : List Version
  pub kept : List (Version × Reason)

abbrev pub add : Verdict → Version → Plan → Plan
add delete version plan = record plan { deleted = plan.deleted ++ version ∷ [] }
add (keep reason) version plan = record plan { kept = plan.kept ++ (version, reason) ∷ [] }

-- the body of the loop of `classify`, on a version whose tags are all `tree-*`
unfoldable pub judge_trees : List Str → Bool → ℤ → Verdict
judge_trees [] old age = if old then delete else keep (young age)
judge_trees (t ∷ ts) old age = keep (referenced (t ∷ ts))

module _ (live_trees : List Str) (pinned_digest : Str) where
  -- the body of the loop of `classify`
  unfoldable pub judge : ℤ → ℕ → Version → Verdict
  judge grace now version =
      if version.name == pinned_digest
      then keep pinned
      else if is_empty version.tags
      then keep untagged
      else if any is_promoted_tag version.tags
      then keep promoted
      else if all is_tree_tag version.tags
      then judge_trees (keep_if (is_live_tag live_trees) version.tags)
          (not (lt_int (age_days version now) grace)) (age_days version now)
      else keep unrecognised

  -- the loop of `classify` with its two lists
  unfoldable pub classify_from : ℤ → ℕ → List Version → Plan → Plan
  classify_from grace now [] plan = plan
  classify_from grace now (version ∷ versions) plan =
      classify_from grace now versions (add (judge grace now version) version plan)

  unfoldable pub classify : ℤ → ℕ → List Version → Plan
  classify grace now versions =
      classify_from grace now versions (record { deleted = []; kept = [] })

  -- `confirm_deletable.main` on a freshly read version: its exit status
  unfoldable pub confirm : Version → ℕ
  confirm version =
      if version.name == pinned_digest
      then 1
      else if is_empty version.tags
      then 1
      else if any is_promoted_tag version.tags
      then 1
      else if not (all is_tree_tag version.tags)
      then 1
      else if not (is_empty (keep_if (is_live_tag live_trees) version.tags))
      then 1
      else 0

  -- `prune_plan.main`: the exit status beside the plan that is printed
  unfoldable pub plan_main : ℤ → ℕ → Str → List Version → ℕ × Plan
  plan_main grace now cut_tag versions =
      let plan = classify grace now versions in
      if not (any (λ version. mem cut_tag version.tags) versions)
      then (1, plan)
      else if not (any (λ version. version.name == pinned_digest) versions)
      then (1, plan)
      else (0, plan)
