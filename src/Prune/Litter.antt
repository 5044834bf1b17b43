-- ===== src/Prune/Litter.antt =====
-- What the plan deletes, and that the check before each deletion agrees with it.
use a2a_hub.Prelude.{
  ℕ, ◌+◌, Bool, true, false, not, ◌≡◌, ◌↔◌, inl, inr, refl, sym, List, [], ◌∷◌, ◌++◌, append_assoc,
  append-nil, arith, Bool-cases, length, length-append, any, all, keep_if, All, All-keep_if,
}
use a2a_hub.Prelude.Int.{ℤ, lt_int}
use a2a_hub.Prelude.Text.{Str, ◌==◌, is_empty, mem}
use a2a_hub.Prune.{
  Version, age_days, is_promoted_tag, is_tree_tag, is_live_tag, Reason, pinned, add, Verdict,
  delete, keep, judge, Plan, classify_from, classify, confirm, plan_main, judge_trees,
}

abbrev pub is_delete : Verdict → Bool
is_delete delete = true
is_delete (keep reason) = false

abbrev keep_reason : Verdict → Reason
keep_reason delete = pinned
keep_reason (keep reason) = reason

nil_of_is_empty : (ts : List Str) → is_empty ts ≡ true → ts ≡ []
nil_of_is_empty [] h = refl
nil_of_is_empty (t ∷ ts) h = cc

judge_trees_delete :
    (ts : List Str) (old : Bool) (age : ℤ)
    → judge_trees ts old age ≡ delete
    → (is_empty ts ≡ true) × (old ≡ true)
unfolding judge_trees
judge_trees_delete [] old age h = ground arith
judge_trees_delete (t ∷ ts) old age h = cc

module _ (live_trees : List Str) (pinned_digest : Str) where
  -- A version that nothing refers to: not the pinned digest, with tags, all of them `tree-*` and none
  -- the tree of an open pull request, and none that marks a promotion.
  pub record IsLitter (version : Version) : Type 0 where
    pub unpinned : version.name == pinned_digest ≡ false
    pub tagged : is_empty version.tags ≡ false
    pub unpromoted : any is_promoted_tag version.tags ≡ false
    pub trees : all is_tree_tag version.tags ≡ true
    pub unreferenced : any (is_live_tag live_trees) version.tags ≡ false

  keep_if-is_empty :
      (ts : List Str)
      → is_empty (keep_if (is_live_tag live_trees) ts) ≡ not (any (is_live_tag live_trees) ts)
  keep_if-is_empty [] = refl
  keep_if-is_empty (t ∷ ts) = ground (arith, keep_if-is_empty ts)

  -- The check before a deletion passes exactly on litter: a version with tags, not the pinned
  -- digest, whose tags are all tree tags, none of an open pull request and none that marks a
  -- promotion.
  pub confirm_iff :
      (version : Version) → (confirm live_trees pinned_digest version ≡ 0) ↔ IsLitter version
  unfolding confirm
  confirm_iff version = (
    λ h. record {
      unpinned = ground arith;
      tagged = ground arith;
      unpromoted = ground arith;
      trees = ground arith;
      unreferenced = ground (arith, keep_if-is_empty version.tags);
    },
    λ l. ground (arith, keep_if-is_empty version.tags),
  )

  core :
      (grace : ℤ) (now : ℕ) (version : Version)
      → judge live_trees pinned_digest grace now version ≡ delete
      → (is_empty (keep_if (is_live_tag live_trees) version.tags) ≡ true)
        × (not (lt_int (age_days version now) grace) ≡ true)
  unfolding judge
  core grace now version h =
      judge_trees_delete (keep_if (is_live_tag live_trees) version.tags)
        (not (lt_int (age_days version now) grace)) (age_days version now) (ground arith)

  -- The plan deletes a version exactly if it is litter that is past the grace period.
  pub judge_iff :
      (grace : ℤ) (now : ℕ) (version : Version)
      → (judge live_trees pinned_digest grace now version ≡ delete)
        ↔ (IsLitter version × (lt_int (age_days version now) grace ≡ false))
  unfolding judge judge_trees
  judge_iff grace now version = (
    λ h. (
      record {
        unpinned = ground arith;
        tagged = ground arith;
        unpromoted = ground arith;
        trees = ground arith;
        unreferenced = ground (arith, keep_if-is_empty version.tags, (core grace now version h).0);
      },
      ground (arith, (core grace now version h).1),
    ),
    λ (l, old). rw (
      l.unpinned,
      l.tagged,
      l.unpromoted,
      l.trees,
      nil_of_is_empty (keep_if (is_live_tag live_trees) version.tags)
          (rw (keep_if-is_empty version.tags, l.unreferenced)),
      old,
    ),
  )

  -- whether the plan deletes a version
  abbrev pub is_deleted : ℤ → ℕ → Version → Bool
  is_deleted grace now version = is_delete (judge live_trees pinned_digest grace now version)

  classify_from-deleted :
      (grace : ℤ) (now : ℕ) (versions : List Version) (plan : Plan)
      → (classify_from live_trees pinned_digest grace now versions plan).deleted
        ≡ plan.deleted ++ keep_if (is_deleted grace now) versions
  unfolding classify_from
  classify_from-deleted grace now [] plan = sym (append-nil plan.deleted)
  classify_from-deleted grace now (version ∷ versions) plan = ground (
    arith,
    classify_from-deleted grace now versions
        (add (judge live_trees pinned_digest grace now version) version plan),
    append_assoc plan.deleted (version ∷ []) (keep_if (is_deleted grace now) versions),
  )

  classify_from-length :
      (grace : ℤ) (now : ℕ) (versions : List Version) (plan : Plan)
      → length (classify_from live_trees pinned_digest grace now versions plan).deleted
          + length (classify_from live_trees pinned_digest grace now versions plan).kept
        ≡ length plan.deleted + length plan.kept + length versions
  unfolding classify_from
  classify_from-length grace now [] plan = omega arith
  classify_from-length grace now (version ∷ versions) plan = ground (
    arith,
    classify_from-length grace now versions
        (add (judge live_trees pinned_digest grace now version) version plan),
    length-append plan.deleted (version ∷ []),
    length-append plan.kept
        ((version, keep_reason (judge live_trees pinned_digest grace now version)) ∷ []),
  )

  -- The versions that the plan deletes are, in the order of the listing, those that it judges
  -- deletable, and the deleted and the kept versions are together as many as the listing has.
  classify_exact :
      (grace : ℤ) (now : ℕ) (versions : List Version)
      → ((classify live_trees pinned_digest grace now versions).deleted
          ≡ keep_if (is_deleted grace now) versions)
        × (length (classify live_trees pinned_digest grace now versions).deleted
              + length (classify live_trees pinned_digest grace now versions).kept
            ≡ length versions)
  unfolding classify
  classify_exact grace now versions = (
    classify_from-deleted grace now versions (record { deleted = []; kept = [] }),
    omega (arith, classify_from-length grace now versions (record { deleted = []; kept = [] })),
  )

  deleted_of : (verdict : Verdict) → is_delete verdict ≡ true → verdict ≡ delete
  deleted_of delete h = refl
  deleted_of (keep reason) h = cc

  judged_safe :
      (grace : ℤ) (now : ℕ) (version : Version)
      → is_deleted grace now version ≡ true
      → (confirm live_trees pinned_digest version ≡ 0)
        × (lt_int (age_days version now) grace ≡ false)
  judged_safe grace now version h =
      let (litter, old) = (judge_iff grace now version).0 (deleted_of _ h) in
      ((confirm_iff version).1 litter, old)

  plan_main-deleted :
      (grace : ℤ) (now : ℕ) (cut_tag : Str) (versions : List Version)
      → (plan_main live_trees pinned_digest grace now cut_tag versions).1.deleted
        ≡ keep_if (is_deleted grace now) versions
  unfolding plan_main
  plan_main-deleted grace now cut_tag versions =
      let exact = (classify_exact grace now versions).0 in
      elim (Bool-cases (any (λ version. mem cut_tag version.tags) versions)) [
        | inl e ↦ elim (Bool-cases (any (λ version. version.name == pinned_digest) versions)) [
          | inl f ↦ rw (e, f) exact
          | inr f ↦ rw (e, f) exact
        ]
        | inr e ↦ rw e exact
      ]

  -- Each version in the plan's list of deletions passes the check that is made before its deletion,
  -- if nothing changed meanwhile, and is past the grace period.
  pub plan_main_safe :
      (grace : ℤ) (now : ℕ) (cut_tag : Str) (versions : List Version)
      → All
          (λ version.
            (confirm live_trees pinned_digest version ≡ 0)
            × (lt_int (age_days version now) grace ≡ false))
          (plan_main live_trees pinned_digest grace now cut_tag versions).1.deleted
  plan_main_safe grace now cut_tag versions = rw (plan_main-deleted grace now cut_tag versions) (
      All-keep_if
        (λ version.
          (confirm live_trees pinned_digest version ≡ 0)
          × (lt_int (age_days version now) grace ≡ false))
        (is_deleted grace now) (judged_safe grace now) versions)
