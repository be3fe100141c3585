-- ===== src/Planner/Push.antt =====
-- `push_conds` on a plan that scans a table of the condition.
use db2024_main.Common.{
  ℕ, Bool-cases, List, Text, [], arith, false, if◌then◌else◌, inl, inr, ok, refl, str_eq, true, ◌+◌,
  ◌++◌, ◌==◌, ◌∷◌, ◌||◌, ◌≡◌, ◌≢◌,
}
use db2024_main.Query.{Condition, swap_sides}
use db2024_main.Planner.{
  JoinTag, Plan, Pushed, join, null, push_conds, push_here, push_join, push_right, scan,
}
use db2024_main.Planner.Weight.{conds_weight, conds_weight-append, scans_table, weight}

module _ {F : Type 0} (w : Text → ℕ) (v : Condition F → ℕ) (c swapped : Condition F)
    (can_swap : swap_sides c ≡ ok swapped) (same : v swapped ≡ v c)
    (apart : (t : Text)
      → str_eq t c.lhs_col.tab_name ≡ true
      → str_eq t c.rhs_col.tab_name ≡ false) where
  -- What a call leaves: 3 says that the condition was added, and a table of it that is scanned
  -- shows in the number.
  pub record IsPushed (plan : Plan F) (p : Pushed F) : Type 0 where
    pub added : weight w v p.plan ≡ weight w v plan + (if p.code == 3 then v c else 0)
    pub one :
        (scans_table c.lhs_col.tab_name plan || scans_table c.rhs_col.tab_name plan) ≡ true
        → p.code ≢ 0
    pub both :
        scans_table c.lhs_col.tab_name plan ≡ true
        → scans_table c.rhs_col.tab_name plan ≡ true
        → p.code ≡ 3
    pub kept : (t : Text) → scans_table t p.plan ≡ scans_table t plan

  added_here :
      (tag : JoinTag) (l r : Plan F) (conds : List (Condition F)) (moved : Condition F)
      → v moved ≡ v c
      → IsPushed
          (join tag l r conds)
          (record { code = 3; plan = join tag l r (conds ++ moved ∷ []) })
  unfolding weight conds_weight scans_table
  added_here tag l r conds moved e = record {
    added = omega (arith, conds_weight-append w v conds (moved ∷ []), e);
    one = λ h. omega arith;
    both = λ h k. refl;
    kept = λ t. refl;
  }

  push_here-IsPushed :
      (left_res : ℕ) (tag : JoinTag) (l r : Plan F) (conds : List (Condition F))
      → (p : Pushed F) × (push_here left_res tag l r conds c ≡ ok p)
        × IsPushed (join tag l r conds) p
  unfolding push_here
  push_here-IsPushed left_res tag l r conds = elim (Bool-cases (left_res == 2)) [
    | inl e ↦ (_, rw (e, can_swap) refl, added_here tag l r conds swapped same)
    | inr e ↦ (_, rw e refl, added_here tag l r conds c refl)
  ]

  push_join-IsPushed :
      (tag : JoinTag) (l r : Plan F) (conds : List (Condition F)) (pl pr : Pushed F)
      → IsPushed l pl
      → (pl.code == 3) ≡ false
      → IsPushed r pr
      → (p : Pushed F) × (push_join tag l r conds c pl pr ≡ ok p) × IsPushed (join tag l r conds) p
  unfolding push_join weight scans_table
  push_join-IsPushed tag l r conds pl pr hl n hr = elim (Bool-cases (pr.code == 3)) [
    | inl e ↦ (
      record { code = 3; plan = join tag l pr.plan conds },
      rw e refl,
      record {
        added = ground (arith, hr.added);
        one = λ h. omega arith;
        both = λ h k. refl;
        kept = λ t. ground (arith, hr.kept t);
      },
    )
    | inr e ↦ elim (Bool-cases ((pl.code == 0) || (pr.code == 0))) [
      | inl z ↦ (
        record { code = pl.code + pr.code; plan = join tag l r conds },
        rw (e, z) refl,
        record {
          added = ground arith;
          one = λ h. ground (arith, hl.one, hr.one);
          both = λ h k. ground (arith, hl.one, hr.one, hr.both, hl.both);
          kept = λ t. refl;
        },
      )
      | inr z ↦
          let (p, eq, good) = push_here-IsPushed pl.code tag l r conds in (p, rw (e, z) eq, good)
    ]
  ]

  pub push_conds-IsPushed :
      (plan : Plan F) → (p : Pushed F) × (push_conds c plan ≡ ok p) × IsPushed plan p
  unfolding push_conds push_right scans_table weight
  push_conds-IsPushed null = (
    _,
    refl,
    record {
      added = omega arith;
      one = λ h. ground arith;
      both = λ h k. ground arith;
      kept = λ t. refl;
    },
  )
  push_conds-IsPushed (scan x) = (
    _,
    refl,
    record {
      added = ground arith;
      one = λ h. ground arith;
      both = λ h k. ground (arith, apart x.tab_name);
      kept = λ t. refl;
    },
  )
  push_conds-IsPushed (join tag l r conds) =
      let (pl, el, hl) = push_conds-IsPushed l in
      let (pr, er, hr) = push_conds-IsPushed r in
      elim (Bool-cases (pl.code == 3)) [
        | inl e ↦ (
          record { code = 3; plan = join tag pl.plan r conds },
          rw (el, e) refl,
          record {
            added = ground (arith, hl.added);
            one = λ h. omega arith;
            both = λ h k. refl;
            kept = λ t. ground (arith, hl.kept t);
          },
        )
        | inr e ↦
            let (p, ep, hp) = push_join-IsPushed tag l r conds pl pr hl e hr in
            (p, rw (el, e, er) ep, hp)
      ]
