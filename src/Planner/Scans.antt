-- ===== src/Planner/Scans.antt =====
-- `pop_scan`: the scan of a table is taken once.
use db2024_main.Common.{
  ℕ, Bool, Bool-cases, List, Text, [], arith, false, if◌then◌else◌, inl, inr, not, refl, str_eq,
  str_eq_iff, sym, true, ◌&&◌, ◌+◌, ◌++◌, ◌∷◌, ◌||◌, ◌≡◌, ◌∙◌,
}
use db2024_main.Query.{Condition}
use db2024_main.Planner.{Popped, Slots, has_name, is_null, pop_new, pop_scan}
use db2024_main.Planner.Weight.{scans_table, unjoined, weight}

pub has_name-append :
    (u t : Text) (names : List Text)
    → has_name u (names ++ t ∷ []) ≡ (has_name u names || str_eq t u)
unfolding has_name
has_name-append u t [] = ground arith
has_name-append u t (n ∷ names) = ground (arith, has_name-append u t names)

module _ {F : Type 0} where
  -- The table is among the scans, and its scan is joined.
  unfoldable pub listed : Text → Slots F → Bool
  listed t [] = false
  listed t ((x, mark) ∷ slots) = str_eq x.tab_name t || listed t slots

  unfoldable pub marked : Text → Slots F → Bool
  marked t [] = false
  marked t ((x, mark) ∷ slots) = if str_eq x.tab_name t then mark else marked t slots

  -- `joined_tables` names the tables whose scans are marked.
  abbrev pub Agree : List Text → Slots F → Type 0
  Agree joined slots = (u : Text) → listed u slots ≡ true → has_name u joined ≡ marked u slots

  module _ (w : Text → ℕ) (v : Condition F → ℕ) where
    pub record IsPopped (t : Text) (joined : List Text) (slots : Slots F) (p : Popped F)
        : Type 0 where
      pub null_iff : is_null p.plan ≡ has_name t joined
      pub weighed : weight w v p.plan + unjoined w v p.slots ≡ unjoined w v slots
      pub names : (u : Text) → has_name u p.joined ≡ (has_name u joined || str_eq t u)
      pub same : (u : Text) → listed u p.slots ≡ listed u slots
      pub marks :
          (u : Text) → listed u slots ≡ true → marked u p.slots ≡ (marked u slots || str_eq t u)
      pub scans : (u : Text) → scans_table u p.plan ≡ (str_eq t u && not (has_name t joined))

    pub pop_scan-IsPopped :
        (t : Text) (joined : List Text) (slots : Slots F)
        → has_name t joined ≡ false
        → listed t slots ≡ true
        → marked t slots ≡ false
        → IsPopped t joined slots (pop_scan t joined slots)
    unfolding pop_scan listed marked weight unjoined is_null scans_table
    pop_scan-IsPopped t joined [] n l m = absurd (ground arith)
    pop_scan-IsPopped t joined ((x, mark) ∷ slots) n l m = elim (Bool-cases (str_eq x.tab_name t)) [
      | inl e ↦
          let here : x.tab_name ≡ t = (str_eq_iff x.tab_name t).0 e in
          rw e (record {
            null_iff = sym n;
            weighed = ground arith;
            names = λ u. rw (has_name-append u x.tab_name joined, here) refl;
            same = λ u. refl;
            marks = λ u k. rw here (ground arith);
            scans = λ u. rw (here, n) (ground arith);
          })
      | inr e ↦
          let ih = pop_scan-IsPopped t joined slots n (ground arith) (ground arith) in
          rw e (record {
            null_iff = ih.null_iff;
            weighed = omega (arith, ih.weighed);
            names = ih.names;
            same = λ u. rw (ih.same u) refl;
            marks = λ u k. ground (
              arith,
              ih.marks u,
              str_eq_iff x.tab_name u,
              str_eq_iff t u,
              str_eq_iff x.tab_name t,
            );
            scans = ih.scans;
          })
    ]

    pub pop_new-IsPopped :
        (t : Text) (joined : List Text) (slots : Slots F)
        → Agree joined slots
        → listed t slots ≡ true
        → IsPopped t joined slots (pop_new t joined slots)
    unfolding pop_new is_null weight scans_table
    pop_new-IsPopped t joined slots agree l = elim (Bool-cases (has_name t joined)) [
      | inl e ↦ rw e (record {
        null_iff = sym e;
        weighed = omega arith;
        names = λ u. ground (arith, str_eq_iff t u);
        same = λ u. refl;
        marks = λ u k. ground (arith, str_eq_iff t u, agree u k);
        scans = λ u. rw e (ground arith);
      })
      | inr e ↦ rw e (pop_scan-IsPopped t joined slots e l (sym (agree t l) ∙ e))
    ]

    pub IsPopped-Agree :
        (t : Text) (joined : List Text) (slots : Slots F) (p : Popped F)
        → IsPopped t joined slots p
        → Agree joined slots
        → Agree p.joined p.slots
    IsPopped-Agree t joined slots p h agree u k =
        ground (arith, h.names u, h.same u, h.marks u, agree u)
