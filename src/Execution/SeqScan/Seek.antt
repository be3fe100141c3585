-- ===== src/Execution/SeqScan/Seek.antt =====
-- The loop of a sequential scan, from the iterator to the next record that meets the conditions.
use db2024_main.Common.{
  ℕ, ℤ, Bool, Bool-cases, List, Result, arith, false, inl, inr, negsuc, none, ok, pos, refl, some,
  suc, sym, true, zero, ◌+◌, ◌<◌, ◌∙◌, ◌≡◌, ◌≤◌, subst, ap,
}
use db2024_main.Catalog.{ColMeta}
use db2024_main.Query.{Condition, Floats}
use db2024_main.Record.File.{Rid, get_record}
use db2024_main.Record.File.Valid.{IsValid, per_page, record_at}
use db2024_main.Record.File.Access.{Unchanged, get_record_lem, rid_at}
use db2024_main.Record.Scan
use db2024_main.Record.Scan.{end_rid}
use db2024_main.Record.Scan.First.{Moved, behind, next-first, at, at_end}
use db2024_main.Execution.SeqScan.{SeqScan, Table, seek, slot_count, test}
use db2024_main.Execution.SeqScan.Keeps.{Same, Same-trans, get_record-Same, next-Same}
use db2024_main.Execution.SeqScan.Match.{
  Match, Match-after, Meets, Moved-same, here, in_range, nowhere, place, place-lt, place-lt-count,
}

-- The file is as it was, but for the calls of the pool.
pub record Kept (s0 s : Table) : Type 0 where
  pub unchanged : Unchanged s0 s
  pub same : Same s0 s

Kept-trans : (s t u : Table) → Kept s t → Kept t u → Kept s u
Kept-trans s t u a b = record {
  unchanged = record {
    records = λ m j. b.unchanged.records m j ∙ a.unchanged.records m j;
    pinned = λ m. b.unchanged.pinned m ∙ a.unchanged.pinned m;
    valid = b.unchanged.valid;
  };
  same = Same-trans s t u a.same b.same;
}

pub Kept-refl : (s : Table) → IsValid s → Kept s s
Kept-refl s v = record {
  unchanged = record { records = λ m j. refl; pinned = λ m. refl; valid = v };
  same = record { hdr = refl; grants = refl };
}

-- A move to a slot is a move behind.
Moved-behind :
    (n : ℕ) (z : ℤ) (s : Table) (rid : Rid)
    → Moved n z s rid
    → (k j : ℕ) → rid ≡ rid_at k j
    → behind n z k j ≡ true
Moved-behind n z s rid (at m i d b r before) k j e =
    let page : m ≡ k = cc (ap (λ (x : Rid). x.page_no) e) in
    let slot : i ≡ j = cc (ap (λ (x : Rid). x.slot_no) e) in rw (← page, ← slot) b
Moved-behind n z s rid (at_end before) k j e =
    let slot : negsuc 0 ≡ pos j = ap (λ (x : Rid). x.slot_no) e in cc (slot)

module _ {F D : Type 0} (fl : Floats F D) (cols : List ColMeta) (conds : List (Condition F))
    (s0 : Table) (granted : (c : ℕ) → s0.grants c ≡ true)
    (evaluates : (m i : ℕ) (d : List ℕ)
      → record_at m i s0 ≡ some d
      → (b : Bool) × Meets fl cols conds d b) where
  -- Where the loop stops: at a match, with the file kept.
  pub record Sought (n : ℕ) (z : ℤ) (s : Table) (q : SeqScan) : Type 0 where
    pub kept : Kept s0 s
    pub scan : Rid
    pub at_scan : q.scan ≡ some scan
    pub match : Match fl cols conds n z s0 scan

  grants_all : (s : Table) → Kept s0 s → (c : ℕ) → s.grants c ≡ true
  grants_all s k c = rw (k.same.grants) (granted c)

  -- A record of the file is read.
  read :
      (m i : ℕ) (d : List ℕ) (s : Table)
      → Kept s0 s
      → record_at m i s0 ≡ some d
      → (s1 : Table) × (get_record (rid_at m i) s ≡ (s1, ok d)) × Kept s0 s1
  read m i d s k r =
      let there = k.unchanged.records m i ∙ r in
      let (inside, below, slot) = in_range m i s d there in
      let (s1, u, getting, missing) =
        get_record_lem m i s k.unchanged.valid inside (grants_all s k s.calls) in
      let e = getting d there in
      (
        s1,
        e,
        Kept-trans s0 s s1 k (record {
          unchanged = u;
          same =
              subst (λ (p : Table × Result (List ℕ)). Same s p.0) e
                (get_record-Same (rid_at m i) s);
        }),
      )

  -- The iterator moves on.
  pub move :
      (m : ℕ) (z : ℤ) (s : Table)
      → Kept s0 s
      → 0 < m
      → (s2 : Table) × (rid : Rid) × (Scan.next (record { page_no = pos m; slot_no = z }) s
          ≡ (s2, ok rid))
        × Kept s0 s2
        × Moved m z s0 rid
  move m z s k h =
      let (s2, rid, e, adv) = next-first m z s k.unchanged.valid (grants_all s k) h in
      (
        s2,
        rid,
        e,
        Kept-trans s0 s s2 k (record {
          unchanged = adv.unchanged;
          same = subst (λ (p : Table × Result Rid). Same s p.0) e (next-Same _ s);
        }),
        Moved-same m z s0 s rid k.unchanged.records k.same.hdr adv.moved,
      )

  running :
      (m i : ℕ) (d : List ℕ) (s : Table)
      → Kept s0 s
      → record_at m i s0 ≡ some d
      → Scan.is_end (rid_at m i) s ≡ false
  unfolding Scan.is_end
  running m i d s k r =
      let (inside, below, slot) = in_range m i s d (k.unchanged.records m i ∙ r) in ground arith

  ended : (s : Table) → Kept s0 s → Scan.is_end (end_rid s0.hdr.num_pages) s ≡ true
  unfolding Scan.is_end
  ended s k = let pages = ap (λ h. h.num_pages) k.same.hdr in ground (arith, pages)

  -- No record stands where a match is excluded.
  no_record :
      (k j : ℕ) (e : List ℕ)
      → record_at k j s0 ≡ none
      → record_at k j s0 ≡ some e
      → Meets fl cols conds e false
  no_record k j e a b = let clash : none ≡ some e = sym a ∙ b in cc (clash)

  ended_Match :
      (n : ℕ) (z : ℤ)
      → ((k j : ℕ) → behind n z k j ≡ true → record_at k j s0 ≡ none)
      → Match fl cols conds n z s0 (end_rid s0.hdr.num_pages)
  ended_Match n z before = nowhere (λ k j e from r. no_record k j e (before k j from) r)

  pub seek-Sought :
      (rounds n : ℕ) (z : ℤ) (s : Table) (scan last : Rid)
      → Kept s0 s
      → Moved n z s0 scan
      → ((m i : ℕ) → scan ≡ rid_at m i → slot_count s0 ≤ rounds + place (per_page s0) m i)
      → (s2 : Table) × (q : SeqScan) × (seek fl cols conds rounds scan last s ≡ (s2, ok q))
        × Sought n z s2 q
  unfolding seek test
  seek-Sought zero n z s scan last k (at m i d b r before) fuel =
      let (inside, below, slot) = in_range m i s0 d r in
      absurd
        (omega (arith, fuel m i refl, place-lt-count (per_page s0) s0.hdr.num_pages m i below slot))
  seek-Sought zero n z s scan last k (at_end before) fuel = (
    s,
    record { scan = some (end_rid s0.hdr.num_pages); rid = last },
    refl,
    record {
      kept = k;
      scan = end_rid s0.hdr.num_pages;
      at_scan = refl;
      match = ended_Match n z before;
    },
  )
  seek-Sought (suc rounds) n z s scan last k (at_end before) fuel = (
    s,
    record { scan = some (end_rid s0.hdr.num_pages); rid = last },
    rw (ended s k) refl,
    record {
      kept = k;
      scan = end_rid s0.hdr.num_pages;
      at_scan = refl;
      match = ended_Match n z before;
    },
  )
  seek-Sought (suc rounds) n z s scan last k (at m i d b r before) fuel =
      let (s1, e1, k1) = read m i d s k r in
      let (meets, em) = evaluates m i d r in
      elim (Bool-cases meets) [
        | inl y ↦ (
          s1,
          record { scan = some (rid_at m i); rid = rid_at m i },
          rw (running m i d s k r, e1, em, y) refl,
          record {
            kept = k1;
            scan = rid_at m i;
            at_scan = refl;
            match =
                here m i d b r (em ∙ ap ok y)
                  (λ x w f from to rx. no_record x w f (before x w from to) rx);
          },
        )
        | inr y ↦
            let (inside, below, slot) = in_range m i s0 d r in
            let (s2, rid, e2, k2, moved) = move m (pos i) s1 k1 (ground arith) in
            let (s3, q, e3, found) =
              seek-Sought rounds m (pos i) s2 rid (rid_at m i) k2 moved (λ m2 i2 same. omega (
                arith,
                fuel m i refl,
                place-lt (per_page s0) m i m2 i2 slot
                    (Moved-behind m (pos i) s0 rid moved m2 i2 same),
              )) in
            (
              s3,
              q,
              rw (running m i d s k r, e1, em, y, e2) e3,
              record {
                kept = found.kept;
                scan = found.scan;
                at_scan = found.at_scan;
                match =
                    Match-after fl cols conds n z s0 m i d found.scan b r (em ∙ ap ok y) before
                      found.match;
              },
            )
      ]
