-- ===== src/Disk/Checking.antt =====
-- What the checks of disk.c rule out when no exception is ignored.
use mathlib.Core.List.{List, [], ◌∷◌}
use parted.Prelude.{
  ℕ, ◌≡◌, ◌==◌, ◌&&◌, &&_iff, not, Bool-cases, Option-cases, inl, inr, Bool, true, false, none,
  some, subst, ap, ◌∙◌, arith, if◌then◌else◌,
}
use parted.Prelude.Int.{pos, ◌<ℤ◌, ltb_ℤ, leb_ℤ, leb_ℤ_iff, ltb_ℤ_iff}
use parted.Prelude.Run.{Run, done, deref, ◌>>=◌, Returns, Returns_map}
use parted.Geom.{geometry_test_inside}
use parted.Geom.Valid.{IsValid, start-le-end}
use parted.Disk.{Disk, Entry, is_extended, first_extended, disk_extended_partition}
use parted.Disk.Label.{DiskOps}
use parted.Disk.Insert.{Fresh}
use parted.Disk.Change.{
  check_extended_partition, check_place, check_logical, check_partition,
  partition_check_basic_sanity, all_inside, is_none, or_else,
}

Fresh-other :
    (id : ℕ) (l : List Entry) (e : Entry)
    → Fresh id l
    → first_extended l ≡ some e
    → (e.part.id == id) ≡ false
Fresh-other id [] e fresh eq = cc eq
Fresh-other id (x ∷ xs) e (other, none_in, fresh) eq = elim (Bool-cases (is_extended x.part.type)) [
  | inl is ↦
      let head : some x ≡ some e =
        subst (λ b. (if b then some x else first_extended xs) ≡ some e) is eq in
      let same : x ≡ e = cc head in subst (λ (y : Entry). (y.part.id == id) ≡ false) same other
  | inr plain ↦
      Fresh-other id xs e fresh
        (subst (λ b. (if b then some x else first_extended xs) ≡ some e) plain eq)
]

module _ (ops : DiskOps) (disk : Disk) (x : Entry) where
  -- What is known of a partition that passes the checks.
  abbrev pub Passes : Type 0
  Passes =
      (x.part.geom.end <ℤ disk.length)
      × (is_extended x.part.type ≡ true → first_extended disk.part_list ≡ none)

  extended_is_new :
      Fresh x.part.id disk.part_list
      → check_extended_partition ops false disk x ≡ true
      → first_extended disk.part_list ≡ none
  unfolding check_extended_partition disk_extended_partition
  extended_is_new fresh passes = elim (Option-cases (first_extended disk.part_list)) [
    | inl eq ↦ eq
    | inr (e, eq) ↦
        let tests : ((x.part.id == e.part.id) && all_inside e.part.geom e.part_list) ≡ true =
          subst
            (λ o.
              ((x.part.id == (or_else o x).part.id)
                && all_inside (or_else o x).part.geom (or_else o x).part_list)
              ≡ true)
            eq passes in
        let same : (x.part.id == e.part.id) ≡ true = ((&&_iff _ _).0 tests).0 in
        let other : (e.part.id == x.part.id) ≡ false =
          Fresh-other x.part.id disk.part_list e fresh eq in
        absurd (ground arith)
  ]

  check_place-on_device : check_place ops false disk x.part ≡ true → x.part.geom.end <ℤ disk.length
  unfolding check_place
  check_place-on_device passes =
      let on_device : ltb_ℤ x.part.geom.end disk.length ≡ true =
        ((&&_iff _ _).0 ((&&_iff _ _).0 passes).1).0 in
      (ltb_ℤ_iff x.part.geom.end disk.length).0 on_device

  check_logical-done :
      (x.part.type.logical ≡ true → (e : Entry) × (first_extended disk.part_list ≡ some e))
      → (b : Bool) × (check_logical ops false disk x.part ≡ done b)
  unfolding check_logical disk_extended_partition
  check_logical-done has = elim (Bool-cases x.part.type.logical) [
    | inr plain ↦ (true, ap (λ b. logical_if b) plain)
    | inl is ↦
        let (e, eq) = has is in
        (
          geometry_test_inside e.part.geom x.part.geom,
          ap (λ b. logical_if b) is
              ∙ ap
                  (λ o.
                    deref o
                    >>= (λ ext_part. done (geometry_test_inside ext_part.part.geom x.part.geom)))
                  eq,
        )
  ]
    where
      logical_if : Bool → Run Bool
      logical_if b =
          if not b
          then done true
          else deref (first_extended disk.part_list)
            >>= (λ ext_part. done (geometry_test_inside ext_part.part.geom x.part.geom))

  pub check_partition-checks :
      IsValid x.part.geom
      → (x.part.type.logical ≡ true → (e : Entry) × (first_extended disk.part_list ≡ some e))
      → Returns (check_partition ops false disk x) (λ ok.
        ok ≡ true
        → (x.part.geom.end <ℤ disk.length)
          × (is_extended x.part.type ≡ true → check_extended_partition ops false disk x ≡ true))
  unfolding check_partition
  check_partition-checks v has =
      let ordered : leb_ℤ x.part.geom.start x.part.geom.end ≡ true =
        (leb_ℤ_iff x.part.geom.start x.part.geom.end).1 (start-le-end v) in
      let (inside, read) = check_logical-done has in
      elim (Bool-cases
        (is_extended x.part.type && not (check_extended_partition ops false disk x))) [
          | inl bad ↦ rw (ordered, bad) (λ e. cc e)
          | inr good ↦
              rw (ordered, good, read)
                (λ e. (check_place-on_device ((&&_iff _ _).0 e).1, λ is. not_not is good))
        ]
    where
      not_not : {a b : Bool} → a ≡ true → (a && not b) ≡ false → b ≡ true
      not_not p q = ground arith

  pub check_partition-Passes :
      IsValid x.part.geom
      → Fresh x.part.id disk.part_list
      → (x.part.type.logical ≡ true → (e : Entry) × (first_extended disk.part_list ≡ some e))
      → Returns (check_partition ops false disk x) (λ ok. ok ≡ true → Passes)
  check_partition-Passes v fresh has = Returns_map _ passes (check_partition-checks v has)
    where
      passes :
          (ok : Bool)
          → (ok ≡ true
              → (x.part.geom.end <ℤ disk.length)
                × (is_extended x.part.type ≡ true
                    → check_extended_partition ops false disk x ≡ true))
          → ok ≡ true
          → Passes
      passes ok checks e =
          let (on_device, extended) = checks e in
          (on_device, λ is. extended_is_new fresh (extended is))

  pub basic_sanity-extended :
      IsValid x.part.geom
      → Returns (partition_check_basic_sanity ops false disk x.part) (λ ok.
        ok ≡ true
        → x.part.type.logical ≡ true
        → (e : Entry) × (first_extended disk.part_list ≡ some e))
  unfolding partition_check_basic_sanity disk_extended_partition
  basic_sanity-extended v =
      let nonneg : leb_ℤ (pos 0) x.part.geom.start ≡ true =
        (leb_ℤ_iff (pos 0) x.part.geom.start).1 v.not_negative in
      let ordered : leb_ℤ x.part.geom.start x.part.geom.end ≡ true =
        (leb_ℤ_iff x.part.geom.start x.part.geom.end).1 (start-le-end v) in
      rw (nonneg, ordered)
        (λ e is. elim (Option-cases (first_extended disk.part_list)) [
          | inr found ↦ found
          | inl eq ↦ absurd (contradiction _ _ (last_test _ _ _ e) is (ap (λ o. is_none o) eq))
        ])
    where
      last_test : (a b c : Bool) → (if a then false else if b then false else c) ≡ true → c ≡ true
      last_test a b c e = ground arith

      contradiction : (a b : Bool) → not (a && b) ≡ true → a ≡ true → b ≡ true → ⊥
      contradiction a b e f g = ground arith
