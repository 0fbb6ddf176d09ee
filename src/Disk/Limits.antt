-- ===== src/Disk/Limits.antt =====
-- The limits of `ped_disk_maximize_partition`: from the end of the partition in front to the start
-- of the next one.
use mathlib.Core.List.{List, [], ◌∷◌}
use parted.Prelude.{
  ◌≡◌, ◌⊎◌, ◌==◌, inl, inr, Bool, true, false, some, refl, sym, subst, arith, if◌then◌else◌,
}
use parted.Prelude.Int.{ℤ, pos, ◌+ℤ◌, ◌-ℤ◌, ◌≤ℤ◌, int_laws}
use parted.Prelude.Run.{done, Returns, deref, ◌>>=◌}
use parted.Geom.{Geometry}
use parted.Geom.Valid.{IsValid, start-le-end}
use parted.Disk.{Disk, Partition, Entry, first_extended, disk_extended_partition}
use parted.Disk.Chain.Order.{Apart, Within, Within-le, Avoids, NoneWith}
use parted.Disk.Chain.End.{Within-Avoids}
use parted.Disk.Layout.{IsLaidOut}
use parted.Disk.Update.{entry_geom, part_geom}
use parted.Disk.Resize.{after_prev, before_next, limits}

module _ {A : Type 0} (geom_of : A → Geometry) (is_part : A → Bool) where
  -- The part stands in the list once, with the region `g`.
  abbrev pub StandsAt : Geometry → List A → Type 0
  StandsAt g [] = ⊥
  StandsAt g (x ∷ xs) =
      ((is_part x ≡ true) × (geom_of x ≡ g) × NoneWith geom_of is_part xs)
      ⊎ ((is_part x ≡ false) × StandsAt g xs)

  after_prev_here :
      (x : A) (xs : List A) (s : ℤ) → is_part x ≡ true → after_prev geom_of is_part s (x ∷ xs) ≡ s
  unfolding after_prev
  after_prev_here x xs s is = rw is refl

  after_prev_skip :
      (x : A) (xs : List A) (s : ℤ)
      → is_part x ≡ false
      → after_prev geom_of is_part s (x ∷ xs)
        ≡ after_prev geom_of is_part ((geom_of x).end +ℤ pos 1) xs
  unfolding after_prev
  after_prev_skip x xs s other = rw other refl

  start_of_next : ℤ → List A → ℤ
  start_of_next e [] = e
  start_of_next e (next ∷ walks) = (geom_of next).start -ℤ pos 1

  before_next_here :
      (x : A) (xs : List A) (e : ℤ)
      → is_part x ≡ true
      → before_next geom_of is_part e (x ∷ xs) ≡ start_of_next e xs
  unfolding before_next start_of_next
  before_next_here x [] e is = rw is refl
  before_next_here x (y ∷ ys) e is = rw is refl

  before_next_skip :
      (x : A) (xs : List A) (e : ℤ)
      → is_part x ≡ false
      → before_next geom_of is_part e (x ∷ xs) ≡ before_next geom_of is_part e xs
  unfolding before_next
  before_next_skip x xs e other = rw other refl

  -- The limits lie around the region and keep to the bounds; a region between them avoids the
  -- others, and a valid region around the old one that avoids the others, inside of the bounds,
  -- lies between them.
  pub record AreLimits (g : Geometry) (min max s e : ℤ) (l : List A) : Type 0 where
    pub in_front : s ≤ℤ g.start
    pub behind : g.end ≤ℤ e
    pub above_min : min ≤ℤ s
    pub below_max : e ≤ℤ max
    pub clear : (h : Geometry) → s ≤ℤ h.start → h.end ≤ℤ e → Avoids geom_of is_part h l
    pub widest :
        (h : Geometry)
        → min ≤ℤ h.start
        → h.start ≤ℤ g.start
        → g.end ≤ℤ h.end
        → h.end ≤ℤ max
        → Avoids geom_of is_part h l
        → (s ≤ℤ h.start) × (h.end ≤ℤ e)

  next-AreLimits :
      (g : Geometry) (min max low high : ℤ) (x : A) (xs : List A)
      → is_part x ≡ true
      → geom_of x ≡ g
      → NoneWith geom_of is_part xs
      → IsValid g
      → min ≤ℤ g.start
      → high ≤ℤ max
      → Within geom_of (g.end +ℤ pos 1) high xs
      → AreLimits g min max min (start_of_next max xs) (x ∷ xs)
  unfolding start_of_next
  next-AreLimits g min max low high x [] is eq n v lo hi w = record {
    in_front = lo;
    behind = omega int_laws;
    above_min = omega arith;
    below_max = omega arith;
    clear = λ h a b. (inl is, tt);
    widest = λ h a b c d avoids. (a, d);
  }
  next-AreLimits g min max low high x (y ∷ ys) is eq (n, _) v lo hi (vy, low_y, w) = record {
    in_front = lo;
    behind = omega int_laws;
    above_min = omega arith;
    below_max =
        omega (int_laws, start-le-end vy, Within-le geom_of ((geom_of y).end +ℤ pos 1) high ys w);
    clear = λ h a b. (
      inl is,
      Within-Avoids geom_of is_part h (geom_of y).start high (y ∷ ys) (omega int_laws)
          (vy, omega arith, w),
    );
    widest = λ h a b c d (_, (apart, _)). (a, front h b c apart);
  }
    where
      front :
          (h : Geometry)
          → h.start ≤ℤ g.start
          → g.end ≤ℤ h.end
          → (is_part y ≡ true) ⊎ Apart h (geom_of y)
          → h.end ≤ℤ (geom_of y).start -ℤ pos 1
      front h b c (inl same) = cc (n, same)
      front h b c (inr (inl lt)) = omega int_laws
      front h b c (inr (inr lt)) = absurd (omega (int_laws, start-le-end v, start-le-end vy))

  pub limits-AreLimits :
      (g : Geometry) (min max low high : ℤ) (l : List A)
      → g.start ≤ℤ g.end
      → StandsAt g l
      → min ≤ℤ low
      → high ≤ℤ max
      → Within geom_of low high l
      → AreLimits g min max (after_prev geom_of is_part min l) (before_next geom_of is_part max l) l
  limits-AreLimits g min max low high [] ordered stands a b w = absurd stands
  limits-AreLimits g min max low high (x ∷ xs) ordered (inl (is, eq, n)) a b (v, lo, w) =
      subst (λ s. AreLimits g min max s (before_next geom_of is_part max (x ∷ xs)) (x ∷ xs))
        (sym (after_prev_here x xs min is))
        (subst (λ e. AreLimits g min max min e (x ∷ xs)) (sym (before_next_here x xs max is))
          (next-AreLimits g min max low high x xs is eq n (subst IsValid eq v)
            (subst (λ (y : Geometry). min ≤ℤ y.start) eq (omega arith)) b
            (subst (λ (y : Geometry). Within geom_of (y.end +ℤ pos 1) high xs) eq w)))
  limits-AreLimits g min max low high (x ∷ xs) ordered (inr (other, stands)) a b (v, lo, w) =
      let before : ℤ = (geom_of x).end +ℤ pos 1 in
      let r : AreLimits g before max (after_prev geom_of is_part before xs)
          (before_next geom_of is_part max xs) xs =
        limits-AreLimits g before max before high xs ordered stands (omega arith) b w in
      subst (λ s. AreLimits g min max s (before_next geom_of is_part max (x ∷ xs)) (x ∷ xs))
        (sym (after_prev_skip x xs min other))
        (subst (λ e. AreLimits g min max (after_prev geom_of is_part before xs) e (x ∷ xs))
          (sym (before_next_skip x xs max other))
          (record {
            in_front = r.in_front;
            behind = r.behind;
            above_min = omega (int_laws, r.above_min, start-le-end v);
            below_max = r.below_max;
            clear = λ h s e. (inr (inr (omega (int_laws, r.above_min))), r.clear h s e);
            widest = λ h s t u e (apart, avoids).
                r.widest h (past h u (omega (arith, r.above_min, r.in_front)) apart) t u e avoids;
          }))
    where
      past :
          (h : Geometry)
          → g.end ≤ℤ h.end
          → (geom_of x).end +ℤ pos 1 ≤ℤ g.start
          → (is_part x ≡ true) ⊎ Apart h (geom_of x)
          → (geom_of x).end +ℤ pos 1 ≤ℤ h.start
      past h u behind_x (inl same) = cc (other, same)
      past h u behind_x (inr (inl lt)) = absurd (omega (int_laws, start-le-end v))
      past h u behind_x (inr (inr lt)) = omega int_laws

-- The partition stands in its list.
abbrev pub StandsOn : Bool → List Entry → Partition → Type 0
StandsOn true list part =
    (e : Entry) × (first_extended list ≡ some e)
    × StandsAt part_geom (λ walk. walk.id == part.id) part.geom e.part_list
StandsOn false list part = StandsAt entry_geom (λ walk. walk.part.id == part.id) part.geom list

-- Limits in the extended partition, or on the device.
abbrev pub LimitsOn : Bool → Disk → Partition → ℤ × ℤ → Type 0
LimitsOn true disk part (s, e) =
    (ext : Entry) × (first_extended disk.part_list ≡ some ext)
    × AreLimits part_geom (λ walk. walk.id == part.id) part.geom ext.part.geom.start
        ext.part.geom.end s e ext.part_list
LimitsOn false disk part (s, e) =
    AreLimits entry_geom (λ walk. walk.part.id == part.id) part.geom (pos 0) (disk.length -ℤ pos 1)
      s e disk.part_list

-- On a disk that is laid out and has the partition, whose region is not empty, in its list once,
-- the limits that `ped_disk_maximize_partition` grows a partition to lie around its region and on
-- the device, or in the extended partition if it is logical. Each region between them has no sector
-- of another partition in the list, and they are the widest: each region around the old one that
-- has none lies between them.
pub limits-AreWidest :
    (disk : Disk) (part : Partition)
    → IsLaidOut disk
    → part.geom.start ≤ℤ part.geom.end
    → StandsOn part.type.logical disk.part_list part
    → Returns (limits disk part) (LimitsOn part.type.logical disk part)
unfolding limits disk_extended_partition
limits-AreWidest disk part laid ordered stands = go part.type.logical stands
  where
    go :
        (logical : Bool)
        → StandsOn logical disk.part_list part
        → Returns
            (if logical
              then deref (first_extended disk.part_list) >>= (λ ext_part. done (
                after_prev part_geom
                    (λ walk. walk.id == part.id)
                    ext_part.part.geom.start
                    ext_part.part_list,
                before_next part_geom
                    (λ walk. walk.id == part.id)
                    ext_part.part.geom.end
                    ext_part.part_list,
              ))
              else done (
                after_prev entry_geom (λ walk. walk.part.id == part.id) (pos 0) disk.part_list,
                before_next entry_geom
                    (λ walk. walk.part.id == part.id)
                    (disk.length -ℤ pos 1)
                    disk.part_list,
              ))
            (LimitsOn logical disk part)
    go false stands =
        limits-AreLimits entry_geom (λ walk. walk.part.id == part.id) part.geom (pos 0)
          (disk.length -ℤ pos 1) (pos 0) (disk.length -ℤ pos 1) disk.part_list ordered stands
          (omega arith) (omega arith) laid.entries
    go true (ext, at, stands) = rw at (
      ext,
      at,
      limits-AreLimits part_geom (λ walk. walk.id == part.id) part.geom ext.part.geom.start
          ext.part.geom.end ext.part.geom.start ext.part.geom.end ext.part_list ordered stands
          (omega arith) (omega arith) (laid.logicals ext at),
    )
