-- ===== src/Disk/Chain.antt =====
-- The loops of disk.c over one list of partitions, in which `geom_of` gives the regions.
pub mod Order
pub mod Skip
pub mod End
pub mod Overlap
use mathlib.Core.List.{List, [], ◌∷◌}
use parted.Prelude.{Bool, true, false, not, Option, none, some, if◌then◌else◌, ◌||◌}
use parted.Prelude.Int.{ℤ, pos, ◌+ℤ◌, ◌-ℤ◌, ltb_ℤ, leb_ℤ}
use parted.Prelude.Run.{Run, done, deref, ◌>>=◌}
use parted.Geom.{Geometry}

module _ {A : Type 0} (geom_of : A → Geometry) where
  -- `_disk_raw_add` on the list: the new one goes before the first that starts behind its end
  -- (`_disk_raw_insert_before`), or to the end (`_disk_raw_insert_after`).
  unfoldable pub raw_add : A → List A → List A
  raw_add part [] = part ∷ []
  raw_add part (walk ∷ walks) =
      if ltb_ℤ (geom_of part).end (geom_of walk).start
      then part ∷ walk ∷ walks
      else walk ∷ raw_add part walks

  -- The loop of `_partition_get_overlap_constraint`: `min_start` and `walk` behind it.
  unfoldable pub skip_before : (A → Bool) → ℤ → ℤ → List A → ℤ × List A
  skip_before is_part start min_start [] = (min_start, [])
  skip_before is_part start min_start (walk ∷ walks) =
      if ltb_ℤ (geom_of walk).start start || leb_ℤ (geom_of walk).start min_start
      then skip_before is_part start
          (if is_part walk then min_start else (geom_of walk).end +ℤ pos 1) walks
      else (min_start, walk ∷ walks)

  -- `if (walk == part) walk = walk->next;`, and the start of `walk`, less one.
  unfoldable pub end_before : (A → Bool) → ℤ → List A → ℤ
  end_before is_part max_end [] = max_end
  end_before is_part max_end (walk ∷ walks) =
      if is_part walk
      then elim walks [ [] ↦ max_end | next ∷ _ ↦ (geom_of next).start -ℤ pos 1 ]
      else (geom_of walk).start -ℤ pos 1

  -- The free space behind the last partition. `seen` tells whether there is a last one: only then
  -- is the new partition asserted not to be NULL.
  unfoldable pub last_gap : (ℤ → ℤ → Option A) → Bool → ℤ → ℤ → Run (List A)
  last_gap new seen last_end limit =
      if not (ltb_ℤ last_end limit) then done [] else elim (new (last_end +ℤ pos 1) limit) [
        | some free_space ↦ done (free_space ∷ [])
        | none ↦ if seen then deref none else done []
      ]

  -- The loops that allocate free space: a new partition in every gap.
  unfoldable pub fill_gaps : (ℤ → ℤ → Option A) → Bool → ℤ → ℤ → List A → Run (List A)
  unfolding last_gap
  fill_gaps new seen last_end limit [] = last_gap new seen last_end limit
  fill_gaps new seen last_end limit (walk ∷ walks) = do
    rest ← fill_gaps new true (geom_of walk).end limit walks
    if ltb_ℤ (last_end +ℤ pos 1) (geom_of walk).start
        then deref (new (last_end +ℤ pos 1) ((geom_of walk).start -ℤ pos 1))
          >>= (λ free_space. done (free_space ∷ walk ∷ rest))
        else done (walk ∷ rest)

-- The elements that fail the test.
unfoldable pub without : {A : Type 0} → (A → Bool) → List A → List A
without test [] = []
without test (walk ∷ walks) = if test walk then without test walks else walk ∷ without test walks
