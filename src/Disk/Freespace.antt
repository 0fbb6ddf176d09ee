-- ===== src/Disk/Freespace.antt =====
-- The free space of a disk: `_disk_alloc_freespace` and `_disk_remove_freespace`.
use mathlib.Core.List.{List, []}
use parted.Prelude.{
  ◌≡◌, ◌&&◌, ◌||◌, Option-cases, inl, inr, Bool, false, Option, none, some, refl, sym, subst, ap,
  ◌∙◌, arith, if◌then◌else◌,
}
use parted.Prelude.Int.{ℤ, pos, negsuc, ◌+ℤ◌, ◌-ℤ◌, ◌≤ℤ◌, int_laws}
use parted.Prelude.Run.{done, Returns, Returns→done}
use parted.Disk.{
  Disk, Partition, Entry, PartitionType, is_extended, is_logical, first_extended,
  disk_extended_partition,
}
use parted.Disk.Chain.{fill_gaps, without}
use parted.Disk.Chain.Order.{Within, Tiles, NoneWith, Fills, Filled, fill_gaps-Filled}
use parted.Disk.Label.{DiskOps, partition_new}
use parted.Disk.Contract.{IsMaker, IsMade}
use parted.Disk.Layout.{IsLaidOut}
use parted.Disk.Overlap.{IsLaidOut-extended}
use parted.Disk.Insert.{first_extended-on_extended, on_extended_inverse, on_extended-Within}
use parted.Disk.Update.{
  entry_geom, part_geom, on_extended, free_type, free_logical_type, new_free, new_logical_free,
  as_entry, disk_remove_freespace, alloc_extended_freespace, disk_alloc_freespace,
}
use parted.Disk.Free.{
  entry_free, part_free, NoneWith-on_extended, first_extended-without, on_extended-none, taken,
  without-Within, NoneWith-without,
}

module _ (ops : DiskOps) (label : IsMaker ops) where
  -- What becomes of a new partition without a file system.
  kept_free : Option Partition → Option Partition
  kept_free o = elim o [
    | none ↦ none
    | some part ↦
        if is_extended part.type
        then (if ops.partition_set_system part none then some part else none)
        else some part
  ]

  partition_new_free :
      (disk : Disk) (type : PartitionType) (s e : ℤ)
      → (is_extended type || is_logical type) ≡ false
      → is_extended type ≡ false
      → pos 0 ≤ℤ s
      → s ≤ℤ e
      → (part : Partition) × (partition_new ops disk type none s e ≡ some part)
        × IsMade type s e part
  unfolding partition_new kept_free
  partition_new_free disk type s e not_ext_log not_ext nonneg le =
      let (part, eq, (v, at_s, at_e, same)) = label.makes disk type s e nonneg le in
      let plain : is_extended part.type ≡ false = ap (λ t. is_extended t) same ∙ not_ext in
      (
        part,
        ap (λ b. if b then none else kept_free (ops.partition_new disk type none s e))
              (never _ _ not_ext_log)
            ∙ ap kept_free eq
            ∙ ap
                (λ b.
                  if b
                  then (if ops.partition_set_system part none then some part else none)
                  else some part)
                plain,
        (v, at_s, at_e, same),
      )
    where
      never : (a b : Bool) → b ≡ false → (a && b) ≡ false
      never a b h = ground arith

  new_free-Fills :
      (disk : Disk) (s e : ℤ)
      → pos 0 ≤ℤ s
      → s ≤ℤ e
      → Fills entry_geom entry_free (new_free ops disk) s e
  new_free-Fills disk s e nonneg le =
      let (part, eq, (v, at_s, at_e, same)) =
        partition_new_free disk free_type s e refl refl nonneg le in
      (
        record { part = part; part_list = [] },
        ap as_entry eq,
        v,
        at_s,
        at_e,
        ap (λ t. t.freespace) same,
      )

  new_logical_free-Fills :
      (disk : Disk) (s e : ℤ)
      → pos 0 ≤ℤ s
      → s ≤ℤ e
      → Fills part_geom part_free (new_logical_free ops disk) s e
  new_logical_free-Fills disk s e nonneg le =
      let (part, eq, (v, at_s, at_e, same)) =
        partition_new_free disk free_logical_type s e refl refl nonneg le in
      (part, eq, v, at_s, at_e, ap (λ t. t.freespace) same)

  no_extended :
      (d : Disk) → first_extended d.part_list ≡ none → alloc_extended_freespace ops d ≡ done d
  unfolding alloc_extended_freespace disk_extended_partition
  no_extended d eq = rw (alloc_extended_freespace, eq) refl

  filled_extended :
      (d : Disk) (ext : Entry) (filled : List Partition)
      → first_extended d.part_list ≡ some ext
      → fill_gaps part_geom
          (new_logical_free ops d)
          false
          ext.part.geom.start
          ext.part.geom.end
          ext.part_list
        ≡ done filled
      → alloc_extended_freespace ops d
        ≡ done (record d { part_list = on_extended (λ _. filled) d.part_list })
  unfolding alloc_extended_freespace disk_extended_partition
  filled_extended d ext filled eq e = rw (alloc_extended_freespace, eq, e) refl

  module _ (disk : Disk) (laid : IsLaidOut disk)
      (behind_first : (e : Entry)
        → first_extended disk.part_list ≡ some e
        → Within part_geom (e.part.geom.start +ℤ pos 1) e.part.geom.end e.part_list) where
    -- Once the extended partition is filled: its list has no gap, and nothing else is changed.
    abbrev FilledInside : List Entry → Type 0
    FilledInside l =
        Within entry_geom (pos 0) (disk.length -ℤ pos 1) l
        × NoneWith entry_geom entry_free l
        × (on_extended (without part_free) l ≡ taken disk.part_list)
        × ((e : Entry)
            → first_extended l ≡ some e
            → Tiles part_geom (e.part.geom.start +ℤ pos 1) e.part.geom.end e.part_list)

    taken-Within : Within entry_geom (pos 0) (disk.length -ℤ pos 1) (taken disk.part_list)
    unfolding taken
    taken-Within =
        on_extended-Within (without part_free) (pos 0) (disk.length -ℤ pos 1)
          (without entry_free disk.part_list)
          (without-Within entry_geom entry_free (pos 0) (disk.length -ℤ pos 1) disk.part_list
            laid.entries)

    taken-NoneWith : NoneWith entry_geom entry_free (taken disk.part_list)
    unfolding taken
    taken-NoneWith =
        NoneWith-on_extended (without part_free) (without entry_free disk.part_list)
          (NoneWith-without entry_geom entry_free disk.part_list)

    alloc_extended-FilledInside :
        Returns
          (alloc_extended_freespace ops (disk_remove_freespace disk))
          (λ d. (l : List Entry) × (d ≡ record disk { part_list = l }) × FilledInside l)
    unfolding disk_remove_freespace taken
    alloc_extended-FilledInside = elim (Option-cases (first_extended disk.part_list)) [
      | inl absent ↦
          let still : first_extended (without entry_free disk.part_list) ≡ none =
            first_extended-without disk.part_list ∙ absent in
          let same : taken disk.part_list ≡ without entry_free disk.part_list =
            on_extended-none (without part_free) (without entry_free disk.part_list) still in
          let gone : first_extended (taken disk.part_list) ≡ none =
            ap (λ l. first_extended l) same ∙ still in
          subst
            (λ r.
              Returns r
                (λ d. (l : List Entry) × (d ≡ record disk { part_list = l }) × FilledInside l))
            (sym (no_extended (disk_remove_freespace disk) gone))
            (
              taken disk.part_list,
              refl,
              (
                taken-Within,
                taken-NoneWith,
                on_extended-none (without part_free) (taken disk.part_list) gone,
                λ e eq. cc (gone, eq),
              ),
            )
      | inr (ext, at) ↦
          let there : first_extended (taken disk.part_list)
              ≡ some (record ext { part_list = without part_free ext.part_list }) =
            first_extended-on_extended (without part_free) (without entry_free disk.part_list) ext
              (first_extended-without disk.part_list ∙ at) in
          let (filled, e, (tiles, back)) : (r : List Partition) × (fill_gaps part_geom
                  (new_logical_free ops (disk_remove_freespace disk)) false ext.part.geom.start
                  ext.part.geom.end (without part_free ext.part_list)
                ≡ done r)
              × Filled part_geom part_free (new_logical_free ops (disk_remove_freespace disk))
                  (new_logical_free-Fills (disk_remove_freespace disk))
                  (ext.part.geom.start +ℤ pos 1) ext.part.geom.end (without part_free ext.part_list)
                  r =
            Returns→done _ _ (
              fill_gaps-Filled part_geom part_free
                (new_logical_free ops (disk_remove_freespace disk))
                (new_logical_free-Fills (disk_remove_freespace disk)) false ext.part.geom.start
                ext.part.geom.end (without part_free ext.part_list)
                (omega (int_laws, (IsLaidOut-extended disk ext laid at).0))
                (NoneWith-without part_geom part_free ext.part_list)
                (without-Within part_geom part_free (ext.part.geom.start +ℤ pos 1) ext.part.geom.end
                  ext.part_list (behind_first ext at))) in
          subst
            (λ r.
              Returns r
                (λ d. (l : List Entry) × (d ≡ record disk { part_list = l }) × FilledInside l))
            (sym (filled_extended (disk_remove_freespace disk) _ filled there e))
            (
              on_extended (λ _. filled) (taken disk.part_list),
              refl,
              (
                on_extended-Within (λ _. filled) (pos 0) (disk.length -ℤ pos 1)
                    (taken disk.part_list) taken-Within,
                NoneWith-on_extended (λ _. filled) (taken disk.part_list) taken-NoneWith,
                on_extended_inverse (without part_free) (λ _. filled) (taken disk.part_list)
                    (λ e' eq.
                      let same : record ext { part_list = without part_free ext.part_list } ≡ e' =
                        same_entry there eq in
                      back ∙ ap (λ (y : Entry). y.part_list) same),
                λ e' eq.
                    let same : record ext { part_list = filled } ≡ e' =
                      same_entry
                        (first_extended-on_extended (λ _. filled) (taken disk.part_list)
                          (record ext { part_list = without part_free ext.part_list }) there)
                        eq in
                    subst
                      (λ (y : Entry).
                        Tiles part_geom (y.part.geom.start +ℤ pos 1) y.part.geom.end y.part_list)
                      same tiles,
              ),
            )
    ]
      where
        same_entry : {o : Option Entry} {a b : Entry} → o ≡ some a → o ≡ some b → a ≡ b
        same_entry p q = cc (p, q)

    -- No gap is left, and without the free space the disk is what it was without it.
    abbrev pub Covers : Disk → Type 0
    Covers disk' =
        Tiles entry_geom (pos 0) (disk.length -ℤ pos 1) disk'.part_list
        × ((e : Entry)
            → first_extended disk'.part_list ≡ some e
            → Tiles part_geom (e.part.geom.start +ℤ pos 1) e.part.geom.end e.part_list)
        × (disk_remove_freespace disk' ≡ disk_remove_freespace disk)

    -- On a disk that is laid out, whose logical partitions lie behind the first sector of the
    -- extended one, and with a label that makes the free space it is asked for,
    -- `_disk_alloc_freespace` returns. Each sector of the device lies in just one partition of the
    -- disk's list then, free space included, and each sector of the extended partition but the
    -- first in just one of its list; and to remove the free space gives what it gives on the disk
    -- before.
    pub disk_alloc_freespace-Covers : Returns (disk_alloc_freespace ops disk) Covers
    unfolding disk_alloc_freespace disk_remove_freespace taken ◌+ℤ◌
    disk_alloc_freespace-Covers =
        let (d, e, (l, eq, (w, none_free, back, tiles))) : (d : Disk) × (alloc_extended_freespace
                ops (disk_remove_freespace disk)
              ≡ done d)
            × ((l : List Entry) × (d ≡ record disk { part_list = l }) × FilledInside l) =
          Returns→done _ _ alloc_extended-FilledInside in
        let (r, e', (covered, same)) : (r : List Entry) × (fill_gaps entry_geom
                (new_free ops (record disk { part_list = l })) false (negsuc 0)
                (disk.length -ℤ pos 1) l
              ≡ done r)
            × Filled entry_geom entry_free (new_free ops (record disk { part_list = l }))
                (new_free-Fills (record disk { part_list = l })) (pos 0) (disk.length -ℤ pos 1) l
                r =
          Returns→done _ _ (
            fill_gaps-Filled entry_geom entry_free (new_free ops (record disk { part_list = l }))
              (new_free-Fills (record disk { part_list = l })) false (negsuc 0)
              (disk.length -ℤ pos 1) l (omega int_laws) none_free w) in
        rw (e, eq, e')
          (
            covered,
            λ ext at.
                tiles ext (ap (λ l. first_extended l) (sym same) ∙ first_extended-without r ∙ at),
            ap (λ l. record disk { part_list = l })
                (ap (λ l. on_extended (without part_free) l) same ∙ back),
          )
