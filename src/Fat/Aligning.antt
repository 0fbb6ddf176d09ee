-- ===== src/Fat/Aligning.antt =====
-- What libparted/fs/r/fat/calc.c adds to the offset of the clusters.
use parted.Prelude.{ℕ, zero, suc, ◌≡◌, ◌⊎◌, inl, inr, refl, Bool-cases, false, arith}
use parted.Prelude.Int.{
  ℤ, pos, pos_part, ◌+ℤ◌, ◌-ℤ◌, ◌*ℤ◌, ◌%ℤ◌, ◌≤ℤ◌, ◌<ℤ◌, ltb_ℤ, leb_ℤ, ◌==ℤ◌, int_laws,
  parts_disjoint, mul_nonneg, ∣ℤ-zero, ◌∣ℤ◌, ∣ℤ-+ℤ, ∣ℤ--ℤ, ∣ℤ_cong, ∣ℤ_refl,
}
use parted.Prelude.Run.{done, Returns, Returns_bind}
use parted.NatMath.Rounding.{multiple_below, rem_range}
use parted.Fat.{FileSystem, new_meta_data_size, match_up, use_up, fat_calc_align_sectors}

abbrev Matches : (cs old_end new_end align : ℤ) → Type 0
Matches cs old_end new_end align =
    (pos 0 ≤ℤ align) × (align <ℤ cs) × (cs ∣ℤ new_end +ℤ align -ℤ old_end)

module _ (cs : ℤ) (positive : pos 0 <ℤ cs) where
  rem_small : (a : ℤ) → pos 0 ≤ℤ a → (pos 0 ≤ℤ a %ℤ cs) × (a %ℤ cs <ℤ cs)
  rem_small a nonneg = omega (
    arith,
    rem_range a cs positive,
    parts_disjoint a,
    parts_disjoint (a %ℤ cs),
    parts_disjoint cs,
  )

  match_up-Matches :
      (old_end new_end : ℤ) → Returns (match_up old_end new_end cs) (Matches cs old_end new_end)
  unfolding match_up
  match_up-Matches old_end new_end =
      let no_trap : (cs ==ℤ pos 0) ≡ false = grind int_laws in
      elim (Bool-cases (ltb_ℤ new_end old_end)) [
        | inl before ↦
            let d = old_end -ℤ new_end in
            let (low, high) = rem_small d (grind int_laws) in
            let whole : cs ∣ℤ pos 0 -ℤ (d -ℤ d %ℤ cs) =
              ∣ℤ--ℤ cs (pos 0) (d -ℤ d %ℤ cs) (∣ℤ-zero cs) (multiple_below d cs) in
            rw (before, no_trap) (low, high, ∣ℤ_cong cs (omega int_laws) whole)
        | inr behind ↦
            let d = new_end -ℤ old_end in
            let over = d %ℤ cs in
            let t = cs -ℤ over in
            let (over_low, over_high) = rem_small d (grind int_laws) in
            let (low, high) = rem_small t (omega int_laws) in
            let whole : cs ∣ℤ (d -ℤ over -ℤ (t -ℤ t %ℤ cs)) +ℤ cs =
              ∣ℤ-+ℤ cs (d -ℤ over -ℤ (t -ℤ t %ℤ cs)) cs
                (∣ℤ--ℤ cs (d -ℤ over) (t -ℤ t %ℤ cs) (multiple_below d cs) (multiple_below t cs))
                (∣ℤ_refl cs) in
            rw (behind, no_trap) (low, high, ∣ℤ_cong cs (omega int_laws) whole)
      ]

  -- Nothing but whole clusters is added, and none is left.
  use_up-IsGreedy :
      (rounds : ℕ) (align clusters_size data_size : ℤ)
      → data_size <ℤ clusters_size +ℤ align +ℤ pos rounds
      → (cs ∣ℤ use_up rounds align clusters_size cs data_size -ℤ align)
        × (align ≤ℤ use_up rounds align clusters_size cs data_size)
        × (data_size <ℤ clusters_size +ℤ use_up rounds align clusters_size cs data_size +ℤ cs)
        × ((use_up rounds align clusters_size cs data_size ≡ align)
            ⊎ (clusters_size +ℤ use_up rounds align clusters_size cs data_size ≤ℤ data_size))
  unfolding use_up
  use_up-IsGreedy zero align clusters_size data_size enough =
      (∣ℤ_cong cs (omega int_laws) (∣ℤ-zero cs), omega arith, omega int_laws, inl refl)
  use_up-IsGreedy (suc rounds) align clusters_size data_size enough =
      let ih = use_up-IsGreedy rounds (align +ℤ cs) clusters_size data_size (omega int_laws) in
      elim (Bool-cases (leb_ℤ (clusters_size +ℤ align +ℤ cs) data_size)) [
        | inl fits ↦
            let next = use_up rounds (align +ℤ cs) clusters_size cs data_size in
            let more : cs ∣ℤ next -ℤ (align +ℤ cs) +ℤ cs = ∣ℤ-+ℤ cs _ cs ih.0 (∣ℤ_refl cs) in
            rw fits (
              ∣ℤ_cong cs (omega int_laws) more,
              omega int_laws,
              ih.2,
              inr (within ih.3 (grind int_laws)),
            )
        | inr full ↦
            rw full
              (∣ℤ_cong cs (omega int_laws) (∣ℤ-zero cs), omega arith, grind int_laws, inl refl)
      ]
    where
      within :
          (use_up rounds (align +ℤ cs) clusters_size cs data_size ≡ align +ℤ cs)
            ⊎ (clusters_size +ℤ use_up rounds (align +ℤ cs) clusters_size cs data_size ≤ℤ data_size)
          → clusters_size +ℤ align +ℤ cs ≤ℤ data_size
          → clusters_size +ℤ use_up rounds (align +ℤ cs) clusters_size cs data_size ≤ℤ data_size
      within (inl e) fits = rw e (omega int_laws)
      within (inr all) fits = all

-- Where the old clusters began, and where the new metadata end at least.
abbrev pub old_meta_data_end : FileSystem → ℤ
old_meta_data_end old_fs = old_fs.geom.start +ℤ old_fs.type_specific.cluster_offset

abbrev pub min_meta_data_end : FileSystem → ℤ
min_meta_data_end new_fs = new_fs.geom.start +ℤ new_meta_data_size new_fs.type_specific

-- The sectors behind the metadata that the clusters do not take.
abbrev pub spare : FileSystem → ℤ
spare new_fs =
    new_fs.geom.length
    -ℤ new_meta_data_size new_fs.type_specific
    -ℤ pos new_fs.type_specific.cluster_count *ℤ new_fs.type_specific.cluster_sectors

-- The new clusters match up with the old ones, and less than a cluster is left over. The addition
-- is shorter than a cluster or fits in what is left of the file system.
pub record MatchesUp (new_fs old_fs : FileSystem) (align : ℤ) : Type 0 where
  pub whole :
      new_fs.type_specific.cluster_sectors
      ∣ℤ min_meta_data_end new_fs +ℤ align -ℤ old_meta_data_end old_fs
  pub nonneg : pos 0 ≤ℤ align
  pub greedy : spare new_fs <ℤ align +ℤ new_fs.type_specific.cluster_sectors
  pub fits : (align <ℤ new_fs.type_specific.cluster_sectors) ⊎ (align ≤ℤ spare new_fs)

abbrev rounds_of : FileSystem → ℕ
rounds_of new_fs = suc (pos_part (new_fs.geom.length -ℤ new_meta_data_size new_fs.type_specific))

used_up : FileSystem → ℤ → ℤ
used_up new_fs align =
    use_up (rounds_of new_fs) align
      (pos new_fs.type_specific.cluster_count *ℤ new_fs.type_specific.cluster_sectors)
      new_fs.type_specific.cluster_sectors
      (new_fs.geom.length -ℤ new_meta_data_size new_fs.type_specific)

used_up-MatchesUp :
    (new_fs old_fs : FileSystem) (align : ℤ)
    → pos 0 <ℤ new_fs.type_specific.cluster_sectors
    → pos 0 ≤ℤ align
    → align <ℤ new_fs.type_specific.cluster_sectors
    → new_fs.type_specific.cluster_sectors
      ∣ℤ min_meta_data_end new_fs +ℤ align -ℤ old_meta_data_end old_fs
    → MatchesUp new_fs old_fs (used_up new_fs align)
unfolding used_up
used_up-MatchesUp new_fs old_fs align positive low high whole =
    let cs = new_fs.type_specific.cluster_sectors in
    let size = pos new_fs.type_specific.cluster_count *ℤ cs in
    let data_size = new_fs.geom.length -ℤ new_meta_data_size new_fs.type_specific in
    let taken : pos 0 ≤ℤ size =
      mul_nonneg (pos new_fs.type_specific.cluster_count) cs (omega arith) (omega arith) in
    let (more, up, greedy, fits) =
      use_up-IsGreedy cs positive (rounds_of new_fs) align size data_size (omega int_laws) in
    record {
      whole = ∣ℤ_cong cs (omega int_laws) (∣ℤ-+ℤ cs _ _ whole more);
      nonneg = omega int_laws;
      greedy = omega int_laws;
      fits = (elim fits [ inl e ↦ inl (rw e high) | inr all ↦ inr (omega int_laws) ]);
    }

-- With clusters of at least one sector, the computation returns. With the result, the new clusters
-- match up with the old ones, and less than a cluster is left over; the result is shorter than a
-- cluster or fits in what is left of the file system.
pub fat_calc_align_sectors-MatchesUp :
    (new_fs old_fs : FileSystem)
    → pos 0 <ℤ new_fs.type_specific.cluster_sectors
    → Returns (fat_calc_align_sectors new_fs old_fs) (MatchesUp new_fs old_fs)
unfolding fat_calc_align_sectors used_up
fat_calc_align_sectors-MatchesUp new_fs old_fs positive =
    Returns_bind
      (Matches new_fs.type_specific.cluster_sectors (old_meta_data_end old_fs)
        (min_meta_data_end new_fs))
      (MatchesUp new_fs old_fs)
      (match_up (old_meta_data_end old_fs) (min_meta_data_end new_fs)
        new_fs.type_specific.cluster_sectors)
      (λ align. done (used_up new_fs align))
      (match_up-Matches new_fs.type_specific.cluster_sectors positive (old_meta_data_end old_fs)
        (min_meta_data_end new_fs))
      (λ align matched.
        used_up-MatchesUp new_fs old_fs align positive matched.0 matched.1 matched.2)
