-- ===== src/Dos/Number.antt =====
-- The numbers of partitions in the DOS label: `next_primary` to `msdos_partition_enumerate` in
-- libparted/labels/dos.c.
use parted.Prelude.{
  ℕ, zero, suc, ◌+◌, ◌≤◌, ◌<◌, ◌≡◌, ◌≢◌, ◌⊎◌, inl, inr, refl, subst, Bool, true, false, not, ◌&&◌,
  Option, none, some, if◌then◌else◌, Bool-cases, arith, dec_lt,
}
use parted.Prelude.Int.{ℤ, pos, negsuc, ◌≤ℤ◌, ◌<ℤ◌, leb_ℤ, ◌==ℤ◌, ==ℤ_iff, leb_ℤ_iff}
use parted.Disk.{Disk, Partition, disk_get_partition}
use parted.Disk.Update.{change}

-- The loops of `next_primary` and `next_logical`, with the rounds that are left.
unfoldable pub next_from : ℕ → ℕ → Disk → ℤ
next_from zero i disk = negsuc 0
next_from (suc rounds) i disk = elim (disk_get_partition disk (pos i)) [
  | none ↦ pos i
  | some _ ↦ next_from rounds (suc i) disk
]

unfoldable pub next_primary : Disk → ℤ
unfolding next_from
next_primary disk = next_from 4 1 disk

unfoldable pub next_logical : Disk → ℤ
unfolding next_from
next_logical disk = next_from 60 5 disk

-- `part->num = -1`, in the disk too.
unfoldable pub without_number : Disk → Partition → Disk
without_number disk part = change disk part.id (λ walk. record walk { num = negsuc 0 })

unfoldable pub next_number : Disk → Partition → ℤ
unfolding next_logical next_primary
next_number disk part =
    if part.type.logical
    then next_logical (without_number disk part)
    else next_primary (without_number disk part)

-- The result, and the number that is stored.
unfoldable pub msdos_partition_enumerate : Disk → Partition → Bool × ℤ
msdos_partition_enumerate disk part =
    if not (part.num ==ℤ negsuc 0) && leb_ℤ part.num (pos 4)
    then (true, part.num)
    else (not (next_number disk part ==ℤ negsuc 0), next_number disk part)

abbrev pub IsUsed : Disk → ℕ → Type 0
IsUsed disk n = disk_get_partition disk (pos n) ≢ none

-- The first number from `low` on and below `high` that no partition has, or -1 if there is none.
abbrev pub IsNext : Disk → ℕ → ℕ → ℤ → Type 0
IsNext disk low high num =
    ((n : ℕ) × (num ≡ pos n)
      × (low ≤ n)
      × (n < high)
      × (disk_get_partition disk (pos n) ≡ none)
      × ((m : ℕ) → low ≤ m → m < n → IsUsed disk m))
    ⊎ ((num ≡ negsuc 0) × ((m : ℕ) → low ≤ m → m < high → IsUsed disk m))

IsUsed-low :
    (disk : Disk) (low high : ℕ)
    → IsUsed disk low
    → ((m : ℕ) → suc low ≤ m → m < high → IsUsed disk m)
    → (m : ℕ) → low ≤ m
    → m < high
    → IsUsed disk m
IsUsed-low disk low high first rest m le lt = elim (dec_lt low m) [
  | yes above ↦ rest m (omega arith) lt
  | no equal ↦ subst (IsUsed disk) (omega arith) first
]

next_from-IsNext :
    (rounds low : ℕ) (disk : Disk) → IsNext disk low (low + rounds) (next_from rounds low disk)
unfolding next_from
next_from-IsNext zero low disk = inr (refl, λ m le lt. absurd (omega arith))
next_from-IsNext (suc rounds) low disk =
    go (disk_get_partition disk (pos low)) refl (next_from-IsNext rounds (suc low) disk)
  where
    go :
        (found : Option Partition)
        → disk_get_partition disk (pos low) ≡ found
        → IsNext disk (suc low) (suc low + rounds) (next_from rounds (suc low) disk)
        → IsNext disk low
            (low + suc rounds)
            (elim found [ none ↦ pos low | some _ ↦ next_from rounds (suc low) disk ])
    go none free rest =
        inl (low, refl, omega arith, omega arith, free, λ m le lt. absurd (omega arith))
    go (some p) used (inl (n, eq, le, lt, free, others)) =
        inl
          (n, eq, omega arith, omega arith, free, IsUsed-low disk low n (λ e. cc (e, used)) others)
    go (some p) used (inr (eq, all)) = inr (
      eq,
      IsUsed-low disk low (low + suc rounds) (λ e. cc (e, used))
          (λ m le lt. all m le (omega arith)),
    )

-- The primary numbers, or the logical ones.
abbrev pub IsNumber : Disk → Partition → ℤ → Type 0
IsNumber disk part num =
    if part.type.logical
    then IsNext (without_number disk part) 5 65 num
    else IsNext (without_number disk part) 1 5 num

next_number-IsNumber : (disk : Disk) (part : Partition) → IsNumber disk part (next_number disk part)
unfolding next_number
next_number-IsNumber disk part = elim (Bool-cases part.type.logical) [
  | inl logical ↦ simp logical (next_from-IsNext 60 5 (without_number disk part))
  | inr plain ↦ simp plain (next_from-IsNext 4 1 (without_number disk part))
]

-- A partition with a number up to 4 keeps it. Any other gives its number up and gets the first
-- number that no partition of the disk has, from 5 to 64 for a logical partition and from 1 to 4
-- for another one; if all are taken, it fails and leaves the partition without a number.
pub msdos_partition_enumerate-IsNumbered :
    (disk : Disk) (part : Partition)
    → (part.num ≢ negsuc 0
        → part.num ≤ℤ pos 4
        → msdos_partition_enumerate disk part ≡ (true, part.num))
      × ((part.num ≡ negsuc 0) ⊎ (pos 4 <ℤ part.num)
          → (num : ℤ) × IsNumber disk part num
            × (msdos_partition_enumerate disk part ≡ (not (num ==ℤ negsuc 0), num)))
unfolding msdos_partition_enumerate
msdos_partition_enumerate-IsNumbered disk part = (
  λ ne le. rw (keeps ne le),
  λ new. (next_number disk part, next_number-IsNumber disk part, rw (gives_up new)),
)
  where
    keeps :
        part.num ≢ negsuc 0
        → part.num ≤ℤ pos 4
        → (not (part.num ==ℤ negsuc 0) && leb_ℤ part.num (pos 4)) ≡ true
    keeps ne le = elim (Bool-cases (part.num ==ℤ negsuc 0)) [
      | inl is ↦ absurd (ne ((==ℤ_iff part.num (negsuc 0)).0 is))
      | inr other ↦ rw other ((leb_ℤ_iff part.num (pos 4)).1 le)
    ]

    gives_up :
        (part.num ≡ negsuc 0) ⊎ (pos 4 <ℤ part.num)
        → (not (part.num ==ℤ negsuc 0) && leb_ℤ part.num (pos 4)) ≡ false
    gives_up (inl e) = rw e refl
    gives_up (inr lt) = ground arith
