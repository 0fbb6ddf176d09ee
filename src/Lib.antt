-- ===== src/Lib.antt =====
-- libparted, the library that changes partition tables.
--
-- The modelled part decides where a partition may lie, and keeps the partitions of a disk. A
-- device is a row of numbered sectors. A geometry (libparted/cs/geom.c) is a run of sectors of
-- one device; an alignment (libparted/cs/natmath.c) is an arithmetic progression of sectors; a
-- constraint (libparted/cs/constraint.c) is made of two of each, for the start and for the end of
-- a region, and of bounds on its length. Label code and user interface make constraints,
-- intersect them, and have them solved; a device offers the constraints of its own grains. The
-- solver intersects ranges with the functions on geometries and picks aligned sectors with the
-- functions on alignments. A disk (libparted/disk.c) is a list of partitions, one of which may be
-- extended and have a list of logical ones. To add a partition, disk.c intersects the constraint
-- of the caller with one that keeps off the other partitions, has the disk label align the
-- partition to it, checks the result and inserts it in order; all this in update mode, in which
-- the placeholders for free space and metadata are taken out of the lists.
--
-- Files, with the code that they model:
--   Prelude: shared names; Prelude/Int: signed integers with C's division; Prelude/Bytes: what
--     holds of each byte; Prelude/Text: the C library on texts, which are lists of bytes;
--     Prelude/Run: a call that returns or stops at a PED_ASSERT (include/parted/debug.in.h), at a
--     NULL pointer or at a division by zero.
--   Geom: libparted/cs/geom.c. Geom/Valid: the conditions at its head. Geom/Sectors: regions as
--     sets of sectors. Geom/Transfer: reading and writing them through the device.
--   NatMath: libparted/cs/natmath.c. NatMath/Rounding, Gcd, Lattice, Bezout, Width: the arithmetic.
--     NatMath/Aligned, Intersect, Align, Sides, Nearest: alignments as sets of
--     sectors.
--   Constraint: libparted/cs/constraint.c. Constraint/Solution: the regions that satisfy a
--     constraint. Constraint/Starts, Ends, Canonical: the ranges that the solver computes.
--     Constraint/Solver, Solve: the solver. Constraint/Builders, Free, Inside, Exact,
--     Intersection: how constraints are made. Constraint/Limits, Largest: the solver at the
--     borders of a device. Constraint/Made: copies, and constraints within others.
--   Device: libparted/device.c, over the functions of the architecture. Device/Access: opening,
--     closing and external access. Device/Reachable: the states these calls lead to.
--     Device/Linux: the descriptor of libparted/arch/linux.c, which keeps to what they rely on.
--     Device/Aligned: the constraints of whole grains that a device offers.
--   Disk: libparted/disk.c, over the functions of a disk label (struct _PedDiskOps of
--     include/parted/disk.in.h). Disk/Label: these functions, and those that only pass calls on
--     to them. Disk/Contract: what disk.c relies on in them. Disk/Chain: the loops over one list
--     of partitions, with Chain/Order, Skip, End and Overlap on lists in order. Disk/Update: update
--     mode, free space and numbering. Disk/Change: adding, removing and changing partitions.
--     Disk/Resize: growing and shrinking to the limits, with Limits. Disk/Layout: the invariant of
--     a disk. Disk/Room, Overlap: the constraint that keeps off the others. Disk/Insert, RawAdd:
--     insertion into the lists. Disk/Checking, Counting, Adding: adding a partition with all
--     checks. Disk/Place, Removed, Moving, Setting: setting its region. Disk/Free, Freespace: the
--     placeholders for free space.
--   Dos: libparted/labels/dos.c. Dos/Chs: sectors to bytes and back. Dos/Probe: the geometry that
--     fits the bytes of a partition. Dos/TypeId: type ids. Dos/Flags: flags and types of
--     partitions, with Flags/Types and Setting. Dos/Number: numbers of partitions.
--     Dos/Constraints: where the label puts the table and the partitions of whole cylinders.
--     Dos/Align: aligning a partition, with Align/Internal and Primary.
--   Loop: libparted/labels/loop.c, a label that keeps to what disk.c relies on.
--   Unit: libparted/unit.c, printing locations. Unit/Parse: reading them. Unit/Located: what a
--     location that was read is. Unit/Printed, RoundTrip: reading what was printed. Unit/Names:
--     the names of units. Unit/Stripped: texts with spaces.
--   Exception: libparted/exception.c. Exception/Protocol: what throwing, catching and fetching
--     promise. Exception/Options: the logarithm that finds the name of an option.
--   Fat: libparted/fs/r/fat/calc.c. Fat/Aligning: the clusters of a new file system against those
--     of the old one. Fat/Calc: the sizes of clusters and FATs, with Sizes and Search. Fat/Clusters,
--     Fragments: clusters and fragments as sectors.
--   Tests in each of them: examples.
--
-- In use, a location is read with Unit, made into a constraint with Constraint, and the partition
-- is added with Disk, which calls the alignment of the label, Dos or Loop.
--
-- A definition has the name of its C function without the prefix ped_ or _. An operation that
-- changes a structure through a pointer takes the structure and returns the new one. PedSector is
-- an unbounded signed integer, since an overflow is undefined in C, but for three places: the
-- products of ped_alignment_intersect wrap at 64 bits (`to_sector`), and its grains as arguments of
-- extended_euclid and the products of heads and sectors in unit.c wrap at 32 (`to_int`). The same
-- products in dos.c do not, as the theorems on them bound them by 2^15: that holds the cylinders
-- of up to 255 heads and 63 sectors, and offsets up to 2^32 hold all sectors of a DOS label. A
-- NULL pointer is `none`. PED_ASSERT is compiled in, as it is by default. A device is known by a
-- number, its address, and `length_of` gives the length of each. Partitions are linked by lists
-- in place of `prev` and `next`, and have an address. Whether the user ignores an exception of
-- disk.c that may be ignored is a parameter, and so is how often the user of Device/Linux is
-- willing to retry. Recursive calls go by well-founded recursion on the size of an argument.
-- Loops that count up to a bound take the rounds that are left, which are as many as the bound
-- allows (Fat, Exception/Options, Dos/Number).
--
-- The printing and the scanning of floating point numbers in unit.c are parameters (Doubles), and
-- so are the BIOS geometry that dos.c finds before it aligns a partition, the calls of the kernel in
-- linux.c, and the table of limits that loop.c looks a partition up in.
--
-- Not modelled: allocation failure and freeing; the text of exceptions; ped_geometry_check, which
-- needs timers; the list of known devices; of disk.c, creating, duplicating and committing disks,
-- the registration of labels, and names and UUIDs; of dos.c, reading and writing the table, the
-- metadata partitions, and the search for the BIOS geometry over all partitions; of loop.c,
-- probing, reading and writing; of linux.c, all but opening and closing; the other labels; and the
-- rest of the library (timers, file systems).
pub mod Prelude
pub mod Geom
pub mod NatMath
pub mod Constraint
pub mod Device
pub mod Disk
pub mod Dos
pub mod Loop
pub mod Unit
pub mod Exception
pub mod Fat
