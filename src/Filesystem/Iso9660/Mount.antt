-- ===== src/Filesystem/Iso9660/Mount.antt =====
-- iso9660Mount, on the blocks that submitBlockIO reads, by their position.
pub mod Descriptors
use docqos_old.Base.{
  ℕ, zero, suc, ◌+◌, ◌-◌, ◌*◌, ◌/◌, ◌%◌, ◌^◌, Bool, true, false, not, ◌&&◌, ◌||◌, Option, none,
  some, List, [], ◌∷◌, ltb, leb, ◌==◌, if◌then◌else◌,
}
use docqos_old.Base.Errno.{Errno, eio, eproto}
use docqos_old.Filesystem.Iso9660.Record.{u32_at, directory_mode}

-- What iso9660Mount sets in the root's inode.
pub record Root : Type 0 where
  pub start : ℕ
  pub size : ℕ
  pub inode_start : ℕ
  pub mode : ℕ
  pub part : ℕ

-- `mnt->root` of a mount of this file system, told by its number, with the part and the reference count.
pub record Mounted : Type 0 where
  pub root : ℕ
  pub part : ℕ
  pub ref : ℕ

pub data Result : Type 0 where
  fresh : Root → Result
  shared : ℕ → List Mounted → Result
  failed : Errno → Result
  spinning : Result

-- The identifier of a volume descriptor.
abbrev pub is_descriptor : (ℕ → ℕ) → Bool
is_descriptor b = (b 1 == b'C') && (b 2 == b'D') && (b 3 == b'0') && (b 4 == b'0') && (b 5 == b'1')

-- The loop over the volume descriptors, with fuel: the position of the primary one.
pub data Search : Type 0 where
  primary : ℕ → (ℕ → ℕ) → Search
  gives_up : Errno → Search
  searching : Search

pub find_primary : ℕ → (ℕ → Option (ℕ → ℕ)) → ℕ → Search
find_primary zero read start = searching
find_primary (suc fuel) read start =
    let on = find_primary fuel read (start + 2048) in
    elim (read start) [
      | none ↦ gives_up eio
      | some b ↦
          if not (is_descriptor b)
          then gives_up eproto
          else if b 0 == 255
          then gives_up eproto
          else if not (b 0 == 1)
          then on
          else primary start b
    ]

-- The loop over `fs->mounts`.
pub share : ℕ → List Mounted → Option (ℕ × List Mounted)
share part [] = none
share part (m ∷ ms) =
    let rest = share part ms in
    if m.part == part
    then some (m.root, record m { ref = m.ref + 1 } ∷ ms)
    else elim rest [ none ↦ none | some (root, ms') ↦ some (root, m ∷ ms') ]

abbrev pub root_of : ℕ → ℕ → (ℕ → ℕ) → Root
root_of part start b = record {
  start = u32_at b 158 * 2048;
  size = u32_at b 166;
  inode_start = start + 158;
  mode = directory_mode;
  part = part;
}

-- `iso9660Mount`, with fuel for the descriptors.
pub iso_mount : ℕ → (ℕ → Option (ℕ → ℕ)) → ℕ → List Mounted → Result
unfolding find_primary share
iso_mount fuel read part mounts = elim (find_primary fuel read 0x8000) [
  | searching ↦ spinning
  | gives_up e ↦ failed e
  | primary start b ↦ if not (b 156 == 0x22) then failed eproto else elim (share part mounts) [
    | none ↦ fresh (root_of part start b)
    | some (root, ms) ↦ shared root ms
  ]
]
