-- ===== src/Filesystem/Iso9660/Reads.antt =====
-- iso9660Read and iso9660LSeek. `pages` is what getPageFromPageCache gives for an index of the file. User
-- memory is a function of the address, and `writable` is what verifyUserAddress makes of an address and a
-- size; what it lets through can be written.
pub mod Copies
use docqos_old.Base.{
  ℕ, zero, suc, ◌+◌, ◌-◌, ◌*◌, ◌/◌, ◌%◌, ◌^◌, Bool, true, false, ◌&&◌, Option, none, some, ltb, leb,
  ◌==◌, if◌then◌else◌,
}
use docqos_old.Base.Errno.{Ret, ok, err, einval, eio, efault}

abbrev pub page_size : ℕ
page_size = 4096

-- What is read of `struct VFSINode` here.
pub record Inode : Type 0 where
  pub size : ℕ
  pub pages : ℕ → Option (ℕ → ℕ)

-- The variables of iso9660Read: `*seek`, `size`, `retval`, user memory, and the pages that are not put back.
pub record Read : Type 0 where
  pub seek : ℕ
  pub left : ℕ
  pub done : ℕ
  pub user : ℕ → ℕ
  pub held : ℕ

abbrev pub copy : ℕ → (ℕ → ℕ) → ℕ → (ℕ → ℕ) → ℕ → ℕ
copy buf bytes n user q = if leb buf q && ltb q (buf + n) then bytes (q - buf) else user q

-- How much a round reads.
abbrev pub piece : Read → ℕ
piece r = let room = page_size - r.seek % page_size in if ltb r.left room then r.left else room

-- The end of a round, whose page is `bytes`.
pub advance : ℕ → (ℕ → ℕ) → Read → Read
advance buf bytes r =
    let n = piece r in
    record r {
      seek = r.seek + n;
      left = r.left - n;
      done = r.done + n;
      user = copy buf (λ i. bytes (r.seek % page_size + i)) n r.user;
    }

-- The loop, with fuel; the result is the low half of `retval`, as an `int`.
pub read_pages : ℕ → Inode → (ℕ → ℕ → Bool) → ℕ → Read → Option (Ret × Read)
unfolding advance
read_pages zero inode writable buf r = none
read_pages (suc fuel) inode writable buf r =
    if r.left == 0
    then some (ok (r.done % 2 ^ 32), r)
    else elim (inode.pages (r.seek / page_size)) [
      | none ↦ some (err eio, r)
      | some bytes ↦
          if writable buf (piece r)
          then read_pages fuel inode writable buf (advance buf bytes r)
          else some (err efault, record r { user = r.user; held = r.held + 1 })
    ]

-- The size that iso9660Read goes on with, once `*seek` is in the file.
abbrev pub cut : Inode → ℕ → ℕ → ℕ
cut inode size seek = if leb inode.size (seek + size) then inode.size - seek - 1 else size

-- `iso9660Read`, with fuel for its loop.
pub iso_read : ℕ → Inode → (ℕ → ℕ → Bool) → ℕ → ℕ → ℕ → (ℕ → ℕ) → Option (Ret × Read)
unfolding read_pages
iso_read fuel inode writable buf size seek user =
    let start : Read = record {
      seek = seek;
      left = cut inode size seek;
      done = 0;
      user = user;
      held = 0;
    } in
    let read = read_pages fuel inode writable buf start in
    if ltb ((seek + size) % 2 ^ 64) seek
    then some (err einval, start)
    else if leb inode.size seek
    then some (ok 0, start)
    else if cut inode size seek == 0
    then some (ok 0, start)
    else read

-- `iso9660LSeek`, on a `seek` and an `offset` that are words of 64 bits; the result is the low half of the
-- new `seek`, as an `int`.
pub iso_lseek : Inode → ℕ → ℕ → ℕ → Ret × ℕ
iso_lseek inode offset kind seek =
    let moved =
      if kind == 0
      then offset
      else if kind == 1
      then (seek + offset) % 2 ^ 64
      else (inode.size + (2 ^ 64 - 1) + offset) % 2 ^ 64 in
    if leb kind 2 then (ok (moved % 2 ^ 32), moved) else (err einval, seek)
