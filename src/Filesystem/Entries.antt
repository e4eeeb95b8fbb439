-- ===== src/Filesystem/Entries.antt =====
-- vfsFillDir64 and doGetDents64 of src/filesystem/virtual.c: how the entries of a directory get into a
-- user's buffer. `writable` is what verifyUserAddress makes of an address and a size; what it lets through can
-- be written.
pub mod Filling
mod Tests
use docqos_old.Base.{
  ℕ, zero, suc, ◌+◌, ◌-◌, ◌%◌, ◌^◌, Bool, true, false, not, ◌&&◌, Option, none, some, ltb, leb,
  ◌==◌, if◌then◌else◌,
}
use docqos_old.Base.Errno.{Ret, ok, err, enotdir}
use docqos_old.Filesystem.Iso9660.Walk.{Filler, Listing, listed, stuck, faulted, spinning}

-- `__data` of vfsFillDir64, and user memory.
pub record Buffer : Type 0 where
  pub at : ℕ
  pub size : ℕ
  pub user : ℕ → ℕ

-- `putUser8Safe`: the memory, and whether it has failed.
abbrev pub put_user : (ℕ → ℕ → Bool) → ℕ → ℕ → (ℕ → ℕ) → (ℕ → ℕ) × Bool
put_user writable p c user =
    if writable p 1 then ((λ q. if q == p then c % 256 else user q), false) else (user, true)

-- `memcpyUser0`
abbrev pub copy_user : (ℕ → ℕ → Bool) → ℕ → ℕ → (ℕ → ℕ) → (ℕ → ℕ) → (ℕ → ℕ) × Bool
copy_user writable p n from user =
    if writable p n
    then ((λ q. if leb p q && ltb q (p + n) then from (q - p) else user q), false)
    else (user, true)

-- The four writes of vfsFillDir64, up to the first that fails.
pub write_entry : (ℕ → ℕ → Bool) → Bool → ℕ → (ℕ → ℕ) → ℕ → (ℕ → ℕ) → (ℕ → ℕ) × Bool
write_entry writable dir length name at user =
    let a = put_user writable at (if dir then 1 else 0) user in
    let b = put_user writable (at + 1) length a.0 in
    let c = copy_user writable (at + 2) length name b.0 in
    let d = put_user writable (at + 2 + length) 0 c.0 in
    if a.1 then a else if b.1 then b else if c.1 then c else d

-- `vfsFillDir64`: what `__data` holds then, and whether it returns an error.
pub fill_dir : (ℕ → ℕ → Bool) → Filler Buffer
unfolding write_entry
fill_dir writable b dir length name =
    let w = write_entry writable dir length name b.at b.user in
    if leb b.size (length + 3)
    then (b, true)
    else if w.1
    then (record b { user = w.0 }, true)
    else (record { at = b.at + (length + 3); size = b.size - (length + 3); user = w.0 }, false)

-- `doGetDents64`, of an open file: `read_dir` is its readDir. There is no result when that does not return.
pub do_get_dents :
    (Filler Buffer → Buffer → Listing Buffer)
    → Bool
    → (ℕ → ℕ → Bool)
    → Buffer
    → Option (Ret × Buffer)
unfolding fill_dir
do_get_dents read_dir is_directory writable b =
    if not is_directory then some (err enotdir, b) else elim (read_dir (fill_dir writable) b) [
      | listed d n s ↦ some (ok (d.at - b.at), d)
      | stuck d ↦ some (ok 0, d)
      | faulted ↦ none
      | spinning ↦ none
    ]
