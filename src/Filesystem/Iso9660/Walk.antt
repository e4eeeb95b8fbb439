-- ===== src/Filesystem/Iso9660/Walk.antt =====
-- iso9660LookUp and iso9660ReadDir: the walk over the records of a directory. The pages of its cache are a
-- function of their index, since a look at a record can change it; `ready` is whether getPageFromPageCache
-- has a page.
pub mod Entries
use docqos_old.Base.{
  ℕ, zero, suc, ◌+◌, ◌-◌, ◌*◌, ◌/◌, ◌%◌, ◌^◌, Bool, true, false, not, ◌&&◌, ◌||◌, Option, none,
  some, ltb, leb, ◌==◌, if◌then◌else◌,
}
use docqos_old.Base.Errno.{Errno, enotdir, eio, enoent}
use docqos_old.Filesystem.Iso9660.Record.{Name, dot, dot_dot, inside, Info, get_information}

abbrev pub page_size : ℕ
page_size = 4096

-- What is read of the directory's `struct VFSINode`.
pub record Directory : Type 0 where
  pub start : ℕ
  pub size : ℕ
  pub mode : ℕ
  pub ready : ℕ → Bool

-- The variables `pos` and `realPosition`, the index of the page that `buffer` is in, and the pages.
pub record Walk : Type 0 where
  pub pos : ℕ
  pub real : ℕ
  pub index : ℕ
  pub pages : ℕ → ℕ → ℕ

-- `S_ISDIR`
abbrev pub is_dir : ℕ → Bool
is_dir mode = mode / 0o10000 % 16 == 4

-- The change of pages at the start of a round: `none` when there is no page.
pub turn : Directory → Walk → Option Walk
turn d w =
    if ltb w.pos page_size
    then some w
    else if d.ready (w.real / page_size)
    then some (record w { pos = w.pos % page_size; index = w.real / page_size })
    else none

-- `(pos + 0x7ff) & ~0x7ff`
abbrev pub next_block : ℕ → ℕ
next_block p = (p + 2047) / 2048 * 2048

abbrev pub record_at : Walk → ℕ → ℕ
record_at w i = w.pages w.index (w.pos + i)

-- The page with the record as the look at it leaves it.
abbrev pub rewrite : Walk → (ℕ → ℕ) → ℕ → ℕ → ℕ
rewrite w b i q = if (i == w.index) && leb w.pos q then b (q - w.pos) else w.pages i q

pub pass_gap : Walk → Walk
pass_gap w = record w { pos = next_block w.pos; real = next_block w.real }

pub pass_record : Info → Walk → Walk
pass_record i w = record w {
  pos = w.pos + i.step;
  real = w.real + i.step;
  pages = rewrite w i.bytes;
}

-- The characters that `filename` points at.
pub name_char : Name → (ℕ → ℕ) → ℕ → ℕ
name_char dot b i = if i == 0 then b'.' else 0
name_char dot_dot b i = if ltb i 2 then b'.' else 0
name_char (inside p) b i = b (p + i)

-- `!memcmp(name,filename,length)`
pub same_chars : ℕ → (ℕ → ℕ) → (ℕ → ℕ) → Bool
same_chars zero f g = true
same_chars (suc n) f g = (f n == g n) && same_chars n f g

-- What iso9660LookUp sets in the result's inode, less what is the same for all.
pub record Found : Type 0 where
  pub inode_start : ℕ
  pub size : ℕ
  pub start : ℕ
  pub mode : ℕ

pub data LookUp : Type 0 where
  found : Found → LookUp
  failed : Errno → LookUp
  spinning : LookUp

-- The loop of iso9660LookUp, with fuel, for a name of `length` characters.
pub look_up_loop : ℕ → Directory → ℕ → (ℕ → ℕ) → Walk → LookUp
unfolding turn pass_gap pass_record same_chars name_char
look_up_loop zero d length name w = spinning
look_up_loop (suc fuel) d length name w =
    if leb d.size w.real then failed enoent else elim (turn d w) [
      | none ↦ failed eio
      | some w' ↦ elim (get_information (record_at w')) [
        | none ↦ look_up_loop fuel d length name (pass_gap w')
        | some i ↦
            let next : Walk = pass_record i w' in
            let on = look_up_loop fuel d length name next in
            if (length == i.length) && same_chars length name (name_char i.name i.bytes)
            then found (record {
              inode_start = d.start + next.pos;
              size = i.size;
              start = i.lba * 2048 % 2 ^ 64;
              mode = i.mode;
            })
            else on
      ]
    ]

-- `iso9660LookUp`; `length` is what strlen gives.
pub iso_look_up : ℕ → Directory → ℕ → (ℕ → ℕ) → (ℕ → ℕ → ℕ) → LookUp
unfolding look_up_loop
iso_look_up fuel d length name pages =
    let on =
      look_up_loop fuel d (length % 256) name
        (record { pos = 0; real = 0; index = 0; pages = pages }) in
    if not (is_dir d.mode) then failed enotdir else if d.ready 0 then on else failed eio

-- What iso9660ReadDir ends with: what it returns and the file's new `seek`, -EIO with the semaphore still
-- down, or a null page that is put back.
pub data Listing {ℓ} (A : Type ℓ) : Type ℓ where
  listed : A → ℕ → ℕ → Listing A
  stuck : A → Listing A
  faulted : Listing A
  spinning : Listing A

-- A filler takes whether an entry is a directory, its length and its characters, and gives what it holds
-- then and whether it has failed.
abbrev pub Filler {ℓ} : Type ℓ → Type ℓ
Filler A = A → Bool → ℕ → (ℕ → ℕ) → A × Bool

module _ {ℓ} {A : Type ℓ} (filler : Filler A) (old : ℕ) where
  -- The end of iso9660ReadDir.
  abbrev pub finish : A → Walk → Listing A
  finish a w = listed a (w.real - old) w.real

  -- The loop of iso9660ReadDir, with fuel.
  pub read_dir_loop : ℕ → Directory → A → Walk → Listing A
  unfolding turn pass_gap pass_record name_char
  read_dir_loop zero d a w = spinning
  read_dir_loop (suc fuel) d a w = if leb d.size w.real then finish a w else elim (turn d w) [
    | none ↦ stuck a
    | some w' ↦ elim (get_information (record_at w')) [
      | none ↦ read_dir_loop fuel d a (pass_gap w')
      | some i ↦
          let r = filler a (is_dir i.mode) i.length (name_char i.name i.bytes) in
          let next : Walk = pass_record i w' in
          let on = read_dir_loop fuel d r.0 next in if r.1 then finish r.0 next else on
    ]
  ]

  -- `iso9660ReadDir`, of a file whose `seek` is `old`.
  pub iso_read_dir : ℕ → Directory → (ℕ → ℕ → ℕ) → A → Listing A
  unfolding read_dir_loop
  iso_read_dir fuel d pages a =
      let start : Walk = record {
        pos = old % page_size;
        real = old;
        index = old / page_size;
        pages = pages;
      } in
      let on = read_dir_loop fuel d a start in if d.ready (old / page_size) then on else faulted
