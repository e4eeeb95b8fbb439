-- ===== src/Filesystem/Iso9660/Tests.antt =====
-- Reads of a concrete file.
use docqos_old.Base.{
  List, [], ◌∷◌, get_or, if◌then◌else◌, ℕ, ◌+◌, ◌-◌, ◌*◌, ◌/◌, ◌%◌, ◌<◌, ◌≡◌, refl, ◌≢◌, Bool, true,
  Option, none, some, arith, leb, ◌==◌,
}
use docqos_old.Base.Errno.{ok}
use docqos_old.Filesystem.Iso9660.Record.{inside, Info, file_mode, get_information}
use docqos_old.Filesystem.Iso9660.Record.Names.{IsPlain, lower, get_information-IsPlain}
use docqos_old.Filesystem.Iso9660.Walk.{Directory}
use docqos_old.Filesystem.Iso9660.Mount.Descriptors.{AreOthers}
use docqos_old.Filesystem.Iso9660.Reads.{Inode, Read, iso_read}
use docqos_old.Filesystem.Iso9660.Reads.Copies.{Leaves, iso_read-Leaves, iso_read-page}

-- Two pages and a byte.
abbrev file : Inode
file = record { size = 8193; pages = λ i. some (λ q. (i * 4096 + q) % 251) }

abbrev any_buffer : ℕ → ℕ → Bool
any_buffer a n = true

iso_read-Leaves_example :
    Leaves file any_buffer 1000 6000 4090
      (λ q. 7)
      (iso_read 6001 file any_buffer 1000 6000 4090 (λ q. 7))
iso_read-Leaves_example =
    iso_read-Leaves file any_buffer 1000 6000 4090 (λ q. 7) 6001 (omega arith) (omega arith)

iso_read-page_example :
    (s : Read) × (iso_read 12 file any_buffer 1000 6 4096 (λ q. 7) ≡ some (ok 6, s))
    × ((q : ℕ) → q < 6 → s.user (1000 + q) ≡ (1 * 4096 + (0 + q)) % 251)
iso_read-page_example =
    iso_read-page file any_buffer 1000 6 4096 (λ q. 7) 10 (λ q. (1 * 4096 + q) % 251) (omega arith)
      (omega arith) (omega arith) (omega arith) refl refl

-- The record of "NOTES.TXT;1", of 44 bytes.
abbrev notes_bytes : List ℕ
notes_bytes = b'N' ∷ b'O' ∷ b'T' ∷ b'E' ∷ b'S' ∷ b'.' ∷ b'T' ∷ b'X' ∷ b'T' ∷ b';' ∷ b'1' ∷ []

abbrev notes : ℕ → ℕ
notes q =
    if q == 0
    then 44
    else if q == 32
    then 11
    else if leb 33 q
    then get_or notes_bytes (q - 33) 0
    else 0

notes-IsPlain : IsPlain notes
notes-IsPlain = record {
  short = omega arith;
  present = omega arith;
  is_file = refl;
  long_name = omega arith;
  byte = omega arith;
  first = λ e. omega (arith, e);
  extension = λ e. omega (arith, e);
}

get_information-IsPlain_example :
    (i : Info) × (get_information notes ≡ some i)
    × (i.name ≡ inside 33)
    × (i.length ≡ notes 32 - 2)
    × (i.mode ≡ file_mode)
    × (i.bytes 33 ≡ lower (notes 33))
    × ((q : ℕ) → q ≢ 33 → i.bytes q ≡ notes q)
get_information-IsPlain_example = get_information-IsPlain notes notes-IsPlain

abbrev directory : Directory
directory = record { start = 65536; size = 2048; mode = 0o40700; ready = λ i. true }

abbrev wiped : ℕ → ℕ → ℕ
wiped i q = 0

abbrev one_entry : ℕ → ℕ → ℕ
one_entry i q = notes q

-- A filler without room.
abbrev full : ℕ → Bool → ℕ → (ℕ → ℕ) → ℕ × Bool
full n dir length name = (n, true)

abbrev first_record : ℕ → ℕ
first_record q = one_entry (0 / 4096) (0 % 4096 + q)

first_record-IsPlain : IsPlain first_record
first_record-IsPlain = record {
  short = omega arith;
  present = omega arith;
  is_file = refl;
  long_name = omega arith;
  byte = omega arith;
  first = λ e. omega (arith, e);
  extension = λ e. omega (arith, e);
}

abbrev first_info : Info
first_info = (get_information-IsPlain first_record first_record-IsPlain).0

abbrev identifier : List ℕ
identifier = 1 ∷ b'C' ∷ b'D' ∷ b'0' ∷ b'0' ∷ b'1' ∷ []

-- A primary descriptor with the kind `k`, and a root of 2048 bytes in the block 20.
abbrev descriptor : ℕ → ℕ → ℕ
descriptor k q =
    if q == 0
    then k
    else if q == 156
    then 0x22
    else if q == 158
    then 20
    else if q == 167
    then 8
    else get_or identifier q 0

-- A boot record, and the primary descriptor.
abbrev disc : ℕ → Option (ℕ → ℕ)
disc p =
    if p == 0x8000 then some (descriptor 0) else if p == 0x8800 then some (descriptor 1) else none

boot_first : AreOthers disc 0x8000 1
boot_first i h =
    let z : i ≡ 0 = omega (arith, h) in
    rw z (descriptor 0, refl, refl, (λ e. omega (arith, e)), (λ e. omega (arith, e)))
