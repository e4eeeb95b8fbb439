-- ===== src/Filesystem/Entries/Tests.antt =====
-- Entries of a concrete directory.
use docqos_old.Base.{
  ℕ, ◌+◌, ◌%◌, ◌/◌, ◌≤◌, ◌<◌, ◌≡◌, refl, Bool, true, false, some, arith, ltb, ◌==◌, if◌then◌else◌,
}
use docqos_old.Base.Errno.{ok}
use docqos_old.Filesystem.Iso9660.Record.{Info}
use docqos_old.Filesystem.Iso9660.Record.Names.{IsPlain, get_information-IsPlain}
use docqos_old.Filesystem.Iso9660.Walk.{Directory, listed, iso_read_dir}
use docqos_old.Filesystem.Entries.{Buffer, fill_dir, do_get_dents}
use docqos_old.Filesystem.Entries.Filling.{IsEntry, fill_dir-IsEntry, do_get_dents-iso_read_dir}

abbrev anywhere : ℕ → ℕ → Bool
anywhere p n = true

-- The ranges that end before 2000.
abbrev below_limit : ℕ → ℕ → Bool
below_limit p n = ltb (p + n) 2000

abbrev buffer : Buffer
buffer = record { at = 1000; size = 12; user = λ q. 7 }

abbrev name : ℕ → ℕ
name i = b'a' + i

fill_dir-IsEntry_example :
    (d : Buffer) × (fill_dir below_limit buffer true 5 name ≡ (d, false))
    × (d.at + d.size ≡ 1000 + 12)
    × IsEntry 1000 true 5 name d.user
    × ((q : ℕ) → (q < 1000) → d.user q ≡ 7)
    × ((q : ℕ) → d.at ≤ q → d.user q ≡ 7)
fill_dir-IsEntry_example =
    fill_dir-IsEntry below_limit buffer true 5 name (λ q k l h. ground (arith, h)) (omega arith)

-- A directory of one record, of a file with a name of ten characters.
abbrev directory : Directory
directory = record { start = 65536; size = 2048; mode = 0o40700; ready = λ i. true }

abbrev pages : ℕ → ℕ → ℕ
pages i q = if q == 0 then 45 else if q == 32 then 12 else if ltb 32 q then b'A' else 0

abbrev first_record : ℕ → ℕ
first_record q = pages (0 / 4096) (0 % 4096 + q)

first_record-IsPlain : IsPlain first_record
first_record-IsPlain = record {
  short = omega arith;
  present = omega arith;
  is_file = refl;
  long_name = omega arith;
  byte = omega arith;
  first = λ e. omega (arith, e);
  extension = λ e. omega (arith, e);
}

abbrev first_info : Info
first_info = (get_information-IsPlain first_record first_record-IsPlain).0

name_length : first_info.length ≡ 10
name_length = (get_information-IsPlain first_record first_record-IsPlain).3

do_get_dents-iso_read_dir_example :
    (do_get_dents (λ filler. iso_read_dir filler 0 10 directory pages) true anywhere buffer
      ≡ some (ok 0, buffer))
    × (iso_read_dir (fill_dir anywhere) 0 10 directory pages buffer
        ≡ listed buffer first_info.step (0 + first_info.step))
do_get_dents-iso_read_dir_example =
    do_get_dents-iso_read_dir 9 0 directory pages anywhere buffer first_info refl (omega arith)
      (get_information-IsPlain first_record first_record-IsPlain).1 (omega (arith, name_length))
