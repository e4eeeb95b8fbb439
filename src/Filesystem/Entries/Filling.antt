-- ===== src/Filesystem/Entries/Filling.antt =====
-- What is in a user's buffer.
use docqos_old.Base.{
  ℕ, suc, ◌+◌, ◌-◌, ◌/◌, ◌%◌, ◌≤◌, ◌<◌, ◌≡◌, refl, ap, ◌∙◌, Bool, true, false, ◌&&◌, some, arith,
  ltb, leb, ◌==◌, if◌then◌else◌,
}
use docqos_old.Base.Errno.{ok}
use docqos_old.Filesystem.Iso9660.Record.{Info, get_information}
use docqos_old.Filesystem.Iso9660.Walk.{Directory, is_dir, name_char, listed, iso_read_dir}
use docqos_old.Filesystem.Iso9660.Walk.Entries.{iso_read_dir-refused}
use docqos_old.Filesystem.Entries.{Buffer, write_entry, fill_dir, do_get_dents}

-- An entry as a reader of the buffer finds it at an address.
pub record IsEntry (at : ℕ) (dir : Bool) (length : ℕ) (name user : ℕ → ℕ) : Type 0 where
  pub kind : user at ≡ (if dir then 1 else 0)
  pub name_length : user (at + 1) ≡ length % 256
  pub chars : (i : ℕ) → i < length → user (at + 2 + i) ≡ name i
  pub ends : user (at + 2 + length) ≡ 0

-- What write_entry writes into memory that is writable.
abbrev entry : ℕ → Bool → ℕ → (ℕ → ℕ) → (ℕ → ℕ) → ℕ → ℕ
entry at dir length name user q =
    if q == at + 2 + length
    then 0
    else if leb (at + 2) q && ltb q (at + 2 + length)
    then name (q - (at + 2))
    else if q == at + 1
    then length % 256
    else if q == at
    then (if dir then 1 else 0) % 256
    else user q

-- Each range within the `n` bytes from an address on can be written.
abbrev pub IsRoom : (ℕ → ℕ → Bool) → (at n : ℕ) → Type 0
IsRoom writable at n = (q k : ℕ) → at ≤ q → q + k ≤ at + n → writable q k ≡ true

write_entry_lem :
    (writable : ℕ → ℕ → Bool) (dir : Bool) (length at : ℕ) (name user : ℕ → ℕ)
    → IsRoom writable at (length + 3)
    → write_entry writable dir length name at user ≡ (entry at dir length name user, false)
unfolding write_entry
write_entry_lem writable dir length at name user w =
    rw
      (
        w at 1 (omega arith) (omega arith),
        w (at + 1) 1 (omega arith) (omega arith),
        w (at + 2) length (omega arith) (omega arith),
        w (at + 2 + length) 1 (omega arith) (omega arith),
      )
      refl

entry-IsEntry :
    (at : ℕ) (dir : Bool) (length : ℕ) (name user : ℕ → ℕ)
    → IsEntry at dir length name (entry at dir length name user)
entry-IsEntry at dir length name user = record {
  kind = first;
  name_length = second;
  chars = third;
  ends = last;
}
  where
    byte : (d : Bool) → (if d then 1 else 0) % 256 ≡ (if d then 1 else 0)
    byte true = refl
    byte false = refl

    first : entry at dir length name user at ≡ (if dir then 1 else 0)
    first =
        let a : (at == at + 2 + length) ≡ false = ground arith in
        let b : leb (at + 2) at ≡ false = ground arith in
        let c : (at == at + 1) ≡ false = ground arith in
        let d : (at == at) ≡ true = ground arith in rw (a, b, c, d) (byte dir)

    second : entry at dir length name user (at + 1) ≡ length % 256
    second =
        let a : (at + 1 == at + 2 + length) ≡ false = ground arith in
        let b : leb (at + 2) (at + 1) ≡ false = ground arith in
        let c : (at + 1 == at + 1) ≡ true = ground arith in rw (a, b, c) refl

    third : (i : ℕ) → i < length → entry at dir length name user (at + 2 + i) ≡ name i
    third i h =
        let a : (at + 2 + i == at + 2 + length) ≡ false = ground (arith, h) in
        let b : leb (at + 2) (at + 2 + i) ≡ true = ground arith in
        let c : ltb (at + 2 + i) (at + 2 + length) ≡ true = ground (arith, h) in
        let d : at + 2 + i - (at + 2) ≡ i = omega arith in rw (a, b, c, d) refl

    last : entry at dir length name user (at + 2 + length) ≡ 0
    last = let a : (at + 2 + length == at + 2 + length) ≡ true = ground arith in rw a refl

entry-before :
    (at : ℕ) (dir : Bool) (length : ℕ) (name user : ℕ → ℕ) (q : ℕ)
    → q < at
    → entry at dir length name user q ≡ user q
entry-before at dir length name user q h =
    let a : (q == at + 2 + length) ≡ false = ground (arith, h) in
    let b : leb (at + 2) q ≡ false = ground (arith, h) in
    let c : (q == at + 1) ≡ false = ground (arith, h) in
    let d : (q == at) ≡ false = ground (arith, h) in rw (a, b, c, d) refl

entry-behind :
    (at : ℕ) (dir : Bool) (length : ℕ) (name user : ℕ → ℕ) (q : ℕ)
    → at + (length + 3) ≤ q
    → entry at dir length name user q ≡ user q
entry-behind at dir length name user q h =
    let a : (q == at + 2 + length) ≡ false = ground (arith, h) in
    let b : leb (at + 2) q ≡ true = ground (arith, h) in
    let b' : ltb q (at + 2 + length) ≡ false = ground (arith, h) in
    let c : (q == at + 1) ≡ false = ground (arith, h) in
    let d : (q == at) ≡ false = ground (arith, h) in rw (a, b, b', c, d) refl

-- The entry that a filler with room takes, when the bytes for it can be written, stands in the buffer, which is so much
-- shorter; nothing else changes.
pub fill_dir-IsEntry :
    (writable : ℕ → ℕ → Bool) (b : Buffer) (dir : Bool) (length : ℕ) (name : ℕ → ℕ)
    → IsRoom writable b.at (length + 3)
    → length + 3 < b.size
    → (d : Buffer) × (fill_dir writable b dir length name ≡ (d, false))
      × (d.at + d.size ≡ b.at + b.size)
      × IsEntry b.at dir length name d.user
      × ((q : ℕ) → (q < b.at) → d.user q ≡ b.user q)
      × ((q : ℕ) → d.at ≤ q → d.user q ≡ b.user q)
unfolding fill_dir
fill_dir-IsEntry writable b dir length name w room =
    let more : leb b.size (length + 3) ≡ false = ground (arith, room) in
    let d : Buffer = record {
      at = b.at + (length + 3);
      size = b.size - (length + 3);
      user = entry b.at dir length name b.user;
    } in
    (
      d,
      rw (more, write_entry_lem writable dir length b.at name b.user w) refl,
      omega (arith, room),
      entry-IsEntry b.at dir length name b.user,
      entry-before b.at dir length name b.user,
      entry-behind b.at dir length name b.user,
    )

fill_dir-full :
    (writable : ℕ → ℕ → Bool) (b : Buffer) (dir : Bool) (length : ℕ) (name : ℕ → ℕ)
    → b.size ≤ length + 3
    → fill_dir writable b dir length name ≡ (b, true)
unfolding fill_dir
fill_dir-full writable b dir length name h =
    let full : leb b.size (length + 3) ≡ true = ground (arith, h) in rw full refl

-- When the first entry of an ISO 9660 directory does not fit into the buffer, doGetDents64 returns 0, as at
-- the directory's end, and the file's `seek` is behind the entry.
pub do_get_dents-iso_read_dir :
    (fuel old : ℕ) (d : Directory) (pages : ℕ → ℕ → ℕ) (writable : ℕ → ℕ → Bool) (b : Buffer)
    (i : Info)
    → d.ready (old / 4096) ≡ true
    → old < d.size
    → get_information (λ q. pages (old / 4096) (old % 4096 + q)) ≡ some i
    → b.size ≤ i.length + 3
    → (do_get_dents (λ filler. iso_read_dir filler old (suc fuel) d pages) true writable b
        ≡ some (ok 0, b))
      × (iso_read_dir (fill_dir writable) old (suc fuel) d pages b ≡ listed b i.step (old + i.step))
unfolding do_get_dents
do_get_dents-iso_read_dir fuel old d pages writable b i ready more g full =
    let refused : fill_dir writable b (is_dir i.mode) i.length (name_char i.name i.bytes)
        ≡ (b, true) =
      fill_dir-full writable b (is_dir i.mode) i.length (name_char i.name i.bytes) full in
    let r =
      iso_read_dir-refused (fill_dir writable) old fuel d pages b i ready more g
        (ap (λ t. t.1) refused) in
    let s : iso_read_dir (fill_dir writable) old (suc fuel) d pages b
        ≡ listed b i.step (old + i.step) =
      r ∙ ap (λ t. listed t.0 i.step (old + i.step)) refused in
    let z : b.at - b.at ≡ 0 = omega arith in (rw (do_get_dents, s, z) refl, s)
