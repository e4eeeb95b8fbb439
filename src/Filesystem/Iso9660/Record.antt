-- ===== src/Filesystem/Iso9660/Record.antt =====
-- iso9660GetDentryInformation: what it makes of a directory record. The record's bytes are a function of
-- the distance from its start, which goes on over the rest of the page.
pub mod Names
use docqos_old.Base.{
  ℕ, zero, suc, ◌+◌, ◌-◌, ◌*◌, ◌/◌, ◌%◌, ◌^◌, Bool, true, false, not, ◌&&◌, ◌||◌, Option, none,
  some, ltb, leb, ◌==◌, if◌then◌else◌,
}

-- Where `*pfilename` points: at ".", at "..", or into the record.
pub data Name : Type 0 where
  dot : Name
  dot_dot : Name
  inside : ℕ → Name

-- What it gives; `bytes` is the record afterwards.
pub record Info : Type 0 where
  pub name : Name
  pub length : ℕ
  pub mode : ℕ
  pub size : ℕ
  pub lba : ℕ
  pub step : ℕ
  pub bytes : ℕ → ℕ

abbrev pub u16_at : (ℕ → ℕ) → ℕ → ℕ
u16_at b p = b p + 2 ^ 8 * b (p + 1)

abbrev pub u32_at : (ℕ → ℕ) → ℕ → ℕ
u32_at b p = b p + 2 ^ 8 * b (p + 1) + 2 ^ 16 * b (p + 2) + 2 ^ 24 * b (p + 3)

-- `S_IFDIR | S_IRWXU` and `S_IFREG | S_IRWXU`
abbrev pub directory_mode : ℕ
directory_mode = 0o40700

abbrev pub file_mode : ℕ
file_mode = 0o100700

-- The variables of the loop over the Rock Ridge entries.
pub record Ridge : Type 0 where
  pub at : ℕ
  pub left : ℕ
  pub mode : ℕ
  pub name : Option Name
  pub length : ℕ

pub ridge_name : (ℕ → ℕ) → Ridge → Ridge
ridge_name b r =
    let flags = b (r.at + 4) in
    if ltb (b (r.at + 2)) 6 || ltb (b (r.at + 3)) 1
    then r
    else if flags % 2 == 1
    then r
    else if flags / 2 % 2 == 1
    then record r { name = some dot; length = 1 }
    else if flags / 4 % 2 == 1
    then record r { name = some dot_dot; length = 2 }
    else record r { name = some (inside (r.at + 5)); length = b (r.at + 2) - 5 }

-- The switch of a round.
pub ridge_entry : (ℕ → ℕ) → Ridge → Ridge
unfolding ridge_name
ridge_entry b r =
    if u16_at b r.at == b'P' + 256 * b'X'
    then (if ltb (b (r.at + 2)) 12 || ltb (b (r.at + 3)) 1
        then r
        else record r { mode = u32_at b (r.at + 4) })
    else if u16_at b r.at == b'N' + 256 * b'M'
    then ridge_name b r
    else r

-- The loop, with fuel; `size` is signed, and a number below 0 ends the loop as 0 does.
pub ridge_loop : ℕ → (ℕ → ℕ) → Ridge → Ridge
unfolding ridge_entry
ridge_loop zero b r = r
ridge_loop (suc fuel) b r =
    let r' = ridge_entry b r in
    let n = b (r.at + 2) in
    let on = ridge_loop fuel b (record r' { at = r.at + n; left = r.left - n }) in
    if r.left == 0 then r else if n == 0 then r' else on

-- What stands before the loop; `length + 33 < size`.
pub ridge : (ℕ → ℕ) → Ridge
unfolding ridge_loop
ridge b =
    let length = b 32 in
    let start = length + 33 in
    let left = b 0 + 33 - length in
    let skip = if b start == 0 then 1 else 0 in
    ridge_loop (left + 1) b
      (record { at = start + skip; left = left - skip; mode = 0; name = none; length = length })

abbrev pub put : ℕ → ℕ → (ℕ → ℕ) → ℕ → ℕ
put p v b q = if q == p then v else b q

-- The loop that is to put the name into lower case: a round for each character, at the first one.
pub lower_loop : ℕ → (ℕ → ℕ) → ℕ → ℕ
lower_loop zero b = b
lower_loop (suc n) b =
    let rest = lower_loop n (put 33 (b 33 + 32) b) in
    let same = lower_loop n b in if leb b'A' (b 33) && leb (b 33) b'Z' then rest else same

-- The part after `iso:`, from the length on: the name, its length and the record.
pub iso_name : Bool → ℕ → (ℕ → ℕ) → Name × (ℕ × (ℕ → ℕ))
unfolding lower_loop
iso_name dir length b =
    let n = if dir then length else (length + 254) % 256 in
    let b' = if b 33 == b'_' then put 33 b'.' b else b in
    let m = if b' (32 + n) == b'.' then (n + 255) % 256 else n in
    if (n == 1) && (b 33 == 0)
    then (dot, (1, b))
    else if (n == 1) && (b 33 == 1)
    then (dot_dot, (2, b))
    else (inside 33, (m, lower_loop m b'))

-- What is known before `iso:`.
pub entries : (ℕ → ℕ) → Ridge
unfolding ridge
entries b =
    let all = ridge b in
    if leb (b 0) (b 32 + 33)
    then record { at = 0; left = 0; mode = 0; name = none; length = b 32 }
    else all

pub choose_name : Bool → Ridge → (ℕ → ℕ) → Name × (ℕ × (ℕ → ℕ))
unfolding iso_name
choose_name dir r b =
    let iso = iso_name dir r.length b in
    elim r.name [ some name ↦ (name, (r.length, b)) | none ↦ iso ]

pub choose_mode : Bool → ℕ → ℕ
choose_mode dir mode = if not (mode == 0) then mode else if dir then directory_mode else file_mode

-- `iso9660GetDentryInformation`; `none` for its result 0.
pub get_information : (ℕ → ℕ) → Option Info
unfolding entries choose_name choose_mode
get_information b =
    let dir = b 25 / 2 % 2 == 1 in
    let r = entries b in
    let named = choose_name dir r b in
    if b 0 == 0
    then none
    else some (record {
      name = named.0;
      length = named.1.0;
      mode = choose_mode dir r.mode;
      size = u32_at b 10;
      lba = u32_at b 2;
      step = b 0;
      bytes = named.1.1;
    })
