-- ===== src/Block/Device/Bounds.antt =====
-- Which requests reach the driver.
use mathlib.Core.Path.{subst}
use docqos_old.Base.{
  ℕ, ◌+◌, ◌%◌, ◌^◌, ◌≤◌, ◌<◌, ◌≡◌, refl, inl, inr, true, false, ◌||◌, Option, none, some, List, [],
  ◌∷◌, ◌++◌, arith, ltb, leb, if◌then◌else◌, Bool-cases,
}
use docqos_old.Base.Errno.{err, einval}
use docqos_old.Block.Device.{
  cdrom, BlockDevice, Part, State, BlockIo, publish, register_block_device, submit_block_io,
}

-- The values are of 64 bits, and the part is in its device.
pub record IsRequest (io : BlockIo) : Type 0 where
  pub start_in : io.start < 2 ^ 64
  pub size_in : io.size < 2 ^ 64
  pub part_in : io.part.start < 2 ^ 64
  pub end_in : io.part.device.end < 2 ^ 64

-- The tests of submitBlockIO are exact: the driver is asked, for the position counted from the start of
-- the device, when the request ends within the device, and the answer is EINVAL when it does not, with no
-- sum taken modulo 2 ^ 64. The end of the part is not looked at.
pub submit_block_io_lem :
    (io : BlockIo)
    → IsRequest io
    → submit_block_io io ≡ (
        if leb (io.start + io.part.start + io.size) io.part.device.end
        then io.part.device.read (io.start + io.part.start) io.size
        else err einval)
unfolding submit_block_io
submit_block_io_lem io v =
    elim (Bool-cases (leb (io.start + io.part.start + io.size) io.part.device.end)) [
      | inl within ↦
          let le : io.start + io.part.start + io.size ≤ io.part.device.end = ground arith in
          let pos : (io.start + io.part.start) % 2 ^ 64 ≡ io.start + io.part.start =
            omega (arith, le, v.end_in) in
          let stop : (io.start + io.part.start + io.size) % 2 ^ 64
              ≡ io.start + io.part.start + io.size =
            omega (arith, le, v.end_in) in
          let t1 : ltb (io.start + io.part.start + io.size) (io.start + io.part.start) ≡ false =
            ground arith in
          let t2 : ltb io.part.device.end (io.start + io.part.start + io.size) ≡ false =
            ground (arith, le) in
          let t3 : ltb (io.start + io.part.start) io.start ≡ false = ground arith in
          let t4 : ltb (io.start + io.part.start) io.part.start ≡ false = ground arith in
          rw (within, pos, stop, t1, t2, t3, t4) refl
      | inr past ↦
          let gt : io.part.device.end < io.start + io.part.start + io.size = ground arith in
          rw past (refused ((io.start + io.part.start) % 2 ^ 64) refl gt)
    ]
  where
    refused :
        (pos : ℕ)
        → (io.start + io.part.start) % 2 ^ 64 ≡ pos
        → io.part.device.end < io.start + io.part.start + io.size
        → (if ltb ((pos + io.size) % 2 ^ 64) pos
              || ltb io.part.device.end ((pos + io.size) % 2 ^ 64)
            then err einval
            else if ltb pos io.start || ltb pos io.part.start
            then err einval
            else io.part.device.read pos io.size)
          ≡ err einval
    refused pos e gt =
        elim (Bool-cases (
          ltb ((pos + io.size) % 2 ^ 64) pos
          || ltb io.part.device.end ((pos + io.size) % 2 ^ 64))) [
            | inl first ↦ rw first refl
            | inr first ↦
                let second : (ltb pos io.start || ltb pos io.part.start) ≡ true =
                  ground (arith, v.start_in, v.size_in, v.part_in, v.end_in, e, gt, first) in
                rw (first, second) refl
          ]

-- A registered CD-ROM has one part, which takes every request that ends within the device and refuses the
-- others.
pub register-submit :
    (d : BlockDevice) (devfs : Option (List ℕ)) (s : State) (start size : ℕ)
    → d.type_of ≡ cdrom
    → start < 2 ^ 64
    → size < 2 ^ 64
    → d.end < 2 ^ 64
    → (p : Part) × ((register_block_device true d devfs s).1.parts ≡ s.parts ++ (p ∷ []))
      × (submit_block_io (record { part = p; start = start; size = size })
          ≡ (if leb (start + size) d.end then d.read start size else err einval))
unfolding register_block_device publish
register-submit d devfs s start size t a b c =
    let p : Part = record { device = d; start = 0; end = d.end } in
    let io : BlockIo = record { part = p; start = start; size = size } in
    let right =
      submit_block_io_lem io
        (record { start_in = a; size_in = b; part_in = omega arith; end_in = c }) in
    let same : start + 0 ≡ start = omega arith in
    (
      p,
      with_name devfs,
      subst (λ k. submit_block_io io ≡ (if leb (k + size) d.end then d.read k size else err einval))
          same right,
    )
  where
    with_name :
        (o : Option (List ℕ))
        → (register_block_device true d o s).1.parts
          ≡ s.parts ++ (record { device = d; start = 0; end = d.end } ∷ [])
    with_name none = rw t refl
    with_name (some n) = rw t refl
