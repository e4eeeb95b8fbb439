-- ===== src/Block/Device.antt =====
-- src/block/block.c: block devices and their parts, and the bounds of their reads. A device is told by its
-- address; `read` is what the driver's function of that name makes of a position and a size.
pub mod Bounds
mod Tests
use docqos_old.Base.{
  ℕ, ◌+◌, ◌%◌, ◌^◌, Bool, true, false, ◌||◌, Option, none, some, List, [], ◌∷◌, ◌++◌, ltb, ◌==◌,
  if◌then◌else◌,
}
use docqos_old.Base.Errno.{Ret, ok, err, enomem, enosys, einval}

-- `BlockDeviceType`
pub data DeviceType : Type 0 where
  invalid : DeviceType
  disk : DeviceType
  cdrom : DeviceType

-- `struct BlockDevice`
pub record BlockDevice : Type 0 where
  pub address : ℕ
  pub read : ℕ → ℕ → Ret
  pub end : ℕ
  pub type_of : DeviceType

-- `struct BlockDevicePart`
pub record Part : Type 0 where
  pub device : BlockDevice
  pub start : ℕ
  pub end : ℕ

-- `parts`, `blockDevices`, and the parts given to devfsRegisterBlockDevice with their names.
pub record State : Type 0 where
  pub parts : List Part
  pub devices : List BlockDevice
  pub names : List (List ℕ × Part)

-- `struct BlockIO`, less its buffer; `read` is not looked at.
pub record BlockIo : Type 0 where
  pub part : Part
  pub start : ℕ
  pub size : ℕ

-- The end of registerBlockDevice for a device of one part.
pub publish : Option (List ℕ) → Part → State → State
publish none p s = s
publish (some devfs) p s = record s { names = s.names ++ ((devfs ++ (b'0' ∷ []), p) ∷ []) }

-- `registerBlockDevice`; `memory` is whether kmalloc succeeds.
pub register_block_device : Bool → BlockDevice → Option (List ℕ) → State → Ret × State
register_block_device memory d devfs s = elim d.type_of [
  | cdrom ↦
      let p : Part = record { device = d; start = 0; end = d.end } in
      if memory
      then (
        ok 0,
        publish devfs p (record s { parts = s.parts ++ (p ∷ []); devices = s.devices ++ (d ∷ []) }),
      )
      else (err enomem, s)
  | disk ↦ (err enosys, s)
  | invalid ↦ (err einval, s)
]

-- `submitBlockIO`
pub submit_block_io : BlockIo → Ret
submit_block_io io =
    let d = io.part.device in
    let pos = (io.start + io.part.start) % 2 ^ 64 in
    let stop = (pos + io.size) % 2 ^ 64 in
    if ltb stop pos || ltb d.end stop
    then err einval
    else if ltb pos io.start || ltb pos io.part.start
    then err einval
    else d.read pos io.size
