-- ===== src/Block/Device/Tests.antt =====
-- Requests to a disc of 4096 bytes.
use docqos_old.Base.Errno.{ok}
use docqos_old.Block.Device.{BlockDevice, cdrom, BlockIo}

abbrev disc : BlockDevice
disc = record { address = 16; read = λ pos size. ok size; end = 4096; type_of = cdrom }

-- The second half of the disc as a part, and a request whose size makes the sum wrap.
abbrev wrapping : BlockIo
wrapping = record {
  part = record { device = disc; start = 2048; end = 4096 };
  start = 0;
  size = 18446744073709551000;
}
