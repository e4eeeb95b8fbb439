-- ===== src/Strings/Memory/Tests.antt =====
-- Filling and comparing concrete memory.
use docqos_old.Base.{◌+◌, ◌≡◌, arith}
use docqos_old.Strings.Memory.{Bytes, memset}
use docqos_old.Strings.Memory.Filling.{IsFilled, memset_lem}

abbrev clear : Bytes
clear q = 0

-- Three bytes up to a word, a line, a word and two bytes.
memset_lem_example :
    ((memset 4093 255 77 clear).0 ≡ 4093 + 77)
    × IsFilled 255 4093 77 clear (memset 4093 255 77 clear).1
memset_lem_example = memset_lem 4093 255 77 clear (omega arith)
