-- ===== src/Strings/Length/Tests.antt =====
-- The length of a concrete string.
use docqos_old.Base.{◌≡◌, refl, some, arith, ltb, if◌then◌else◌}
use docqos_old.Strings.Memory.{Bytes}
use docqos_old.Strings.Length.{strlen}
use docqos_old.Strings.Length.Scanning.{strlen_lem}

-- Five characters above 127 from the address 4096 on.
abbrev high : Bytes
high q = if ltb q 4101 then 200 else 0

strlen_lem_example : strlen 6 4096 high ≡ some 5
strlen_lem_example =
    strlen_lem 6 4096 5 high (λ q. ground arith) refl (λ q h e. ground (arith, h, e)) (omega arith)
      (omega arith)
