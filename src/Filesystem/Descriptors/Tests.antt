-- ===== src/Filesystem/Descriptors/Tests.antt =====
-- The descriptor calls on a table with three files.
use docqos_old.Base.{ℕ, ◌+◌, ◌≡◌, refl, none, some, [], ◌∷◌, arith, ◌==◌, if◌then◌else◌, replicate}
use docqos_old.Filesystem.Descriptors.{Slots, State, do_dup2, do_close}
use docqos_old.Filesystem.Descriptors.Counted.{
  uses, IsCounted, Keeps, do_close-Keeps, do_dup2-Keeps,
}

-- Terminal 7 on descriptors 0, 1 and 2, and file 8 on descriptor 4.
abbrev slots : Slots
slots = some 7 ∷ some 7 ∷ some 7 ∷ none ∷ some 8 ∷ replicate 15 none

abbrev refs : ℕ → ℕ
refs f = if f == 7 then 3 else if f == 8 then 1 else 0

abbrev table : State
table = record { fd = slots; files = record { ref = refs; freed = [] } }

abbrev nobody : ℕ → ℕ
nobody f = 0

counted : (f : ℕ) → refs f ≡ uses f slots + nobody f
unfolding uses
counted f = ground arith

table-IsCounted : IsCounted nobody table
table-IsCounted = record { slots = refl; counted = counted }

do_close-Keeps_example : Keeps nobody table (do_close 4 table).1
do_close-Keeps_example = do_close-Keeps nobody 4 table table-IsCounted

do_dup2-Keeps_example : Keeps nobody table (do_dup2 0 4 table).1
do_dup2-Keeps_example = do_dup2-Keeps nobody 0 4 table table-IsCounted
