-- ===== src/Cpu/RadixTree/Tests.antt =====
-- Runs of the radix tree.
use docqos_old.Base.{◌≡◌, refl, none, some, [], ◌∷◌, arith}
use docqos_old.Cpu.RadixTree.{Tree, init, max_index, needed_height}
use docqos_old.Cpu.RadixTree.Empty.{IsEmpty}

abbrev fresh : Tree
fresh = init (λ p. none) (8 ∷ 16 ∷ [])

fresh-IsEmpty : IsEmpty fresh
unfolding init
fresh-IsEmpty = record { no_node = refl; height_le = omega arith }

-- Index 300 needs three levels.
three_levels : needed_height 8 300 1 ≡ some 3
unfolding needed_height max_index
three_levels = refl
