-- ===== src/Cpu/RadixTree/Empty.antt =====
-- A tree without a root node never gets one.
use docqos_old.Base.{
  ℕ, zero, suc, ◌+◌, ◌-◌, ◌^◌, ◌≤◌, ◌<◌, ◌≡◌, refl, ap, inl, inr, true, false, none, some, List, [],
  ◌∷◌, arith, leb, ◌==◌, if◌then◌else◌, Bool-cases, All, map,
}
use docqos_old.Base.Errno.{Ret, ok, err, enomem, enoent}
use docqos_old.Cpu.RadixTree.{
  Tree, root_slot, M, pure, ◌>>=◌, read_slot, max_index, needed_height, extend, insert_walk,
  insert_end, insert_at, after_extend, insert, walk, get_end, get, remove_end, remove,
}

-- No root node, and a height that insertion has set.
pub record IsEmpty (t : Tree) : Type 0 where
  pub no_node : t.node ≡ 0
  pub height_le : t.height ≤ 7

insert_at-empty :
    (retval : Ret) (index item h : ℕ) (t : Tree)
    → t.node ≡ 0
    → t.height ≡ suc h
    → insert_at retval index item t ≡ some (retval, t)
unfolding insert_at insert_walk insert_end read_slot
insert_at-empty retval index item h t e eh = rw (eh, e) refl

max_index-at : (max_index 0 ≡ 0) × (max_index 7 ≡ 2 ^ 28 - 1)
unfolding max_index
max_index-at = (refl, refl)

not_seven : (h index : ℕ) → index < 2 ^ 28 - 1 → h ≤ 7 → leb (max_index h) index ≡ true → h ≤ 6
not_seven h index small le more = elim (Bool-cases (h == 7)) [
  | inr ne ↦ ground arith
  | inl eq ↦
      let seven : h ≡ 7 = ground arith in
      let at : leb (max_index 7) index ≡ true = rw seven at more in
      absurd (ground (arith, max_index-at, at))
]

-- The loop that looks for the height ends below 2 ^ 28 - 1, at a height of at most 7.
needed_height-le :
    (fuel index h : ℕ)
    → index < 2 ^ 28 - 1
    → h ≤ 7
    → 8 ≤ h + fuel
    → (h' : ℕ) × (needed_height fuel index h ≡ some h') × (h ≤ h') × (h' ≤ 7)
unfolding needed_height
needed_height-le zero index h small le enough = absurd (omega arith)
needed_height-le (suc fuel) index h small le enough = elim (Bool-cases (leb (max_index h) index)) [
  | inr fits ↦ (h, rw fits refl, omega arith, le)
  | inl more ↦
      let (h', e, lo, hi) =
        needed_height-le fuel index (h + 1) small (omega (arith, not_seven h index small le more))
          (omega arith) in
      (h', rw more e, omega arith, hi)
]

extend-empty :
    (index : ℕ) (t : Tree)
    → index < 2 ^ 28 - 1
    → t.node ≡ 0
    → t.height ≤ 6
    → (h : ℕ) × (extend 8 index t ≡ some (ok 0, record t { height = suc h })) × (suc h ≤ 7)
unfolding extend
extend-empty index t small e le =
    let (h', found, lo, hi) =
      needed_height-le 8 index (t.height + 1) small (omega arith) (omega arith) in
    let s : h' ≡ suc (h' - 1) = omega arith in
    (
      h' - 1,
      rw (found, extend, e) (ap (λ k. some (ok 0, record t { height = k; node = 0 })) s),
      omega arith,
    )

positive : (h index : ℕ) → leb (max_index h) index ≡ false → h ≡ suc (h - 1)
positive zero index fits = absurd (ground (arith, max_index-at, fits))
positive (suc h) index fits = omega arith

-- insertIntoRadixTree on a tree without a root node inserts nothing, allocates nothing, and yet reports
-- success where the tree has to grow for the index; elsewhere it reports ENOMEM. Only the height moves.
pub insert-empty :
    (index item : ℕ) (t : Tree)
    → index < 2 ^ 28 - 1
    → IsEmpty t
    → (h : ℕ) × (insert 8 index item t
        ≡ some
            (if leb (max_index t.height) index then ok 0 else err enomem, record t { height = h }))
      × (h ≤ 7)
unfolding insert after_extend
insert-empty index item t small v = elim (Bool-cases (leb (max_index t.height) index)) [
  | inl grow ↦
      let (h, e, hi) =
        extend-empty index t small v.no_node (not_seven t.height index small v.height_le grow) in
      (
        suc h,
        rw (grow, e, ◌>>=◌)
            (insert_at-empty (ok 0) index item h (record t { height = suc h }) v.no_node refl),
        hi,
      )
  | inr fits ↦
      let pos : t.height ≡ suc (t.height - 1) = positive t.height index fits in
      (
        t.height,
        rw fits (insert_at-empty (err enomem) index item (t.height - 1) t v.no_node pos),
        v.height_le,
      )
]

walk-empty :
    (rounds k index : ℕ) (t : Tree)
    → rounds ≡ suc k
    → t.node ≡ 0
    → walk rounds 0 index 0 root_slot t ≡ some (none, t)
unfolding walk read_slot
walk-empty zero k index t p e = absurd (omega arith)
walk-empty (suc rounds) k index t p e = rw e refl

get-empty : (index : ℕ) (t : Tree) → IsEmpty t → get index t ≡ some (0, t)
unfolding get get_end
get-empty index t v = elim (Bool-cases (leb (max_index t.height) index)) [
  | inl out ↦ rw out refl
  | inr fits ↦
      rw
        (
          fits,
          walk-empty t.height (t.height - 1) index t (positive t.height index fits) v.no_node,
          ◌>>=◌,
        )
        refl
]

remove-empty : (index : ℕ) (t : Tree) → IsEmpty t → remove index t ≡ some (err enoent, t)
unfolding remove remove_end
remove-empty index t v = elim (Bool-cases (leb (max_index t.height) index)) [
  | inl out ↦ rw out refl
  | inr fits ↦
      rw
        (
          fits,
          walk-empty t.height (t.height - 1) index t (positive t.height index fits) v.no_node,
          ◌>>=◌,
        )
        refl
]

-- A client's calls.
pub data Op : Type 0 where
  put : ℕ → ℕ → Op
  drop : ℕ → Op
  look : ℕ → Op

abbrev pub index_of : Op → ℕ
index_of (put i v) = i
index_of (drop i) = i
index_of (look i) = i

-- One call: the item that a lookup finds, 0 for the other calls, and the tree after it.
pub call : Op → M ℕ
call (put i v) = insert 8 i v >>= λ r. pure 0
call (drop i) = remove i >>= λ r. pure 0
call (look i) = get i

-- Calls in order, with what each lookup found.
pub calls : List Op → M (List ℕ)
calls [] = pure []
calls (op ∷ ops) = call op >>= λ x. calls ops >>= λ xs. pure (x ∷ xs)

call-empty :
    (op : Op) (t : Tree)
    → index_of op < 2 ^ 28 - 1
    → IsEmpty t
    → (h : ℕ) × (call op t ≡ some (0, record t { height = h })) × (h ≤ 7)
unfolding call
call-empty (put i v) t small e =
    let (h, same, hi) = insert-empty i v t small e in (h, rw (same, ◌>>=◌) refl, hi)
call-empty (drop i) t small e = (t.height, rw (remove-empty i t e, ◌>>=◌) refl, e.height_le)
call-empty (look i) t small e = (t.height, get-empty i t e, e.height_le)

-- Whatever is inserted, removed and looked up, in any order and however much memory there is, every
-- lookup comes back with nothing, and no node is ever allocated: the tree stays without a root.
pub calls-empty :
    (ops : List Op) (t : Tree)
    → All (λ op. index_of op < 2 ^ 28 - 1) ops
    → IsEmpty t
    → (h : ℕ) × (calls ops t ≡ some (map (λ op. 0) ops, record t { height = h })) × (h ≤ 7)
unfolding calls
calls-empty [] t small e = (t.height, refl, e.height_le)
calls-empty (op ∷ ops) t small e =
    let (h, one, hi) = call-empty op t small.0 e in
    let t' : Tree = record t { height = h } in
    let (h', rest, hi') =
      calls-empty ops t' small.1 (record { no_node = e.no_node; height_le = hi }) in
    (h', rw (one, ◌>>=◌) (rw (rest, ◌>>=◌) refl), hi')
