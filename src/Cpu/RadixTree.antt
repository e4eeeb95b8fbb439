-- ===== src/Cpu/RadixTree.antt =====
-- src/cpu/radixtree.c: the tree that maps page indices to cached pages, over an explicit heap.
-- A pointer is a number, 0 the null pointer; `none` stands for a run that follows a null or dangling
-- pointer. `supply` holds the addresses that kmalloc gives in turn; after them it fails. A shift of an
-- `int` takes its count modulo 32, as the machine does. The lock makes each operation one step.
pub mod Empty
mod Tests
use docqos_old.Base.{
  ℕ, zero, suc, ◌+◌, ◌-◌, ◌*◌, ◌/◌, ◌%◌, ◌^◌, Bool, true, false, not, ◌&&◌, Option, none, some,
  List, [], ◌∷◌, ltb, leb, ◌==◌, if◌then◌else◌, get_or, set, replicate,
}
use docqos_old.Base.Errno.{Ret, ok, err, enomem, ebusy, enoent}

-- `struct RadixTreeNode`; `items` is the field `data`, 16 pointers.
pub record Node : Type 0 where
  pub count : ℕ
  pub nr : ℕ
  pub parent : ℕ
  pub items : List ℕ

-- `struct RadixTreeRoot` with the heap.
pub record Tree : Type 0 where
  pub height : ℕ
  pub node : ℕ
  pub heap : ℕ → Option Node
  pub supply : List ℕ

-- What a variable `RadixTreeNode **` points at: `root->node`, or an entry of a node's `data`.
pub data Slot : Type 0 where
  root_slot : Slot
  item_slot : ℕ → ℕ → Slot

abbrev pub M : Type 0 → Type 0
M A = Tree → Option (A × Tree)

abbrev pub pure : {A : Type 0} → A → M A
pure a t = some (a, t)

infixl 5 ◌>>=◌ ◌>>◌
abbrev pub ◌>>=◌ : {A B : Type 0} → M A → (A → M B) → M B
◌>>=◌ m f t = elim (m t) [ none ↦ none | some (a, t') ↦ f a t' ]

abbrev pub ◌>>◌ : {A B : Type 0} → M A → M B → M B
m >> k = m >>= λ _. k

-- `initRadixTreeRoot`
pub init : (ℕ → Option Node) → List ℕ → Tree
init heap supply = record { height = 0; node = 0; heap = heap; supply = supply }

pub load : ℕ → M Node
load p t = if p == 0 then none else elim (t.heap p) [ none ↦ none | some n ↦ some (n, t) ]

pub write : ℕ → Option Node → M (Unit {0})
write p n t = some (tt, record t { heap = λ q. if q == p then n else t.heap q })

pub change : ℕ → (Node → Node) → M (Unit {0})
change p f = do n ← load p; write p (some (f n))

pub set_root : ℕ → M (Unit {0})
set_root v t = some (tt, record t { node = v })

pub set_height : ℕ → M (Unit {0})
set_height h t = some (tt, record t { height = h })

-- `*node`
pub read_slot : Slot → M ℕ
read_slot root_slot t = some (t.node, t)
read_slot (item_slot p i) t = (do n ← load p; pure (get_or n.items i 0)) t

-- `*node = v`
pub write_slot : Slot → ℕ → M (Unit {0})
write_slot root_slot v = set_root v
write_slot (item_slot p i) v = change p (λ n. record n { items = set n.items i v })

pub kmalloc_from : List ℕ → M ℕ
kmalloc_from [] t = some (0, t)
kmalloc_from (p ∷ ps) t = some (p, record t { supply = ps })

pub kmalloc : M ℕ
kmalloc t = kmalloc_from t.supply t

-- `getRadixTreeMaxIndex`
pub max_index : ℕ → ℕ
max_index height = (2 ^ (height * 4 % 2 ^ 32 % 32) + (2 ^ 32 - 1)) % 2 ^ 32

-- `createRadixTreeNode`
pub create_node : ℕ → Slot → ℕ → M ℕ
create_node parent item nr = do
  p ← kmalloc
  if p == 0 then pure 0 else do
    write p (some (record { count = 0; nr = nr; parent = parent; items = replicate 16 0 }))
    write_slot item p
    if parent == 0
        then pure tt
        else change parent (λ n. record n { count = (n.count + 1) % 2 ^ 32 })
    pure p

-- `while(index >= getRadixTreeMaxIndex(height)) ++height;`
pub needed_height : ℕ → ℕ → ℕ → Option ℕ
needed_height zero index height = none
needed_height (suc fuel) index height =
    let rest = needed_height fuel index (height + 1) in
    if leb (max_index height) index then rest else some height

-- One round of the `do` loop of extandRadixTree: the new node, or 0.
pub push_root : M ℕ
push_root = do
  old ← read_slot root_slot
  p ← create_node 0 root_slot 0
  if p == 0 then pure 0 else do
    change p (λ n. record n { items = set n.items 0 old })
    change old (λ n. record n { nr = 0 })
    pure p

-- The `do` loop.
pub push_roots : ℕ → ℕ → M Ret
push_roots zero height t = none
push_roots (suc fuel) height t = elim (push_root t) [
  | none ↦ none
  | some (p, t') ↦
      let again = push_roots fuel height t' in
      if p == 0
      then some (err enomem, t')
      else if ltb t'.height height
      then again
      else some (ok 0, t')
]

-- `extandRadixTree`, with fuel for its two loops.
pub extend : ℕ → ℕ → M Ret
extend fuel index t = elim (needed_height fuel index (t.height + 1)) [
  | none ↦ none
  | some h ↦ if t.node == 0 then some (ok 0, record t { height = h }) else push_roots fuel h t
]

abbrev pub nibble : ℕ → ℕ → ℕ
nibble index i = index / 2 ^ (i * 4) % 16

-- The `for` loop of insertIntoRadixTree, from round `i` on: `parent` and `node` at its end, or `none` at
-- its `goto out`.
pub insert_walk : ℕ → ℕ → ℕ → ℕ → Slot → M (Option (ℕ × Slot))
insert_walk zero i index parent node = pure (some (parent, node))
insert_walk (suc rounds) i index parent node = do
  p ← read_slot node
  if (p == 0) && not (parent == 0) then create_node parent node (nibble index i) else pure 0
  q ← read_slot node
  if q == 0 then pure none else insert_walk rounds (i + 1) index q (item_slot q (nibble index i))

-- The end of insertIntoRadixTree; `retval` is its value at the `goto out` of the loop.
pub insert_end : Ret → ℕ → Option (ℕ × Slot) → M Ret
insert_end retval item none = pure retval
insert_end retval item (some (parent, node)) = do
  old ← read_slot node
  if old == 0
      then (do
        change parent (λ n. record n { count = (n.count + 1) % 2 ^ 32 })
        write_slot node item
        pure (ok 0))
      else pure (err ebusy)

pub insert_at : Ret → ℕ → ℕ → M Ret
insert_at retval index item t =
    (do found ← insert_walk t.height 0 index 0 root_slot; insert_end retval item found) t

-- What insertIntoRadixTree does with the result of extandRadixTree.
pub after_extend : ℕ → ℕ → Ret → M Ret
after_extend index item (ok n) = insert_at (ok 0) index item
after_extend index item (err e) = pure (err e)

-- `insertIntoRadixTree`
pub insert : ℕ → ℕ → ℕ → M Ret
insert fuel index item t =
    if leb (max_index t.height) index
    then (extend fuel index >>= after_extend index item) t
    else insert_at (err enomem) index item t

-- The `for` loop of getFromRadixTree and removeFromRadixTree.
pub walk : ℕ → ℕ → ℕ → ℕ → Slot → M (Option (ℕ × Slot))
walk zero i index parent node = pure (some (parent, node))
walk (suc rounds) i index parent node = do
  q ← read_slot node
  if q == 0 then pure none else walk rounds (i + 1) index q (item_slot q (nibble index i))

-- `getFromRadixTree`; 0 is the null pointer.
pub get_end : Option (ℕ × Slot) → M ℕ
get_end none = pure 0
get_end (some (parent, node)) = read_slot node

pub get : ℕ → M ℕ
get index t =
    if leb (max_index t.height) index
    then some (0, t)
    else (walk t.height 0 index 0 root_slot >>= get_end) t

-- The `do` loop of removeFromRadixTree: `free` at its end.
pub remove_up : ℕ → ℕ → ℕ → ℕ → M ℕ
remove_up zero parent free nr = λ t. none
remove_up (suc fuel) parent free nr = do
  if free == 0
      then pure tt
      else do change parent (λ n. record n { items = set n.items nr 0 }); write free none
  n ← load parent
  let left = (n.count + (2 ^ 32 - 1)) % 2 ^ 32
  write parent (some (record n { count = left }))
  if left == 0
      then (if n.parent == 0 then pure parent else remove_up fuel n.parent parent n.nr)
      else pure 0

pub remove_end : Option (ℕ × Slot) → M Ret
remove_end none = pure (err enoent)
remove_end (some (parent, node)) = λ t.
    (do
      write_slot node 0
      free ← remove_up (t.height + 1) parent 0 0
      if free == 0 then pure tt else do write t.node none; set_root 0
      pure (ok 0))
      t

-- `removeFromRadixTree`
pub remove : ℕ → M Ret
remove index t =
    if leb (max_index t.height) index
    then some (err enoent, t)
    else (walk t.height 0 index 0 root_slot >>= remove_end) t
