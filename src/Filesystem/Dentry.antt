-- ===== src/Filesystem/Dentry.antt =====
-- src/filesystem/virtual.c: the dentries, the table that finds one by its name, and the references that a
-- walk along a path holds. A dentry is its address; a name is its bytes, without the NUL. A reference count
-- is taken with its bit 16, which tells that a file system is mounted there. A dentry whose count falls to 0
-- is off the table and freed in one step.
pub mod Taking
pub mod Chains
pub mod Steps
pub mod Walk
pub mod Mounting
mod Tests
use docqos_old.Base.{
  ℕ, zero, suc, ◌+◌, ◌-◌, ◌*◌, ◌/◌, ◌%◌, ◌^◌, Bool, true, false, not, ◌&&◌, ◌||◌, Option, none,
  some, List, [], ◌∷◌, ltb, ◌==◌, if◌then◌else◌,
}

-- `struct VFSDentry`, with what is read of its inode and mount: `point` is the field `point` of `mnt`, and
-- `mounted` is the field `root` of `mounted`.
pub record Dentry : Type 0 where
  pub ref : ℕ
  pub parent : Option ℕ
  pub point : Option ℕ
  pub name : List ℕ
  pub hash : ℕ
  pub mounted : Option ℕ
  pub is_directory : Bool

-- The dentries, `vfsDentryCache` by bucket, and the dentries that were freed.
pub record Store : Type 0 where
  pub dentries : ℕ → Dentry
  pub cache : ℕ → List ℕ
  pub freed : List ℕ

abbrev pub put {ℓ} : {A : Type ℓ} → ℕ → A → (ℕ → A) → ℕ → A
put t v f u = if u == t then v else f u

-- A `char` as an `unsigned long`.
abbrev pub extend : ℕ → ℕ
extend c = if ltb c 128 then c else c + (2 ^ 64 - 256)

-- The loop of vfsHashName, from a hash on.
pub hash_from : ℕ → List ℕ → ℕ
hash_from h [] = h
hash_from h (c ∷ cs) =
    let w = extend c in hash_from ((h + w * 16 % 2 ^ 64 + w / 16) * 11 % 2 ^ 64) cs

-- `vfsHashName`, the hash that it stores; it returns the length of the name.
pub hash_name : List ℕ → ℕ
unfolding hash_from
hash_name name = hash_from 0 name

-- `__vfsHashDentry`
pub hash_dentry : (parent hash : ℕ) → ℕ
hash_dentry parent hash =
    let h = (hash + parent / 2 ^ 7) % 2 ^ 64 in (h + h / 2 ^ 32) % 2 ^ 64 % 1024

pub list_delete : ℕ → List ℕ → List ℕ
list_delete d [] = []
list_delete d (e ∷ es) = let rest = list_delete d es in if e == d then es else e ∷ rest

pub set_ref : ℕ → ℕ → Store → Store
set_ref d n s = record s { dentries = put d (record (s.dentries d) { ref = n }) s.dentries }

-- `destoryDentry`, of a dentry whose count is 0.
pub destory_dentry : ℕ → Store → Store
unfolding list_delete
destory_dentry d s = record s { cache = λ b. list_delete d (s.cache b); freed = d ∷ s.freed }

-- Whether a dentry has the hash and the name that are looked for.
pub same_name : List ℕ → List ℕ → Bool
same_name [] [] = true
same_name [] (c ∷ cs) = false
same_name (b ∷ bs) [] = false
same_name (b ∷ bs) (c ∷ cs) = (b == c) && same_name bs cs

pub matches : (hash : ℕ) → List ℕ → Dentry → Bool
unfolding same_name
matches hash name d = (d.hash == hash) && same_name d.name name

-- The loop of vfsDentryCacheLookUp.
pub first_match : (hash : ℕ) → List ℕ → (ℕ → Dentry) → List ℕ → Option ℕ
unfolding matches
first_match hash name dentries [] = none
first_match hash name dentries (d ∷ ds) =
    let rest = first_match hash name dentries ds in
    if matches hash name (dentries d) then some d else rest

-- `old & (1 << 16)`
abbrev pub is_mounted : ℕ → Bool
is_mounted ref = (ref / 2 ^ 16) % 2 == 1

-- A match is taken: its count is one more, and the root of what is mounted there is the result. The loop
-- that waits for the field `mounted` is over when it is set.
pub target : ℕ → Dentry → ℕ
target d v = if is_mounted v.ref then elim v.mounted [ some r ↦ r | none ↦ d ] else d

pub take_match : ℕ → Store → ℕ × Store
unfolding set_ref target
take_match d s = (target d (s.dentries d), set_ref d ((s.dentries d).ref + 1) s)

-- `vfsDentryCacheLookUp`
pub cache_look_up : (parent hash : ℕ) → List ℕ → Store → Option (ℕ × Store)
unfolding first_match take_match hash_dentry
cache_look_up parent hash name s =
    elim (first_match hash name s.dentries (s.cache (hash_dentry parent hash))) [
      | none ↦ none
      | some d ↦ some (take_match d s)
    ]

-- A round of the loop of vfsLookUpClear at a dentry: which count it changes, and where it goes on.
abbrev pub holder_of : (parent point : Option ℕ) → ℕ → ℕ
holder_of (some p) point d = d
holder_of none (some q) d = q
holder_of none none d = d

pub holder : (ℕ → Dentry) → ℕ → ℕ
holder dentries d = holder_of (dentries d).parent (dentries d).point d

abbrev pub beyond_of : (parent above : Option ℕ) → Option ℕ
beyond_of (some p) above = some p
beyond_of none above = above

pub beyond : (ℕ → Dentry) → ℕ → Option ℕ
unfolding holder
beyond dentries d = beyond_of (dentries d).parent (dentries (holder dentries d)).parent

abbrev pub is_set : Option ℕ → Bool
is_set none = false
is_set (some q) = true

-- Which count a round of vfsLookUpDentry changes: at a dentry without a parent it goes by whether the first
-- dentry of the walk has a mount, `has_mount`. `none` is a read through the null `mnt` of the dentry.
pub taken_at : (has_mount : Bool) → (ℕ → Dentry) → ℕ → Option ℕ
taken_at has_mount dentries d = elim (dentries d).parent [
  | some p ↦ some d
  | none ↦ if has_mount then (dentries d).point else some d
]

-- The loop of vfsLookUpDentry, with fuel.
pub look_up_from : (has_mount : Bool) → ℕ → Option ℕ → Store → Option Store
unfolding taken_at set_ref
look_up_from has_mount fuel none s = some s
look_up_from has_mount zero (some d) s = none
look_up_from has_mount (suc fuel) (some d) s = elim (taken_at has_mount s.dentries d) [
  | none ↦ none
  | some h ↦
      look_up_from has_mount fuel (beyond_of (s.dentries d).parent (s.dentries h).parent)
        (set_ref h ((s.dentries h).ref + 1) s)
]

-- `dentry->mnt` of the first dentry, as a test.
abbrev pub first_mount : (ℕ → Dentry) → Option ℕ → Bool
first_mount dentries none = false
first_mount dentries (some d) = is_set (dentries d).point

-- `vfsLookUpDentry`; `none` is for want of fuel, or for a read through null.
pub look_up_dentry : ℕ → Option ℕ → Store → Option Store
unfolding look_up_from
look_up_dentry fuel o s = look_up_from (first_mount s.dentries o) fuel o s

-- A count goes down by one; a dentry with a parent is destroyed with its last reference.
pub drop : ℕ → Store → Store
unfolding holder set_ref destory_dentry
drop d s =
    let h = holder s.dentries d in
    let n = (s.dentries h).ref - 1 in
    let less = set_ref h n s in
    elim (s.dentries d).parent [
      | none ↦ less
      | some p ↦ if n == 0 then destory_dentry d less else less
    ]

-- `vfsLookUpClear`, with fuel.
pub look_up_clear : ℕ → Option ℕ → Store → Option Store
unfolding drop beyond
look_up_clear fuel none s = some s
look_up_clear zero (some d) s = none
look_up_clear (suc fuel) (some d) s = look_up_clear fuel (beyond s.dentries d) (drop d s)

-- What a step of vfsLookUp ends with: a dentry, the label `failed` at a dentry, or a read through null.
pub data Outcome : Type 0 where
  at : ℕ → Store → Outcome
  fails_at : ℕ → Store → Outcome
  faults : Outcome

-- The name `..` at a dentry, where `root` is the root of the task.
pub step_up : (root ret : ℕ) → Store → Outcome
unfolding drop
step_up root ret s = elim (s.dentries ret).parent [
  | some p ↦ at p (drop ret s)
  | none ↦ elim (s.dentries ret).point [
    | none ↦ faults
    | some q ↦ elim (s.dentries q).parent [
      | none ↦ at ret s
      | some p ↦ if ret == root then at ret s else at p (drop ret s)
    ]
  ]
]

-- The dentry at a new address for a name that the file system has found under `ret`.
pub new_dentry : (ret : ℕ) → List ℕ → (is_directory : Bool) → Store → Dentry
unfolding hash_name
new_dentry ret name is_directory s = record {
  ref = 1;
  parent = some ret;
  point = (s.dentries ret).point;
  name = name;
  hash = hash_name name;
  mounted = none;
  is_directory = is_directory;
}

pub add_dentry : (new ret : ℕ) → List ℕ → (is_directory : Bool) → Store → Store
unfolding new_dentry hash_name hash_dentry
add_dentry new ret name is_directory s =
    let b = hash_dentry ret (hash_name name) in
    record s {
      dentries = put new (new_dentry ret name is_directory s) s.dentries;
      cache = put b (new ∷ s.cache b) s.cache;
    }

-- Another name. `answer` is whether the file system's lookUp finds it, as a directory or not, `new` the
-- address that createDentry gives, and `last` whether any kind of file will do.
pub step_down : (last : Bool) (new : ℕ) → Option Bool → List ℕ → (ret : ℕ) → Store → Outcome
unfolding cache_look_up add_dentry hash_name
step_down last new answer name ret s = elim (cache_look_up ret (hash_name name) name s) [
  | some (d, s') ↦ if last || (s'.dentries d).is_directory then at d s' else fails_at d s'
  | none ↦ elim answer [
    | none ↦ fails_at ret s
    | some dir ↦ if last || dir then at new (add_dentry new ret name dir s) else fails_at ret s
  ]
]

-- A component of a path: 46 is the character `.`.
pub data Component : Type 0 where
  here above : Component
  named : List ℕ → Component

pub component : List ℕ → Component
unfolding same_name
component name =
    if same_name name (46 ∷ [])
    then here
    else if same_name name (46 ∷ 46 ∷ [])
    then above
    else named name

-- A round of the loop of vfsLookUp, and what follows it with the last name.
pub step : Component → (last : Bool) (root new : ℕ) → Option Bool → (ret : ℕ) → Store → Outcome
unfolding step_up step_down
step here last root new answer ret s = at ret s
step above last root new answer ret s = step_up root ret s
step (named name) last root new answer ret s = step_down last new answer name ret s
