-- ===== src/Task/Family/Kinship.antt =====
-- Each task stands in the list of its parent's children, and in no other.
use docqos_old.Base.{
  ℕ, ◌+◌, ◌-◌, ◌≤◌, ◌≡◌, refl, sym, ap, ◌∙◌, ◌≢◌, ◌⊎◌, inl, inr, Bool, true, false, ◌&&◌, Option,
  none, some, List, [], ◌∷◌, arith, ◌==◌, if◌then◌else◌, Bool-cases, Option-cases,
}
use mathlib.Core.Option.{none-ne-some, some-injective}
use docqos_old.Task.Schedule.{interruptible, running}
use docqos_old.Task.Schedule.Runnable.{copies}
use docqos_old.Task.Family.{
  Task, Call, System, write, list_delete, destory_task, adopt, adopt_all, leave, do_exit, Pass,
  returns, sleeps, Pointer, null, good, bad, reap, wait_pass, find_zombie, has_wanted, wanted,
  is_zombie, no_zombie,
}

abbrev pub names : Option ℕ → ℕ → ℕ
names none p = 0
names (some k) p = if k == p then 1 else 0

-- The list of all tasks holds none twice; a task on it is once in its parent's list and in no other one; a
-- task that is not on it is no one's child and has no children; and a zombie, but for the task `x`, has no
-- children either.
pub record IsFamilyBut (x : Option ℕ) (s : System) : Type 0 where
  pub once : (t : ℕ) → copies t s.all ≤ 1
  pub listed :
      (p c : ℕ) → 1 ≤ copies c s.all → copies c (s.tasks p).children ≡ names (s.tasks c).parent p
  pub only : (p c : ℕ) → copies c s.all ≡ 0 → copies c (s.tasks p).children ≡ 0
  pub alive : (p c : ℕ) → copies p s.all ≡ 0 → copies c (s.tasks p).children ≡ 0
  pub childless :
      (p c : ℕ)
      → names x p ≡ 0
      → is_zombie (s.tasks p).state ≡ true
      → copies c (s.tasks p).children ≡ 0

abbrev pub IsFamily : System → Type 0
IsFamily s = IsFamilyBut none s

pub list_delete-copies :
    (t u : ℕ) (us : List ℕ) → copies u (list_delete t us) ≡ copies u us - (if t == u then 1 else 0)
unfolding list_delete
list_delete-copies t u [] = omega arith
list_delete-copies t u (v ∷ us) = elim (Bool-cases (v == t)) [
  | inl e ↦ rw e (ground arith)
  | inr e ↦ rw e (ground (arith, list_delete-copies t u us))
]

-- What a round of the loop of doExit leaves.
adopt-children :
    (current parent child p : ℕ) (s : System)
    → parent ≢ current
    → ((adopt current parent child s).tasks p).children ≡ (
        if p == parent
        then child ∷ (s.tasks parent).children
        else if p == current
        then list_delete child (s.tasks current).children
        else (s.tasks p).children)
unfolding adopt write
adopt-children current parent child p s ne = ground arith

adopt-parent :
    (current parent child c : ℕ) (s : System)
    → ((adopt current parent child s).tasks c).parent
      ≡ (if c == child then some parent else (s.tasks c).parent)
unfolding adopt write
adopt-parent current parent child c s = ground arith

adopt-all : (current parent child : ℕ) (s : System) → (adopt current parent child s).all ≡ s.all
unfolding adopt write
adopt-all current parent child s = refl

adopt-copies :
    (current parent child p c : ℕ) (s : System)
    → parent ≢ current
    → copies c ((adopt current parent child s).tasks p).children ≡ (
        if p == parent
        then (if child == c then 1 else 0) + copies c (s.tasks parent).children
        else if p == current
        then copies c (s.tasks current).children - (if child == c then 1 else 0)
        else copies c (s.tasks p).children)
adopt-copies current parent child p c s ne =
    ap (copies c) (adopt-children current parent child p s ne)
    ∙ ground (arith, list_delete-copies child c (s.tasks current).children)

-- Whose child a task is, from the list that it stands in.
names-some : (o : Option ℕ) (p : ℕ) → 1 ≤ names o p → o ≡ some p
names-some none p h = absurd (omega arith)
names-some (some k) p h = ground arith

child-parent :
    {x : Option ℕ} (p c : ℕ) (s : System)
    → IsFamilyBut x s
    → 1 ≤ copies c (s.tasks p).children
    → (1 ≤ copies c s.all) × ((s.tasks c).parent ≡ some p)
child-parent p c s v h =
    let there : 1 ≤ copies c s.all = ground (arith, v.only p c) in
    (there, names-some (s.tasks c).parent p (omega (arith, v.listed p c there, h)))

adopt-state :
    (current parent child t : ℕ) (s : System)
    → ((adopt current parent child s).tasks t).state ≡ (s.tasks t).state
unfolding adopt write
adopt-state current parent child t s = ground arith

adopt-IsFamilyBut :
    (current parent child : ℕ) (s : System)
    → parent ≢ current
    → 1 ≤ copies parent s.all
    → is_zombie (s.tasks parent).state ≡ false
    → 1 ≤ copies child (s.tasks current).children
    → IsFamilyBut (some current) s
    → IsFamilyBut (some current) (adopt current parent child s)
adopt-IsFamilyBut current parent child s ne listed well on v =
    let (there, kin) = child-parent current child s v on in
    let same = adopt-all current parent child s in
    record {
      once = λ t. ground (arith, same, v.once t);
      listed = λ p c h.
          let h' : 1 ≤ copies c s.all = ground (arith, same) in
          rw (adopt-parent current parent child c s) (
            adopt-copies current parent child p c s ne
            ∙ ground (arith, v.listed p c h', v.listed parent c h', v.listed current c h', kin));
      only = λ p c h.
          let h' : copies c s.all ≡ 0 = ground (arith, same) in
          adopt-copies current parent child p c s ne
          ∙ ground (arith, v.only p c h', v.only parent c h', v.only current c h', there);
      alive = λ p c h.
          let h' : copies p s.all ≡ 0 = ground (arith, same) in
          adopt-copies current parent child p c s ne ∙ ground (arith, v.alive p c h', listed);
      childless = λ p c o z.
          let z' : is_zombie (s.tasks p).state ≡ true =
            ground (arith, adopt-state current parent child p s) in
          adopt-copies current parent child p c s ne ∙ ground (arith, v.childless p c o z', well);
    }

-- A write that keeps the parent and the children of a task, and makes it a zombie only as `x`.
pub write-IsFamilyBut :
    {x : Option ℕ} (t : ℕ) (w : Task) (s : System)
    → w.parent ≡ (s.tasks t).parent
    → w.children ≡ (s.tasks t).children
    → ((is_zombie w.state ≡ false) ⊎ (x ≡ some t))
    → IsFamily s
    → IsFamilyBut x (write t w s)
unfolding write
write-IsFamilyBut {x} t w s e f o v = record {
  once = v.once;
  listed = λ p c h. ground (arith, v.listed p c h);
  only = λ p c h. ground (arith, v.only p c h);
  alive = λ p c h. ground (arith, v.alive p c h);
  childless = λ p c n z. elim o [
    | inl well ↦ ground (arith, v.childless p c)
    | inr mine ↦ ground (arith, v.childless p c, mine)
  ];
}

-- The calls that are recorded are no part of the family.
pub calls-IsFamilyBut :
    {x : Option ℕ} (cs : List Call) (s : System)
    → IsFamilyBut x s
    → IsFamilyBut x (record s { calls = cs })
calls-IsFamilyBut cs s v = record {
  once = v.once;
  listed = v.listed;
  only = v.only;
  alive = v.alive;
  childless = v.childless;
}

adopt-first :
    (current parent c : ℕ) (cs : List ℕ) (s : System)
    → parent ≢ current
    → (s.tasks current).children ≡ c ∷ cs
    → ((adopt current parent c s).tasks current).children ≡ cs
unfolding list_delete
adopt-first current parent c cs s ne e =
    adopt-children current parent c current s ne ∙ rw e (ground arith)

adopt_all-IsFamily :
    (current parent : ℕ) (cs : List ℕ) (s : System)
    → parent ≢ current
    → 1 ≤ copies parent s.all
    → is_zombie (s.tasks parent).state ≡ false
    → (s.tasks current).children ≡ cs
    → IsFamilyBut (some current) s
    → IsFamily (adopt_all current parent cs s)
unfolding adopt_all
adopt_all-IsFamily current parent [] s ne there well e v = record {
  once = v.once;
  listed = v.listed;
  only = v.only;
  alive = v.alive;
  childless = λ p c o z. ground (arith, v.childless p c, e);
}
adopt_all-IsFamily current parent (c ∷ cs) s ne there well e v =
    adopt_all-IsFamily current parent cs (adopt current parent c s) ne
      (ground (arith, adopt-all current parent c s, there))
      (ground (arith, adopt-state current parent c parent s, well))
      (adopt-first current parent c cs s ne e)
      (adopt-IsFamilyBut current parent c s ne there well (ground (arith, e)) v)

pub leave-IsFamilyBut :
    (current n : ℕ) (s : System) → IsFamily s → IsFamilyBut (some current) (leave current n s)
unfolding leave
leave-IsFamilyBut current n s v =
    calls-IsFamilyBut _ (write current _ s) (write-IsFamilyBut current _ s refl refl (inr refl) v)

-- A parent is on the list and has not exited.
parent-well :
    (current parent : ℕ) (s : System)
    → 1 ≤ copies current s.all
    → (s.tasks current).parent ≡ some parent
    → IsFamily s
    → (1 ≤ copies parent s.all) × (is_zombie (s.tasks parent).state ≡ false)
parent-well current parent s there kin v =
    let on : 1 ≤ copies current (s.tasks parent).children =
      rw (v.listed parent current there, kin) (ground arith) in
    (
      ground (arith, v.alive parent current, on),
      ground (arith, v.childless parent current refl, on),
    )

pub do_exit-IsFamily :
    (current parent n : ℕ) (s : System)
    → parent ≢ current
    → 1 ≤ copies current s.all
    → (s.tasks current).parent ≡ some parent
    → IsFamily s
    → IsFamily (do_exit current parent n s)
unfolding do_exit leave write
do_exit-IsFamily current parent n s ne there kin v =
    let left = leave current n s in
    let (on, well) = parent-well current parent s there kin v in
    calls-IsFamilyBut _ (adopt_all current parent (left.tasks current).children left) (
      adopt_all-IsFamily current parent (left.tasks current).children left ne on
        (ground (arith, well)) refl (leave-IsFamilyBut current n s v))

-- The state that a pass of doWaitPID leaves.
abbrev pub state_of : Pass → System
state_of (returns r w s) = s
state_of (sleeps s) = s

destory_task-all : (t : ℕ) (s : System) → (destory_task t s).all ≡ list_delete t s.all
unfolding destory_task
destory_task-all t s = refl

-- A child off its parent's list and off the list of all tasks.
reaped-IsFamily :
    (current child : ℕ) (s : System) (w : Task)
    → w.parent ≡ (s.tasks current).parent
    → w.children ≡ list_delete child (s.tasks current).children
    → is_zombie w.state ≡ false
    → (s.tasks child).parent ≡ some current
    → is_zombie (s.tasks child).state ≡ true
    → IsFamily s
    → IsFamily (destory_task child (write current w s))
unfolding write destory_task
reaped-IsFamily current child s w e f well kin z v = record {
  once = λ t. ground (arith, list_delete-copies child t s.all, v.once t);
  listed = λ p c h. ground (
    arith,
    f,
    e,
    kin,
    list_delete-copies child c s.all,
    list_delete-copies child c (s.tasks current).children,
    v.listed p c,
    v.once c,
  );
  only = λ p c h. ground (
    arith,
    f,
    e,
    kin,
    list_delete-copies child c s.all,
    list_delete-copies child c (s.tasks current).children,
    v.only p c,
    v.listed p c,
    v.once c,
  );
  alive = λ p c h. ground (
    arith,
    f,
    list_delete-copies child p s.all,
    list_delete-copies child c (s.tasks current).children,
    v.alive p c,
    v.childless child c refl z,
    v.once p,
  );
  childless = λ p c o h.
      ground (
        arith,
        f,
        well,
        list_delete-copies child c (s.tasks current).children,
        v.childless p c refl,
      );
}

reap-IsFamily :
    (current child : ℕ) (result : Pointer) (s : System)
    → result ≢ bad
    → 1 ≤ copies child (s.tasks current).children
    → is_zombie (s.tasks child).state ≡ true
    → IsFamily s
    → IsFamily (state_of (reap current child result s))
unfolding reap
reap-IsFamily current child null s ne h z v =
    reaped-IsFamily current child s _ refl refl refl (child-parent current child s v h).1 z v
reap-IsFamily current child good s ne h z v =
    reaped-IsFamily current child s _ refl refl refl (child-parent current child s v h).1 z v
reap-IsFamily current child bad s ne h z v = absurd (ne refl)

-- The zombie that the loop finds is on the list, is wanted, and has exited.
pub find_zombie-some :
    (pid c : ℕ) (tasks : ℕ → Task) (cs : List ℕ)
    → find_zombie pid tasks cs ≡ some c
    → (1 ≤ copies c cs) × (wanted pid (tasks c).pid ≡ true) × (is_zombie (tasks c).state ≡ true)
unfolding find_zombie
find_zombie-some pid c tasks [] h = absurd (none-ne-some c h)
find_zombie-some pid c tasks (d ∷ cs) h =
    elim (Bool-cases (wanted pid (tasks d).pid && is_zombie (tasks d).state)) [
      | inl this ↦
          let same : d ≡ c = some-injective _ _ (sym (rw (find_zombie, this) refl) ∙ h) in
          ground (arith, same, this)
      | inr later ↦
          let (n, w, z) =
            find_zombie-some pid c tasks cs (sym (rw (find_zombie, later) refl) ∙ h) in
          (omega (arith, n), w, z)
    ]

no_zombie-IsFamily :
    (has nowait : Bool) (asks back : System)
    → IsFamily asks
    → IsFamily back
    → IsFamily (state_of (no_zombie has nowait asks back))
no_zombie-IsFamily false nowait asks back v w = w
no_zombie-IsFamily true true asks back v w = w
no_zombie-IsFamily true false asks back v w = v

pub wait_pass-IsFamily :
    (current pid : ℕ) (result : Pointer) (nowait : Bool) (s : System)
    → result ≢ bad
    → IsFamily s
    → IsFamily (state_of (wait_pass current pid result nowait s))
unfolding wait_pass
wait_pass-IsFamily current pid result nowait s ne v =
    let t = s.tasks current in
    let asks = write current (record t { state = interruptible; waiting = true }) s in
    let av =
      write-IsFamilyBut current (record t { state = interruptible; waiting = true }) s refl refl
        (inl refl) v in
    let bv =
      write-IsFamilyBut current (record t { state = running; waiting = false }) s refl refl
        (inl refl) v in
    elim (Option-cases (find_zombie pid asks.tasks t.children)) [
      | inl nobody ↦
          rw (wait_pass, nobody)
            (no_zombie-IsFamily (has_wanted pid asks.tasks t.children) nowait asks
              (write current (record t { state = running; waiting = false }) s) av bv)
      | inr (c, found) ↦
          let (here, _, z) = find_zombie-some pid c asks.tasks t.children found in
          rw (wait_pass, found) (reap-IsFamily current c result asks ne (ground (arith, here)) z av)
    ]
