-- ===== src/Task/Family/Fork/Failing.antt =====
-- A fork that fails.
use docqos_old.Base.{
  ℕ, ◌≡◌, refl, sym, ap, ◌∙◌, ◌≢◌, inl, inr, Bool, true, false, not, ◌&&◌, Option, none, some, List,
  [], ◌∷◌, ◌++◌, arith, Bool-cases,
}
use mathlib.Core.List.{append-nil}
use mathlib.Core.Bool.{true≢false}
use mathlib.Core.Path.{subst}
use mathlib.Core.Option.{some-ne-none}
use docqos_old.Base.Errno.{Ret, ok, err, enomem}
use docqos_old.Task.Schedule.Runnable.{copies}
use docqos_old.Task.Family.{
  Task, Call, exits_memory, exits_file_system, exits_files, System, create_task, list_delete,
  destory_task,
}
use docqos_old.Task.Family.Fork.{Held, is_null, gather, if_held, give_back, do_fork}

-- The calls that a fork made whose results have to be given back, when it failed at one of its four steps.
pub data Released (current : Task) (given : Held) : List Call → Type 0 where
  at_memory : current.mm ≢ none → given.mm ≡ none → Released current given []
  at_file_system : given.fs ≡ none → Released current given (if_held exits_memory given.mm)
  at_files :
      given.files ≡ none
      → Released current given (if_held exits_memory given.mm ++ if_held exits_file_system given.fs)
  at_signal :
      current.sig ≢ none
      → given.sig ≡ none
      → Released current given (
          if_held exits_memory given.mm
          ++ (if_held exits_files given.files ++ if_held exits_file_system given.fs))

-- What is left of a fork that failed.
pub record Undone (current t : ℕ) (given : Held) (s s' : System) : Type 0 where
  pub all : s'.all ≡ s.all
  pub tasks : (u : ℕ) → u ≢ t → s'.tasks u ≡ s.tasks u
  pub freed : s'.freed ≡ t ∷ s.freed
  pub released : (cs : List Call) × (s'.calls ≡ s.calls ++ cs) × Released (s.tasks current) given cs

pub list_delete-last : (t : ℕ) (us : List ℕ) → copies t us ≡ 0 → list_delete t (us ++ (t ∷ [])) ≡ us
unfolding list_delete
list_delete-last t [] h = ground arith
list_delete-last t (u ∷ us) h = ground (arith, h, list_delete-last t us)

is_null-ne : (o : Option ℕ) → not (is_null o) ≡ true → o ≢ none
is_null-ne none h = absurd (true≢false (sym h))
is_null-ne (some a) h = some-ne-none a

is_null-none : (o : Option ℕ) → is_null o ≡ true → o ≡ none
is_null-none none h = refl
is_null-none (some a) h = absurd (true≢false (sym h))

-- The steps that succeeded before the one that failed.
gather-Released :
    (current : Task) (given : Held)
    → (gather current given).1 ≡ false
    → Released current given (give_back (gather current given).0)
unfolding gather give_back
gather-Released current given h = elim (Bool-cases (not (is_null current.mm) && is_null given.mm)) [
  | inl a ↦
      rw (gather, a)
        (at_memory (is_null-ne current.mm (ground (arith, a)))
          (is_null-none given.mm (ground (arith, a))))
  | inr a ↦ elim (Bool-cases (is_null given.fs)) [
    | inl b ↦
        rw (gather, a, b)
          (subst (Released current given) (sym (append-nil (if_held exits_memory given.mm)))
            (at_file_system (is_null-none given.fs b)))
    | inr b ↦ elim (Bool-cases (is_null given.files)) [
      | inl c ↦
          rw (gather, a, b, c)
            (subst
              (λ (cs : List Call). Released current given (if_held exits_memory given.mm ++ cs))
              (sym (append-nil (if_held exits_file_system given.fs)))
              (at_files (is_null-none given.files c)))
      | inr c ↦ elim (Bool-cases (not (is_null current.sig) && is_null given.sig)) [
        | inl d ↦
            rw (gather, a, b, c, d)
              (subst
                (λ (cs : List Call).
                  Released current given
                    (if_held exits_memory given.mm ++ (if_held exits_files given.files ++ cs)))
                (sym (append-nil (if_held exits_file_system given.fs)))
                (at_signal (is_null-ne current.sig (ground (arith, d)))
                  (is_null-none given.sig (ground (arith, d)))))
        | inr d ↦ absurd (true≢false (sym (rw (gather, a, b, c, d) refl) ∙ h))
      ]
    ]
  ]
]

is_ok : Ret → Bool
is_ok (ok n) = true
is_ok (err e) = false

create_task-other : (t u : ℕ) (s : System) → u ≢ t → (create_task t s).tasks u ≡ s.tasks u
unfolding create_task
create_task-other t u s ne = ground arith

-- A fork that comes back with -ENOMEM, for a task other than the new one and a page that is no listed
-- task: all tasks but the new one, and the list of all tasks, are as before; the page is given back; and
-- the calls that it has made are those that give back, each once, what the steps before the one that
-- failed have given, and the step that failed is one that had to give something and did not.
pub do_fork-Undone :
    (current t flags : ℕ) (given : Held) (s : System)
    → current ≢ t
    → copies t s.all ≡ 0
    → (do_fork current t flags given s).0 ≡ err enomem
    → Undone current t given s (do_fork current t flags given s).1
unfolding do_fork is_ok destory_task create_task
do_fork-Undone current t flags given s ne new h =
    let made = create_task t s in
    let other = create_task-other t current s ne in
    elim (Bool-cases (gather (made.tasks current) given).1) [
      | inl fine ↦
          let h' : ok (made.tasks t).pid ≡ err enomem = rw (do_fork, fine) at h in
          absurd (true≢false (ap is_ok h'))
      | inr failed ↦
          rw (do_fork, failed)
            (record {
              all = list_delete-last t s.all new;
              tasks = λ u far. create_task-other t u s far;
              freed = refl;
              released = (
                give_back (gather (made.tasks current) given).0,
                refl,
                subst
                    (λ (v : Task).
                      Released v given (give_back (gather (made.tasks current) given).0))
                    other (gather-Released (made.tasks current) given failed),
              );
            })
    ]
