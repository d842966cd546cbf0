-- ===== src/Programs/Trial.antt =====
-- test_ThreadPool.cpp, which gives two tasks to a pool of three workers. The class in it is that of
-- ThreadPool.cpp, with its `Stop` as the destructor.
use reactor_server.Base.{ℕ, ◌≤◌, ◌≡◌, ◌⊎◌, inl, inr, ◌∙◌, false, List, [], ◌∷◌, arith}
use reactor_server.ThreadPool.Filling.{Alone, moves, bound, Alone-all}
use reactor_server.ThreadPool.Safety.{Advances}
use reactor_server.ThreadPool.System.{System, Reach}

-- The functions that are bound with their arguments.
pub data Bound : Type 0 where
  show : (no : ℕ) (name : List ℕ) → Bound
  test : Bound

-- The name that `show` is given.
abbrev name : List ℕ
name = 232 ∷ 165 ∷ 191 ∷ 230 ∷ 150 ∷ 189 ∷ []

abbrev pub threadnum : ℕ
threadnum = 3

-- The arguments of the calls of `addtask`.
unfoldable pub main : List Bound
main = show 8 name ∷ test ∷ []

-- The pool that `main` makes has workers enough for its tasks: when both were added, from whatever
-- state the pool is in, the workers can make at most `bound` steps before a task returns, and at the
-- end of them both tasks were started, `show` before `test`, or the workers can go on.
pub main-started :
    {s : System Bound}
    → Reach threadnum s
    → s.submitted ≡ main
    → s.stop ≡ false
    → (t : System Bound) (r : Alone threadnum s t)
    → (moves r ≤ bound threadnum s) × ((t.started ≡ main) ⊎ Advances threadnum t)
unfolding main
main-started reach sub f t r =
    let (few, ends) = Alone-all reach f (rw sub (omega arith)) t r in
    (few, elim ends [ inl all ↦ inl (all ∙ sub) | inr on ↦ inr on ])
