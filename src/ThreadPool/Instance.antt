-- ===== src/ThreadPool/Instance.antt =====
-- GetInstance of test_05_03/session/ThreadPool.hpp makes one pool, whoever calls it when.
use linux_system_learning.Prelude.{
  ℕ, ◌+◌, ◌≡◌, ◌≤◌, List, [], ◌∷◌, Option, none, some, arith, All, true,
}
use linux_system_learning.Prelude.Outcome.{Gives, Gives-bind, Gives-map}
use linux_system_learning.ThreadPool.{Holder, Single, Call, no_single, call, calls}

-- Nobody is behind the tests while there is no pool.
abbrev past : Holder → ℕ
past Holder.tested = 1
past _ = 0

abbrev At : Option ℕ → ℕ → ℕ → Type 0
At none created n = (created ≡ 0) × (n ≡ 0)
At (some p) created n = (created ≡ 1) × (p ≡ 0)

record IsSingle (s : Single) : Type 0 where
  made : At s.single s.created (s.behind + past s.holder)
  same : All (λ r. r ≡ some 0) s.results

no_single-IsSingle : IsSingle no_single
unfolding no_single
no_single-IsSingle = ground arith

call-IsSingle : (s : Single) (c : Call) → IsSingle s → Gives IsSingle (call true s c)
unfolding call
call-IsSingle s Call.test v = ground arith
call-IsSingle s Call.lock v = ground arith
call-IsSingle s Call.retest v = ground arith
call-IsSingle s Call.unlock v = ground arith
call-IsSingle s Call.leave v = ground arith

calls-IsSingle : (s : Single) (cs : List Call) → IsSingle s → Gives IsSingle (calls true s cs)
unfolding calls
calls-IsSingle s [] v = v
calls-IsSingle s (c ∷ cs) v =
    Gives-bind IsSingle IsSingle (call true s c) (λ s'. calls true s' cs) (call-IsSingle s c v)
      (λ s' v'. calls-IsSingle s' cs v')

made_once : (o : Option ℕ) (created n : ℕ) → At o created n → created ≤ 1
made_once none created n h = omega arith
made_once (some p) created n h = omega arith

-- If the reads of `instance` without the lock give what was written last, then, however the calls of GetInstance by any
-- number of threads are interleaved, every step returns, at most one pool is made, and every call that has returned
-- has returned that pool.
pub calls_single :
    (cs : List Call)
    → Gives (λ s. (s.created ≤ 1) × All (λ r. r ≡ some 0) s.results) (calls true no_single cs)
calls_single cs =
    Gives-map IsSingle (λ s. (s.created ≤ 1) × All (λ r. r ≡ some 0) s.results)
      (calls true no_single cs) (calls-IsSingle no_single cs no_single-IsSingle)
      (λ s v. (made_once s.single _ _ v.made, v.same))
