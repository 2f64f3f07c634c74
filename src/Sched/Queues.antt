-- ===== src/Sched/Queues.antt =====
-- What the list operations on a queue of weenix.assign2/kernel/proc/sched.c do to its members.
use usc_homeworks.Base.{
  ℕ, suc, ◌+◌, ◌-◌, ◌<◌, ◌≡◌, List, [], ◌∷◌, ◌++◌, ◌==◌, if◌then◌else◌, length, arith, refl, ap,
}
use usc_homeworks.Sched.{Tid, last_of, init_of, unlink}

-- How often a thread is on a list.
abbrev pub count : Tid → List Tid → ℕ
count t [] = 0
count t (x ∷ xs) = (if x == t then 1 else 0) + count t xs

pub count-init_of :
    (t x : Tid) (xs : List Tid)
    → count t (x ∷ xs) ≡ count t (init_of x xs) + (if last_of x xs == t then 1 else 0)
count-init_of t x [] = omega arith
count-init_of t x (y ∷ ys) = omega (arith, count-init_of t y ys)

pub length-init_of : (x : Tid) (xs : List Tid) → length (init_of x xs) ≡ length xs
length-init_of x [] = refl
length-init_of x (y ∷ ys) = ap suc (length-init_of y ys)

pub count-append : (t : Tid) (xs ys : List Tid) → count t (xs ++ ys) ≡ count t xs + count t ys
count-append t [] ys = omega arith
count-append t (x ∷ xs) ys = omega (arith, count-append t xs ys)

pub count-unlink :
    (t u : Tid) (xs : List Tid) → count u (unlink t xs) ≡ count u xs - (if t == u then 1 else 0)
count-unlink t u [] = ground arith
count-unlink t u (x ∷ xs) = ground (arith, count-unlink t u xs)

pub length-unlink :
    (t : Tid) (xs : List Tid) → 0 < count t xs → suc (length (unlink t xs)) ≡ length xs
length-unlink t [] h = elim h [ ]
length-unlink t (x ∷ xs) h = ground (arith, length-unlink t xs)
