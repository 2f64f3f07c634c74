-- ===== src/Proc/Pids.antt =====
-- `_proc_getid` of weenix.assign2/kernel/proc/proc.c, which goes around the numbers once.
use usc_homeworks.Base.{
  ℕ, zero, suc, ◌+◌, ◌-◌, ◌%◌, ◌<◌, ◌≡◌, Bool, true, false, Option, none, some, ◌==◌, arith, ◌∙◌,
  Bool-cases, inl, inr, ==_iff, done, leb, subst, refl, ap, if◌then◌else◌,
}
use usc_homeworks.Proc.{System, proc_max_count, pid_used, getid_from, pid_taken, proc_getid}

-- Whether a process has the number.
abbrev pub is_used : System → ℕ → Bool
is_used s pid = pid_used pid s.proc_list s.proc

-- What the search may come to: no number is free, or a number that is.
abbrev pub IsPick : System → Option ℕ → Type 0
IsPick s none = (pid : ℕ) → pid < proc_max_count → is_used s pid ≡ true
IsPick s (some pid) = (pid < proc_max_count) × (is_used s pid ≡ false)

-- What the choice of a number leaves: nothing else than `next_pid` changes, which is the number after
-- the one that was chosen, and after the last number is 0.
abbrev pub IsAfterPick : System → Option ℕ → System → Type 0
IsAfterPick s none s' = s' ≡ s
IsAfterPick s (some pid) s' =
    s' ≡ record s { next_pid = if pid + 1 == proc_max_count then 0 else pid + 1 }

found_free :
    (k pid : ℕ) (s : System) → is_used s pid ≡ false → getid_from (suc k) pid s ≡ done (some pid)
unfolding getid_from
found_free k pid s e = rw e

gone_around :
    (k pid : ℕ) (s : System)
    → is_used s pid ≡ true
    → (pid + 1) % proc_max_count ≡ s.next_pid
    → getid_from (suc k) pid s ≡ done none
unfolding getid_from
gone_around k pid s e h = rw (e, h) (ground arith)

goes_on :
    (k pid : ℕ) (s : System)
    → is_used s pid ≡ true
    → ((pid + 1) % proc_max_count == s.next_pid) ≡ false
    → getid_from (suc k) pid s ≡ getid_from k ((pid + 1) % proc_max_count) s
unfolding getid_from
goes_on k pid s e h = rw (e, h)

-- The number after `i` steps from `n`, and one step more.
step_once :
    (n i : ℕ) → ((n + i) % proc_max_count + 1) % proc_max_count ≡ (n + (i + 1)) % proc_max_count
unfolding proc_max_count
step_once n i = omega arith

-- A whole round of steps meets every number.
all_met :
    (n : ℕ) (P : ℕ → Bool)
    → n < proc_max_count
    → ((j : ℕ) → j < proc_max_count → P ((n + j) % proc_max_count) ≡ true)
    → (pid : ℕ) → pid < proc_max_count
    → P pid ≡ true
unfolding proc_max_count
all_met n P h all pid below = elim (Bool-cases (leb n pid)) [
  | inl after ↦
      let back : (n + (pid - n)) % 65536 ≡ pid = ground arith in
      subst (λ m. P m ≡ true) back (all (pid - n) (omega arith))
  | inr before ↦
      let back : (n + (pid + 65536 - n)) % 65536 ≡ pid = ground arith in
      subst (λ m. P m ≡ true) back (all (pid + 65536 - n) (ground arith))
]

-- The last step of a round comes back to where it began, and no other does.
comes_back :
    (n i : ℕ) → n < proc_max_count → i + 1 ≡ proc_max_count → (n + (i + 1)) % proc_max_count ≡ n
unfolding proc_max_count
comes_back n i h e = omega arith

not_back :
    (n i : ℕ)
    → n < proc_max_count
    → i + 1 < proc_max_count
    → ((n + (i + 1)) % proc_max_count == n) ≡ false
unfolding proc_max_count
not_back n i h l = ground arith

first : (n : ℕ) → n < proc_max_count → (n + 0) % proc_max_count ≡ n
unfolding proc_max_count
first n h = omega arith

in_range : (n : ℕ) → n % proc_max_count < proc_max_count
unfolding proc_max_count
in_range n = omega arith

getid_from_lem :
    (k i : ℕ) (s : System)
    → s.next_pid < proc_max_count
    → i + k ≡ proc_max_count
    → i < proc_max_count
    → ((j : ℕ) → j < i → is_used s ((s.next_pid + j) % proc_max_count) ≡ true)
    → (o : Option ℕ) × (getid_from k ((s.next_pid + i) % proc_max_count) s ≡ done o) × IsPick s o
getid_from_lem zero i s h e l met = absurd (omega arith)
getid_from_lem (suc k) i s h e l met =
    let n = s.next_pid in
    let pid = (n + i) % proc_max_count in
    elim (Bool-cases (is_used s pid)) [
      | inr free ↦ (some pid, found_free k pid s free, (in_range (n + i), free))
      | inl used ↦
          let met' : (j : ℕ) → j < i + 1 → is_used s ((n + j) % proc_max_count) ≡ true = λ j m.
            elim (Bool-cases (j == i)) [
              | inl last ↦ rw ((==_iff j i).0 last) used
              | inr other ↦ met j (ground arith)
            ] in
          elim (Bool-cases (leb proc_max_count (i + 1))) [
            | inl around ↦
                let whole : i + 1 ≡ proc_max_count = ground arith in
                (
                  none,
                  gone_around k pid s used (step_once n i ∙ comes_back n i h whole),
                  all_met n (is_used s) h (λ j m. met' j (omega arith)),
                )
            | inr more ↦
                let within : i + 1 < proc_max_count = ground arith in
                let other : ((pid + 1) % proc_max_count == n) ≡ false =
                  rw (step_once n i) (not_back n i h within) in
                let r = getid_from_lem k (i + 1) s h (omega arith) within met' in
                let run : getid_from k ((pid + 1) % proc_max_count) s ≡ done r.0 =
                  rw (step_once n i) r.1 in
                (r.0, goes_on k pid s used other ∙ run, r.2)
          ]
    ]

-- The number after another goes around.
number_after :
    (pid : ℕ)
    → pid < proc_max_count
    → (pid + 1) % proc_max_count ≡ (if pid + 1 == proc_max_count then 0 else pid + 1)
unfolding proc_max_count
number_after pid h = ground arith

pid_taken-IsAfterPick : (s : System) (o : Option ℕ) → IsPick s o → IsAfterPick s o (pid_taken o s)
unfolding pid_taken
pid_taken-IsAfterPick s none h = refl
pid_taken-IsAfterPick s (some pid) h = ap (λ n. record s { next_pid = n }) (number_after pid h.0)

-- The choice of a process number, where `next_pid` is below PROC_MAX_COUNT, ends after at most that
-- many steps. It gives a number below PROC_MAX_COUNT that no process has, and changes only `next_pid`,
-- to the number after it, or to 0 after the last number; it fails, and changes nothing, only when all
-- these numbers are in use.
pub getid_lem :
    (s : System)
    → s.next_pid < proc_max_count
    → (o : Option ℕ) × (s' : System) × (proc_getid s ≡ done (o, s'))
      × IsPick s o
      × IsAfterPick s o s'
unfolding proc_getid
getid_lem s h =
    let none_yet : (j : ℕ) → j < 0 → is_used s ((s.next_pid + j) % proc_max_count) ≡ true =
      λ j m. absurd (omega arith) in
    let r = getid_from_lem proc_max_count 0 s h (omega arith) (omega arith) none_yet in
    let same : (s.next_pid + 0) % proc_max_count ≡ s.next_pid = first s.next_pid h in
    let run : getid_from proc_max_count s.next_pid s ≡ done r.0 =
      subst (λ m. getid_from proc_max_count m s ≡ done r.0) same r.1 in
    (r.0, pid_taken r.0 s, rw run, r.2, pid_taken-IsAfterPick s r.0 r.2)
