-- ===== src/NTty/Examples.antt =====
-- Runs of weenix.assign2/kernel/drivers/tty/n_tty.c.
use usc_homeworks.Base.{
  ℕ, ◌≡◌, none, List, [], ◌∷◌, ◌++◌, ◌==◌, if◌then◌else◌, arith, refl, Run, done, fault, and_then,
  replicate,
}
use usc_homeworks.Sched.{Kernel, sched_queue_empty}
use usc_homeworks.Sched.Examples.{kernel, kernel-IsConsistent}
use usc_homeworks.Kmutex.Examples.{quiet, free_mutex, free_mutex-IsFair}
use usc_homeworks.NTty.{
  NTtyState, n_tty_receive_char, n_tty_read, returned, ckdbuf_size, rawbuf_size, rawbuf_full,
  rawbuf_almost_full, rawbuf_empty, rawbuf_enqueue, rawbuf_cook, ckdbuf_empty, assert_valid,
  wake_reader,
}
use usc_homeworks.NTty.Ring.{IsValid, cooked, raw, chars}
use usc_homeworks.NTty.Line.{first_line}
use usc_homeworks.NTty.Receive.{IsReceived, receive_char-IsReceived, receive_char_panics}
use usc_homeworks.NTty.Read.{read_returns_line}

-- The line "h" is cooked, and "x" is typed.
abbrev tty : NTtyState
tty = record {
  ntty_rlock = free_mutex;
  ntty_rwaitq = 2;
  ntty_inbuf = λ i. if i == 0 then 104 else if i == 1 then 10 else 120;
  ntty_rhead = 0;
  ntty_rawtail = 3;
  ntty_ckdtail = 2;
}

tty-IsValid : IsValid tty
unfolding rawbuf_size ckdbuf_size
tty-IsValid = record {
  rhead = omega arith;
  rawtail = omega arith;
  ckdtail = omega arith;
  room = omega arith;
}

abbrev blank : NTtyState
blank = record tty { ntty_rawtail = 0; ntty_ckdtail = 0 }

blank-IsValid : IsValid blank
unfolding rawbuf_size ckdbuf_size
blank-IsValid = record {
  rhead = omega arith;
  rawtail = omega arith;
  ckdtail = omega arith;
  room = omega arith;
}

-- 127 characters are cooked.
abbrev jammed : NTtyState
jammed = record tty { ntty_rawtail = 127; ntty_ckdtail = 127 }

jammed-IsValid : IsValid jammed
unfolding rawbuf_size ckdbuf_size
jammed-IsValid = record {
  rhead = omega arith;
  rawtail = omega arith;
  ckdtail = omega arith;
  room = omega arith;
}

-- Characters that are typed one after another.
abbrev type_all : List ℕ → NTtyState → Kernel → Run (NTtyState × Kernel)
type_all [] n s = done (n, s)
type_all (c ∷ cs) n s = and_then (n_tty_receive_char n c s) (λ r. type_all cs r.1 r.2)

-- A line of 126 characters, its newline, and one character more.
long_line_panics : type_all (replicate 126 97 ++ 10 ∷ 98 ∷ []) blank quiet ≡ fault
unfolding n_tty_receive_char rawbuf_full rawbuf_almost_full rawbuf_empty rawbuf_enqueue rawbuf_cook
    assert_valid wake_reader sched_queue_empty
long_line_panics = refl

-- A reader, thread 2, waits on queue 1.
abbrev awaited : NTtyState
awaited = record tty { ntty_rwaitq = 1 }

awaited-IsValid : IsValid awaited
unfolding rawbuf_size ckdbuf_size
awaited-IsValid = record {
  rhead = omega arith;
  rawtail = omega arith;
  ckdtail = omega arith;
  room = omega arith;
}

receive_char-IsReceived_example : IsReceived awaited 13 kernel
unfolding cooked raw rawbuf_size ckdbuf_size chars
receive_char-IsReceived_example =
    receive_char-IsReceived awaited 13 kernel awaited-IsValid kernel-IsConsistent (λ e. cc) refl

receive_char_panics_example : n_tty_receive_char jammed 98 quiet ≡ fault
unfolding cooked raw rawbuf_size ckdbuf_size chars
receive_char_panics_example = receive_char_panics jammed 98 quiet jammed-IsValid refl refl

read_returns_line_example :
    (n' : NTtyState) × (n_tty_read [] 9 tty quiet ≡ done (returned (104 ∷ 10 ∷ []) 2 n' quiet))
    × (104 ∷ 10 ∷ [] ≡ 104 ∷ 10 ∷ cooked n')
    × (raw n' ≡ 120 ∷ [])
    × IsValid n'
    × (n'.ntty_rlock.km_holder ≡ none)
unfolding cooked raw rawbuf_size ckdbuf_size chars first_line ckdbuf_empty
read_returns_line_example =
    read_returns_line [] 9 tty quiet tty-IsValid (refl, (refl, tt)) refl free_mutex-IsFair refl refl
