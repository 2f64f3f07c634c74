-- ===== src/NTty/Line.antt =====
-- What typing at a terminal of weenix.assign2/kernel/drivers/tty/n_tty.c means: lists of characters,
-- with no buffer behind them.
use usc_homeworks.Base.{
  ℕ, zero, suc, ◌+◌, ◌≡◌, Bool, true, false, ◌||◌, List, [], ◌∷◌, ◌++◌, ◌==◌, if◌then◌else◌, length,
  refl, ap,
}
use usc_homeworks.Sched.{is_empty}
use usc_homeworks.NTty.{NTtyState, bs, del, esc, lf, cr, space, eot, caret}
use usc_homeworks.NTty.Ring.{cooked, raw}

-- The characters that can be read, and those of the line that is being typed.
pub record Line : Type 0 where
  pub ready : List ℕ
  pub typed : List ℕ

abbrev pub held : Line → ℕ
held l = length l.ready + length l.typed

abbrev pub is_erase : ℕ → Bool
is_erase c = (c == bs) || (c == del)

abbrev pub is_newline : ℕ → Bool
is_newline c = (c == cr) || (c == lf)

-- A character that is put on the line and leaves it open.
abbrev pub is_plain : ℕ → Bool
is_plain c =
    if is_erase c then false else if is_newline c then false else if c == eot then false else true

abbrev pub drop_last : List ℕ → List ℕ
drop_last [] = []
drop_last (x ∷ []) = []
drop_last (x ∷ y ∷ ys) = x ∷ drop_last (y ∷ ys)

-- What a character on the line shows as: an escape as a caret, and the character 0 not at all.
abbrev pub typed_echo : ℕ → List ℕ
typed_echo c = if c == esc then caret ∷ [] else if c == 0 then [] else c ∷ []

-- One character is typed: what is echoed, whether a reader is woken, and the line then. 126
-- characters leave room for a newline only, and 127 for nothing.
unfoldable pub type_char : ℕ → Line → List ℕ × Bool × Line
type_char c l =
    if is_erase c
    then (if is_empty l.typed
        then ([], false, l)
        else (bs ∷ space ∷ bs ∷ [], false, record l { typed = drop_last l.typed }))
    else if is_newline c
    then (if held l == 127
        then ([], false, l)
        else (cr ∷ lf ∷ [], true, record { ready = l.ready ++ l.typed ++ lf ∷ []; typed = [] }))
    else if c == eot
    then ([], true, record { ready = l.ready ++ l.typed; typed = [] })
    else if held l == 126
    then ([], false, l)
    else (typed_echo c, false, record l { typed = l.typed ++ c ∷ [] })

-- The characters that one read of at most `k` takes: up to a newline.
unfoldable pub first_line : ℕ → List ℕ → List ℕ
first_line zero cs = []
first_line (suc k) [] = []
first_line (suc k) (c ∷ cs) = if c == lf then c ∷ [] else c ∷ first_line k cs

-- The line that a buffer holds.
abbrev pub view : NTtyState → Line
view n = record { ready = cooked n; typed = raw n }

pub drop_last-snoc : (cs : List ℕ) (c : ℕ) → drop_last (cs ++ c ∷ []) ≡ cs
drop_last-snoc [] c = refl
drop_last-snoc (x ∷ []) c = refl
drop_last-snoc (x ∷ y ∷ ys) c = ap (λ l. x ∷ l) (drop_last-snoc (y ∷ ys) c)

pub is_empty-snoc : (cs : List ℕ) (c : ℕ) → is_empty (cs ++ c ∷ []) ≡ false
is_empty-snoc [] c = refl
is_empty-snoc (x ∷ xs) c = refl
