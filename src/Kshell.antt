-- ===== src/Kshell.antt =====
-- The tokenizer of weenix.assign2/kernel/test/kshell/tokenizer.c. A line is the list of its characters
-- before its end, and a pointer into it is an index.
pub mod Tokens
pub mod Examples
use usc_homeworks.Base.{
  ℕ, zero, suc, ◌+◌, Bool, true, false, not, ◌&&◌, ◌||◌, List, [], ◌∷◌, ◌==◌, if◌then◌else◌,
}

-- `kshell_token_type_t`
pub data TokenType : Type 0 where
  ktt_word ktt_redirect_in ktt_redirect_out ktt_redirect_out_append ktt_eol : TokenType

-- `kshell_token_t`
pub record Token : Type 0 where
  pub kt_type : TokenType
  pub kt_text : ℕ
  pub kt_textlen : ℕ

-- `'<'` and `'>'`
abbrev pub less : ℕ
less = 60

abbrev pub greater : ℕ
greater = 62

-- `isspace` of include/ctype.h, on the code of a character as an unsigned byte.
unfoldable pub isspace : ℕ → Bool
isspace c =
    (c == 32)
    || ((c == 9) || ((c == 10) || ((c == 11) || ((c == 12) || ((c == 13) || (c == 160))))))

-- How many characters the first loop skips, and the rest of the line.
unfoldable pub skip_space : List ℕ → ℕ × List ℕ
skip_space [] = (0, [])
skip_space (c ∷ cs) =
    let (n, rest) = skip_space cs in if isspace c then (n + 1, rest) else (0, c ∷ cs)

-- The number of characters of the word at the start of a line.
unfoldable pub word_length : List ℕ → ℕ
word_length [] = 0
word_length (c ∷ cs) =
    let n = word_length cs in
    if isspace c then 0 else if c == less then 0 else if c == greater then 0 else n + 1

abbrev pub starts_greater : List ℕ → Bool
starts_greater [] = false
starts_greater (c ∷ cs) = c == greater

-- The token after `i` characters were skipped, and what is returned.
unfoldable pub token_at : ℕ → List ℕ → Token × ℕ
token_at i [] = (record { kt_type = ktt_eol; kt_text = i; kt_textlen = 0 }, 0)
token_at i (c ∷ cs) =
    if c == less
    then (record { kt_type = ktt_redirect_in; kt_text = i; kt_textlen = 1 }, 1)
    else if c == greater
    then (if starts_greater cs
        then (record { kt_type = ktt_redirect_out_append; kt_text = i; kt_textlen = 2 }, 2)
        else (record { kt_type = ktt_redirect_out; kt_text = i; kt_textlen = 1 }, 1))
    else (
      record { kt_type = ktt_word; kt_text = i; kt_textlen = word_length (c ∷ cs) },
      i + word_length (c ∷ cs),
    )

unfoldable pub kshell_next_token : List ℕ → Token × ℕ
kshell_next_token line = token_at (skip_space line).0 (skip_space line).1
