-- ===== src/Names/Tokens.antt =====
-- `namev_tokenize` of weenix.assign2/kernel/fs/namev.c: each token shortens what is left.
use usc_homeworks.Base.{
  ℕ, suc, ◌+◌, ◌≡◌, ◌<◌, ◌≤◌, true, Option, none, some, [], ◌∷◌, ◌++◌, ◌==◌, arith, refl, ap,
  length, Bool-cases, inl, inr, ◌⊎◌,
}
use usc_homeworks.Sched.{is_empty}
use usc_homeworks.Names.{Name, slash, skip_slashes, split_token, namev_tokenize}

-- How much of a path is left: its length and one, and 0 at NULL.
abbrev pub left_over : Option Name → ℕ
left_over none = 0
left_over (some cs) = suc (length cs)

skip_slashes-length : (cs : Name) → length (skip_slashes cs) ≤ length cs
unfolding skip_slashes
skip_slashes-length [] = omega arith
skip_slashes-length (c ∷ cs) = ground (arith, skip_slashes-length cs)

-- A token and what follows it make up the characters.
split_token-append : (cs : Name) → (split_token cs).0 ++ (split_token cs).1 ≡ cs
unfolding split_token
split_token-append [] = refl
split_token-append (c ∷ cs) = elim (Bool-cases (c == slash)) [
  | inl e ↦ rw e
  | inr e ↦ rw e (ap (λ l. c ∷ l) (split_token-append cs))
]

split_token-length : (cs : Name) → length (split_token cs).0 + length (split_token cs).1 ≡ length cs
unfolding split_token
split_token-length [] = refl
split_token-length (c ∷ cs) = ground (arith, split_token-length cs)

-- Of a path, a token that is not empty takes some.
pub tokenize_shortens :
    (save : Option Name)
    → (is_empty (namev_tokenize save).0 ≡ true)
      ⊎ (left_over (namev_tokenize save).1 < left_over save)
unfolding namev_tokenize
tokenize_shortens none = inl refl
tokenize_shortens (some cs) = go (split_token (skip_slashes cs)).0 refl
  where
    t : Name
    t = (split_token (skip_slashes cs)).0

    rest : Name
    rest = (split_token (skip_slashes cs)).1

    go :
        (x : Name)
        → t ≡ x
        → (is_empty (namev_tokenize (some cs)).0 ≡ true)
          ⊎ (left_over (namev_tokenize (some cs)).1 < suc (length cs))
    go [] e = inl (ground arith)
    go (x ∷ xs) e =
        inr (ground (arith, split_token-length (skip_slashes cs), skip_slashes-length cs))

pub tokenize_keeps : (save : Option Name) → left_over (namev_tokenize save).1 ≤ left_over save
unfolding namev_tokenize
tokenize_keeps none = omega arith
tokenize_keeps (some cs) =
    ground (arith, split_token-length (skip_slashes cs), skip_slashes-length cs)
