-- ===== src/Strings/Compare.antt =====
-- What the comparisons of weenix.assign2/kernel/util/string.c say of the strings that memory holds.
use usc_homeworks.Base.{
  ℕ, zero, suc, ◌+◌, ◌<◌, ◌≡◌, ◌≢◌, ◌↔◌, false, ◌==◌, List, [], ◌∷◌, length, take, done, arith,
  refl, sym, ◌∙◌, ==_ne, ==_iff, Bool-cases, inl, inr,
}
use usc_homeworks.Strings.{Bytes, char_diff, strcmp, strncmp}

-- The string stands at the address, closed by a zero.
unfoldable pub IsString : Bytes → ℕ → List ℕ → Type 0
IsString m a [] = m a ≡ 0
IsString m a (c ∷ cs) = (m a ≡ c) × (0 < c) × (c < 256) × IsString m (a + 1) cs

differs : (c d : ℕ) → c < 256 → d < 256 → c ≢ d → char_diff c d ≢ 0
differs c d h k ne e = ne (omega arith)

same_char : (c : ℕ) → char_diff c c ≡ 0
same_char c = omega arith

-- One round, at characters that differ, at the end of both strings, and at characters that agree.
module _ (k : ℕ) (m : Bytes) (cs ct : ℕ) where
  strcmp-differ :
      char_diff (m cs) (m ct) ≢ 0 → strcmp (suc k) m cs ct ≡ done (char_diff (m cs) (m ct))
  unfolding strcmp
  strcmp-differ ne =
      let test : (char_diff (m cs) (m ct) == 0) ≡ false = ==_ne (char_diff (m cs) (m ct)) 0 ne in
      rw test refl

  strcmp-agree :
      char_diff (m cs) (m ct) ≡ 0 → 0 < m cs → strcmp (suc k) m cs ct ≡ strcmp k m (cs + 1) (ct + 1)
  unfolding strcmp
  strcmp-agree e h =
      let test : (m cs == 0) ≡ false = ==_ne (m cs) 0 (λ z. absurd (omega arith)) in
      rw (e, test) refl

  strncmp-differ : char_diff (m cs) (m ct) ≢ 0 → strncmp (suc k) m cs ct ≡ char_diff (m cs) (m ct)
  unfolding strncmp
  strncmp-differ ne =
      let test : (char_diff (m cs) (m ct) == 0) ≡ false = ==_ne (char_diff (m cs) (m ct)) 0 ne in
      rw test refl

  strncmp-agree :
      char_diff (m cs) (m ct) ≡ 0
      → 0 < m cs
      → strncmp (suc k) m cs ct ≡ strncmp k m (cs + 1) (ct + 1)
  unfolding strncmp
  strncmp-agree e h =
      let test : (m cs == 0) ≡ false = ==_ne (m cs) 0 (λ z. absurd (omega arith)) in
      rw (e, test) refl

-- `strcmp` of two strings returns, in as many rounds as the first has characters and one more, and what
-- it returns is 0 exactly when the strings are equal.
pub strcmp_equal :
    (k : ℕ) (m : Bytes) (cs ct : ℕ) (xs ys : List ℕ)
    → length xs < k
    → IsString m cs xs
    → IsString m ct ys
    → (res : ℕ) × (strcmp k m cs ct ≡ done res) × ((res ≡ 0) ↔ (xs ≡ ys))
unfolding strcmp IsString
strcmp_equal zero m cs ct xs ys h p q = absurd (omega arith)
strcmp_equal (suc k) m cs ct [] [] h p q = (0, rw (p, q) refl, ((λ e. refl), (λ e. refl)))
strcmp_equal (suc k) m cs ct [] (y ∷ ys) h p q =
    let ne : char_diff (m cs) (m ct) ≢ 0 =
      rw (p, q.0) (differs 0 y (omega arith) (q.2) (omega arith)) in
    (char_diff (m cs) (m ct), strcmp-differ k m cs ct ne, ((λ e. absurd (ne e)), (λ e. cc (e))))
strcmp_equal (suc k) m cs ct (x ∷ xs) [] h p q =
    let ne : char_diff (m cs) (m ct) ≢ 0 =
      rw (p.0, q) (differs x 0 (p.2) (omega arith) (omega arith)) in
    (char_diff (m cs) (m ct), strcmp-differ k m cs ct ne, ((λ e. absurd (ne e)), (λ e. cc (e))))
strcmp_equal (suc k) m cs ct (x ∷ xs) (y ∷ ys) h p q = elim (Bool-cases (x == y)) [
  | inl test ↦
      let same : x ≡ y = (==_iff x y).0 test in
      let none_yet : char_diff (m cs) (m ct) ≡ 0 = rw (p.0, q.0, same) (same_char y) in
      let r = strcmp_equal k m (cs + 1) (ct + 1) xs ys (omega arith) (p.3) (q.3) in
      (
        r.0,
        strcmp-agree k m cs ct none_yet (rw (p.0) (p.1)) ∙ r.1,
        ((λ e. cc (same, r.2.0 e)), (λ e. r.2.1 (cc (e)))),
      )
  | inr test ↦
      let other : x ≢ y = ground arith in
      let ne : char_diff (m cs) (m ct) ≢ 0 = rw (p.0, q.0) (differs x y (p.2) (q.2) other) in
      (
        char_diff (m cs) (m ct),
        strcmp-differ k m cs ct ne,
        ((λ e. absurd (ne e)), (λ e. absurd (other (cc (e))))),
      )
]

-- `strncmp` of two strings returns 0 exactly when they agree in their first `count` characters.
pub strncmp_equal :
    (count : ℕ) (m : Bytes) (cs ct : ℕ) (xs ys : List ℕ)
    → IsString m cs xs
    → IsString m ct ys
    → (strncmp count m cs ct ≡ 0) ↔ (take count xs ≡ take count ys)
unfolding strncmp IsString
strncmp_equal zero m cs ct xs ys p q = ((λ e. refl), (λ e. refl))
strncmp_equal (suc k) m cs ct [] [] p q = ((λ e. refl), (λ e. rw (p, q) refl))
strncmp_equal (suc k) m cs ct [] (y ∷ ys) p q =
    let ne : char_diff (m cs) (m ct) ≢ 0 =
      rw (p, q.0) (differs 0 y (omega arith) (q.2) (omega arith)) in
    ((λ e. absurd (ne (sym (strncmp-differ k m cs ct ne) ∙ e))), (λ e. cc (e)))
strncmp_equal (suc k) m cs ct (x ∷ xs) [] p q =
    let ne : char_diff (m cs) (m ct) ≢ 0 =
      rw (p.0, q) (differs x 0 (p.2) (omega arith) (omega arith)) in
    ((λ e. absurd (ne (sym (strncmp-differ k m cs ct ne) ∙ e))), (λ e. cc (e)))
strncmp_equal (suc k) m cs ct (x ∷ xs) (y ∷ ys) p q = elim (Bool-cases (x == y)) [
  | inl test ↦
      let same : x ≡ y = (==_iff x y).0 test in
      let none_yet : char_diff (m cs) (m ct) ≡ 0 = rw (p.0, q.0, same) (same_char y) in
      let r = strncmp_equal k m (cs + 1) (ct + 1) xs ys (p.3) (q.3) in
      let step = strncmp-agree k m cs ct none_yet (rw (p.0) (p.1)) in
      ((λ e. cc (same, r.0 (sym step ∙ e))), (λ e. step ∙ r.1 (cc (e))))
  | inr test ↦
      let other : x ≢ y = ground arith in
      let ne : char_diff (m cs) (m ct) ≢ 0 = rw (p.0, q.0) (differs x y (p.2) (q.2) other) in
      ((λ e. absurd (ne (sym (strncmp-differ k m cs ct ne) ∙ e))), (λ e. absurd (other (cc (e)))))
]
