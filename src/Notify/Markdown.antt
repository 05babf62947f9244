-- ===== src/Notify/Markdown.antt =====
-- internal/notify/telegram.go: escapeMarkdown. A character is told by its number: 95 is _, 42 is *,
-- 91 is [, 96 is a backtick and 92 the backslash.
use mathlib.Core.Path.{fun_ext}
use elnssm.Common.{
  ◌∙◌, ℕ, ◌==◌, Bool, true, false, ◌&&◌, ◌||◌, ◌≡◌, refl, ap, inl, inr, Bool-cases, arith,
  if◌then◌else◌,
}
use Prim.Native.String.{String, [], ◌∷◌}
use Prim.Native.Char.{Char, code}

abbrev pub backslash : Char
backslash = "\\"

-- One round of the loop: a backslash before each such character.
unfoldable pub escape_char : (ℕ → Bool) → String → String
escape_char special [] = []
escape_char special (c ∷ s) =
    let rest = escape_char special s in
    if special (code c) then backslash ∷ (c ∷ rest) else c ∷ rest

unfoldable pub escape_markdown : String → String
unfolding escape_char
escape_markdown s =
    escape_char (λ n. n == 96)
      (escape_char (λ n. n == 91) (escape_char (λ n. n == 42) (escape_char (λ n. n == 95) s)))

-- A backslash before each of the four characters, in one reading.
abbrev pub is_markdown : ℕ → Bool
is_markdown n = (n == 95) || ((n == 42) || ((n == 91) || (n == 96)))

behind_backslash :
    (q : ℕ → Bool) (t : String)
    → q 92 ≡ false
    → escape_char q (backslash ∷ t) ≡ backslash ∷ escape_char q t
unfolding escape_char
behind_backslash q t b = rw b refl

escape_kept :
    (q : ℕ → Bool) (c : Char) (t : String)
    → q (code c) ≡ false
    → escape_char q (c ∷ t) ≡ c ∷ escape_char q t
unfolding escape_char
escape_kept q c t e = rw e refl

disjoint : (a b : Bool) → a && b ≡ false → a ≡ true → b ≡ false
disjoint a b h e = ground (arith, h, e)

-- Where no character is of both kinds, and the backslash not of the second, two readings are one.
escape_twice :
    (p q : ℕ → Bool) (s : String)
    → q 92 ≡ false
    → ((n : ℕ) → p n && q n ≡ false)
    → escape_char q (escape_char p s) ≡ escape_char (λ n. p n || q n) s
unfolding escape_char
escape_twice p q [] b d = refl
escape_twice p q (c ∷ s) b d =
    let ih = escape_twice p q s b d in
    elim (Bool-cases (p (code c))) [
      | inl e ↦
          let other = disjoint (p (code c)) (q (code c)) (d (code c)) e in
          rw e (
            behind_backslash q (c ∷ escape_char p s) b
            ∙ ap (λ t. backslash ∷ t) (escape_kept q c (escape_char p s) other)
            ∙ ap (λ t. backslash ∷ (c ∷ t)) ih)
      | inr e ↦ elim (Bool-cases (q (code c))) [
        | inl f ↦ rw (e, f) (ap (λ t. backslash ∷ (c ∷ t)) ih)
        | inr f ↦ rw (e, f) (ap (λ t. c ∷ t) ih)
      ]
    ]

-- The four readings of escapeMarkdown, one for each character, do what one reading would: a
-- backslash stands before each of the four characters, and none is put before a backslash.
pub escape_markdown_once : (s : String) → escape_markdown s ≡ escape_char is_markdown s
unfolding escape_markdown
escape_markdown_once s =
    let first = escape_twice (λ n. n == 95) (λ n. n == 42) s refl (λ n. ground arith) in
    let second =
      escape_twice (λ n. (n == 95) || (n == 42)) (λ n. n == 91) s refl (λ n. ground arith) in
    let third =
      escape_twice (λ n. ((n == 95) || (n == 42)) || (n == 91)) (λ n. n == 96) s refl
        (λ n. ground arith) in
    let regroup : (λ n. (((n == 95) || (n == 42)) || (n == 91)) || (n == 96)) ≡ is_markdown =
      fun_ext (λ n. ground arith) in
    ap (λ t. escape_char (λ n. n == 96) (escape_char (λ n. n == 91) t)) first
    ∙ ap (escape_char (λ n. n == 96)) second
    ∙ third
    ∙ ap (λ p. escape_char p s) regroup
