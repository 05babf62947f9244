-- ===== src/Examples/Go.antt =====
-- Functions that do what the models of the configuration and the schedules rely on: texts for
-- durations and sizes, an encryption, and a table of cron entries.
use elnssm.Common.{
  ℕ, zero, suc, ◌+◌, ◌-◌, ◌*◌, ◌/◌, ◌%◌, ltb, ◌==◌, ℤ, pos, negsuc, String, str_eq, List, [], ◌∷◌,
  ◌++◌, length, get_elem?, set, Option, none, some, false, not, ◌≡◌, ◌≢◌, refl, ap, sym, subst, inl,
  inr, Bool-cases, ◌∙◌, arith, if◌then◌else◌,
}
use Prim.Native.String as Text
use Prim.Native.String.{len, slice}
use text.Mathlib.TextPositions.{len-append, slice-append_right}
use elnssm.Model.{Float64}
use elnssm.Config.Texts.{Texts}
use elnssm.Config.Go.{IsGo}
use elnssm.Config.Secrets.{Dpapi}
use elnssm.Config.Encryption.{IsDpapi}
use elnssm.Scheduler.Defs.{Job, Cron, IsCron}

-- A number as a text of that length and one more.
unfoldable pub strokes : ℕ → String
strokes zero = "I"
strokes (suc n) = Text.◌++◌ "I" (strokes n)

len-strokes : (n : ℕ) → len (strokes n) ≡ suc n
unfolding strokes
len-strokes zero = refl
len-strokes (suc n) = omega (arith, len-append "I" (strokes n), len-strokes n)

abbrev twice : ℤ → ℕ
twice (pos n) = 2 * n
twice (negsuc n) = 2 * n + 1

abbrev half : ℕ → ℤ
half n = if n % 2 == 0 then pos (n / 2) else negsuc (n / 2)

half-twice : (d : ℤ) → half (twice d) ≡ d
half-twice (pos n) = ground arith
half-twice (negsuc n) = ground arith

abbrev magnitude : ℤ → ℕ
magnitude (pos n) = n
magnitude (negsuc n) = 0

abbrev as_float : ℕ → Float64
as_float b = record { bits = b }

abbrev pub texts : Texts
texts = record {
  parse_duration = λ s. some (half (len s - 1));
  duration_string = λ d. strokes (twice d);
  parse_float = λ s. some (record { bits = len s - 1 });
  to_bytes = λ x unit. pos x.bits;
  ratio = λ b unit. record { bits = magnitude b };
  fixed = λ n x. strokes x.bits;
  decimal = λ b. strokes (magnitude b);
  trim_space = λ s. s;
  to_upper = λ s. s;
  positive = λ x. ltb 0 x.bits;
}

length_of : (n : ℕ) → len (strokes n) - 1 ≡ n
length_of n = omega (arith, len-strokes n)

strokes-some : (n : ℕ) → strokes n ≢ ""
strokes-some n e = absurd (omega (arith, len-strokes n, ap len e))

pub texts-IsGo : IsGo texts
texts-IsGo = record {
  parse_string = λ d. ap (λ n. some (half n)) (length_of (twice d)) ∙ ap some (half-twice d);
  string_some = λ d. strokes-some (twice d);
  trim_decimal = λ n b unit c. refl;
  trim_unit = λ n b unit u c h. refl;
  upper_unit = λ n b unit u c h. refl;
  reread = λ n x. x;
  parse_fixed = λ n b unit c. ap (λ (m : ℕ). some (as_float m)) (length_of (magnitude b));
  whole = λ n k unit c l. refl;
}

abbrev pub dpapi : Dpapi
dpapi = record {
  encrypt = λ plain. some (Text.◌++◌ "*" plain);
  decrypt = λ x. some (slice x 1 (len x));
}

injected : {A : Type 0} {x y : A} → ◌≡◌ {A = Option A} (some x) (some y) → x ≡ y
injected {A} {x} {y} e = cc

starred : (plain : String) → Text.◌++◌ "*" plain ≢ ""
starred plain e = absurd (omega (arith, len-append "*" plain, ap len e))

unstarred : (plain : String) → slice (Text.◌++◌ "*" plain) 1 (len (Text.◌++◌ "*" plain)) ≡ plain
unstarred plain = rw (len-append "*" plain) (slice-append_right "*" plain)

abbrev joined : Option (Option Job) → Option Job
joined none = none
joined (some o) = o

abbrev pub cron : Cron
cron = record {
  State = List (Option Job);
  add_func = λ c spec j. if str_eq spec "" then none else some (length c, c ++ some j ∷ []);
  remove = λ c i. set c i none;
  job = λ c i. joined (get_elem? c i);
  parses = λ spec. not (str_eq spec "");
}

get_elem-past : (c : List (Option Job)) → get_elem? c (length c) ≡ none
get_elem-past [] = refl
get_elem-past (x ∷ c) = get_elem-past c

get_elem-snoc :
    (c : List (Option Job)) (o : Option Job) (n : ℕ)
    → get_elem? (c ++ o ∷ []) n ≡ (if length c == n then some o else get_elem? c n)
get_elem-snoc [] o zero = ground arith
get_elem-snoc [] o (suc n) = ground arith
get_elem-snoc (x ∷ c) o zero = ground arith
get_elem-snoc (x ∷ c) o (suc n) = ground (arith, get_elem-snoc c o n)

get_elem-set :
    (c : List (Option Job)) (i n : ℕ)
    → joined (get_elem? (set c i none) n) ≡ (if i == n then none else joined (get_elem? c n))
get_elem-set [] i n = ground arith
get_elem-set (x ∷ c) zero zero = ground arith
get_elem-set (x ∷ c) zero (suc n) = ground arith
get_elem-set (x ∷ c) (suc i) zero = ground arith
get_elem-set (x ∷ c) (suc i) (suc n) = ground (arith, get_elem-set c i n)

encrypted : (plain x : String) → dpapi.encrypt plain ≡ some x → x ≢ ""
encrypted plain x e z = starred plain (injected (e ∙ ap some z))

decrypted : (plain x : String) → dpapi.encrypt plain ≡ some x → dpapi.decrypt x ≡ some plain
decrypted plain x e =
    subst (λ t. dpapi.decrypt t ≡ some plain) (injected e) (ap some (unstarred plain))

refused_lem :
    (c : List (Option Job)) (spec : String) (j : Job)
    → (cron.add_func c spec j ≡ none → cron.parses spec ≡ false)
      × (cron.parses spec ≡ false → cron.add_func c spec j ≡ none)
refused_lem c spec j = elim (Bool-cases (str_eq spec "")) [
  | inl h ↦ (λ e. rw h refl, λ e. rw h refl)
  | inr h ↦ (λ e. absurd (ground (arith, h, e)), λ e. absurd (ground (arith, h, e)))
]

added_lem :
    (c c' : List (Option Job)) (spec : String) (j : Job) (i : ℕ)
    → cron.add_func c spec j ≡ some (i, c')
    → (cron.job c i ≡ none) × ((n : ℕ) → cron.job c' n ≡ (if i == n then some j else cron.job c n))
added_lem c c' spec j i e = elim (Bool-cases (str_eq spec "")) [
  | inl h ↦ absurd (ground (arith, h, e))
  | inr h ↦
      let at : length c ≡ i = ground (arith, h, e) in
      let is : c ++ some j ∷ [] ≡ c' = ground (arith, h, e) in
      (
        ap joined (sym (ap (get_elem? c) at) ∙ get_elem-past c),
        λ n.
            sym (ap (λ t. joined (get_elem? t n)) is)
            ∙ ap joined (get_elem-snoc c (some j) n)
            ∙ ground (arith, at),
      )
]

pub dpapi-IsDpapi : IsDpapi dpapi
dpapi-IsDpapi = record {
  encrypt_some = λ plain x n e. encrypted plain x e;
  decrypt-encrypt = λ plain x e. decrypted plain x e;
}

pub cron-IsCron : IsCron cron
cron-IsCron = record {
  added = λ c c' spec j i e. added_lem c c' spec j i e;
  refused = λ c spec j. refused_lem c spec j;
  removed = λ c i n. get_elem-set c i n;
}
