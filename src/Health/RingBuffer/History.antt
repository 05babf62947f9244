-- ===== src/Health/RingBuffer/History.antt =====
-- The RingBuffer of internal/health/history.go keeps the last results, in order.
use elnssm.Common.{
  ℕ, zero, suc, ◌+◌, ◌-◌, ◌%◌, ◌≤◌, ◌<◌, List, [], ◌∷◌, ◌++◌, some, Bool, true, false, ◌==◌, set,
  take, drop, length, length-set, length-append, length-take, length-drop, length-replicate,
  get_elem?, ◌≡◌, ◌⊎◌, inl, inr, refl, ap, sym, ◌∙◌, arith, if◌then◌else◌, Bool-cases,
}
use mathlib.Core.List.{append_assoc, append-nil}
use elnssm.Health.RingBuffer.Defs.{RingBuffer, new_ring_buffer, add, get_all, latest}

pub record IsValid {ℓ} {A : Type ℓ} (rb : RingBuffer A) : Type 0 where
  pub sized : length rb.results ≡ rb.size
  pub inside : rb.pos < rb.size

suc-ne-zero : (n : ℕ) → (suc n == 0) ≡ false
suc-ne-zero n = ground arith

module _ {ℓ} {A : Type ℓ} where
  pub new_ring_buffer-IsValid : (a : A) (n : ℕ) → 0 < n → IsValid (new_ring_buffer a n)
  unfolding new_ring_buffer
  new_ring_buffer-IsValid a n h = record { sized = length-replicate n a; inside = h }

  pub add-IsValid : (rb : RingBuffer A) (r : A) → IsValid rb → IsValid (add rb r)
  unfolding add
  add-IsValid rb r v = record {
    sized = length-set rb.results rb.pos r ∙ v.sized;
    inside = grind (arith, v.inside);
  }

  take-set_end :
      (xs : List A) (i : ℕ) (r : A)
      → i < length xs
      → take (suc i) (set xs i r) ≡ take i xs ++ r ∷ []
  take-set_end [] i r h = elim h [ ]
  take-set_end (x ∷ xs) zero r h = refl
  take-set_end (x ∷ xs) (suc i) r h = ap (λ l. x ∷ l) (take-set_end xs i r (omega arith))

  drop-set_end : (xs : List A) (i : ℕ) (r : A) → drop (suc i) (set xs i r) ≡ drop (suc i) xs
  drop-set_end [] i r = refl
  drop-set_end (x ∷ xs) zero r = refl
  drop-set_end (x ∷ xs) (suc i) r = drop-set_end xs i r

  drop_one : (xs : List A) (i : ℕ) → drop 1 (drop i xs) ≡ drop (suc i) xs
  drop_one [] zero = refl
  drop_one (x ∷ xs) zero = refl
  drop_one [] (suc i) = refl
  drop_one (x ∷ xs) (suc i) = drop_one xs i

  take_all : (xs : List A) (n : ℕ) → length xs ≤ n → take n xs ≡ xs
  take_all [] zero h = refl
  take_all [] (suc n) h = refl
  take_all (x ∷ xs) zero h = absurd (omega arith)
  take_all (x ∷ xs) (suc n) h = ap (λ l. x ∷ l) (take_all xs n (omega arith))

  drop_all : (xs : List A) (n : ℕ) → length xs ≤ n → drop n xs ≡ []
  drop_all [] zero h = refl
  drop_all [] (suc n) h = refl
  drop_all (x ∷ xs) zero h = absurd (omega arith)
  drop_all (x ∷ xs) (suc n) h = drop_all xs n (omega arith)

  get_elem?-set : (xs : List A) (i : ℕ) (r : A) → i < length xs → get_elem? (set xs i r) i ≡ some r
  get_elem?-set [] i r h = elim h [ ]
  get_elem?-set (x ∷ xs) zero r h = refl
  get_elem?-set (x ∷ xs) (suc i) r h = get_elem?-set xs i r (omega arith)

  drop_one-append : (xs ys : List A) → 0 < length xs → drop 1 (xs ++ ys) ≡ drop 1 xs ++ ys
  drop_one-append [] ys h = elim h [ ]
  drop_one-append (x ∷ xs) ys h = refl

  module _ (rb : RingBuffer A) (r : A) (v : IsValid rb) where
    -- Where the next position is: behind this one, or at the start again.
    next_pos :
        (suc rb.pos < rb.size) × ((rb.pos + 1) % rb.size ≡ suc rb.pos)
        ⊎ (suc rb.pos ≡ rb.size) × ((rb.pos + 1) % rb.size ≡ 0)
    next_pos = grind (arith, v.inside)

    written_before : take (suc rb.pos) (set rb.results rb.pos r) ≡ take rb.pos rb.results ++ r ∷ []
    written_before = take-set_end rb.results rb.pos r (omega (arith, v.inside, v.sized))

    written_all : suc rb.pos ≡ rb.size → set rb.results rb.pos r ≡ take rb.pos rb.results ++ r ∷ []
    written_all e =
        sym (
          take_all (set rb.results rb.pos r) (suc rb.pos)
            (omega (arith, v.sized, length-set rb.results rb.pos r)))
        ∙ written_before

    oldest_dropped :
        drop 1 (drop rb.pos rb.results ++ take rb.pos rb.results)
        ≡ drop (suc rb.pos) rb.results ++ take rb.pos rb.results
    oldest_dropped =
        drop_one-append (drop rb.pos rb.results) (take rb.pos rb.results)
          (omega (arith, length-drop {ℓ} rb.pos rb.results, v.inside, v.sized))
        ∙ ap (λ l. l ++ take rb.pos rb.results) (drop_one rb.results rb.pos)

    -- The result that was added last is the latest.
    pub latest-add : latest (add rb r) ≡ some r
    unfolding add latest
    latest-add = elim next_pos [
      | inl (h, e) ↦
          ground (arith, e, get_elem?-set rb.results rb.pos r (omega (arith, v.inside, v.sized)))
      | inr (h, e) ↦
          ground (arith, e, get_elem?-set rb.results rb.pos r (omega (arith, v.inside, v.sized)))
    ]

    -- Adding appends the result to the history, and drops the oldest one from a full buffer.
    pub get_all-add :
        get_all (add rb r) ≡ (if rb.full then drop 1 (get_all rb) else get_all rb) ++ r ∷ []
    unfolding add get_all
    get_all-add = elim next_pos [
      | inl (h, e) ↦ elim (Bool-cases rb.full) [
        | inl f ↦
            simp
              (e, f, suc-ne-zero rb.pos, written_before, drop-set_end, oldest_dropped, append_assoc)
        | inr f ↦ simp (e, f, suc-ne-zero rb.pos, written_before)
      ]
      | inr (h, e) ↦ elim (Bool-cases rb.full) [
        | inl f ↦ simp (
          e,
          f,
          written_all h,
          oldest_dropped,
          drop_all rb.results (suc rb.pos) (omega (arith, v.sized)),
          append-nil,
        )
        | inr f ↦ simp (e, f, written_all h, append-nil)
      ]
    ]

  -- The last `n` elements.
  abbrev pub keep_last : ℕ → List A → List A
  keep_last n xs = drop (length xs - n) xs

  abbrev pub add_all : RingBuffer A → List A → RingBuffer A
  add_all rb [] = rb
  add_all rb (r ∷ rs) = add_all (add rb r) rs

  drop-append : (k : ℕ) (xs ys : List A) → k ≤ length xs → drop k xs ++ ys ≡ drop k (xs ++ ys)
  drop-append zero xs ys h = refl
  drop-append (suc k) [] ys h = elim h [ ]
  drop-append (suc k) (x ∷ xs) ys h = drop-append k xs ys (omega arith)

  drop_nil : (n : ℕ) → drop {A = A} n [] ≡ []
  drop_nil zero = refl
  drop_nil (suc n) = refl

  drop-drop : (m k n : ℕ) (xs : List A) → k + m ≡ n → drop m (drop k xs) ≡ drop n xs
  drop-drop m zero n xs e = ap (λ i. drop i xs) (omega arith)
  drop-drop m (suc k) n [] e = drop_nil m ∙ sym (drop_nil n)
  drop-drop m (suc k) zero (x ∷ xs) e = absurd (omega arith)
  drop-drop m (suc k) (suc n) (x ∷ xs) e = drop-drop m k n xs (omega arith)

  length-get_all :
      (rb : RingBuffer A) → IsValid rb → length (get_all rb) ≡ (if rb.full then rb.size else rb.pos)
  unfolding get_all
  length-get_all rb v = ground (
    arith,
    length-append (drop rb.pos rb.results) (take rb.pos rb.results),
    length-drop {ℓ} rb.pos rb.results,
    length-take {ℓ} rb.pos rb.results,
  )

  keep_last-keep_last :
      (n : ℕ) (xs ys : List A) → keep_last n (keep_last n xs ++ ys) ≡ keep_last n (xs ++ ys)
  keep_last-keep_last n xs ys = rw (drop-append (length xs - n) xs ys (omega arith)) (
      drop-drop _ (length xs - n) (length (xs ++ ys) - n) (xs ++ ys)
        (omega (arith, length-drop {ℓ} (length xs - n) (xs ++ ys), length-append xs ys)))

  surplus :
      (rb : RingBuffer A) (r : A)
      → IsValid rb
      → length (get_all rb ++ r ∷ []) - rb.size ≡ (if rb.full then 1 else 0)
  surplus rb r v = ground (arith, length-get_all rb v, length-append (get_all rb) (r ∷ []))

  get_all-add_keeps :
      (rb : RingBuffer A) (r : A)
      → IsValid rb
      → get_all (add rb r) ≡ keep_last rb.size (get_all rb ++ r ∷ [])
  get_all-add_keeps rb r v = get_all-add rb r v ∙ sym (rw (surplus rb r v) (by_full rb.full refl))
    where
      by_full :
          (f : Bool)
          → rb.full ≡ f
          → drop (if f then 1 else 0) (get_all rb ++ r ∷ [])
            ≡ (if f then drop 1 (get_all rb) else get_all rb) ++ r ∷ []
      by_full true e =
          let some_old : 1 ≤ length (get_all rb) = ground (arith, length-get_all rb v, v.inside) in
          sym (drop-append 1 (get_all rb) (r ∷ []) some_old)
      by_full false e = refl

  get_all-add_all_from :
      (rb : RingBuffer A) (rs : List A)
      → IsValid rb
      → get_all (add_all rb rs) ≡ keep_last rb.size (get_all rb ++ rs)
  unfolding add
  get_all-add_all_from rb [] v =
      let fits : length (get_all rb) - rb.size ≡ 0 =
        ground (arith, length-get_all rb v, v.inside) in
      rw append-nil (rw fits)
  get_all-add_all_from rb (r ∷ rs) v =
      get_all-add_all_from (add rb r) rs (add-IsValid rb r v)
      ∙ ap (λ l. keep_last rb.size (l ++ rs)) (get_all-add_keeps rb r v)
      ∙ keep_last-keep_last rb.size (get_all rb ++ r ∷ []) rs
      ∙ ap (keep_last rb.size) (append_assoc (get_all rb) (r ∷ []) rs)

  -- A new buffer of a positive size, after any list of results has been added one by one, holds the
  -- last `size` of them in the order in which they were added (all, if there are no more than that).
  pub get_all-add_all :
      (zero_value : A) (size : ℕ) (rs : List A)
      → 0 < size
      → get_all (add_all (new_ring_buffer zero_value size) rs) ≡ keep_last size rs
  unfolding new_ring_buffer get_all
  get_all-add_all zero_value size rs h =
      get_all-add_all_from (unfold new_ring_buffer in new_ring_buffer zero_value size) rs
        (new_ring_buffer-IsValid zero_value size h)
