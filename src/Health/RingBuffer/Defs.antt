-- ===== src/Health/RingBuffer/Defs.antt =====
-- internal/health/history.go: the RingBuffer and its methods. Add on a buffer of size 0 panics in
-- Go (an index out of range); the model's buffers have a positive size where that matters.
use elnssm.Common.{
  ℕ, ◌+◌, ◌-◌, ◌%◌, List, ◌++◌, Option, none, Bool, true, false, not, ◌&&◌, ◌==◌, set, take, drop,
  get_elem?, replicate, if◌then◌else◌,
}

pub record RingBuffer {ℓ} (A : Type ℓ) : Type ℓ where
  pub results : List A
  pub size : ℕ
  pub pos : ℕ
  pub full : Bool

module _ {ℓ} {A : Type ℓ} where
  -- `zero` is Go's zero value of the results.
  unfoldable pub new_ring_buffer : A → ℕ → RingBuffer A
  new_ring_buffer zero_value size = record {
    results = replicate size zero_value;
    size = size;
    pos = 0;
    full = false;
  }

  unfoldable pub add : RingBuffer A → A → RingBuffer A
  add rb r =
      let pos' = (rb.pos + 1) % rb.size in
      record {
        results = set rb.results rb.pos r;
        size = rb.size;
        pos = pos';
        full = if pos' == 0 then true else rb.full;
      }

  unfoldable pub get_all : RingBuffer A → List A
  get_all rb =
      if not rb.full
      then take rb.pos rb.results
      else drop rb.pos rb.results ++ take rb.pos rb.results

  unfoldable pub latest : RingBuffer A → Option A
  latest rb =
      if rb.pos == 0 && not rb.full
      then none
      else get_elem? rb.results (if rb.pos == 0 then rb.size - 1 else rb.pos - 1)
