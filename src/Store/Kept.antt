-- ===== src/Store/Kept.antt =====
-- What the pruning of a history (internal/store/bolt.go) keeps.
use elnssm.Common.{
  ℕ, zero, suc, ◌+◌, ◌⊎◌, List, str_eq_iff, ◌-◌, ◌≤◌, leb, String, [], ◌∷◌, length, take, Option,
  none, is_some, true, false, Dict, lookup, erase, ◌≡◌, refl, ap, inl, inr, Bool-cases, arith,
}
use elnssm.Store.Bolt.{Bolt, IsBolt, has_distinct_keys}
use elnssm.Store.History.{delete_keys, prune_old_entries}

erase-absent : (k : String) (d : Dict String) → is_some (lookup k d) ≡ false → erase k d ≡ d
unfolding lookup erase
erase-absent k [] h = refl
erase-absent k ((j, v) ∷ d) h = ground (arith, h, erase-absent k d)

-- Where each key stands once, at most one entry goes with a key.
length-erase :
    (k : String) (d : Dict String)
    → has_distinct_keys d ≡ true
    → length d ≤ suc (length (erase k d))
unfolding lookup erase
length-erase k [] h = omega arith
length-erase k ((j, v) ∷ d) h =
    ground (arith, h, length-erase k d, erase-absent j d, str_eq_iff j k)

length-delete_keys :
    (bolt : Bolt) (law : IsBolt bolt) (ks : List String) (b : bolt.Bucket)
    → length (bolt.cursor b) ≤ length ks + length (bolt.cursor (delete_keys bolt ks b))
unfolding delete_keys
length-delete_keys bolt law [] b = omega arith
length-delete_keys bolt law (k ∷ ks) b = omega (
  arith,
  length-erase k (bolt.cursor b) (law.cursor_distinct b),
  ap length (law.cursor_delete k b),
  length-delete_keys bolt law ks (bolt.delete k b),
)

-- What is found under a key is what was found there before, or it is gone.
abbrev pub IsLeft : Option String → Option String → Type 0
IsLeft before after = (after ≡ none) ⊎ (after ≡ before)

get-delete_keys :
    (bolt : Bolt) (law : IsBolt bolt) (ks : List String) (key : String) (b : bolt.Bucket)
    → IsLeft (bolt.get key b) (bolt.get key (delete_keys bolt ks b))
unfolding delete_keys
get-delete_keys bolt law [] key b = inr refl
get-delete_keys bolt law (k ∷ ks) key b =
    ground (arith, get-delete_keys bolt law ks key (bolt.delete k b), law.get_delete k key b)

length-take : (n : ℕ) (ks : List String) → length (take n ks) ≤ n
length-take zero ks = omega arith
length-take (suc n) [] = omega arith
length-take (suc n) (k ∷ ks) = omega (arith, length-take n ks)

-- Whatever keys the cursor gives while its bucket changes, pruning changes no value that it leaves, it
-- leaves a bucket of at most `keep` entries as it is, and of a larger one at least `keep` entries.
pub prune_old_entries_keeps :
    (bolt : Bolt) (keep : ℕ) (b : bolt.Bucket)
    → IsBolt bolt
    → ((key : String) → IsLeft (bolt.get key b) (bolt.get key (prune_old_entries bolt keep b)))
      × ((length (bolt.cursor b) ≤ keep) × (prune_old_entries bolt keep b ≡ b)
          ⊎ (keep ≤ length (bolt.cursor (prune_old_entries bolt keep b))))
unfolding prune_old_entries
prune_old_entries_keeps bolt keep b law =
    let n = length (bolt.cursor b) in
    let chosen = take (n - keep) (bolt.walk b) in
    elim (Bool-cases (leb n keep)) [
      | inl few ↦ rw few (λ key. inr refl, inl (ground (arith, few), refl))
      | inr many ↦
          let enough : keep ≤ length (bolt.cursor (delete_keys bolt chosen b)) = ground (
            arith,
            many,
            length-delete_keys bolt law chosen b,
            length-take (n - keep) (bolt.walk b),
          ) in
          rw many (λ key. get-delete_keys bolt law chosen key b, inr enough)
    ]
