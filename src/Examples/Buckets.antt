-- ===== src/Examples/Buckets.antt =====
-- A bucket with three entries, of which two are kept.
use elnssm.Common.{
  ◌⊎◌, ◌≤◌, length, String, str_eq_iff, [], ◌∷◌, true, Dict, lookup, insert, erase, lookup-insert,
  lookup-erase, ◌≡◌, refl, arith,
}
use elnssm.Store.Bolt.{Bolt, IsBolt, keys, has_distinct_keys}
use elnssm.Store.History.{prune_old_entries}
use elnssm.Store.Kept.{IsLeft, prune_old_entries_keeps}

insert_distinct :
    (k v : String) (d : Dict String)
    → has_distinct_keys d ≡ true
    → has_distinct_keys (insert k v d) ≡ true
unfolding lookup insert
insert_distinct k v [] h = refl
insert_distinct k v ((j, w) ∷ d) h =
    ground (arith, h, insert_distinct k v d, lookup-insert k j v d, str_eq_iff j k, str_eq_iff k j)

erase_distinct :
    (k : String) (d : Dict String)
    → has_distinct_keys d ≡ true
    → has_distinct_keys (erase k d) ≡ true
unfolding erase
erase_distinct k [] h = refl
erase_distinct k ((j, w) ∷ d) h = ground (arith, h, erase_distinct k d, lookup-erase k j d)

-- A map with each key once.
abbrev bolt : Bolt
bolt = record {
  Bucket = (d : Dict String) × (has_distinct_keys d ≡ true);
  get = λ k b. lookup k b.0;
  put = λ k v b. (insert k v b.0, insert_distinct k v b.0 b.1);
  delete = λ k b. (erase k b.0, erase_distinct k b.0 b.1);
  cursor = λ b. b.0;
  walk = λ b. keys b.0;
  seek = λ k b. b.0;
}

bolt-IsBolt : IsBolt bolt
bolt-IsBolt = record {
  get_put = λ k j v b. lookup-insert k j v b.0;
  get_delete = λ k j b. lookup-erase k j b.0;
  cursor_delete = λ k b. refl;
  cursor_distinct = λ b. b.1;
}

abbrev results : Dict String
results = ("10:00", "up") ∷ ("10:01", "down") ∷ ("10:02", "up") ∷ []

results_distinct : has_distinct_keys results ≡ true
unfolding lookup
results_distinct = refl

abbrev pruned : bolt.Bucket
pruned = prune_old_entries bolt 2 (results, results_distinct)

prune_old_entries_keeps_example :
    ((key : String) → IsLeft (lookup key results) (lookup key pruned.0))
    × ((length results ≤ 2) × (pruned ≡ (results, results_distinct)) ⊎ (2 ≤ length pruned.0))
prune_old_entries_keeps_example =
    prune_old_entries_keeps bolt 2 (results, results_distinct) bolt-IsBolt
