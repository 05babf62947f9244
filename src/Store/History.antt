-- ===== src/Store/History.antt =====
-- internal/store/bolt.go: the histories of check results and resource samples, each in a bucket of its
-- service. A key is a time's text; a cursor is undisturbed while keys are deleted, as the code relies on.
use elnssm.Common.{
  ℕ, suc, ◌-◌, ℤ, pos, leb, ltb_ℤ, leb_ℤ, String, List, [], ◌∷◌, ◌++◌, length, take, Option, none,
  some, Bool, false, Dict, if◌then◌else◌,
}
use elnssm.Model.{HealthCheckResult}
use elnssm.Process.ResourceMonitor.Defs.{ResourceSample}
use elnssm.Store.Bolt.{Bolt, Codec}
use elnssm.Store.Services.{StoreError, marshaling, committing}

abbrev pub health_kept : ℕ
health_kept = 1000

abbrev pub samples_kept : ℕ
samples_kept = 100000

module _ (bolt : Bolt) where
  unfoldable pub delete_keys : List String → bolt.Bucket → bolt.Bucket
  delete_keys [] b = b
  delete_keys (k ∷ ks) b = delete_keys ks (bolt.delete k b)

  unfoldable pub prune_old_entries : ℕ → bolt.Bucket → bolt.Bucket
  prune_old_entries keep b =
      let count = length (bolt.cursor b) in
      if leb count keep then b else delete_keys (take (count - keep) (bolt.walk b)) b

  -- An entry, and the pruning, in one transaction that commits or not.
  abbrev pub append_entry :
      ℕ → Bool → String → Option String → bolt.Bucket → bolt.Bucket × Option StoreError
  append_entry keep commits key none b = (b, some marshaling)
  append_entry keep commits key (some text) b =
      if commits then (prune_old_entries keep (bolt.put key text b), none) else (b, some committing)

  -- `key`: Timestamp.Format(time.RFC3339Nano)
  unfoldable pub append_health_result :
      Bool
      → Codec HealthCheckResult
      → (ℕ → String)
      → HealthCheckResult
      → bolt.Bucket
      → bolt.Bucket × Option StoreError
  append_health_result commits c key r b =
      append_entry health_kept commits (key r.timestamp) (c.marshal r) b

  unfoldable pub append_resource_sample :
      Bool
      → Codec ResourceSample
      → (ℕ → String)
      → ResourceSample
      → bolt.Bucket
      → bolt.Bucket × Option StoreError
  append_resource_sample commits c key r b =
      append_entry samples_kept commits (key r.timestamp) (c.marshal r) b

  -- Keys before the cutoff's; comparison of keys is a parameter.
  abbrev pub until_cutoff : (String → Bool) → List String → List String
  until_cutoff early [] = []
  until_cutoff early (k ∷ ks) = let rest = until_cutoff early ks in if early k then k ∷ rest else []

  -- PruneResourceHistory on one service's bucket
  unfoldable pub prune_resource_history : (String → Bool) → bolt.Bucket → bolt.Bucket
  prune_resource_history early b = delete_keys (until_cutoff early (bolt.walk b)) b

-- if limit > 0 && len(results) >= limit
abbrev pub is_enough : ℤ → ℕ → Bool
is_enough limit found = if ltb_ℤ (pos 0) limit then leb_ℤ limit (pos found) else false

-- The loop of GetHealthHistory, from the newest key on; a value that cannot be decoded is passed over.
unfoldable pub newest : ℤ → ℕ → List (Option HealthCheckResult) → List HealthCheckResult
newest limit found [] = []
newest limit found (none ∷ entries) = newest limit found entries
newest limit found (some r ∷ entries) =
    let rest = newest limit (suc found) entries in
    if is_enough limit (suc found) then r ∷ [] else r ∷ rest

abbrev pub decode_each : {A : Type 0} → Codec A → Dict String → List (Option A)
decode_each c [] = []
decode_each c ((k, text) ∷ entries) = c.unmarshal text ∷ decode_each c entries

abbrev pub reversed : {A : Type 0} → List A → List A
reversed [] = []
reversed (x ∷ xs) = reversed xs ++ x ∷ []

-- `sorted`: sort.Slice by the timestamps
unfoldable pub get_health_history :
    (bolt : Bolt)
    → (List HealthCheckResult → List HealthCheckResult)
    → Codec HealthCheckResult
    → ℤ
    → Option bolt.Bucket
    → List HealthCheckResult
unfolding newest
get_health_history bolt sorted c limit none = sorted []
get_health_history bolt sorted c limit (some b) =
    sorted (newest limit 0 (reversed (decode_each c (bolt.cursor b))))

-- The loop of GetResourceHistory; `late` is whether a key is behind the last one wanted.
unfoldable pub in_range : (String → Bool) → Codec ResourceSample → Dict String → List ResourceSample
in_range late c [] = []
in_range late c ((k, text) ∷ entries) =
    let rest = in_range late c entries in
    if late k then [] else elim (c.unmarshal text) [ none ↦ rest | some s ↦ s ∷ rest ]
