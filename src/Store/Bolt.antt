-- ===== src/Store/Bolt.antt =====
-- What internal/store/bolt.go calls of bbolt and encoding/json: parameters, and what it relies on.
use elnssm.Common.{
  String, str_eq, List, [], ◌∷◌, Option, none, some, is_some, Bool, true, not, ◌&&◌, Dict, lookup,
  erase, ◌≡◌, if◌then◌else◌,
}

-- One bucket. `cursor`: the entries from First to the last by Next. `walk`: the keys that First and
-- Next give while each of them is deleted in turn, of which nothing is relied on: bbolt documents that
-- a cursor is disturbed when its bucket changes. `seek`: the entries from a key on.
pub record Bolt : Type 1 where
  pub Bucket : Type 0
  pub get : String → Bucket → Option String
  pub put : String → String → Bucket → Bucket
  pub delete : String → Bucket → Bucket
  pub cursor : Bucket → Dict String
  pub walk : Bucket → List String
  pub seek : String → Bucket → Dict String

abbrev pub keys {ℓ} : {V : Type ℓ} → Dict V → List String
keys [] = []
keys ((k, v) ∷ d) = k ∷ keys d

abbrev pub has_distinct_keys {ℓ} : {V : Type ℓ} → Dict V → Bool
has_distinct_keys [] = true
has_distinct_keys ((k, v) ∷ d) = not (is_some (lookup k d)) && has_distinct_keys d

-- A bucket holds one value under a key; deleting takes just that key away.
pub record IsBolt (bolt : Bolt) : Type 0 where
  pub get_put :
      (k j v : String) (b : bolt.Bucket)
      → bolt.get j (bolt.put k v b) ≡ (if str_eq k j then some v else bolt.get j b)
  pub get_delete :
      (k j : String) (b : bolt.Bucket)
      → bolt.get j (bolt.delete k b) ≡ (if str_eq k j then none else bolt.get j b)
  pub cursor_delete :
      (k : String) (b : bolt.Bucket) → bolt.cursor (bolt.delete k b) ≡ erase k (bolt.cursor b)
  pub cursor_distinct : (b : bolt.Bucket) → has_distinct_keys (bolt.cursor b) ≡ true

-- encoding/json on one type
pub record Codec (A : Type 0) : Type 0 where
  pub marshal : A → Option String
  pub unmarshal : String → Option A

pub record IsCodec {A : Type 0} (c : Codec A) : Type 0 where
  pub unmarshal-marshal : (a : A) (t : String) → c.marshal a ≡ some t → c.unmarshal t ≡ some a
