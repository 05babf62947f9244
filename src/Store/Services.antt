-- ===== src/Store/Services.antt =====
-- internal/store/bolt.go: the services and their runtime states; migrations.go: the schema version.
use elnssm.Common.{
  ℕ, inr, inl, Bool-cases, String, str_eq, List, [], ◌∷◌, Option, none, some, Bool, true, false,
  ◌≡◌, Dict, refl, arith, if◌then◌else◌,
}
use Prim.Native.String as Text
use elnssm.Model.{Event, Service}
use elnssm.Manager.State.{ServiceRuntimeState}
use elnssm.Store.Bolt.{Bolt, IsBolt, Codec, IsCodec}

pub data StoreError : Type 0 where
  service_not_found marshaling unmarshaling committing unknown_version : StoreError

pub data Got (A : Type 0) : Type 0 where
  got : A → Got A
  lost : StoreError → Got A

abbrev pub decoded_value : {A : Type 0} → Option A → Got A
decoded_value none = lost unmarshaling
decoded_value (some a) = got a

abbrev pub cons_got : {A : Type 0} → Got A → Got (List A) → Got (List A)
cons_got (lost e) rest = lost e
cons_got (got a) (lost e) = lost e
cons_got (got a) (got rest) = got (a ∷ rest)

module _ (bolt : Bolt) where
  -- A value under its key, in one transaction that commits or not.
  abbrev pub put_value :
      Bool → String → Option String → bolt.Bucket → bolt.Bucket × Option StoreError
  put_value commits key none b = (b, some marshaling)
  put_value commits key (some text) b =
      if commits then (bolt.put key text b, none) else (b, some committing)

  unfoldable pub save_service :
      Bool → Codec Service → Service → bolt.Bucket → bolt.Bucket × Option StoreError
  save_service commits c svc b = put_value commits svc.id (c.marshal svc) b

  unfoldable pub save_service_state :
      Bool
      → Codec ServiceRuntimeState
      → String
      → ServiceRuntimeState
      → bolt.Bucket
      → bolt.Bucket × Option StoreError
  save_service_state commits c id state b = put_value commits id (c.marshal state) b

  unfoldable pub delete_service : Bool → String → bolt.Bucket → bolt.Bucket × Option StoreError
  delete_service commits id b = if commits then (bolt.delete id b, none) else (b, some committing)

  -- `key`: the event's time, in RFC3339Nano, its service and its number, between dashes
  unfoldable pub append_event :
      Bool → Codec Event → (ℕ → String) → Event → bolt.Bucket → bolt.Bucket × Option StoreError
  append_event commits c format e b =
      put_value commits
        (Text.◌++◌ (format e.timestamp)
          (Text.◌++◌ "-" (Text.◌++◌ e.service_id (Text.◌++◌ "-" e.id))))
        (c.marshal e) b

  abbrev pub got_service : Codec Service → Option String → Got Service
  got_service c none = lost service_not_found
  got_service c (some text) = decoded_value (c.unmarshal text)

  unfoldable pub get_service : Codec Service → String → bolt.Bucket → Got Service
  get_service c id b = got_service c (bolt.get id b)

  -- A state that is not stored is the zero value.
  abbrev pub got_state :
      Codec ServiceRuntimeState → ServiceRuntimeState → Option String → Got ServiceRuntimeState
  got_state c zero_value none = got zero_value
  got_state c zero_value (some text) = decoded_value (c.unmarshal text)

  unfoldable pub load_service_state :
      Codec ServiceRuntimeState
      → ServiceRuntimeState
      → String
      → bolt.Bucket
      → Got ServiceRuntimeState
  load_service_state c zero_value id b = got_state c zero_value (bolt.get id b)

  -- The loop of ForEach; the first value that cannot be decoded ends it.
  unfoldable pub decode_all : {A : Type 0} → Codec A → Dict String → Got (List A)
  decode_all c [] = got []
  decode_all c ((k, text) ∷ entries) =
      cons_got (decoded_value (c.unmarshal text)) (decode_all c entries)

  unfoldable pub list_services : Codec Service → bolt.Bucket → Got (List Service)
  unfolding decode_all
  list_services c b = decode_all c (bolt.cursor b)

  -- RunMigrations on the meta bucket, whose version is "1".
  abbrev pub migrated : Bool → Option String → bolt.Bucket → bolt.Bucket × Option StoreError
  migrated commits none b =
      if commits then (bolt.put "schema_version" "1" b, none) else (b, some committing)
  migrated commits (some version) b = (b, if str_eq version "1" then none else some unknown_version)

  unfoldable pub run_migrations : Bool → bolt.Bucket → bolt.Bucket × Option StoreError
  run_migrations commits b = migrated commits (bolt.get "schema_version" b) b

pub put_value-get :
    (bolt : Bolt) (commits : Bool) (key id : String) (o : Option String) (b : bolt.Bucket)
    → IsBolt bolt
    → (put_value bolt commits key o b).1 ≡ none
    → (t : String) × (o ≡ some t)
      × (bolt.get id (put_value bolt commits key o b).0
          ≡ (if str_eq key id then some t else bolt.get id b))
put_value-get bolt commits key id none b law saved = absurd (ground (arith, saved))
put_value-get bolt true key id (some t) b law saved = (t, refl, law.get_put key id t b)
put_value-get bolt false key id (some t) b law saved = absurd (ground (arith, saved))

-- A runtime state that is saved without an error is read back as it was, under its identifier; under
-- every other identifier the store reads what it read before.
pub load_service_state-save_service_state :
    (bolt : Bolt) (c : Codec ServiceRuntimeState) (zero_value : ServiceRuntimeState)
    (commits : Bool) (key id : String) (state : ServiceRuntimeState) (b : bolt.Bucket)
    → IsBolt bolt
    → IsCodec c
    → (save_service_state bolt commits c key state b).1 ≡ none
    → load_service_state bolt c zero_value id (save_service_state bolt commits c key state b).0
      ≡ (if str_eq key id then got state else load_service_state bolt c zero_value id b)
unfolding save_service_state load_service_state
load_service_state-save_service_state bolt c zero_value commits key id state b law codec saved =
    let (t, text, reads) = put_value-get bolt commits key id (c.marshal state) b law saved in
    let back = codec.unmarshal-marshal state t text in
    elim (Bool-cases (str_eq key id)) [
      | inl same ↦ rw (reads, same, back) refl
      | inr other ↦ rw (reads, other) refl
    ]
