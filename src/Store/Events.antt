-- ===== src/Store/Events.antt =====
-- internal/store/bolt.go: ListEvents. The cursor's entries come newest key first, and one that cannot
-- be decoded is none.
use elnssm.Common.{
  ℕ, zero, suc, ◌-◌, ◌≤◌, ℤ, pos, pos_part, ltb, ltb_ℤ, leb_ℤ, String, str_eq, List, [], ◌∷◌, take,
  filter, Option, none, some, Bool, true, false, not, ◌&&◌, ◌≡◌, refl, sym, arith, Bool-cases, inl,
  inr, if◌then◌else◌,
}
use elnssm.Model.{Event, event_type_text}

pub record EventFilter : Type 0 where
  pub service_id : Option String
  pub type : Option String
  pub since : Option ℕ
  pub limit : ℤ

abbrev pub is_service : Option String → Event → Bool
is_service none e = true
is_service (some id) e = str_eq e.service_id id

abbrev pub is_type : Option String → Event → Bool
is_type none e = true
is_type (some t) e = str_eq (event_type_text e.type) t

abbrev pub is_before : Option ℕ → Event → Bool
is_before none e = false
is_before (some t) e = ltb e.timestamp t

abbrev pub matches : EventFilter → Event → Bool
matches f e = is_service f.service_id e && is_type f.type e

-- if filter.Limit > 0 && len(events) >= filter.Limit
abbrev pub is_full : EventFilter → ℕ → Bool
is_full f found = ltb_ℤ (pos 0) f.limit && leb_ℤ f.limit (pos found)

unfoldable pub list_events : EventFilter → ℕ → List (Option Event) → List Event
list_events f found [] = []
list_events f found (none ∷ es) = list_events f found es
list_events f found (some e ∷ es) =
    let next = if matches f e then suc found else found in
    let rest = list_events f next es in
    if not (matches f e)
    then rest
    else if is_before f.since e
    then []
    else if is_full f next
    then e ∷ []
    else e ∷ rest

-- The reference: all events that fit, up to the limit.
abbrev pub decoded : List (Option Event) → List Event
decoded [] = []
decoded (none ∷ es) = decoded es
decoded (some e ∷ es) = e ∷ decoded es

abbrev pub fits : EventFilter → Event → Bool
fits f e = matches f e && not (is_before f.since e)

abbrev pub up_to : ℤ → ℕ → List Event → List Event
up_to limit found es = if ltb_ℤ (pos 0) limit then take (pos_part limit - found) es else es

abbrev pub AllUpTo : ℕ → List Event → Type 0
AllUpTo t [] = Unit
AllUpTo t (e ∷ es) = (e.timestamp ≤ t) × AllUpTo t es

abbrev pub IsNewestFirst : List Event → Type 0
IsNewestFirst [] = Unit
IsNewestFirst (e ∷ es) = AllUpTo e.timestamp es × IsNewestFirst es

earlier :
    (since : Option ℕ) (e x : Event)
    → is_before since e ≡ true
    → x.timestamp ≤ e.timestamp
    → is_before since x ≡ true
earlier none e x b l = b
earlier (some t) e x b l = ground (arith, b, l)

none-fits :
    (f : EventFilter) (t : ℕ) (es : List Event)
    → (e : Event) → e.timestamp ≡ t
    → is_before f.since e ≡ true
    → AllUpTo t es
    → filter (fits f) es ≡ []
none-fits f t [] e s b a = refl
none-fits f t (x ∷ xs) e s b a =
    let early : is_before f.since x ≡ true = earlier f.since e x b (omega (arith, s, a.0)) in
    let rest = none-fits f t xs e s b a.1 in rw (early, rest) (ground arith)

take-nil : (n : ℕ) → ◌≡◌ {A = List Event} (take n []) []
take-nil zero = refl
take-nil (suc n) = refl

up_to-nil : (limit : ℤ) (found : ℕ) → up_to limit found [] ≡ []
up_to-nil limit found = elim (Bool-cases (ltb_ℤ (pos 0) limit)) [
  | inl e ↦ rw e (take-nil (pos_part limit - found))
  | inr e ↦ rw e refl
]

take_one : (n : ℕ) (e : Event) (es : List Event) → n ≡ 1 → take n (e ∷ es) ≡ e ∷ []
take_one n e es h = rw h refl

take_more : (n m : ℕ) (e : Event) (es : List Event) → n ≡ suc m → take n (e ∷ es) ≡ e ∷ take m es
take_more n m e es h = rw h refl

up_to-full :
    (f : EventFilter) (found : ℕ) (e : Event) (es : List Event)
    → is_full f found ≡ false
    → is_full f (suc found) ≡ true
    → up_to f.limit found (e ∷ es) ≡ e ∷ []
up_to-full f found e es l h = ground (arith, l, h, take_one (pos_part f.limit - found) e es)

up_to-cons :
    (f : EventFilter) (found : ℕ) (e : Event) (es : List Event)
    → is_full f (suc found) ≡ false
    → up_to f.limit found (e ∷ es) ≡ e ∷ up_to f.limit (suc found) es
up_to-cons f found e es h =
    ground (arith, h, take_more (pos_part f.limit - found) (pos_part f.limit - suc found) e es)

list_events_from :
    (f : EventFilter) (found : ℕ) (es : List (Option Event))
    → IsNewestFirst (decoded es)
    → is_full f found ≡ false
    → list_events f found es ≡ up_to f.limit found (filter (fits f) (decoded es))
unfolding list_events
list_events_from f found [] n l = sym (up_to-nil f.limit found)
list_events_from f found (none ∷ es) n l = list_events_from f found es n l
list_events_from f found (some e ∷ es) n l = elim (Bool-cases (matches f e)) [
  | inr m ↦ rw m (list_events_from f found es n.1 l)
  | inl m ↦ elim (Bool-cases (is_before f.since e)) [
    | inl b ↦
        rw (m, b, none-fits f e.timestamp (decoded es) e refl b n.0) (sym (up_to-nil f.limit found))
    | inr b ↦ elim (Bool-cases (is_full f (suc found))) [
      | inl h ↦ rw (m, b, h) (sym (up_to-full f found e (filter (fits f) (decoded es)) l h))
      | inr h ↦
          rw (m, b, h, list_events_from f (suc found) es n.1 h)
            (sym (up_to-cons f found e (filter (fits f) (decoded es)) h))
    ]
  ]
]

-- On a log whose entries come newest first, ListEvents gives the events that fit the service, the
-- type and the time of the filter, newest first, and of them at most as many as its limit, if that is
-- above 0: stopping at the first event that is too old loses none.
pub list_events_exact :
    (f : EventFilter) (es : List (Option Event))
    → IsNewestFirst (decoded es)
    → list_events f 0 es ≡ up_to f.limit 0 (filter (fits f) (decoded es))
list_events_exact f es n = list_events_from f 0 es n (ground arith)
