-- ===== src/Api/Listing/Streams.antt =====
-- handleStreamResources of internal/api/handlers_resources.go: its goroutines and the counter that
-- they share. A goroutine loads the counter, upgrades its connection, adds one, and takes it away
-- again when it returns; the steps of several goroutines come in any order.
use elnssm.Common.{
  ℕ, ◌+◌, ◌≤◌, ◌<◌, List, [], ◌∷◌, ◌++◌, get_elem?, set, count_if, count_if-append, count_if-set, ℤ,
  pos, negsuc, ◌+ℤ◌, ltb_ℤ, some, Bool, true, false, ◌≡◌, refl, subst, arith, if◌then◌else◌,
}

abbrev pub max_resource_stream_conns : ℤ
max_resource_stream_conns = pos 20

-- Past the check, streaming, or returned, be it refused, not upgraded or at the end of a stream.
pub data Stage : Type 0 where
  admitted streaming returned : Stage

pub record ResourceStreams : Type 0 where
  pub active_resource_conns : ℤ
  pub stages : List Stage

abbrev pub no_streams : ResourceStreams
no_streams = record { active_resource_conns = pos 0; stages = [] }

abbrev pub move : ℕ → Stage → ℤ → ResourceStreams → ResourceStreams
move i stage change s = record {
  active_resource_conns = s.active_resource_conns +ℤ change;
  stages = set s.stages i stage;
}

-- The check at the start of a request.
abbrev pub arriving : ℤ → Stage
arriving n = if ltb_ℤ n max_resource_stream_conns then admitted else returned

pub data Step : ResourceStreams → ResourceStreams → Type 0 where
  arrives :
      {s : ResourceStreams}
      → Step s (record s { stages = s.stages ++ arriving s.active_resource_conns ∷ [] })
  not_upgraded :
      {s : ResourceStreams} (i : ℕ)
      → get_elem? s.stages i ≡ some admitted
      → Step s (move i returned (pos 0) s)
  upgraded :
      {s : ResourceStreams} (i : ℕ)
      → get_elem? s.stages i ≡ some admitted
      → Step s (move i streaming (pos 1) s)
  -- the client is gone, or a snapshot cannot be written
  ends :
      {s : ResourceStreams} (i : ℕ)
      → get_elem? s.stages i ≡ some streaming
      → Step s (move i returned (negsuc 0) s)

abbrev pub is_streaming : Stage → Bool
is_streaming streaming = true
is_streaming _ = false

abbrev pub is_admitted : Stage → Bool
is_admitted admitted = true
is_admitted _ = false

-- The states in which at no time more than `k` requests were between the check and the upgrade.
pub data Reach (k : ℕ) : ResourceStreams → Type 0 where
  begin : Reach k no_streams
  next :
      {s t : ResourceStreams} → Reach k s → Step s t → count_if is_admitted t.stages ≤ k → Reach k t

-- The counter counts the streams, and they and the admitted requests keep to the limit but for the
-- requests that were admitted together.
pub record IsCounted (k : ℕ) (s : ResourceStreams) : Type 0 where
  pub counted : s.active_resource_conns ≡ pos (count_if is_streaming s.stages)
  pub limited : count_if is_streaming s.stages + count_if is_admitted s.stages ≤ 19 + k

counts-arriving :
    (n : ℕ) (stages : List Stage)
    → let grown = stages ++ arriving (pos n) ∷ [] in
      (count_if is_streaming grown ≡ count_if is_streaming stages)
      × (19 < n → count_if is_admitted grown ≡ count_if is_admitted stages)
counts-arriving n stages = ground (
  arith,
  count_if-append is_streaming stages (arriving (pos n) ∷ []),
  count_if-append is_admitted stages (arriving (pos n) ∷ []),
)

-- A goroutine goes from one stage to another.
counts-set :
    (i : ℕ) (before after : Stage) (stages : List Stage)
    → get_elem? stages i ≡ some before
    → (count_if is_streaming (set stages i after) + (if is_streaming before then 1 else 0)
        ≡ count_if is_streaming stages + (if is_streaming after then 1 else 0))
      × (count_if is_admitted (set stages i after) + (if is_admitted before then 1 else 0)
          ≡ count_if is_admitted stages + (if is_admitted after then 1 else 0))
counts-set i before after stages at = (
  count_if-set is_streaming stages i after before at,
  count_if-set is_admitted stages i after before at,
)

Step-IsCounted :
    (k : ℕ) {s t : ResourceStreams}
    → Step s t
    → count_if is_admitted t.stages ≤ k
    → IsCounted k s
    → IsCounted k t
Step-IsCounted k {s} arrives b h =
    let (same, kept) = counts-arriving (count_if is_streaming s.stages) s.stages in
    let bound = subst (λ n. count_if is_admitted (s.stages ++ arriving n ∷ []) ≤ k) h.counted b in
    rw h.counted
      (record { counted = rw same refl; limited = grind (arith, same, kept, bound, h.limited) })
Step-IsCounted k {s} (not_upgraded i at) b h =
    let (x, y) = counts-set i admitted returned s.stages at in
    record { counted = rw h.counted (ground (arith, x)); limited = omega (arith, x, y, h.limited) }
Step-IsCounted k {s} (upgraded i at) b h =
    let (x, y) = counts-set i admitted streaming s.stages at in
    record { counted = rw h.counted (ground (arith, x)); limited = omega (arith, x, y, h.limited) }
Step-IsCounted k {s} (ends i at) b h =
    let (x, y) = counts-set i streaming returned s.stages at in
    record { counted = rw h.counted (ground (arith, x)); limited = omega (arith, x, y, h.limited) }

-- In every reachable state the counter is the number of open streams, and that is at most 19 and as
-- many as requests were at one time between the check and the upgrade: 20 where they do not overlap.
pub Reach-IsCounted : (k : ℕ) {s : ResourceStreams} → Reach k s → IsCounted k s
Reach-IsCounted k begin = record { counted = refl; limited = omega arith }
Reach-IsCounted k (next r step b) = Step-IsCounted k step b (Reach-IsCounted k r)
