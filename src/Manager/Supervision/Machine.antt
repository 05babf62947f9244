-- ===== src/Manager/Supervision/Machine.antt =====
-- The abstract machine: channels, the goroutines that watch them, and whether the service runs.
use elnssm.Common.{
  ℕ, ◌≤◌, ◌<◌, List, [], ◌∷◌, Bool, true, false, elem, delete, ◌≡◌, ◌≢◌, ◌⊎◌, inl, inr, refl, arith,
  Bool-cases, if◌then◌else◌,
}

pub record View : Type 0 where
  pub fresh : ℕ
  pub watchers : List ℕ
  pub closed : List ℕ
  pub stop_ch : ℕ
  pub running : Bool
  pub attached : Bool

-- `launch`: a new process with its own channel and watcher. `halt`: the channel is closed.
-- `relaunch`: a new process under the same watcher. `finish`: the watcher of the current channel
-- leaves, and the service no longer runs. `leave`: a watcher of a closed channel leaves.
pub data Move (v u : View) : Type 0 where
  launch :
      (f g : ℕ)
      → v.fresh ≤ f
      → f < g
      → v.running ≡ false
      → u ≡ record v {
        fresh = g;
        watchers = f ∷ v.watchers;
        stop_ch = f;
        running = true;
        attached = true;
      }
      → Move v u
  halt :
      u ≡ record v {
        closed = if elem v.stop_ch v.closed then v.closed else v.stop_ch ∷ v.closed;
        running = false;
        attached = false;
      }
      → Move v u
  relaunch :
      (g : ℕ)
      → v.fresh ≤ g
      → v.running ≡ true
      → u ≡ record v { fresh = g; attached = true }
      → Move v u
  finish : u ≡ record v { watchers = delete v.stop_ch v.watchers; running = false } → Move v u
  leave :
      (mine : ℕ)
      → elem mine v.closed ≡ true
      → u ≡ record v { watchers = delete mine v.watchers }
      → Move v u
  stay : u ≡ v → Move v u

-- A running service has a process and a watcher on its open stop channel, and every other watcher's
-- channel is closed; a service that does not run has no watcher on an open channel.
pub record IsSupervised (v : View) : Type 0 where
  pub fresh_stop_ch : v.stop_ch < v.fresh
  pub fresh_closed : (c : ℕ) → elem c v.closed ≡ true → c < v.fresh
  pub watched : v.running ≡ true → elem v.stop_ch v.watchers ≡ true
  pub open_ch : v.running ≡ true → elem v.stop_ch v.closed ≡ false
  pub has_process : v.running ≡ true → v.attached ≡ true
  pub single :
      (m : ℕ)
      → elem m v.watchers ≡ true
      → (elem m v.closed ≡ true) ⊎ (m ≡ v.stop_ch) × (v.running ≡ true)

elem-delete : (m n : ℕ) (xs : List ℕ) → elem m (delete n xs) ≡ true → (elem m xs ≡ true) × (m ≢ n)
elem-delete m n [] h = cc
elem-delete m n (x ∷ xs) h = ground (arith, elem-delete m n xs)

elem-delete_ne : (m n : ℕ) (xs : List ℕ) → m ≢ n → elem m xs ≡ true → elem m (delete n xs) ≡ true
elem-delete_ne m n [] d h = h
elem-delete_ne m n (x ∷ xs) d h = ground (arith, elem-delete_ne m n xs d)

-- Every move of the machine keeps a supervised service supervised.
pub Move-IsSupervised : {v u : View} → Move v u → IsSupervised v → IsSupervised u
Move-IsSupervised {v} {u} (launch f g a b r e) s = rw e (record {
  fresh_stop_ch = b;
  fresh_closed = λ c h. ground (arith, s.fresh_closed c h);
  watched = λ h. ground arith;
  open_ch = λ h. elim (Bool-cases (elem f v.closed)) [
    | inl k ↦ absurd (omega (arith, s.fresh_closed f k))
    | inr k ↦ k
  ];
  has_process = λ h. refl;
  single = λ m h. ground (arith, s.single m);
})
Move-IsSupervised {v} {u} (halt e) s = rw e (record {
  fresh_stop_ch = s.fresh_stop_ch;
  fresh_closed = λ c h. ground (arith, s.fresh_closed c, s.fresh_stop_ch);
  watched = λ h. cc;
  open_ch = λ h. cc;
  has_process = λ h. cc;
  single = λ m h. ground (arith, s.single m h);
})
Move-IsSupervised {v} {u} (relaunch g a r e) s = rw e (record {
  fresh_stop_ch = omega (arith, s.fresh_stop_ch);
  fresh_closed = λ c h. omega (arith, s.fresh_closed c h);
  watched = s.watched;
  open_ch = s.open_ch;
  has_process = λ h. refl;
  single = s.single;
})
Move-IsSupervised {v} {u} (finish e) s = rw e (record {
  fresh_stop_ch = s.fresh_stop_ch;
  fresh_closed = s.fresh_closed;
  watched = λ h. cc;
  open_ch = λ h. cc;
  has_process = λ h. cc;
  single = λ m h. let k = elem-delete m v.stop_ch v.watchers h in ground (arith, s.single m k.0);
})
Move-IsSupervised {v} {u} (leave mine c e) s = rw e (record {
  fresh_stop_ch = s.fresh_stop_ch;
  fresh_closed = s.fresh_closed;
  watched = λ h. elem-delete_ne v.stop_ch mine v.watchers (λ q. cc (s.open_ch h)) (s.watched h);
  open_ch = s.open_ch;
  has_process = s.has_process;
  single = λ m h. let k = elem-delete m mine v.watchers h in s.single m k.0;
})
Move-IsSupervised {v} {u} (stay e) s = rw e s
