-- ===== src/Scheduler/Jobs.antt =====
-- internal/scheduler/scheduler.go: the jobs of a service after UpdateService.
use elnssm.Common.{
  ℕ, String, List, [], ◌∷◌, ◌++◌, map, filter, Option, none, some, true, lookup, lookup-insert_self,
  lookup-erase_self, ◌==◌, ◌≡◌, inl, inr, refl, ap, sym, subst, ◌∙◌, arith, Option-cases,
  Bool-cases, if◌then◌else◌,
}
use mathlib.Core.List.{append-nil, append_assoc, cons≢nil, head-eq_of_cons-eq, tail-eq_of_cons-eq}
use elnssm.Model.{Service, ScheduleEntry}
use elnssm.Scheduler.Defs.{
  Job, Cron, IsCron, Scheduler, entries_of, remove_service, job_of, register_entry, add_jobs,
  update_service,
}

map-append : {A B : Type 0} (f : A → B) (xs ys : List A) → map f (xs ++ ys) ≡ map f xs ++ map f ys
map-append f [] ys = refl
map-append f (x ∷ xs) ys = ap (λ t. f x ∷ t) (map-append f xs ys)

==_refl : (n : ℕ) → (n == n) ≡ true
==_refl n = ground arith

cong_cons :
    {A : Type 0} {x y : A} {xs ys : List A} → x ≡ y → xs ≡ ys → ◌≡◌ {A = List A} (x ∷ xs) (y ∷ ys)
cong_cons {A} {x} {y} {xs} {ys} e f = ap (λ (t : A). t ∷ xs) e ∙ ap (λ (ts : List A). y ∷ ts) f

-- The jobs of other entries do not change when a free number is taken.
jobs_kept :
    (f g : ℕ → Option Job) (i : ℕ) (j : Job) (entries : List ℕ) (js : List Job)
    → f i ≡ none
    → ((n : ℕ) → g n ≡ (if i == n then some j else f n))
    → map f entries ≡ map some js
    → map g entries ≡ map some js
jobs_kept f g i j [] js free law e = e
jobs_kept f g i j (n ∷ ns) [] free law e = absurd (cons≢nil e)
jobs_kept f g i j (n ∷ ns) (x ∷ js) free law e =
    let here : f n ≡ some x = head-eq_of_cons-eq e in
    let now : g n ≡ some x = ground (arith, law n, here, free) in
    cong_cons now (jobs_kept f g i j ns js free law (tail-eq_of_cons-eq e))

module _ (cron : Cron) (laws : IsCron cron) (id : String) where
  abbrev Holds : List Job → Scheduler cron → Type 0
  Holds js s = map (cron.job s.state) (entries_of cron id s) ≡ map some js

  register_entry-Holds :
      (s : Scheduler cron) (e : ScheduleEntry) (i : ℕ) (c : cron.State) (js : List Job)
      → cron.add_func s.state e.cron (job_of cron id e) ≡ some (i, c)
      → Holds js s
      → Holds (js ++ job_of cron id e ∷ []) (register_entry cron id s (some (i, c)))
  register_entry-Holds s e i c js r h =
      let law = laws.added s.state c e.cron (job_of cron id e) i r in
      let old = entries_of cron id s in
      let new : cron.job c i ≡ some (job_of cron id e) = rw (law.1 i, ==_refl i) refl in
      rw
        (
          lookup-insert_self id (old ++ i ∷ []) s.entry_ids,
          map-append (cron.job c) old (i ∷ []),
          new,
          map-append some js (job_of cron id e ∷ []),
          jobs_kept (cron.job s.state) (cron.job c) i (job_of cron id e) old js law.0 law.1 h,
        )
        refl

  abbrev valid : List ScheduleEntry → List Job
  valid es = map (job_of cron id) (filter (λ e. cron.parses e.cron) es)

  add_jobs-Holds :
      (es : List ScheduleEntry) (s : Scheduler cron) (js : List Job)
      → Holds js s
      → Holds (js ++ valid es) (add_jobs cron id es s)
  unfolding add_jobs
  add_jobs-Holds [] s js h = rw (append-nil js) h
  add_jobs-Holds (e ∷ es) s js h =
      elim (Option-cases (cron.add_func s.state e.cron (job_of cron id e))) [
        | inl r ↦
            let bad = (laws.refused s.state e.cron (job_of cron id e)).0 r in
            subst
              (λ o. Holds (js ++ valid (e ∷ es)) (add_jobs cron id es (register_entry cron id s o)))
              (sym r) (rw bad (add_jobs-Holds es s js h))
        | inr ((i, c), r) ↦ elim (Bool-cases (cron.parses e.cron)) [
          | inl good ↦
              subst
                (λ o.
                  Holds (js ++ valid (e ∷ es)) (add_jobs cron id es (register_entry cron id s o)))
                (sym r)
                (rw (good, sym (append_assoc js (job_of cron id e ∷ []) (valid es)))
                  (add_jobs-Holds es (register_entry cron id s (some (i, c)))
                    (js ++ job_of cron id e ∷ []) (register_entry-Holds s e i c js r h)))
          | inr bad ↦
              let none_here = sym ((laws.refused s.state e.cron (job_of cron id e)).1 bad) ∙ r in
              absurd (ground (arith, none_here))
        ]
      ]

  remove_service-Holds : (s : Scheduler cron) → Holds [] (remove_service cron id s)
  unfolding remove_service
  remove_service-Holds s = elim (Option-cases (lookup id s.entry_ids)) [
    | inl e ↦ rw (e, e) refl
    | inr (entries, e) ↦ rw (e, lookup-erase_self id s.entry_ids) refl
  ]

-- After UpdateService the entries of the service are, in order, the schedules whose cron expression
-- is valid, each with its job; entries of former schedules are gone.
pub update_service-jobs :
    (cron : Cron) (s : Scheduler cron) (svc : Service)
    → IsCron cron
    → map
        (cron.job (update_service cron svc s).state)
        (entries_of cron svc.id (update_service cron svc s))
      ≡ map some (map (job_of cron svc.id) (filter (λ e. cron.parses e.cron) svc.schedules))
unfolding update_service
update_service-jobs cron s svc laws =
    add_jobs-Holds cron laws svc.id svc.schedules (remove_service cron svc.id s) []
      (remove_service-Holds cron laws svc.id s)
