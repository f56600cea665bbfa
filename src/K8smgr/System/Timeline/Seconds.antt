-- ===== src/K8smgr/System/Timeline/Seconds.antt =====
-- The seconds of the manager of src/k8smgr/main.c: the timer of a process finds that it counted up.
use k8s.Common.{
  Bytes, ℕ, zero, suc, ◌+◌, ◌%◌, ◌≤◌, ◌≡◌, ap, ◌∙◌, inl, inr, true, some, List, [], ◌∷◌, ◌++◌,
  arith, ◌==◌, if◌then◌else◌, Bool-cases,
}
use k8s.Elem.Lookup.{find}
use k8s.Elem.Order.{IsTable, table}
use k8s.K8smgr.{ProcCtx, ProcList}
use k8s.K8smgr.System.{tick, Event, update_label}
use k8s.K8smgr.System.Beat.{Marks}
use k8s.K8smgr.System.Ready.{Beats, marks_after}
use k8s.K8smgr.System.Timeline.{
  counts, watches, watch_interval, second, seconds, AllAside, proc_index, index_in,
}
use k8s.K8smgr.System.Timeline.Turns.{
  marks_after-append, Beats-append, marks_after-seen, counts-Beats, counts-fresh, asides-Beats,
  watches-Beats,
}

module _ (index : Bytes → ℕ) where
  counts_all :
      {l : ProcList} (m : Marks) (k : Bytes) (p : ProcCtx)
      → IsTable l
      → find l k ≡ some p
      → index k ≡ p.keep_index
      → (marks_after index m (counts l)).fresh k ≡ true
  unfolding counts find
  counts_all m k p (table s) e same = counts-fresh index m k p s e same

  watches_all :
      {l : ProcList} (m : Marks)
      → IsTable l
      → ((k : Bytes) (p : ProcCtx) → find l k ≡ some p → m.fresh k ≡ true)
      → Beats index m (watches l)
        × ((k : Bytes) (p : ProcCtx)
            → find l k ≡ some p
            → (marks_after index m (watches l)).seen k ≡ true)
  unfolding watches find
  watches_all m (table s) fresh = watches-Beats index m s fresh

module _ {l : ProcList} (t : IsTable l) where
  abbrev index : Bytes → ℕ
  index = proc_index l

  -- The marks of a second in front of the turns of the timers.
  abbrev counted : Marks → Marks
  counted m = marks_after index m (counts l)

  counted-fresh :
      (m : Marks) (k : Bytes) (p : ProcCtx) → find l k ≡ some p → (counted m).fresh k ≡ true
  counted-fresh m k p e = counts_all index m k p t e (ap index_in e)

  -- The part of a second behind the rounds of the processes.
  abbrev rest_of : ℕ → List Event
  rest_of n = tick ∷ update_label ∷ (if n % watch_interval == 0 then watches l else [])

  rest-Beats : (m : Marks) (n : ℕ) → Beats index (counted m) (rest_of n)
  rest-Beats m n = elim (Bool-cases (n % watch_interval == 0)) [
    | inl turn ↦ rw turn (tt, (tt, (watches_all index (counted m) t (counted-fresh m)).0))
    | inr none_now ↦ rw none_now (tt, (tt, tt))
  ]

  asides-marks :
      (m : Marks) (asides fs : List Event)
      → AllAside asides
      → marks_after index m (counts l ++ (asides ++ fs)) ≡ marks_after index (counted m) fs
  asides-marks m asides fs a =
      marks_after-append index m (counts l) (asides ++ fs)
      ∙ marks_after-append index (counted m) asides fs
      ∙ ap (λ m'. marks_after index m' fs) (asides-Beats index (counted m) asides a).1

  second-Beats :
      (m : Marks) (asides : List Event) (n : ℕ)
      → AllAside asides
      → Beats index m (second l asides n)
  unfolding second
  second-Beats m asides n a =
      let (beats, same) = asides-Beats index (counted m) asides a in
      Beats-append index m (counts l) _ (counts-Beats index m l)
        (Beats-append index (counted m) asides _ beats (rw same (rest-Beats m n)))

  -- The third second has the turns.
  second-seen :
      (m : Marks) (asides : List Event) (k : Bytes) (p : ProcCtx)
      → AllAside asides
      → find l k ≡ some p
      → (marks_after index m (second l asides 3)).seen k ≡ true
  unfolding second
  second-seen m asides k p a e =
      rw (asides-marks m asides (rest_of 3) a)
        ((watches_all index (counted m) t (counted-fresh m)).1 k p e)

  pub seconds-Beats :
      (m : Marks) (asides : ℕ → List Event) (n num : ℕ)
      → ((i : ℕ) → AllAside (asides i))
      → Beats index m (seconds l asides n num)
  unfolding seconds
  seconds-Beats m asides n zero a = tt
  seconds-Beats m asides n (suc num) a =
      Beats-append index m (second l (asides n) n) _ (second-Beats m (asides n) n (a n))
        (seconds-Beats (marks_after index m (second l (asides n) n)) asides (n + 1) num a)

  pub seconds-seen :
      (m : Marks) (asides : ℕ → List Event) (num : ℕ) (k : Bytes) (p : ProcCtx)
      → ((i : ℕ) → AllAside (asides i))
      → 3 ≤ num
      → find l k ≡ some p
      → (marks_after index m (seconds l asides 1 num)).seen k ≡ true
  unfolding seconds
  seconds-seen m asides (suc (suc (suc num))) k p a enough e =
      let m1 = marks_after index m (second l (asides 1) 1) in
      let m2 = marks_after index m1 (second l (asides 2) 2) in
      let m3 = marks_after index m2 (second l (asides 3) 3) in
      let rest = seconds l asides 4 num in
      let third = second-seen m2 (asides 3) k p (a 3) e in
      rw
        (
          marks_after-append index m (second l (asides 1) 1) _,
          marks_after-append index m1 (second l (asides 2) 2) _,
          marks_after-append index m2 (second l (asides 3) 3) rest,
        )
        (marks_after-seen index m3 rest k third)
  seconds-seen m asides zero k p a enough e = absurd (omega (arith, enough))
  seconds-seen m asides (suc zero) k p a enough e = absurd (omega (arith, enough))
  seconds-seen m asides (suc (suc zero)) k p a enough e = absurd (omega (arith, enough))
