-- ===== src/K8smgr/System/Timeline/Turns.antt =====
-- What the parts of a second of the manager of src/k8smgr/main.c mean to the marks of its processes.
use mathlib.Core.Option.{some-injective}
use k8s.Common.{
  Bytes, str_eq, str_eq_iff, str_eq_refl, ℕ, ◌≡◌, refl, inl, inr, true, Option, some, List, [], ◌∷◌,
  ◌++◌, arith, Bool-cases, Option-cases,
}
use k8s.Elem.Lookup.{find, find-at}
use k8s.Elem.Order.{IsSorted, nil, cons}
use k8s.K8smgr.{ProcCtx, ProcList}
use k8s.K8smgr.System.{tick, Event, count_up, watch, update_label, peer_reply, ready, request}
use k8s.K8smgr.System.Beat.{Marks, mark_count, mark_turn}
use k8s.K8smgr.System.Ready.{and_mark, Beats, marks_after}
use k8s.K8smgr.System.Timeline.{counts, watches, AllAside}

module _ (index : Bytes → ℕ) where
  pub marks_after-append :
      (m : Marks) (es fs : List Event)
      → marks_after index m (es ++ fs) ≡ marks_after index (marks_after index m es) fs
  marks_after-append m [] fs = refl
  marks_after-append m (e ∷ es) fs = marks_after-append (and_mark index e m) es fs

  pub Beats-append :
      (m : Marks) (es fs : List Event)
      → Beats index m es
      → Beats index (marks_after index m es) fs
      → Beats index m (es ++ fs)
  Beats-append m [] fs b c = c
  Beats-append m (e ∷ es) fs b c = (b.0, Beats-append (and_mark index e m) es fs b.1 c)

  -- A timer that has had a turn has had one.
  and_mark-seen :
      (m : Marks) (e : Event) (k : Bytes) → m.seen k ≡ true → (and_mark index e m).seen k ≡ true
  and_mark-seen m (watch name) k h = ground (arith, h)
  and_mark-seen m (count_up i) k h = h
  and_mark-seen m tick k h = h
  and_mark-seen m update_label k h = h
  and_mark-seen m (peer_reply r) k h = h
  and_mark-seen m (ready method status) k h = h
  and_mark-seen m (request method status path) k h = h

  pub marks_after-seen :
      (m : Marks) (es : List Event) (k : Bytes)
      → m.seen k ≡ true
      → (marks_after index m es).seen k ≡ true
  marks_after-seen m [] k h = h
  marks_after-seen m (e ∷ es) k h =
      marks_after-seen (and_mark index e m) es k (and_mark-seen m e k h)

  pub counts-Beats : (m : Marks) (l : ProcList) → Beats index m (counts l)
  unfolding counts
  counts-Beats m [] = tt
  counts-Beats m (e ∷ l) = elim (Option-cases e.payload) [
    | inl new ↦ rw (counts, new) (counts-Beats m l)
    | inr (p, there) ↦ rw (counts, there) (tt, counts-Beats (mark_count index p.keep_index m) l)
  ]

  counts-kept :
      (m : Marks) (l : ProcList) (k : Bytes)
      → m.fresh k ≡ true
      → (marks_after index m (counts l)).fresh k ≡ true
  unfolding counts
  counts-kept m [] k h = h
  counts-kept m (e ∷ l) k h = elim (Option-cases e.payload) [
    | inl new ↦ rw (counts, new) (counts-kept m l k h)
    | inr (p, there) ↦
        rw (counts, there) (counts-kept (mark_count index p.keep_index m) l k (ground (arith, h)))
  ]

  -- Every process of the list has counted up.
  pub counts-fresh :
      {lo : Option Bytes} {es : ProcList} (m : Marks) (k : Bytes) (p : ProcCtx)
      → IsSorted lo es
      → find es k ≡ some p
      → index k ≡ p.keep_index
      → (marks_after index m (counts es)).fresh k ≡ true
  unfolding counts find
  counts-fresh m k p nil e same = absurd (cc e)
  counts-fresh m k p (cons {k = a} {d} {es} above s) e same = elim (Bool-cases (str_eq k a)) [
    | inl y ↦
        let is = some-injective d p (rw y at e) in
        counts-kept (mark_count index d.keep_index m) es k (ground (arith, is, same))
    | inr n ↦ counts-fresh (mark_count index d.keep_index m) k p s (rw n at e) same
  ]

  pub asides-Beats :
      (m : Marks) (es : List Event) → AllAside es → Beats index m es × (marks_after index m es ≡ m)
  asides-Beats m [] a = (tt, refl)
  asides-Beats m (count_up i ∷ es) a = absurd a.0
  asides-Beats m (watch name ∷ es) a = absurd a.0
  asides-Beats m (tick ∷ es) a = let r = asides-Beats m es a.1 in ((tt, r.0), r.1)
  asides-Beats m (update_label ∷ es) a = let r = asides-Beats m es a.1 in ((tt, r.0), r.1)
  asides-Beats m (peer_reply x ∷ es) a = let r = asides-Beats m es a.1 in ((tt, r.0), r.1)
  asides-Beats m (ready method status ∷ es) a = let r = asides-Beats m es a.1 in ((a.0, r.0), r.1)
  asides-Beats m (request method status path ∷ es) a =
      let r = asides-Beats m es a.1 in ((a.0, r.0), r.1)

  -- The timers of processes that have all counted up.
  pub watches-Beats :
      {lo : Option Bytes} {es : ProcList} (m : Marks)
      → IsSorted lo es
      → ((k : Bytes) (p : ProcCtx) → find es k ≡ some p → m.fresh k ≡ true)
      → Beats index m (watches es)
        × ((k : Bytes) (p : ProcCtx)
            → find es k ≡ some p
            → (marks_after index m (watches es)).seen k ≡ true)
  unfolding watches find
  watches-Beats m nil fresh = (tt, λ k p e. absurd (cc e))
  watches-Beats m (cons {k = a} {d} {es} above s) fresh =
      let rest =
        watches-Beats (mark_turn a m) s
          λ k p e. ground (arith, fresh k p, e, find-at s, str_eq_iff k a) in
      (
        (fresh a d (ground (arith, str_eq_refl a)), rest.0),
        λ k p e. elim (Bool-cases (str_eq k a)) [
          | inl y ↦ marks_after-seen (mark_turn a m) (watches es) k (rw y refl)
          | inr n ↦ rest.1 k p (rw n at e)
        ],
      )
