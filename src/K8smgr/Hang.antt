-- ===== src/K8smgr/Hang.antt =====
-- When `check_proc_alive` takes a process for hanging, and how long a forced failure lasts.
use k8s.K8smgr.{Keepalive, ProcCtx, sysconf_max_appl_num, k8smgr_hang_intvl, update}
use k8s.Common.{
  ℕ, ◌+◌, ◌<◌, ◌≡◌, ◌↔◌, ◌⊎◌, List, [], ◌∷◌, arith, pos, ◌==◌, if◌then◌else◌, ap, ◌∙◌, leb, ◌≤◌,
  length, ltb,
}
use k8s.K8smgr.Alive.{judge, check_proc_alive}

-- One turn of the timer of a process whose counter stands at `v` by then.
unfoldable pub tick : ℕ → Keepalive × ProcCtx → Keepalive × ProcCtx
tick v (k, p) = check_proc_alive (record k { cnt = update k.cnt p.keep_index v }) p

-- The turns of the timer, with the counter's value at each.
unfoldable pub ticks : List ℕ → Keepalive × ProcCtx → Keepalive × ProcCtx
unfolding tick
ticks [] s = s
ticks (v ∷ vs) s = ticks vs (tick v s)

pub judge-keep_index : (r : ℕ) (p : ProcCtx) → (judge r p).keep_index ≡ p.keep_index
unfolding judge
judge-keep_index r p = ground arith

abbrev next_retry : ℕ → ℕ → ℕ → ℕ
next_retry old retry v = if v == old then retry + 1 else 0

-- After a turn the reading is the old one, and the process is judged by the new count of readings
-- in a row that brought nothing new.
record Turned (s : Keepalive × ProcCtx) (i v retry : ℕ) (p : ProcCtx) : Type 0 where
  old_is : s.0.oldcnt i ≡ v
  retry_is : s.0.retry i ≡ retry
  proc_is : s.1 ≡ judge retry p

tick-Turned :
    (v : ℕ) (k : Keepalive) (p : ProcCtx)
    → p.keep_index < sysconf_max_appl_num
    → Turned
        (tick v (k, p))
        p.keep_index
        v
        (next_retry (k.oldcnt p.keep_index) (k.retry p.keep_index) v)
        p
unfolding tick check_proc_alive
tick-Turned v k p small = ground arith

pub judge-free :
    (r : ℕ) (p : ProcCtx)
    → p.force_status ≡ 0
    → ((judge r p).force_status ≡ 0)
      × ((judge r p).alive_status ≡ (if leb k8smgr_hang_intvl r then pos 0 else pos 1))
unfolding judge
judge-free r p free = ground arith

-- What is known of a process that is not forced, after its counter was read as `v`.
record Free (s : Keepalive × ProcCtx) (v retry : ℕ) : Type 0 where
  small : s.1.keep_index < sysconf_max_appl_num
  old_is : s.0.oldcnt s.1.keep_index ≡ v
  retry_is : s.0.retry s.1.keep_index ≡ retry
  free : s.1.force_status ≡ 0
  alive_is : s.1.alive_status ≡ (if leb k8smgr_hang_intvl retry then pos 0 else pos 1)

tick-Free :
    (v : ℕ) (k : Keepalive) (p : ProcCtx)
    → p.keep_index < sysconf_max_appl_num
    → p.force_status ≡ 0
    → Free (tick v (k, p)) v (next_retry (k.oldcnt p.keep_index) (k.retry p.keep_index) v)
tick-Free v k p small free =
    let t = tick-Turned v k p small in
    let r = next_retry (k.oldcnt p.keep_index) (k.retry p.keep_index) v in
    let index : (tick v (k, p)).1.keep_index ≡ p.keep_index =
      ap (λ (q : ProcCtx). q.keep_index) t.proc_is ∙ judge-keep_index r p in
    record {
      small = rw index small;
      old_is = rw index t.old_is;
      retry_is = rw index t.retry_is;
      free = rw t.proc_is (judge-free r p free).0;
      alive_is = rw t.proc_is (judge-free r p free).1;
    }

next-Free :
    (v : ℕ) (s : Keepalive × ProcCtx) {old retry : ℕ}
    → Free s old retry
    → Free (tick v s) v (next_retry old retry v)
next-Free v s f = rw (← f.old_is, ← f.retry_is) (tick-Free v s.0 s.1 f.small f.free)

-- A process that is not forced is taken for dead after a reading exactly where the last four
-- readings of its counter agree, and for alive where they do not.
pub ticks-hang :
    (k : Keepalive) (p : ProcCtx) (a b c d : ℕ)
    → p.keep_index < sysconf_max_appl_num
    → p.force_status ≡ 0
    → let q = (ticks (a ∷ b ∷ c ∷ d ∷ []) (k, p)).1 in
      ((q.alive_status ≡ pos 0) ↔ ((a ≡ b) × (b ≡ c) × (c ≡ d)))
      × ((q.alive_status ≡ pos 0) ⊎ (q.alive_status ≡ pos 1))
unfolding ticks
ticks-hang k p a b c d small free =
    let f1 = tick-Free a k p small free in
    let s1 = tick a (k, p) in
    let f2 = next-Free b s1 f1 in
    let f3 = next-Free c (tick b s1) f2 in
    let f4 = next-Free d (tick c (tick b s1)) f3 in ground (arith, f4.alive_is)

judge-forced :
    (r : ℕ) (p : ProcCtx)
    → 0 < p.force_status
    → p.force_status ≤ 5
    → p.alive_status ≡ pos 0
    → ((judge r p).alive_status ≡ pos 0)
      × ((judge r p).force_status ≡ (if ltb p.force_status 5 then p.force_status + 1 else 0))
unfolding judge
judge-forced r p up low dead = ground arith

tick-forced :
    (v : ℕ) (k : Keepalive) (p : ProcCtx)
    → p.keep_index < sysconf_max_appl_num
    → 0 < p.force_status
    → p.force_status ≤ 5
    → p.alive_status ≡ pos 0
    → let q = (tick v (k, p)).1 in
      (q.alive_status ≡ pos 0)
      × (q.force_status ≡ (if ltb p.force_status 5 then p.force_status + 1 else 0))
      × (q.keep_index ≡ p.keep_index)
tick-forced v k p small up low dead =
    let t = tick-Turned v k p small in
    let r = next_retry (k.oldcnt p.keep_index) (k.retry p.keep_index) v in
    rw t.proc_is
      ((judge-forced r p up low dead).0, (judge-forced r p up low dead).1, judge-keep_index r p)

ticks-forced_from :
    (vs : List ℕ) (k : Keepalive) (p : ProcCtx)
    → p.keep_index < sysconf_max_appl_num
    → 0 < p.force_status
    → p.force_status ≤ 5
    → p.alive_status ≡ pos 0
    → length vs + p.force_status ≤ 6
    → let q = (ticks vs (k, p)).1 in
      (q.alive_status ≡ pos 0)
      × (q.force_status
          ≡ (if length vs + p.force_status == 6 then 0 else length vs + p.force_status))
unfolding ticks
ticks-forced_from [] k p small up low dead room = (dead, ground arith)
ticks-forced_from (v ∷ []) k p small up low dead room =
    let t = tick-forced v k p small up low dead in (t.0, ground (arith, t.1))
ticks-forced_from (v ∷ w ∷ vs) k p small up low dead room =
    let s = tick v (k, p) in
    let t = tick-forced v k p small up low dead in
    let next : s.1.force_status ≡ p.force_status + 1 = ground (arith, t.1) in
    let later =
      ticks-forced_from (w ∷ vs) s.0 s.1 (rw t.2 small) (omega arith) (omega arith) t.0
        (omega arith) in
    (later.0, later.1 ∙ ground (arith, next))

-- A process whose failure was forced, its status 0 and its count 1, stays dead for the next five
-- turns of its timer whatever its counter does, and is free after the fifth.
pub ticks-forced :
    (vs : List ℕ) (k : Keepalive) (p : ProcCtx)
    → p.keep_index < sysconf_max_appl_num
    → p.force_status ≡ 1
    → p.alive_status ≡ pos 0
    → length vs ≤ 5
    → let q = (ticks vs (k, p)).1 in
      (q.alive_status ≡ pos 0) × (q.force_status ≡ (if length vs == 5 then 0 else length vs + 1))
ticks-forced vs k p small one dead few =
    let t = ticks-forced_from vs k p small (omega arith) (omega arith) dead (omega arith) in
    (t.0, ground (arith, t.1))
