-- ===== src/K8smgr/System/Stuck.antt =====
-- `check_proc_alive` of src/k8smgr/main.c, turn by turn, for a process that stands still while
-- others do not.
use k8s.Common.{
  Bytes, str_eq, ℕ, ◌+◌, ◌≤◌, ◌<◌, ◌≡◌, ◌≢◌, false, some, List, [], ◌∷◌, arith, pos, ◌==◌,
  if◌then◌else◌, str_eq_iff, str_eq_refl, refl, ◌∙◌, inl, inr, Option-cases,
}
use k8s.Elem.Lookup.{find, update_element-find-some}
use k8s.K8smgr.{sysconf_max_appl_num, Keepalive, ProcCtx}
use k8s.K8smgr.Alive.{judge, check_proc_alive}
use k8s.K8smgr.Http.{get}
use k8s.K8smgr.System.{System, Event, count_up, watch, request, watch_proc}
use k8s.K8smgr.System.Safety.{IsRunning, watch_proc-IsRunning}
use k8s.Elem.{update_element}
use k8s.K8smgr.Hang.{judge-keep_index, judge-free}

-- What leaves the process of index `i` alone: other processes count up, and requests only ask.
abbrev pub IsQuiet : ℕ → Event → Type 0
IsQuiet i (count_up j) = j ≢ i
IsQuiet i (request method status path) = method ≡ get
IsQuiet i _ = Unit

abbrev pub AllQuiet : ℕ → List Event → Type 0
AllQuiet i [] = Unit
AllQuiet i (e ∷ es) = IsQuiet i e × AllQuiet i es

abbrev pub and_watch : Bytes → Event → ℕ → ℕ
and_watch name (watch other) n = if str_eq other name then n + 1 else n
and_watch name _ n = n

-- How often the timer of the process runs, on top of `n` times.
abbrev pub watches_from : ℕ → Bytes → List Event → ℕ
watches_from n name [] = n
watches_from n name (e ∷ es) = watches_from (and_watch name e n) name es

-- The process after `n` turns of its timer at which its counter stood still.
pub record IsStuck (num : ℕ) (name : Bytes) (i n : ℕ) (s : System) : Type 0 where
  pub running : IsRunning num s
  pub proc : ProcCtx
  pub found : find s.ctx.proc_list name ≡ some proc
  pub index : proc.keep_index ≡ i
  pub free : proc.force_status ≡ 0
  pub is_read : 1 ≤ n → s.shm.oldcnt i ≡ s.shm.cnt i
  pub tries : 1 ≤ n → n ≤ s.shm.retry i + 1
  pub dead : 4 ≤ n → proc.alive_status ≡ pos 0

abbrev pub new_retry : Keepalive → ProcCtx → ℕ
new_retry k p = if k.cnt p.keep_index == k.oldcnt p.keep_index then k.retry p.keep_index + 1 else 0

-- What a turn does to the entries of index `i` and to the process.
pub record Checked (k : Keepalive) (p : ProcCtx) (i : ℕ) (r : Keepalive × ProcCtx) : Type 0 where
  pub cnt_is : r.0.cnt i ≡ k.cnt i
  pub oldcnt_is : r.0.oldcnt i ≡ (if i == p.keep_index then k.cnt i else k.oldcnt i)
  pub retry_is : r.0.retry i ≡ (if i == p.keep_index then new_retry k p else k.retry i)
  pub proc_is : r.1 ≡ judge (new_retry k p) p

pub check_proc_alive-Checked :
    (k : Keepalive) (p : ProcCtx) (i : ℕ)
    → p.keep_index < sysconf_max_appl_num
    → Checked k p i (check_proc_alive k p)
unfolding check_proc_alive
check_proc_alive-Checked k p i small = record {
  cnt_is = ground arith;
  oldcnt_is = ground arith;
  retry_is = ground arith;
  proc_is = ground arith;
}

-- What a turn of the timer of a process of the list leaves.
abbrev pub turned : Bytes → ProcCtx → System → System
turned name p s =
    let r = check_proc_alive s.shm p in
    record {
      shm = r.0;
      ctx = record s.ctx { proc_list = update_element s.ctx.proc_list name (λ _. r.1) };
    }

pub watch_proc-turned :
    (name : Bytes) (p : ProcCtx) (s : System)
    → find s.ctx.proc_list name ≡ some p
    → watch_proc name s ≡ turned name p s
unfolding watch_proc
watch_proc-turned name p s e = rw (watch_proc, e) refl

-- The turn of its own timer.
pub watch_own :
    {num : ℕ} (name : Bytes) {i n : ℕ} (s : System)
    → IsStuck num name i n s
    → IsStuck num name i (n + 1) (watch_proc name s)
watch_own {num} name {i} {n} s t =
    let p = t.proc in
    let e = watch_proc-turned name p s t.found in
    let procs = t.running.procs in
    let small : p.keep_index < sysconf_max_appl_num =
      omega (arith, procs.indexed name p t.found, procs.bounded) in
    let c = check_proc_alive-Checked s.shm p i small in
    let judged = judge-free (new_retry s.shm p) p t.free in
    let tries : n ≤ new_retry s.shm p = ground (arith, t.index, t.is_read, t.tries) in
    rw e (record {
      running = rw e at (watch_proc-IsRunning name s t.running);
      proc = judge (new_retry s.shm p) p;
      found =
          update_element-find-some name (λ _. (check_proc_alive s.shm p).1) name procs.is_table
            t.found
          ∙ ground (arith, str_eq_refl name, c.proc_is);
      index = judge-keep_index (new_retry s.shm p) p ∙ t.index;
      free = judged.0;
      is_read = λ _. ground (arith, c.oldcnt_is, c.cnt_is, t.index);
      tries = λ _. ground (arith, c.retry_is, t.index, tries);
      dead = λ enough. ground (arith, judged.1, tries);
    })

-- The turn of another one.
pub watch_other :
    {num : ℕ} (name other : Bytes) {i n : ℕ} (s : System)
    → str_eq other name ≡ false
    → IsStuck num name i n s
    → IsStuck num name i n (watch_proc other s)
watch_other {num} name other {i} {n} s ne t = elim (Option-cases (find s.ctx.proc_list other)) [
  | inl none_there ↦ unfold watch_proc in rw (watch_proc, none_there) t
  | inr (q, there) ↦
      let e = watch_proc-turned other q s there in
      let procs = t.running.procs in
      let small : q.keep_index < sysconf_max_appl_num =
        omega (arith, procs.indexed other q there, procs.bounded) in
      let c = check_proc_alive-Checked s.shm q i small in
      let apart : (i == q.keep_index) ≡ false = ground (
        arith,
        ne,
        t.index,
        str_eq_iff other name,
        procs.apart other name q t.proc there t.found,
      ) in
      rw e (record {
        running = rw e at (watch_proc-IsRunning other s t.running);
        proc = t.proc;
        found =
            update_element-find-some other (λ _. (check_proc_alive s.shm q).1) name procs.is_table
              there
            ∙ ground (arith, ne, str_eq_iff other name, str_eq_iff name other, t.found);
        index = t.index;
        free = t.free;
        is_read = λ some_turn. ground (arith, c.oldcnt_is, c.cnt_is, apart, t.is_read some_turn);
        tries = λ some_turn. ground (arith, c.retry_is, apart, t.tries some_turn);
        dead = t.dead;
      })
]
