-- ===== src/K8smgr/System/Beat.antt =====
-- `check_proc_alive` of src/k8smgr/main.c, turn by turn, for processes that count up.
use mathlib.Core.Option.{some-injective}
use k8s.K8smgr.System.Stuck.{turned, new_retry, check_proc_alive-Checked, watch_proc-turned}
use k8s.Common.{
  Bytes, ℕ, ◌+◌, ◌≤◌, ◌<◌, ◌≡◌, ◌≢◌, inl, inr, Bool, true, false, some, arith, pos, ◌==◌,
  if◌then◌else◌, Bool-cases, refl, sym, ap, ◌∙◌, str_eq, str_eq_iff, Option-cases, none,
}
use k8s.Elem.Lookup.{find, update_element-find-some}
use k8s.K8smgr.{sysconf_max_appl_num, Keepalive, update, ProcCtx, MainCtx, ProcList}
use k8s.K8smgr.Alive.{check_proc_alive}
use k8s.K8smgr.System.{System, watch_proc}
use k8s.K8smgr.System.Safety.{IsRunning, watch_proc-IsRunning}
use k8s.K8smgr.Hang.{judge-keep_index, judge-free}

-- Of each process: whether it has counted up since the last turn of its timer, and whether its timer
-- has had a turn at all.
pub record Marks : Type 0 where
  pub fresh : Bytes → Bool
  pub seen : Bytes → Bool

-- The process of index `i` has counted up.
abbrev pub mark_count : (Bytes → ℕ) → ℕ → Marks → Marks
mark_count index i m = record m { fresh = λ k. if index k == i then true else m.fresh k }

-- The timer of a process has had its turn.
abbrev pub mark_turn : Bytes → Marks → Marks
mark_turn name m = record {
  fresh = λ k. if str_eq k name then false else m.fresh k;
  seen = λ k. if str_eq k name then true else m.seen k;
}

-- A process that is not forced to fail, and alive once its timer has had a turn.
pub record IsBeating (k : Keepalive) (is_fresh is_seen : Bool) (i : ℕ) (p : ProcCtx) : Type 0 where
  pub index : p.keep_index ≡ i
  pub alive : is_seen ≡ true → p.alive_status ≡ pos 1
  pub free : p.force_status ≡ 0
  pub behind : k.oldcnt i ≤ k.cnt i
  pub counted : is_fresh ≡ true → k.oldcnt i < k.cnt i

-- The processes, those of the list `start` at most.
pub record AllBeating (num : ℕ) (start : ProcList) (index : Bytes → ℕ) (m : Marks) (s : System)
    : Type 0 where
  pub running : IsRunning num s
  pub not_forced : s.ctx.force_not_ready ≡ 0
  pub known : (name : Bytes) → find start name ≡ none → find s.ctx.proc_list name ≡ none
  pub each :
      (name : Bytes) (p : ProcCtx)
      → find s.ctx.proc_list name ≡ some p
      → IsBeating s.shm (m.fresh name) (m.seen name) (index name) p

pub count_up-IsBeating :
    (k : Keepalive) (f seen : Bool) (i j : ℕ) (p : ProcCtx)
    → IsBeating k f seen i p
    → IsBeating
        (record k { cnt = update k.cnt j (k.cnt j + 1) })
        (if i == j then true else f)
        seen
        i
        p
count_up-IsBeating k f seen i j p b = record {
  index = b.index;
  alive = b.alive;
  free = b.free;
  behind = ground (arith, b.behind);
  counted = λ e. elim (Bool-cases (i == j)) [
    | inl same ↦ ground (arith, same, b.behind)
    | inr other ↦ ground (arith, other, b.counted, e)
  ];
}

-- The turn of the timer of a process that counted up.
own-IsBeating :
    (k : Keepalive) (seen : Bool) (i : ℕ) (p : ProcCtx)
    → i < sysconf_max_appl_num
    → IsBeating k true seen i p
    → IsBeating (check_proc_alive k p).0 false true i (check_proc_alive k p).1
own-IsBeating k seen i p small b =
    let counted = b.counted refl in
    let c = check_proc_alive-Checked k p i (ground (arith, small, b.index)) in
    let retry : new_retry k p ≡ 0 = ground (arith, b.index, counted) in
    let same : i ≡ p.keep_index = sym b.index in
    let judged = judge-free (new_retry k p) p b.free in
    record {
      index =
          ap (λ (q : ProcCtx). q.keep_index) c.proc_is
          ∙ judge-keep_index (new_retry k p) p
          ∙ b.index;
      alive = λ _. ap (λ (q : ProcCtx). q.alive_status) c.proc_is ∙ judged.1 ∙ rw retry refl;
      free = ap (λ (q : ProcCtx). q.force_status) c.proc_is ∙ judged.0;
      behind = ground (arith, c.oldcnt_is, c.cnt_is, same);
      counted = λ e. absurd (cc e);
    }

-- The turn of the timer of another process.
other-IsBeating :
    (k : Keepalive) (f seen : Bool) (i : ℕ) (p q : ProcCtx)
    → q.keep_index < sysconf_max_appl_num
    → i ≢ q.keep_index
    → IsBeating k f seen i p
    → IsBeating (check_proc_alive k q).0 f seen i p
other-IsBeating k f seen i p q small apart b =
    let c = check_proc_alive-Checked k q i small in
    record {
      index = b.index;
      alive = b.alive;
      free = b.free;
      behind = ground (arith, c.oldcnt_is, c.cnt_is, apart, b.behind);
      counted = λ e. ground (arith, c.oldcnt_is, c.cnt_is, apart, b.counted e);
    }

module _ {num : ℕ} {start : ProcList} (index : Bytes → ℕ) (m : Marks) (s : System)
    (b : AllBeating num start index m s) where
  watch_each :
      (name : Bytes) (q : ProcCtx)
      → m.fresh name ≡ true
      → find s.ctx.proc_list name ≡ some q
      → (k : Bytes) (p : ProcCtx) → find (turned name q s).ctx.proc_list k ≡ some p
      → IsBeating
          (turned name q s).shm
          ((mark_turn name m).fresh k)
          ((mark_turn name m).seen k)
          (index k)
          p
  watch_each name q f found k p e =
      let procs = b.running.procs in
      let at =
        update_element-find-some name (λ _. (check_proc_alive s.shm q).1) k procs.is_table found in
      let bq = b.each name q found in
      elim (Bool-cases (str_eq k name)) [
        | inl own ↦
            let k_is : k ≡ name = (str_eq_iff k name).0 own in
            let p_is = some-injective (check_proc_alive s.shm q).1 p (ground (arith, at, own, e)) in
            let small : index name < sysconf_max_appl_num =
              ground (arith, procs.indexed name q found, procs.bounded, bq.index) in
            rw (own, k_is, ← p_is)
              (own-IsBeating s.shm (m.seen name) (index name) q small (rw f at bq))
        | inr other ↦
            let old : find s.ctx.proc_list k ≡ some p = ground (arith, at, other, e) in
            let bp = b.each k p old in
            let apart : index k ≢ q.keep_index = λ same. absurd (
              ground (
                arith,
                other,
                str_eq_iff k name,
                procs.apart k name p q old found (bp.index ∙ same),
              )) in
            let small : q.keep_index < sysconf_max_appl_num =
              omega (arith, procs.indexed name q found, procs.bounded) in
            rw other (other-IsBeating s.shm (m.fresh k) (m.seen k) (index k) p q small apart bp)
      ]

  pub watch-AllBeating :
      (name : Bytes)
      → m.fresh name ≡ true
      → AllBeating num start index (mark_turn name m) (watch_proc name s)
  watch-AllBeating name f = elim (Option-cases (find s.ctx.proc_list name)) [
    | inl none_there ↦
        unfold watch_proc in
        rw (watch_proc, none_there)
          (record {
            running = b.running;
            not_forced = b.not_forced;
            known = b.known;
            each = λ k p e.
                let other : str_eq k name ≡ false =
                  ground (arith, none_there, e, str_eq_iff k name) in
                rw other (b.each k p e);
          })
    | inr (q, there) ↦
        let e = watch_proc-turned name q s there in
        let at = λ (k : Bytes).
          update_element-find-some name (λ _. (check_proc_alive s.shm q).1) k
            b.running.procs.is_table there in
        rw e (record {
          running = rw e at (watch_proc-IsRunning name s b.running);
          not_forced = b.not_forced;
          known = λ k new. ground (arith, at k, b.known k new, there, str_eq_iff k name);
          each = watch_each name q f there;
        })
  ]

  -- A context that differs in nothing that concerns the processes.
  pub same_beating :
      (ctx : MainCtx)
      → IsRunning num (record s { ctx = ctx })
      → ctx.proc_list ≡ s.ctx.proc_list
      → ctx.force_not_ready ≡ s.ctx.force_not_ready
      → AllBeating num start index m (record s { ctx = ctx })
  same_beating ctx running procs force = record {
    running = running;
    not_forced = force ∙ b.not_forced;
    known = λ k new. rw procs (b.known k new);
    each = λ k p e. b.each k p (rw⁻¹ procs e);
  }
