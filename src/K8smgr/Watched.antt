-- ===== src/K8smgr/Watched.antt =====
-- A process of src/proc_a/main.c or src/proc_b/main.c under the timer of the manager,
-- `check_proc_alive` of src/k8smgr/main.c.
use k8s.Proc.{loop, memory, main}
use k8s.Common.{
  ℕ, zero, suc, ◌+◌, ◌<◌, ◌≡◌, refl, ap, ◌∙◌, ◌↔◌, ◌⊎◌, List, [], ◌∷◌, arith, pos, true, ℤ, negsuc,
  is_neg,
}
use mathlib.Core.Path.{fun_ext}
use k8s.K8smgr.{sysconf_max_appl_num, Keepalive, update, ProcCtx, increase}
use k8s.K8smgr.Alive.{check_proc_alive}
use k8s.K8smgr.Hang.{tick, ticks, judge-keep_index, ticks-hang}

-- The turns of the timer; before each the process goes through its loop that often, or through none
-- where `keepalivelib_init` returned a number below 0. The loop keeps nothing but the memory, so going
-- on with it is going through it.
unfoldable pub watched : ℤ → List ℕ → Keepalive × ProcCtx → Keepalive × ProcCtx
watched init [] s = s
watched init (n ∷ ns) (k, p) =
    watched init ns (check_proc_alive (memory (main (increase p.keep_index) init n k)) p)

-- How often a process goes through its loop.
abbrev pub rounds : ℤ → ℕ → ℕ
rounds (pos i) n = n
rounds (negsuc i) n = 0

main-rounds :
    (init : ℤ) (i n : ℕ) (k : Keepalive)
    → memory (main (increase i) init n k) ≡ loop (increase i) (rounds init n) k
unfolding main loop
main-rounds (pos m) i n k = refl
main-rounds (negsuc m) i n k = refl

-- The readings of a counter that starts at `v`.
abbrev readings : ℤ → ℕ → List ℕ → List ℕ
readings init v [] = []
readings init v (n ∷ ns) = (v + rounds init n) ∷ readings init (v + rounds init n) ns

loop-increase :
    (i n : ℕ) (k : Keepalive)
    → loop (increase i) n k ≡ record k { cnt = update k.cnt i (k.cnt i + n) }
unfolding loop
loop-increase i zero k = ap (λ c. record k { cnt = c }) (fun_ext λ j. ground arith)
loop-increase i (suc n) k =
    loop-increase i n (increase i k) ∙ ap (λ c. record k { cnt = c }) (fun_ext λ j. ground arith)

turn-tick :
    (init : ℤ) (n : ℕ) (k : Keepalive) (p : ProcCtx)
    → check_proc_alive (memory (main (increase p.keep_index) init n k)) p
      ≡ tick (k.cnt p.keep_index + rounds init n) (k, p)
unfolding tick
turn-tick init n k p =
    ap (λ m. check_proc_alive m p)
      (main-rounds init p.keep_index n k ∙ loop-increase p.keep_index (rounds init n) k)

tick-reading :
    (v : ℕ) (k : Keepalive) (p : ProcCtx)
    → p.keep_index < sysconf_max_appl_num
    → ((tick v (k, p)).1.keep_index ≡ p.keep_index) × ((tick v (k, p)).0.cnt p.keep_index ≡ v)
unfolding tick check_proc_alive
tick-reading v k p small = grind (arith, judge-keep_index)

watched-ticks :
    (init : ℤ) (ns : List ℕ) (k : Keepalive) (p : ProcCtx)
    → p.keep_index < sysconf_max_appl_num
    → watched init ns (k, p) ≡ ticks (readings init (k.cnt p.keep_index) ns) (k, p)
unfolding watched ticks
watched-ticks init [] k p small = refl
watched-ticks init (n ∷ ns) k p small =
    let v = k.cnt p.keep_index + rounds init n in
    let s = tick v (k, p) in
    let (index, reading) = tick-reading v k p small in
    ap (watched init ns) (turn-tick init n k p)
    ∙ watched-ticks init ns s.0 s.1 (rw index small)
    ∙ ap (λ u. ticks (readings init u ns) s) (ap s.0.cnt index ∙ reading)

same_readings :
    (init : ℤ) (v b c d : ℕ)
    → let n = rounds init in
      ((v ≡ v + n b) × (v + n b ≡ v + n b + n c) × (v + n b + n c ≡ v + n b + n c + n d))
      ↔ ((is_neg init ≡ true) ⊎ (b + c + d ≡ 0))
same_readings (pos i) v b c d = ground arith
same_readings (negsuc i) v b c d = ground arith

-- A process that is not forced is taken for dead, after four turns of its timer, exactly where it
-- has not been through its loop since the first of them, or never was, since `keepalivelib_init`
-- returned a number below 0; else it is taken for alive.
pub watched-hang :
    (init : ℤ) (k : Keepalive) (p : ProcCtx) (a b c d : ℕ)
    → p.keep_index < sysconf_max_appl_num
    → p.force_status ≡ 0
    → let q = (watched init (a ∷ b ∷ c ∷ d ∷ []) (k, p)).1 in
      ((q.alive_status ≡ pos 0) ↔ ((is_neg init ≡ true) ⊎ (b + c + d ≡ 0)))
      × ((q.alive_status ≡ pos 0) ⊎ (q.alive_status ≡ pos 1))
watched-hang init k p a b c d small free =
    let n = rounds init in
    let v = k.cnt p.keep_index in
    let h =
      ticks-hang k p (v + n a) (v + n a + n b) (v + n a + n b + n c) (v + n a + n b + n c + n d)
        small free in
    rw (watched-ticks init (a ∷ b ∷ c ∷ d ∷ []) k p small)
      (ground (arith, h, same_readings init (v + n a) b c d))
