-- ===== src/Proc.antt =====
-- `main` of src/proc_a/main.c and src/proc_b/main.c, which only count up in shared memory. The
-- keepalive library is a parameter: what its start returned, and what a call of
-- `keepalivelib_increase` does to the memory.
use k8s.Common.{ℕ, zero, suc, ℤ, pos, negsuc}

-- The process has returned from `main`, or it is still in its loop.
pub data Ran (S : Type 0) : Type 0 where
  exits : ℤ → S → Ran S
  loops : S → Ran S

module _ {S : Type 0} (keepalivelib_increase : S → S) where
  -- The loop, which ends with the process only; a round takes a second.
  unfoldable pub loop : ℕ → S → S
  loop zero s = s
  loop (suc n) s = loop n (keepalivelib_increase s)

  unfoldable pub main : ℤ → ℕ → S → Ran S
  main (negsuc _) rounds s = exits (negsuc 0) s
  main (pos _) rounds s = loops (loop rounds s)

-- The memory that a process leaves, or has by now.
abbrev pub memory : {S : Type 0} → Ran S → S
memory (exits status s) = s
memory (loops s) = s
