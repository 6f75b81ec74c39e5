-- ===== src/Controller/Process.antt =====
-- controller.c, lines 121 to 168 and 309 to 386: the engine starts a program and polls it every 100 ms.
-- Starting the program is the system's; what `waitpid` reports at each poll is an argument.
pub mod Timeout
use memory_mutation_testing.Base.{
  Bool, true, false, ℕ, zero, suc, ℤ, pos, negsuc, eqb_ℤ, if◌then◌else◌,
}

-- A poll: the child still runs, it ended with an exit status or by a signal, or `waitpid` failed.
pub data Wait : Type 0 where
  running : Wait
  exited : ℤ → Wait
  signalled : Wait
  failed : Wait

-- WAIT_MAX_IN_MS / SLEEP_UNIT_IN_MS
abbrev pub program_polls : ℕ
program_polls = 2000

abbrev pub make_polls : ℕ
make_polls = 3000

-- The loop: the first poll that is not `running`, with `n` polls left and `i` done.
unfoldable pub poll : ℕ → (ℕ → Wait) → ℕ → Wait
poll zero polls i = running
poll (suc n) polls i = elim (polls i) [
  | running ↦ poll n polls (suc i)
  | exited status ↦ exited status
  | signalled ↦ signalled
  | failed ↦ failed
]

-- What is returned after the loop, and whether SIGKILL was sent to the child.
pub record Ended : Type 0 where
  pub status : ℤ
  pub sigkill : Bool

-- After a timeout the child is killed and the result is 2; where `waitpid` failed, `unset` is what
-- `status` held before.
unfoldable pub result_of : ℤ → Wait → Ended
result_of unset running = record { status = pos 2; sigkill = true }
result_of unset (exited status) = record { status = status; sigkill = false }
result_of unset signalled = record { status = negsuc 0; sigkill = false }
result_of unset failed = record { status = unset; sigkill = false }

-- `status` starts as 0.
unfoldable pub startprogram : (ℕ → Wait) → Ended
unfolding poll result_of
startprogram polls = result_of (pos 0) (poll program_polls polls 0)

-- Here `status` is not initialised.
unfoldable pub start_make : ℤ → (ℕ → Wait) → Ended
unfolding poll result_of
start_make unset polls = result_of unset (poll make_polls polls 0)

-- 2 where `startMake` gives 2, and 0 for any other end of make.
unfoldable pub run_make : ℤ → (ℕ → Wait) → ℤ
run_make unset polls = if eqb_ℤ (start_make unset polls).status (pos 2) then pos 2 else pos 0
