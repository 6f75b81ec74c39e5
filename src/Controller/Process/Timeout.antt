-- ===== src/Controller/Process/Timeout.antt =====
-- When the engine takes a build for a failed injection.
use memory_mutation_testing.Base.{
  ℕ, zero, suc, ◌+◌, ◌<◌, ◌≡◌, refl, sym, ap, ◌∙◌, ◌≢◌, arith, ℤ, pos, eqb_ℤ, if◌then◌else◌, ◌⊎◌,
  inl, inr, true,
}
use mathlib.Core.Logic.{◌↔◌}
use native.Mathlib.Nat.{add-zero}
use memory_mutation_testing.Controller.Process.{
  Wait, running, exited, signalled, failed, poll, result_of, make_polls, program_polls, start_make,
  run_make, startprogram,
}

shift : (i j : ℕ) → suc i + j ≡ i + suc j
shift i j = omega arith

-- All polls from `i` on, `n` of them, find the child running.
abbrev StillRunning : (ℕ → Wait) → ℕ → ℕ → Type 0
StillRunning polls i n = (j : ℕ) → j < n → polls (i + j) ≡ running

poll_running :
    (n i : ℕ) (polls : ℕ → Wait) → polls i ≡ running → poll (suc n) polls i ≡ poll n polls (suc i)
unfolding poll
poll_running n i polls e = rw (e, poll) refl

poll_ended :
    (n i : ℕ) (polls : ℕ → Wait) (w : Wait) → polls i ≡ w → w ≢ running → poll (suc n) polls i ≡ w
unfolding poll
poll_ended n i polls running e ne = absurd (ne refl)
poll_ended n i polls (exited status) e ne = rw (e, poll) refl
poll_ended n i polls signalled e ne = rw (e, poll) refl
poll_ended n i polls failed e ne = rw (e, poll) refl

StillRunning-head : (polls : ℕ → Wait) (i n : ℕ) → StillRunning polls i (suc n) → polls i ≡ running
StillRunning-head polls i n r = rw (← add-zero i) (r 0 (omega arith))

StillRunning-tail :
    (polls : ℕ → Wait) (i n : ℕ) → StillRunning polls i (suc n) → StillRunning polls (suc i) n
StillRunning-tail polls i n r j h = ap polls (shift i j) ∙ r (suc j) (omega arith)

-- The loop ends with the first poll that does not find the child running.
poll_first :
    (n i j : ℕ) (polls : ℕ → Wait) (w : Wait)
    → j < n
    → StillRunning polls i j
    → polls (i + j) ≡ w
    → w ≢ running
    → poll n polls i ≡ w
poll_first zero i j polls w h r e ne = elim h [ ]
poll_first (suc n) i zero polls w h r e ne =
    poll_ended n i polls w (ap polls (sym (add-zero i)) ∙ e) ne
poll_first (suc n) i (suc j) polls w h r e ne =
    poll_running n i polls (StillRunning-head polls i j r)
    ∙ poll_first n (suc i) j polls w (omega arith) (StillRunning-tail polls i j r)
        (ap polls (shift i j) ∙ e) ne

poll_timeout : (n i : ℕ) (polls : ℕ → Wait) → StillRunning polls i n → poll n polls i ≡ running
unfolding poll
poll_timeout zero i polls r = refl
poll_timeout (suc n) i polls r =
    poll_running n i polls (StillRunning-head polls i n r)
    ∙ poll_timeout n (suc i) polls (StillRunning-tail polls i n r)

Wait-cases : (w : Wait) → (w ≡ running) ⊎ (w ≢ running)
Wait-cases running = inl refl
Wait-cases (exited status) = inr (λ e. cc)
Wait-cases signalled = inr (λ e. cc)
Wait-cases failed = inr (λ e. cc)

-- A loop that ends with a running child has found it running at every poll.
poll_running_all : (n i : ℕ) (polls : ℕ → Wait) → poll n polls i ≡ running → StillRunning polls i n
poll_running_all zero i polls e j h = absurd (omega arith)
poll_running_all (suc n) i polls e j h = elim (Wait-cases (polls i)) [
  | inr ended ↦ absurd (ended (sym (poll_ended n i polls (polls i) refl ended) ∙ e))
  | inl here ↦
      all_polls polls i j n here
        (poll_running_all n (suc i) polls (sym (poll_running n i polls here) ∙ e)) h
]
  where
    all_polls :
        (polls : ℕ → Wait) (i j n : ℕ)
        → polls i ≡ running
        → StillRunning polls (suc i) n
        → j < suc n
        → polls (i + j) ≡ running
    all_polls polls i zero n here later h = ap polls (add-zero i) ∙ here
    all_polls polls i (suc j) n here later h = ap polls (sym (shift i j)) ∙ later j (omega arith)

StillRunning-all :
    (polls : ℕ → Wait) (n : ℕ) → StillRunning polls 0 n → (i : ℕ) → i < n → polls i ≡ running
StillRunning-all polls n r i h = ap polls (omega arith) ∙ r i h

-- Only a child that still runs is killed.
sigkill_running : (unset : ℤ) (w : Wait) → (result_of unset w).sigkill ≡ true → w ≡ running
unfolding result_of
sigkill_running unset running e = refl
sigkill_running unset (exited status) e = absurd (cc)
sigkill_running unset signalled e = absurd (cc)
sigkill_running unset failed e = absurd (cc)

StillRunning-start :
    (polls : ℕ → Wait) (n : ℕ) → ((j : ℕ) → j < n → polls j ≡ running) → StillRunning polls 0 n
StillRunning-start polls n r j h = ap polls (omega arith) ∙ r j h

module _ (polls : ℕ → Wait) where
  -- A program that is found ended by one of the first 2000 polls, and running by those before it,
  -- gives its exit status.
  startprogram_ended :
      (j : ℕ) (status : ℤ)
      → j < program_polls
      → ((i : ℕ) → i < j → polls i ≡ running)
      → polls j ≡ exited status
      → (startprogram polls).status ≡ status
  unfolding startprogram
  startprogram_ended j status h r e =
      ap (λ w. (result_of (pos 0) w).status)
        (poll_first program_polls 0 j polls (exited status) h (StillRunning-start polls j r)
          (ap polls (omega arith) ∙ e) (λ x. cc))

  -- A program that 2000 polls find running gives 2, whatever its exit status would have been.
  startprogram_timeout :
      ((i : ℕ) → i < program_polls → polls i ≡ running) → (startprogram polls).status ≡ pos 2
  unfolding startprogram
  startprogram_timeout r =
      ap (λ w. (result_of (pos 0) w).status)
        (poll_timeout program_polls 0 polls (StillRunning-start polls _ r))

  module _ (unset : ℤ) where
    -- A build that is found ended by one of the first 3000 polls, and running by those before it,
    -- counts as failed, with the result 2, exactly when make exits with status 2; every other exit
    -- status counts as success.
    pub run_make_ended :
        (j : ℕ) (status : ℤ)
        → j < make_polls
        → ((i : ℕ) → i < j → polls i ≡ running)
        → polls j ≡ exited status
        → run_make unset polls ≡ (if eqb_ℤ status (pos 2) then pos 2 else pos 0)
    unfolding run_make start_make
    run_make_ended j status h r e =
        ap (λ w. if eqb_ℤ (result_of unset w).status (pos 2) then pos 2 else pos 0)
          (poll_first make_polls 0 j polls (exited status) h (StillRunning-start polls j r)
            (ap polls (omega arith) ∙ e) (λ x. cc))

    -- SIGKILL is sent to make exactly when all 3000 polls find it running, and then the build counts
    -- as failed, with the result 2.
    pub run_make_timeout :
        (((start_make unset polls).sigkill ≡ true) ↔ ((i : ℕ) → i < make_polls → polls i ≡ running))
        × ((start_make unset polls).sigkill ≡ true → run_make unset polls ≡ pos 2)
    unfolding run_make start_make
    run_make_timeout = (
      (
        λ e i h.
            StillRunning-all polls make_polls
              (poll_running_all make_polls 0 polls (sigkill_running unset _ e)) i h,
        λ r.
            ap (λ w. (result_of unset w).sigkill)
              (poll_timeout make_polls 0 polls (StillRunning-start polls _ r)),
      ),
      λ e.
          ap (λ w. if eqb_ℤ (result_of unset w).status (pos 2) then pos 2 else pos 0)
            (sigkill_running unset (poll make_polls polls 0) e),
    )
