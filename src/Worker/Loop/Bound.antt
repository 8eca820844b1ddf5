-- ===== src/Worker/Loop/Bound.antt =====
-- How many messages the processing loop finishes.
use touch_connect.Prelude.{
  ℕ, ◌+◌, ◌-◌, ◌≤◌, ◌<◌, pos, true, false, not, ◌&&◌, List, [], ◌∷◌, All, length, ◌≡◌, ◌≢◌, ◌⊎◌,
  refl, arith, inl, inr, Bool-cases, if◌then◌else◌,
}
use touch_connect.Worker.Errors.{WorkerError}
use touch_connect.Worker.Work.{Ports, Runtime, Returned-cases}
use touch_connect.Worker.Loop.{
  LoopOptions, ProcessResult, Look, quiet, stopped, heartbeat_failed, Round, LoopEnd, returns_nil,
  returns_error, runs_on, process_next, max_messages_reached, run_processing_loop,
}

-- The results that were not dropped.
unfoldable pub finished : List ProcessResult → ℕ
finished [] = 0
finished (x ∷ xs) = (if x.dropped then 0 else 1) + finished xs

Look-cases :
    (l : Look) → (l ≡ quiet) ⊎ ((l ≡ stopped) ⊎ ((e : WorkerError) × (l ≡ heartbeat_failed e)))
Look-cases quiet = inl refl
Look-cases stopped = inr (inl refl)
Look-cases (heartbeat_failed e) = inr (inr (e, refl))

module _ {S : Type 0} (p : Ports S) (options : LoopOptions) (max : ℕ)
    (limited : options.max_messages ≡ pos max) (positive : 0 < max) where
  -- What one run of the loop, after `processed` results, comes to.
  abbrev Bounded : ℕ → List Round → LoopEnd × List ProcessResult × Runtime S → Type 0
  Bounded processed rounds outcome =
      (finished outcome.1 ≤ 1 + (max - 1 - processed))
      × (outcome.0 ≡ returns_nil
          → All (λ (round : Round). round.before ≢ stopped) rounds
          → max ≤ processed + length outcome.1)

  -- Nothing more is logged, and the loop does not return without an error.
  Bounded-end :
      (processed : ℕ) (rounds : List Round) (end : LoopEnd) (r : Runtime S)
      → end ≢ returns_nil
      → Bounded processed rounds (end, [], r)
  unfolding finished
  Bounded-end processed rounds end r running = (omega arith, λ e. absurd (running e))

  Bounded-logged :
      (processed : ℕ) (rounds : List Round) (result : ProcessResult)
      (rest : LoopEnd × List ProcessResult × Runtime S)
      → (not result.dropped && max_messages_reached (processed + 1) options.max_messages) ≡ false
      → Bounded (processed + 1) rounds rest
      → Bounded processed rounds (rest.0, result ∷ rest.1, rest.2)
  unfolding finished max_messages_reached
  Bounded-logged processed rounds result rest goes_on b =
      (ground (arith, b.0, limited, goes_on), λ e all. omega (arith, b.1 e all))

  Bounded-last :
      (processed : ℕ) (rounds : List Round) (result : ProcessResult) (r : Runtime S)
      → (not result.dropped && max_messages_reached (processed + 1) options.max_messages) ≡ true
      → Bounded processed rounds (returns_nil, result ∷ [], r)
  unfolding finished max_messages_reached
  Bounded-last processed rounds result r reached =
      (ground arith, λ e all. ground (arith, limited, reached))

  run_processing_loop-Bounded :
      (rounds : List Round) (processed : ℕ) (r : Runtime S)
      → Bounded processed rounds (run_processing_loop p options rounds processed r)
  unfolding run_processing_loop
  run_processing_loop-Bounded [] processed r = Bounded-end processed [] runs_on r (λ e. cc)
  run_processing_loop-Bounded (round ∷ rounds) processed r =
      let next = process_next p r in
      elim (Look-cases round.before) [
        | inr (inl e) ↦
            rw (e, run_processing_loop)
              (unfold finished in (omega arith, λ h all. absurd (all.0 refl)))
        | inr (inr (x, e)) ↦
            rw (e, run_processing_loop)
              (let b = Bounded-end processed rounds (returns_error x) r (λ h. cc) in
                (b.0, λ h all. b.1 h all.1))
        | inl e ↦ elim (Returned-cases next.0) [
          | inr (x, failed) ↦
              rw (e, failed, run_processing_loop)
                (let b = Bounded-end processed rounds (returns_error x) next.1 (λ h. cc) in
                  (b.0, λ h all. b.1 h all.1))
          | inl (result, worked) ↦ elim (Bool-cases result.empty) [
            | inl none_found ↦
                let b = run_processing_loop-Bounded rounds processed next.1 in
                elim (Look-cases round.waiting) [
                  | inl w ↦
                      rw (e, worked, none_found, w, run_processing_loop) (b.0, λ h all. b.1 h all.1)
                  | inr (inl w) ↦
                      rw (e, worked, none_found, w, run_processing_loop) (b.0, λ h all. b.1 h all.1)
                  | inr (inr (x, w)) ↦
                      rw (e, worked, none_found, w, run_processing_loop)
                        (let b = Bounded-end processed rounds (returns_error x) next.1 (λ h. cc) in
                          (b.0, λ h all. b.1 h all.1))
                ]
            | inr some_found ↦
                elim (Bool-cases (
                  not result.dropped
                  && max_messages_reached (processed + 1) options.max_messages)) [
                    | inl reached ↦
                        let b = Bounded-last processed rounds result next.1 reached in
                        rw (e, worked, some_found, reached, run_processing_loop)
                          (b.0, λ h all. b.1 h all.1)
                    | inr goes_on ↦
                        let b =
                          Bounded-logged processed rounds result
                            (run_processing_loop p options rounds (processed + 1) next.1) goes_on
                            (run_processing_loop-Bounded rounds (processed + 1) next.1) in
                        rw (e, worked, some_found, goes_on, run_processing_loop)
                          (b.0, λ h all. b.1 h all.1)
                  ]
          ]
        ]
      ]

  -- Under a limit of `max` messages the loop finishes `max` at most, those that are dropped not
  -- counted; and where it returns without an error and was not told to stop, it has processed `max`
  -- at least, with those that were dropped.
  pub run_processing_loop_bound :
      (rounds : List Round) (r : Runtime S)
      → (finished (run_processing_loop p options rounds 0 r).1 ≤ max)
        × ((run_processing_loop p options rounds 0 r).0 ≡ returns_nil
            → All (λ (round : Round). round.before ≢ stopped) rounds
            → max ≤ length (run_processing_loop p options rounds 0 r).1)
  run_processing_loop_bound rounds r =
      let b = run_processing_loop-Bounded rounds 0 r in
      (omega (arith, b.0), λ e all. omega (arith, b.1 e all))
