-- ===== src/Scheduler/Order.antt =====
-- src/cpprealm/schedulers/default_scheduler.cpp: order, wake-ups and closing, in every interleaving.
use realm_cpp.Prelude.{
  ◌≡◌, refl, sym, ap, ◌∙◌, ◌⊎◌, inl, inr, List, [], ◌∷◌, ◌++◌, append-nil, append_assoc, true,
  Bool-cases, false, length, replicate, arith, Bool, not, ◌&&◌, some,
}
use realm_cpp.Scheduler.{
  Scheduler, Event, invokes, destroys, wakes, calls, invoke, destroy, wake, call_next, step, run,
  on_async, on_close, swap_queue, is_empty, make_uv, posted, posted_by,
}

module _ {ℓ} {Task : Type ℓ} where
  -- What was called, then what is about to be, then what was deleted, then what waits.
  abbrev pub accepted : Scheduler Task → List Task
  accepted s = s.invoked ++ (s.functions ++ (s.deleted ++ s.m_functions))

  pub record Inv (s : Scheduler Task) : Type ℓ where
    pub signalled : (s.m_functions ≡ []) ⊎ ((s.pending ≡ true) ⊎ (s.closed ≡ true))
    pub quiet : s.closed ≡ true → s.functions ≡ []
    pub closing : s.closed ≡ true → s.close_requested ≡ true
    pub released : s.close_requested ≡ true → s.owned ≡ false
    pub kept : s.closed ≡ false → s.deleted ≡ []
    pub emptied : s.closed ≡ true → s.m_functions ≡ []

  accepted-call_next :
      (s : Scheduler Task) (fs : List Task)
      → s.functions ≡ fs
      → accepted (call_next s fs) ≡ accepted s
  unfolding call_next
  accepted-call_next s [] e = refl
  accepted-call_next s (fn ∷ rest) e = simp (e, append_assoc)

  accepted-on_async :
      (s : Scheduler Task) → s.functions ≡ [] → s.deleted ≡ [] → accepted (on_async s) ≡ accepted s
  unfolding on_async swap_queue on_close
  accepted-on_async s f d = elim (Bool-cases s.close_requested) [
    | inl c ↦ rw c (simp (f, append-nil))
    | inr c ↦ rw c (simp (f, d, append-nil))
  ]

  accepted-wake : (s : Scheduler Task) → Inv s → accepted (wake s) ≡ accepted s
  unfolding wake
  accepted-wake s v = elim (Bool-cases (s.pending && (not s.closed && is_empty s.functions))) [
    | inl w ↦ rw w (accepted-on_async (record s { pending = false }) (ground arith) (ground arith))
    | inr w ↦ rw w refl
  ]

  accepted-step :
      (s : Scheduler Task) (e : Event Task)
      → Inv s
      → accepted (step s e) ≡ accepted s ++ posted_by s e
  unfolding step
  accepted-step s (invokes fn) v = elim (Bool-cases s.owned) [
    | inl o ↦ rw o (unfold invoke in simp append_assoc)
    | inr o ↦ rw o (simp append-nil)
  ]
  accepted-step s destroys v = unfold destroy in ground (arith, append-nil (accepted s))
  accepted-step s wakes v = accepted-wake s v ∙ sym (append-nil (accepted s))
  accepted-step s calls v = accepted-call_next s s.functions refl ∙ sym (append-nil (accepted s))

  call_next-Inv :
      (s : Scheduler Task) (fs : List Task) → s.functions ≡ fs → Inv s → Inv (call_next s fs)
  unfolding call_next
  call_next-Inv s [] e v = v
  call_next-Inv s (fn ∷ rest) e v = ground arith

  step-Inv : (s : Scheduler Task) (e : Event Task) → Inv s → Inv (step s e)
  unfolding step invoke destroy wake
  step-Inv s (invokes fn) v = ground arith
  step-Inv s destroys v = ground arith
  step-Inv s wakes v = ground arith
  step-Inv s calls v = call_next-Inv s s.functions refl v

  -- Every event keeps the invariant: what waits has been signalled unless the handle is closed, a
  -- closed handle runs nothing, and a close is requested only when the scheduler is destroyed.
  pub run-Inv : (s : Scheduler Task) (es : List (Event Task)) → Inv s → Inv (run s es)
  unfolding run
  run-Inv s [] v = v
  run-Inv s (e ∷ es) v = run-Inv (step s e) es (step-Inv s e v)

  accepted-run_from :
      (s : Scheduler Task) (es : List (Event Task))
      → Inv s
      → accepted (run s es) ≡ accepted s ++ posted s es
  unfolding run posted
  accepted-run_from s [] v = sym (append-nil (accepted s))
  accepted-run_from s (e ∷ es) v =
      accepted-run_from (step s e) es (step-Inv s e v)
      ∙ ap (λ (l : List Task). l ++ posted (step s e) es) (accepted-step s e v)
      ∙ append_assoc (accepted s) (posted_by s e) (posted (step s e) es)

  make_uv-new :
      (init_failed : Bool) (s : Scheduler Task)
      → make_uv init_failed ≡ some s
      → Inv s × (accepted s ≡ [])
  unfolding make_uv
  make_uv-new true s e = cc
  make_uv-new false s e = ground arith

  -- Whatever the interleaving of the threads, what a scheduler that was made does with the
  -- functions posted to it is determined: those that were called, then those that are about to be
  -- called, then those that were deleted with the handle's data, then those that wait are the
  -- functions posted, each once and in the order in which they were posted. And nothing is deleted
  -- unless the handle is closed, after which nothing waits and nothing is about to be called.
  pub accepted-run :
      (init_failed : Bool) (s : Scheduler Task)
      → make_uv init_failed ≡ some s
      → (es : List (Event Task))
      → (accepted (run s es) ≡ posted s es)
        × ((((run s es).closed ≡ false) × ((run s es).deleted ≡ []))
            ⊎ (((run s es).closed ≡ true)
                × ((run s es).m_functions ≡ [])
                × ((run s es).functions ≡ [])))
  accepted-run init_failed s made es =
      let (v, none_yet) = make_uv-new init_failed s made in
      let w = run-Inv s es v in
      (
        accepted-run_from s es v ∙ ap (λ (l : List Task). l ++ posted s es) none_yet,
        elim (Bool-cases (run s es).closed) [
          | inl c ↦ inr (c, w.emptied c, w.quiet c)
          | inr c ↦ inl (c, w.kept c)
        ],
      )

  run-append :
      (s : Scheduler Task) (es fs : List (Event Task)) → run s (es ++ fs) ≡ run (run s es) fs
  unfolding run
  run-append s [] fs = refl
  run-append s (e ∷ es) fs = run-append (step s e) es fs

  abbrev ran : Scheduler Task → List Task → Scheduler Task
  ran s l = record s { functions = []; invoked = l }

  -- Enough rounds of invoke_all call everything that its local vector holds, in order.
  run-calls :
      (s : Scheduler Task) (fs : List Task)
      → s.functions ≡ fs
      → run s (replicate (length fs) calls) ≡ ran s (s.invoked ++ fs)
  unfolding run step call_next
  run-calls s [] e =
      ap (λ (l : List Task). record s { functions = l }) e ∙ ap (ran s) (sym (append-nil s.invoked))
  run-calls s (fn ∷ rest) e =
      ap (λ (l : List Task). run (call_next s l) (replicate (length rest) calls)) e
      ∙ run-calls (call_next s (fn ∷ rest)) rest refl
      ∙ ap (λ (l : List Task). ran s l) (append_assoc s.invoked (fn ∷ []) rest)

  -- The events after which nothing waits: finish the running vector, wake, and run the queue.
  abbrev pub drain : Scheduler Task → List (Event Task)
  drain s = replicate (length s.functions) calls ++ wakes ∷ replicate (length s.m_functions) calls

  wake-ready :
      (s : Scheduler Task)
      → s.functions ≡ []
      → s.closed ≡ false
      → s.close_requested ≡ false
      → (s.m_functions ≡ []) ⊎ (s.pending ≡ true)
      → ((wake s).functions ≡ s.m_functions)
        × ((wake s).m_functions ≡ [])
        × ((wake s).invoked ≡ s.invoked)
  unfolding wake
  wake-ready s f c r p = ground arith

  -- A state in which the loop has woken and runs all that waited.
  abbrev woken : Scheduler Task → Scheduler Task
  woken s = wake (ran s (s.invoked ++ s.functions))

  woken_lem :
      (s : Scheduler Task)
      → Inv s
      → s.close_requested ≡ false
      → ((woken s).functions ≡ s.m_functions)
        × ((woken s).m_functions ≡ [])
        × ((woken s).invoked ≡ s.invoked ++ s.functions)
  woken_lem s v r =
      wake-ready (ran s (s.invoked ++ s.functions)) refl (ground arith) r (ground arith)

  run-drain :
      (s : Scheduler Task)
      → Inv s
      → s.close_requested ≡ false
      → run s (drain s) ≡ ran (woken s) ((woken s).invoked ++ s.m_functions)
  unfolding run step
  run-drain s v r =
      run-append s (replicate (length s.functions) calls) _
      ∙ ap (λ (t : Scheduler Task). run t (wakes ∷ replicate (length s.m_functions) calls))
          (run-calls s s.functions refl)
      ∙ run-calls (woken s) s.m_functions (woken_lem s v r).0

  drain-run_from :
      (s : Scheduler Task)
      → Inv s
      → s.close_requested ≡ false
      → ((run s (drain s)).invoked ≡ accepted s)
        × ((run s (drain s)).functions ≡ [])
        × ((run s (drain s)).m_functions ≡ [])
  drain-run_from s v r = rw (run-drain s v r) (
    ap (λ (l : List Task). l ++ s.m_functions) (woken_lem s v r).2
        ∙ append_assoc s.invoked s.functions s.m_functions
        ∙ ap (λ (l : List Task). s.invoked ++ (s.functions ++ (l ++ s.m_functions)))
            (sym (v.kept (ground arith))),
    refl,
    (woken_lem s v r).1,
  )

  -- No wake-up is lost. After any interleaving of events on a scheduler that was made, as long as
  -- no close has been asked for, the loop catches up: it finishes the functions that it is
  -- running, is woken once, and calls what it finds. Then every function posted has been called,
  -- in the order in which they were posted, and none is about to be called or waits.
  pub drain-run :
      (init_failed : Bool) (s : Scheduler Task)
      → make_uv init_failed ≡ some s
      → (es : List (Event Task)) → (run s es).close_requested ≡ false
      → ((run (run s es) (drain (run s es))).invoked ≡ posted s es)
        × ((run (run s es) (drain (run s es))).functions ≡ [])
        × ((run (run s es) (drain (run s es))).m_functions ≡ [])
  drain-run init_failed s made es still_open =
      let (v, none_yet) = make_uv-new init_failed s made in
      let caught_up = drain-run_from (run s es) (run-Inv s es v) still_open in
      (caught_up.0 ∙ (accepted-run init_failed s made es).0, caught_up.1, caught_up.2)
