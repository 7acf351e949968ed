-- ===== src/Concurrency/ThreadPool/Stops.antt =====
-- What every run of a thread pool keeps, and what holds when its destructor returns.
use mathlib.Core.List.{append_assoc, append-nil}
use lattice_flow.Base.{
  ℕ, suc, ◌+◌, ◌-◌, ◌≤◌, ◌<◌, ◌≡◌, refl, sym, ◌∙◌, ap, Option, none, some, List, [], ◌∷◌, ◌++◌,
  arith, subst, ◌⊎◌, zero_or_positive, List-cases, inl, inr,
}
use lattice_flow.Concurrency.Queue.{push, pop}
use lattice_flow.Concurrency.ThreadPool.{
  ThreadPool, new_pool, submit, push_stop, take_work, finish, Step, submits, closes, takes,
  finishes, Reach, here, next,
}

module _ {ℓ} {F : Type ℓ} where
  -- The tasks of a queue before its first empty one, and the number of the empty ones.
  abbrev leading : List (Option F) → List F
  leading [] = []
  leading (none ∷ xs) = []
  leading (some f ∷ xs) = f ∷ leading xs

  abbrev pub empties : List (Option F) → ℕ
  empties [] = 0
  empties (none ∷ xs) = suc (empties xs)
  empties (some f ∷ xs) = empties xs

  leading-snoc :
      (xs : List (Option F)) (x : Option F)
      → (rest : List F) × (leading (xs ++ x ∷ []) ≡ leading xs ++ rest)
  leading-snoc [] none = ([], refl)
  leading-snoc [] (some f) = (f ∷ [], refl)
  leading-snoc (none ∷ xs) x = ([], refl)
  leading-snoc (some f ∷ xs) x =
      let (rest, e) = leading-snoc xs x in (rest, ap (λ (l : List F). f ∷ l) e)

  leading-some :
      (xs : List (Option F)) (f : F)
      → empties xs ≡ 0
      → leading (xs ++ some f ∷ []) ≡ leading xs ++ f ∷ []
  leading-some [] f h = refl
  leading-some (none ∷ xs) f h = absurd (ground arith)
  leading-some (some g ∷ xs) f h = ap (λ (l : List F). g ∷ l) (leading-some xs f h)

  empties-none : (xs : List (Option F)) → empties (xs ++ none ∷ []) ≡ suc (empties xs)
  empties-none [] = refl
  empties-none (none ∷ xs) = ap suc (empties-none xs)
  empties-none (some f ∷ xs) = empties-none xs

  empties-some : (xs : List (Option F)) (f : F) → empties (xs ++ some f ∷ []) ≡ empties xs
  empties-some [] f = refl
  empties-some (none ∷ xs) f = ap suc (empties-some xs f)
  empties-some (some g ∷ xs) f = empties-some xs f

  due_grows :
      (started lead rest submitted more : List F) {lead' : List F}
      → lead' ≡ lead ++ rest
      → started ++ lead ≡ submitted ++ more
      → started ++ lead' ≡ submitted ++ (more ++ rest)
  due_grows started lead rest submitted more e d =
      ap (λ (l : List F). started ++ l) e
      ∙ sym (append_assoc started lead rest)
      ∙ ap (λ (l : List F). l ++ rest) d
      ∙ append_assoc submitted more rest

  pub record IsSound (p : ThreadPool F) : Type ℓ where
    pub threads : p.idle + p.running + p.stopped ≡ p.num_threads
    pub counted : empties p.work.xs + p.stopped ≡ p.stops
    pub bounded : p.stops ≤ p.num_threads
    pub in_order : p.stops ≡ 0 → p.started ++ leading p.work.xs ≡ p.submitted
    pub due : (more : List F) × (p.started ++ leading p.work.xs ≡ p.submitted ++ more)
    pub done : 0 < p.stopped → (more : List F) × (p.started ≡ p.submitted ++ more)

  new_pool-IsSound : (n : ℕ) → IsSound (new_pool n)
  unfolding new_pool
  new_pool-IsSound n = record {
    threads = omega arith;
    counted = refl;
    bounded = omega arith;
    in_order = λ h. refl;
    due = ([], refl);
    done = λ h. absurd (omega arith);
  }

  submit_open :
      (f : F) (p : ThreadPool F) → p.stops ≡ 0 → (submit f p).submitted ≡ p.submitted ++ f ∷ []
  unfolding submit
  submit_open f p h = ground arith

  submit_closed : (f : F) (p : ThreadPool F) → 0 < p.stops → (submit f p).submitted ≡ p.submitted
  unfolding submit
  submit_closed f p h = ground arith

  submit_in_order :
      (f : F) (p : ThreadPool F)
      → IsSound p
      → p.stops ≡ 0
      → p.started ++ leading (p.work.xs ++ some f ∷ []) ≡ (submit f p).submitted
  submit_in_order f p s z =
      ap (λ (l : List F). p.started ++ l) (leading-some p.work.xs f (ground (arith, s.counted)))
      ∙ sym (append_assoc p.started (leading p.work.xs) (f ∷ []))
      ∙ ap (λ (l : List F). l ++ f ∷ []) (s.in_order z)
      ∙ sym (submit_open f p z)

  submit_due :
      (f : F) (p : ThreadPool F)
      → IsSound p
      → (more : List F) × (p.started ++ leading (p.work.xs ++ some f ∷ [])
          ≡ (submit f p).submitted ++ more)
  submit_due f p s = elim (zero_or_positive p.stops) [
    | inl z ↦ ([], submit_in_order f p s z ∙ sym (append-nil (submit f p).submitted))
    | inr h ↦
        let (rest, e) = leading-snoc p.work.xs (some f) in
        let (more, d) = s.due in
        (
          more ++ rest,
          due_grows p.started (leading p.work.xs) rest p.submitted more e d
              ∙ ap (λ (l : List F). l ++ (more ++ rest)) (sym (submit_closed f p h)),
        )
  ]

  submit-IsSound : (f : F) (p : ThreadPool F) → IsSound p → IsSound (submit f p)
  unfolding submit push
  submit-IsSound f p s = record {
    threads = s.threads;
    counted = ground (arith, s.counted, empties-some p.work.xs f);
    bounded = s.bounded;
    in_order = submit_in_order f p s;
    due = submit_due f p s;
    done = λ h.
        let (more, e) = s.done h in
        (
          more,
          e ∙ ap (λ (l : List F). l ++ more) (sym (submit_closed f p (ground (arith, s.counted)))),
        );
  }

  push_stop-IsSound :
      (p : ThreadPool F) → p.stops < p.num_threads → IsSound p → IsSound (push_stop p)
  unfolding push_stop push
  push_stop-IsSound p h s = record {
    threads = s.threads;
    counted = ground (arith, s.counted, empties-none p.work.xs);
    bounded = omega arith;
    in_order = λ z. absurd (ground arith);
    due =
        let (rest, e) = leading-snoc p.work.xs none in
        let (more, d) = s.due in
        (more ++ rest, due_grows p.started (leading p.work.xs) rest p.submitted more e d);
    done = s.done;
  }

  take_stop-IsSound :
      (p : ThreadPool F) (xs : List (Option F))
      → 0 < p.idle
      → p.work.xs ≡ none ∷ xs
      → IsSound p
      → IsSound (record p { work = record { xs = xs }; idle = p.idle - 1; stopped = p.stopped + 1 })
  take_stop-IsSound p xs h e s =
      let counted : suc (empties xs) + p.stopped ≡ p.stops =
        ap (λ l. empties l + p.stopped) (sym e) ∙ s.counted in
      let (more, d) = s.due in
      let now : p.started ≡ p.submitted ++ more =
        sym (append-nil p.started) ∙ ap (λ l. p.started ++ leading l) (sym e) ∙ d in
      record {
        threads = ground (arith, s.threads);
        counted = omega arith;
        bounded = s.bounded;
        in_order = λ z. absurd (omega arith);
        due = (
          more ++ leading xs,
          ap (λ (l : List F). l ++ leading xs) now ∙ append_assoc p.submitted more (leading xs),
        );
        done = λ _. (more, now);
      }

  take_task-IsSound :
      (p : ThreadPool F) (f : F) (xs : List (Option F))
      → 0 < p.idle
      → p.work.xs ≡ some f ∷ xs
      → IsSound p
      → IsSound (record p {
        work = record { xs = xs };
        idle = p.idle - 1;
        running = p.running + 1;
        started = p.started ++ f ∷ [];
      })
  take_task-IsSound p f xs h e s =
      let same : (p.started ++ f ∷ []) ++ leading xs ≡ p.started ++ leading p.work.xs =
        append_assoc p.started (f ∷ []) (leading xs) ∙ ap (λ l. p.started ++ leading l) (sym e) in
      record {
        threads = ground (arith, s.threads);
        counted = ap (λ l. empties l + p.stopped) (sym e) ∙ s.counted;
        bounded = s.bounded;
        in_order = λ z. same ∙ s.in_order z;
        due = let (more, d) = s.due in (more, same ∙ d);
        done = λ k.
            let (more, d) = s.done k in
            (
              more ++ f ∷ [],
              ap (λ (l : List F). l ++ f ∷ []) d ∙ append_assoc p.submitted more (f ∷ []),
            );
      }

  take_work-IsSound :
      (p q : ThreadPool F) → 0 < p.idle → take_work p ≡ some q → IsSound p → IsSound q
  unfolding take_work pop
  take_work-IsSound p q h e s = elim (List-cases p.work.xs) [
    | inl c ↦ absurd (ground arith)
    | inr (none, xs, c) ↦ subst IsSound (ground arith) (take_stop-IsSound p xs h c s)
    | inr (some f, xs, c) ↦ subst IsSound (ground arith) (take_task-IsSound p f xs h c s)
  ]

  finish-IsSound : (p : ThreadPool F) → 0 < p.running → IsSound p → IsSound (finish p)
  unfolding finish
  finish-IsSound p h s = record {
    threads = ground (arith, s.threads);
    counted = s.counted;
    bounded = s.bounded;
    in_order = s.in_order;
    due = s.due;
    done = s.done;
  }

  Step-IsSound : {p q : ThreadPool F} → Step p q → IsSound p → IsSound q
  Step-IsSound {p} (submits f) s = submit-IsSound f p s
  Step-IsSound {p} (closes h) s = push_stop-IsSound p h s
  Step-IsSound {p} {q} (takes h e) s = take_work-IsSound p q h e s
  Step-IsSound {p} (finishes h) s = finish-IsSound p h s

  Step-num_threads : {p q : ThreadPool F} → Step p q → q.num_threads ≡ p.num_threads
  unfolding submit push_stop take_work finish pop
  Step-num_threads (submits f) = refl
  Step-num_threads (closes h) = refl
  Step-num_threads {p} {q} (takes h e) = elim (List-cases p.work.xs) [
    | inl c ↦ absurd (ground arith)
    | inr (none, xs, c) ↦ ground arith
    | inr (some f, xs, c) ↦ ground arith
  ]
  Step-num_threads (finishes h) = refl

  Reach-num_threads : (n : ℕ) {p : ThreadPool F} → Reach (new_pool n) p → p.num_threads ≡ n
  unfolding new_pool
  Reach-num_threads n here = refl
  Reach-num_threads n (next r st) = Step-num_threads st ∙ Reach-num_threads n r

  pub Reach-IsSound : (n : ℕ) {p : ThreadPool F} → Reach (new_pool n) p → IsSound p
  Reach-IsSound n here = new_pool-IsSound n
  Reach-IsSound n (next r st) = Step-IsSound st (Reach-IsSound n r)

  -- Whatever threads do, and whatever the tasks submit while the destructor runs: when a pool of at
  -- least one thread has stopped, so that its destructor returns, every task that was submitted before
  -- the destructor began has been started once, in the order of submission; no task runs, and no empty
  -- task is left.
  pub stopped-submitted :
      (n : ℕ) {p : ThreadPool F}
      → Reach (new_pool n) p
      → 0 < n
      → p.stopped ≡ n
      → ((more : List F) × (p.started ≡ p.submitted ++ more))
        × (p.running ≡ 0)
        × (empties p.work.xs ≡ 0)
  stopped-submitted n {p} r h e =
      let s = Reach-IsSound n r in
      let size = Reach-num_threads n r in
      (s.done (omega arith), ground (arith, s.threads), ground (arith, s.counted, s.bounded))

  -- Once the destructor has pushed its empty tasks it does not wait for ever: while a thread has not
  -- stopped, a task runs, or a thread waits for work and there is some for it.
  pub stops_progress :
      (n : ℕ) {p : ThreadPool F}
      → Reach (new_pool n) p
      → p.stops ≡ n
      → p.stopped < n
      → (0 < p.running) ⊎ ((0 < p.idle) × (q : ThreadPool F) × (take_work p ≡ some q))
  unfolding take_work pop
  stops_progress n {p} r h k =
      let s = Reach-IsSound n r in
      let size = Reach-num_threads n r in
      elim (zero_or_positive p.running) [
        | inr busy ↦ inl busy
        | inl calm ↦
            let waiting : 0 < p.idle = ground (arith, s.threads) in
            elim (List-cases p.work.xs) [
              | inl c ↦ absurd (ground (arith, s.counted))
              | inr (none, xs, c) ↦
                  inr (waiting, _, ap (λ l. take_work (record p { work = record { xs = l } })) c)
              | inr (some f, xs, c) ↦
                  inr (waiting, _, ap (λ l. take_work (record p { work = record { xs = l } })) c)
            ]
      ]
