-- ===== src/Domain/StateMachines/Search/Levels.antt =====
-- The levels of the search in `payment_path` of app/domain/state_machines.py, up to its answer.
use professional_bot.Prelude.{
  ℕ, zero, suc, ◌+◌, ◌≤◌, ◌<◌, ◌≡◌, ◌⊎◌, refl, sym, ◌∙◌, subst, true, false, List, [], ◌∷◌, ◌++◌,
  arith, Eq, contains, length, All, ◌==◌, eq_of_beq, beq_refl, beq_comm, inl, inr, length-append,
}
use native.Mathlib.Decide.{dec_lt}
use mathlib.Core.List.{append_assoc, append-nil}
use professional_bot.Domain.StateMachines.Search.{
  Round, found, more, Outcome, arrived, no_path, out_of_fuel, scan, search,
}
use professional_bot.Domain.StateMachines.Search.Walks.{
  Edge, IsPath, Walk, Walk-of_path, unseen, unseen-le-length,
}
use professional_bot.Domain.StateMachines.Search.Scan.{
  Entry, Queued, Queued-append, All-Entry_append, Scanned, ScanSpec, scan-ScanSpec,
}

module _ {A : Type 0} ⦃e : Eq A⦄ (next : A → List A) (start target : A) where
  abbrev Settled : List A → A → Type 0
  Settled seen u = (v : A) → Edge next u v → contains seen v ≡ true

  -- The queue is `cur ++ nxt`: states `k` steps away, then states `suc k` steps away.
  record Levels (k : ℕ) (cur nxt : List (A × List A)) (seen : List A) : Type 0 where
    at_cur : All (Entry next start target k) cur
    at_nxt : All (Entry next start target (suc k)) nxt
    near : (n : ℕ) (u : A) → Walk next start n u → n < k → Settled seen u
    level : (u : A) → Walk next start k u → Settled seen u ⊎ Queued next start target u cur
    known :
        (u : A)
        → contains seen u ≡ true
        → Settled seen u ⊎ Queued next start target u cur ⊎ Queued next start target u nxt
    missing : contains seen target ≡ false
    began : contains seen start ≡ true

  -- No walk of at most `k` steps arrives.
  not-arrived :
      {k : ℕ} {cur nxt : List (A × List A)} {seen : List A}
      → Levels k cur nxt seen
      → (n : ℕ) → Walk next start n target
      → n ≤ k
      → ⊥
  not-arrived l zero w h = cc (l.began, l.missing, w)
  not-arrived l (suc n) (u, w, x) h = cc (l.near n u w (omega arith) target x, l.missing)

  -- At the end of a level the next one becomes current.
  flip :
      {k : ℕ} {nxt : List (A × List A)} {seen : List A}
      → Levels k [] nxt seen
      → Levels (suc k) nxt [] seen
  flip {k} {nxt} {seen} l = record {
    at_cur = l.at_nxt;
    at_nxt = tt;
    near = settled;
    level = λ u (v, w, x). elim (l.known u (settled k v w (omega arith) u x)) [
      | inl s ↦ inl s
      | inr (inl q) ↦ absurd q
      | inr (inr q) ↦ inr q
    ];
    known = λ u c. elim (l.known u c) [
      | inl s ↦ inl s
      | inr (inl q) ↦ absurd q
      | inr (inr q) ↦ inr (inl q)
    ];
    missing = l.missing;
    began = l.began;
  }
    where
      settled : (n : ℕ) (u : A) → Walk next start n u → n < suc k → Settled seen u
      settled n u w h = elim (dec_lt n k) [
        | yes p ↦ l.near n u w p
        | no p ↦ elim (l.level u (subst (λ m. Walk next start m u) (omega arith) w)) [
          | inl s ↦ s
          | inr q ↦ absurd q
        ]
      ]

  -- One round: the first state of the level is expanded, and its new successors are queued.
  expand :
      {k : ℕ} {cur nxt : List (A × List A)} {seen : List A} {states : List A} (u : A)
      (path : List A)
      → Levels k ((u, path) ∷ cur) nxt seen
      → (seen' : List A) (queue' : List (A × List A))
      → (s : Scanned next start target k states (next u) seen (cur ++ nxt) seen' queue')
      → Levels k cur (nxt ++ s.added) seen'
  expand {k} {cur} {nxt} {seen} {states} u path l seen' queue' s = record {
    at_cur = l.at_cur.1;
    at_nxt = All-Entry_append next start target (suc k) nxt s.added l.at_nxt s.entries;
    near = λ n v w h. still v (l.near n v w h);
    level = λ v w. elim (l.level v w) [
      | inl h ↦ inl (still v h)
      | inr (inl p) ↦ inl (rw p s.covers)
      | inr (inr q) ↦ inr q
    ];
    known = λ v c. elim (s.source v c) [
      | inl old ↦ elim (l.known v old) [
        | inl h ↦ inl (still v h)
        | inr (inl (inl p)) ↦ inl (rw p s.covers)
        | inr (inl (inr q)) ↦ inr (inl q)
        | inr (inr q) ↦ inr (inr (Queued-append next start target v nxt s.added (inl q)))
      ]
      | inr q ↦ inr (inr (Queued-append next start target v nxt s.added (inr q)))
    ];
    missing = s.missing;
    began = s.keeps start l.began;
  }
    where
      still : (v : A) → Settled seen v → Settled seen' v
      still v h w x = s.keeps w (h w x)

  -- With an empty queue all that can be reached has been seen.
  exhausted :
      {k : ℕ} {seen : List A}
      → Levels k [] [] seen
      → (n : ℕ) (u : A) → Walk next start n u
      → contains seen u ≡ true
  exhausted l zero u w = rw (← w) l.began
  exhausted l (suc n) u (v, w, x) = elim (l.known v (exhausted l n v w)) [
    | inl s ↦ s u x
    | inr (inl q) ↦ absurd q
    | inr (inr q) ↦ absurd q
  ]

  -- A returned path is legal and as short as any; none is returned only if there is none.
  abbrev pub Shortest : Outcome A → Type 0
  Shortest (arrived p) =
      IsPath next start p target
      × ((p' : List A) → IsPath next start p' target → length p ≤ length p')
  Shortest no_path = (p' : List A) → ¬ IsPath next start p' target
  Shortest out_of_fuel = ⊥

  Shortest-found :
      {k : ℕ} {cur nxt : List (A × List A)} {seen : List A} (p : List A)
      → Levels k cur nxt seen
      → IsPath next start p target
      → length p ≡ suc k
      → Shortest (arrived p)
  Shortest-found {k} p l h n = (
    h,
    λ p' h'. elim (dec_lt k (length p')) [
      | yes long ↦ omega (arith, n)
      | no short ↦
          absurd (not-arrived l (length p') (Walk-of_path next start p' target h') (omega arith))
    ],
  )

  module _ (states : List A) (complete : (v : A) → contains states v ≡ true) where
    -- What the rest of the search is known to do, with `fuel` rounds left.
    abbrev Continues : ℕ → Type 0
    Continues fuel =
        (k : ℕ) (cur nxt : List (A × List A)) (seen : List A)
        → Levels k cur nxt seen
        → unseen states seen + length cur + length nxt < fuel
        → Shortest (search next target fuel seen (cur ++ nxt))

    resume : ℕ → Round A → Outcome A
    resume fuel (found p) = arrived p
    resume fuel (more seen' queue') = search next target fuel seen' queue'

    search-resume :
        (fuel : ℕ) (u : A) (path seen : List A) (queue : List (A × List A))
        → search next target (suc fuel) seen ((u, path) ∷ queue)
          ≡ resume fuel (scan next target path (next u) seen queue)
    unfolding search resume
    search-resume fuel u path seen queue = ground arith

    after :
        (fuel k : ℕ) (cur nxt : List (A × List A)) (seen : List A) (u : A) (path : List A)
        (r : Round A)
        → Continues fuel
        → Levels k ((u, path) ∷ cur) nxt seen
        → unseen states seen + length cur + length nxt < fuel
        → ScanSpec next start target k states (next u) seen (cur ++ nxt) r
        → Shortest (resume fuel r)
    unfolding resume
    after fuel k cur nxt seen u path (found p) go l m s = Shortest-found p l s.0 s.1
    after fuel k cur nxt seen u path (more seen' queue') go l m s =
        rw (s.queue_eq ∙ append_assoc cur nxt s.added) (
          go k cur (nxt ++ s.added) seen' (expand u path l seen' queue' s)
            (omega (arith, s.shrinks, length-append nxt s.added)))

    round :
        (fuel k : ℕ) (cur nxt : List (A × List A)) (seen : List A) (u : A) (path : List A)
        → Continues fuel
        → Levels k ((u, path) ∷ cur) nxt seen
        → unseen states seen + length cur + length nxt < fuel
        → Shortest (search next target (suc fuel) seen ((u, path) ∷ cur ++ nxt))
    round fuel k cur nxt seen u path go l m = rw (search-resume fuel u path seen (cur ++ nxt)) (
        after fuel k cur nxt seen u path _ go l m (
          scan-ScanSpec next start target states complete k u path l.at_cur.0 (next u) seen
            (cur ++ nxt) (λ v c. c) l.missing))

    search-Continues : (fuel : ℕ) → Continues fuel
    search-Continues zero k cur nxt seen l m = absurd (omega arith)
    search-Continues (suc fuel) k [] [] seen l m =
        unfold search in
        λ p' h. cc (l.missing, exhausted l (length p') target (Walk-of_path next start p' target h))
    search-Continues (suc fuel) k [] ((u, path) ∷ nxt) seen l m =
        rw (append-nil nxt) at
          (round fuel (suc k) nxt [] seen u path (search-Continues fuel) (flip l) (omega arith))
    search-Continues (suc fuel) k ((u, path) ∷ cur) nxt seen l m =
        round fuel k cur nxt seen u path (search-Continues fuel) l (omega arith)

    -- From the start, with more fuel than there are states, the search ends with a shortest path.
    pub search-Shortest :
        (fuel : ℕ)
        → suc (length states) < fuel
        → (start == target) ≡ false
        → Shortest (search next target fuel (start ∷ []) ((start, []) ∷ []))
    search-Shortest fuel m ne =
        search-Continues fuel 0 ((start, []) ∷ []) [] (start ∷ [])
          (record {
            at_cur = ((refl, refl), tt);
            at_nxt = tt;
            near = λ n u w h. absurd (omega arith);
            level = λ u w. inr (inl (sym w));
            known = λ u c. inr (inl (inl (eq_of_beq u start (ground arith))));
            missing = ground (arith, beq_comm start target);
            began = ground (arith, beq_refl start);
          })
          (omega (arith, unseen-le-length states (start ∷ [])))
