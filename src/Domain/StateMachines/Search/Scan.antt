-- ===== src/Domain/StateMachines/Search/Scan.antt =====
-- What one round of the search, the loop over a state's successors, leaves behind.
use professional_bot.Prelude.{
  ℕ, suc, ◌+◌, ◌≤◌, ◌≡◌, ◌⊎◌, sym, ◌∙◌, true, false, List, [], ◌∷◌, ◌++◌, arith, Eq, contains,
  length, All, Bool-cases, ◌==◌, eq_of_beq, beq_refl, beq_comm, subst, inl, inr, length-append,
}
use mathlib.Core.List.{append_assoc, append-nil}
use professional_bot.Domain.StateMachines.Search.{Round, found, more, scan}
use professional_bot.Domain.StateMachines.Search.Walks.{
  Edge, IsPath, IsPath-snoc, unseen, unseen-cons,
}

module _ {A : Type 0} ⦃e : Eq A⦄ (next : A → List A) (start target : A) where
  -- A queue entry: a state and a path to it of `k` steps.
  abbrev pub Entry : ℕ → A × List A → Type 0
  Entry k (u, p) = IsPath next start p u × (length p ≡ k)

  abbrev pub Queued : A → List (A × List A) → Type 0
  Queued u [] = ⊥
  Queued u ((v, p) ∷ q) = (u ≡ v) ⊎ Queued u q

  pub Queued-append :
      (u : A) (q r : List (A × List A)) → Queued u q ⊎ Queued u r → Queued u (q ++ r)
  Queued-append u [] r (inl x) = absurd x
  Queued-append u [] r (inr x) = x
  Queued-append u ((v, p) ∷ q) r (inl (inl x)) = inl x
  Queued-append u ((v, p) ∷ q) r (inl (inr x)) = inr (Queued-append u q r (inl x))
  Queued-append u ((v, p) ∷ q) r (inr x) = inr (Queued-append u q r (inr x))

  pub All-Entry_append :
      (k : ℕ) (q r : List (A × List A)) → All (Entry k) q → All (Entry k) r → All (Entry k) (q ++ r)
  All-Entry_append k [] r h g = g
  All-Entry_append k ((v, p) ∷ q) r h g = (h.0, All-Entry_append k q r h.1 g)

  -- The round appended `added` to the queue, all new and `suc k` steps away, and has seen all of `ns`.
  pub record Scanned (k : ℕ) (states ns seen : List A) (queue : List (A × List A)) (seen' : List A)
      (queue' : List (A × List A)) : Type 0 where
    pub added : List (A × List A)
    pub queue_eq : queue' ≡ queue ++ added
    pub entries : All (Entry (suc k)) added
    pub keeps : (v : A) → contains seen v ≡ true → contains seen' v ≡ true
    pub covers : (v : A) → contains ns v ≡ true → contains seen' v ≡ true
    pub source : (v : A) → contains seen' v ≡ true → (contains seen v ≡ true) ⊎ Queued v added
    pub missing : contains seen' target ≡ false
    pub shrinks : unseen states seen' + length added ≤ unseen states seen

  abbrev pub ScanSpec : ℕ → List A → List A → List A → List (A × List A) → Round A → Type 0
  ScanSpec k states ns seen queue (found r) = IsPath next start r target × (length r ≡ suc k)
  ScanSpec k states ns seen queue (more seen' queue') = Scanned k states ns seen queue seen' queue'

  module _ (states : List A) (complete : (v : A) → contains states v ≡ true) (k : ℕ) (u : A)
      (path : List A) (legal : Entry k (u, path)) where
    snoc_Entry : (v : A) → Edge next u v → Entry (suc k) (v, path ++ v ∷ [])
    snoc_Entry v x = (
      IsPath-snoc next start path u v legal.0 x,
      omega (arith, length-append path (v ∷ []), legal.1),
    )

    skip :
        (n : A) (ns seen : List A) (queue : List (A × List A)) (r : Round A)
        → contains seen n ≡ true
        → ScanSpec k states ns seen queue r
        → ScanSpec k states (n ∷ ns) seen queue r
    skip n ns seen queue (found r) old h = h
    skip n ns seen queue (more seen' queue') old h = record {
      added = h.added;
      queue_eq = h.queue_eq;
      entries = h.entries;
      keeps = h.keeps;
      covers = λ v c. elim (Bool-cases (v == n)) [
        | inl same ↦ h.keeps v (rw (eq_of_beq v n same) old)
        | inr other ↦ h.covers v (ground arith)
      ];
      source = h.source;
      missing = h.missing;
      shrinks = h.shrinks;
    }

    push :
        (n : A) (ns seen : List A) (queue : List (A × List A)) (r : Round A)
        → contains seen n ≡ false
        → Edge next u n
        → ScanSpec k states ns (n ∷ seen) (queue ++ (n, path ++ n ∷ []) ∷ []) r
        → ScanSpec k states (n ∷ ns) seen queue r
    push n ns seen queue (found r) new x h = h
    push n ns seen queue (more seen' queue') new x h = record {
      added = (n, path ++ n ∷ []) ∷ h.added;
      queue_eq = h.queue_eq ∙ append_assoc queue ((n, path ++ n ∷ []) ∷ []) h.added;
      entries = (snoc_Entry n x, h.entries);
      keeps = λ v c. h.keeps v (ground arith);
      covers = λ v c. elim (Bool-cases (v == n)) [
        | inl same ↦ h.keeps v (ground arith)
        | inr other ↦ h.covers v (ground arith)
      ];
      source = λ v c. elim (h.source v c) [
        | inl s ↦ elim (Bool-cases (v == n)) [
          | inl same ↦ inr (inl (eq_of_beq v n same))
          | inr other ↦ inl (ground arith)
        ]
        | inr q ↦ inr (inr q)
      ];
      missing = h.missing;
      shrinks = omega (arith, h.shrinks, unseen-cons states seen n (complete n) new);
    }

    scan-old :
        (n : A) (ns seen : List A) (queue : List (A × List A))
        → contains seen n ≡ true
        → scan next target path (n ∷ ns) seen queue ≡ scan next target path ns seen queue
    unfolding scan
    scan-old n ns seen queue h = rw (h, scan)

    scan-hit :
        (n : A) (ns seen : List A) (queue : List (A × List A))
        → contains seen n ≡ false
        → (n == target) ≡ true
        → scan next target path (n ∷ ns) seen queue ≡ found (path ++ n ∷ [])
    unfolding scan
    scan-hit n ns seen queue h g = ground (arith, h, g)

    scan-new :
        (n : A) (ns seen : List A) (queue : List (A × List A))
        → contains seen n ≡ false
        → (n == target) ≡ false
        → scan next target path (n ∷ ns) seen queue
          ≡ scan next target path ns (n ∷ seen) (queue ++ (n, path ++ n ∷ []) ∷ [])
    unfolding scan
    scan-new n ns seen queue h g = ground (arith, h, g)

    -- The loop over successors `ns` of `u` returns a legal path to the target, or only extends.
    pub scan-ScanSpec :
        (ns seen : List A) (queue : List (A × List A))
        → ((v : A) → contains ns v ≡ true → Edge next u v)
        → contains seen target ≡ false
        → ScanSpec k states ns seen queue (scan next target path ns seen queue)
    unfolding scan
    scan-ScanSpec [] seen queue edges miss = record {
      added = [];
      queue_eq = sym (append-nil queue);
      entries = tt;
      keeps = λ v c. c;
      covers = λ v c. cc;
      source = λ v c. inl c;
      missing = miss;
      shrinks = omega arith;
    }
    scan-ScanSpec (n ∷ ns) seen queue edges miss =
        let later : (v : A) → contains ns v ≡ true → Edge next u v =
          λ v c. edges v (ground arith) in
        elim (Bool-cases (contains seen n)) [
          | inl old ↦
              rw (scan-old n ns seen queue old)
                (skip n ns seen queue _ old (scan-ScanSpec ns seen queue later miss))
          | inr new ↦ elim (Bool-cases (n == target)) [
            | inl hit ↦ rw (scan-hit n ns seen queue new hit) (
                subst
                  (λ x. IsPath next start (path ++ n ∷ []) x × (length (path ++ n ∷ []) ≡ suc k))
                  (eq_of_beq n target hit) (snoc_Entry n (edges n (ground (arith, beq_refl n)))))
            | inr pass ↦ rw (scan-new n ns seen queue new pass) (
                push n ns seen queue _ new (edges n (ground (arith, beq_refl n))) (
                  scan-ScanSpec ns (n ∷ seen) (queue ++ (n, path ++ n ∷ []) ∷ []) later
                    (ground (arith, beq_comm n target))))
          ]
        ]
