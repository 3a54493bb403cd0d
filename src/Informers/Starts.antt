-- ===== src/Informers/Starts.antt =====
-- The loop of sharedInformerFactory.Start, by what it adds to the started informers.
use lib_bucket_provisioner.Base.{
  ◌+◌, ◌≤◌, ◌≡◌, Bool, true, false, Bool-cases, inl, inr, List, [], ◌∷◌, refl, ap, arith,
}
use lib_bucket_provisioner.Clientset.Versioned.{Versioned}
use lib_bucket_provisioner.Informers.{Kind, same, put, SharedInformer}
use lib_bucket_provisioner.Informers.Factory.{is_started, start_all}
use lib_bucket_provisioner.Informers.Entries.{
  bit, entries_of, same-true, started_of_kind, started-put,
}

module _ {V : Versioned} where
  start_all-running :
      (k : Kind) (i : SharedInformer V) (informers : List (Kind × SharedInformer V))
      (st : List (Kind × Bool))
      → is_started k st ≡ true
      → start_all ((k, i) ∷ informers) st ≡ start_all informers st
  unfolding start_all
  start_all-running k i informers st h = rw (h, start_all) refl

  start_all-launching :
      (k : Kind) (i : SharedInformer V) (informers : List (Kind × SharedInformer V))
      (st : List (Kind × Bool))
      → is_started k st ≡ false
      → start_all ((k, i) ∷ informers) st ≡ (
        (k, i) ∷ (start_all informers (put k true st)).0,
        (start_all informers (put k true st)).1,
      )
  unfolding start_all
  start_all-launching k i informers st h = rw (h, start_all) refl

  -- A start adds to the started ones what it launches, and launches no more than there is.
  pub start_all-started :
      (k : Kind) (informers : List (Kind × SharedInformer V)) (st : List (Kind × Bool))
      → (entries_of k (start_all informers st).0 + started_of_kind k st
          ≡ started_of_kind k (start_all informers st).1)
        × (entries_of k (start_all informers st).0 ≤ entries_of k informers)
  unfolding start_all
  start_all-started k [] st = (omega arith, omega arith)
  start_all-started k ((k', i) ∷ informers) st = elim (Bool-cases (is_started k' st)) [
    | inl h ↦
        let (adds, le) = start_all-started k informers st in
        rw (start_all-running k' i informers st h) (adds, omega (arith, le))
    | inr h ↦
        let (adds, le) = start_all-started k informers (put k' true st) in
        rw (start_all-launching k' i informers st h)
          (omega (arith, adds, started-put k k' st h), omega (arith, le))
  ]

  -- It starts all that there is.
  pub start_all-starts :
      (k : Kind) (informers : List (Kind × SharedInformer V)) (st : List (Kind × Bool))
      → 1 ≤ entries_of k informers
      → 1 ≤ started_of_kind k (start_all informers st).1
  unfolding start_all started_of_kind
  start_all-starts k [] st h = omega arith
  start_all-starts k ((k', i) ∷ informers) st h = elim (Bool-cases (same k k')) [
    | inr e ↦
        let rest = start_all-starts k informers in
        elim (Bool-cases (is_started k' st)) [
          | inl running ↦
              rw (start_all-running k' i informers st running)
                (rest st (omega (arith, h, ap bit e)))
          | inr idle ↦
              rw (start_all-launching k' i informers st idle)
                (rest (put k' true st) (omega (arith, h, ap bit e)))
        ]
    | inl e ↦ elim (Bool-cases (is_started k' st)) [
      | inl running ↦ rw (start_all-running k' i informers st running) (
          omega (
            arith,
            start_all-started k informers st,
            ap bit running,
            ap (λ kind. started_of_kind kind st) (same-true k k' e),
          ))
      | inr idle ↦ rw (start_all-launching k' i informers st idle) (
          omega (
            arith,
            start_all-started k informers (put k' true st),
            started-put k k' st idle,
            ap bit e,
          ))
    ]
  ]
