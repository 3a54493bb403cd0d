-- ===== src/Informers/Runs.antt =====
-- What a factory does over its life: requests for informers and starts, in any order.
use lib_bucket_provisioner.Base.{
  ℕ, ◌≤◌, ◌≡◌, Text, Option, none, some, List, [], ◌∷◌, ◌++◌, map, refl, or_default, arith,
}
use lib_bucket_provisioner.Clientset.Versioned.{Versioned}
use lib_bucket_provisioner.Informers.{Kind, find, SharedInformer, Tweak}
use lib_bucket_provisioner.Informers.Factory.{
  Factory, empty_factory, with_custom_resync_config, with_tweak_list_options, with_namespace,
  apply_options, new_shared_informer_factory_with_options, is_started, start, informer_for,
}
use lib_bucket_provisioner.Informers.Entries.{
  entries_of-nil, bit, bit-le, entries_of, entries_of-append, entries_of-put, bit-entries_of-le,
  started_of_kind,
}
use lib_bucket_provisioner.Informers.Starts.{start_all-started, start_all-starts}

-- The options that the package makes.
pub data Setting : Type 0 where
  custom_resync_config : List (Kind × ℕ) → Setting
  list_options : Tweak → Setting
  namespace : Text → Setting

module _ {V : Versioned} where
  abbrev pub option_of : Setting → Factory V → Factory V
  option_of (custom_resync_config config) = with_custom_resync_config config
  option_of (list_options tweak) = with_tweak_list_options tweak
  option_of (namespace ns) = with_namespace ns

  -- A factory that was made, asked for informers and started, with all that it has launched.
  pub data Run : List (Kind × SharedInformer V) → Factory V → Type 0 where
    made :
        (resync : ℕ) (settings : List Setting)
        → Run [] (new_shared_informer_factory_with_options resync (map option_of settings))
    requested :
        {log : List (Kind × SharedInformer V)} {f : Factory V}
        → Run log f
        → (k : Kind) (new_func : ℕ → SharedInformer V) → Run log (informer_for k new_func f).1
    launched :
        {log : List (Kind × SharedInformer V)} {f : Factory V}
        → Run log f
        → Run (log ++ (start f).0) (start f).1

  -- What holds of a factory after `log`, for each kind.
  abbrev pub IsWellFormed : List (Kind × SharedInformer V) → Factory V → Kind → Type 0
  IsWellFormed log f k =
      (entries_of k log ≡ bit (is_started k f.started_informers))
      × ((entries_of k log ≤ entries_of k f.informers) × (entries_of k f.informers ≤ 1))

  informer_for-IsWellFormed :
      (log : List (Kind × SharedInformer V)) (f : Factory V) (k' : Kind)
      (new_func : ℕ → SharedInformer V)
      → ((k : Kind) → IsWellFormed log f k)
      → (k : Kind) → IsWellFormed log (informer_for k' new_func f).1 k
  unfolding informer_for
  informer_for-IsWellFormed log f k' new_func h k = go (find k' f.informers) refl (h k)
    where
      go :
          (found : Option (SharedInformer V))
          → find k' f.informers ≡ found
          → IsWellFormed log f k
          → IsWellFormed log (informer_for k' new_func f).1 k
      go (some i) e hk = rw (e, informer_for) hk
      go none e (counted, (le, one)) =
          let informer = new_func (or_default f.default_resync (find k' f.custom_resync)) in
          let (absent, adds) = entries_of-put k k' informer f.informers e in
          rw (e, informer_for)
            (
              counted,
              (
                omega (arith, adds, le),
                omega (arith, adds, bit-entries_of-le k k' f.informers absent one),
              ),
            )

  start-IsWellFormed :
      (log : List (Kind × SharedInformer V)) (f : Factory V) (k : Kind)
      → IsWellFormed log f k
      → IsWellFormed (log ++ (start f).0) (start f).1 k
  unfolding start started_of_kind
  start-IsWellFormed log f k (counted, (le, one)) =
      let (adds, fewer) = start_all-started k f.informers f.started_informers in
      let joined = entries_of-append k log (start f).0 in
      let bounded = bit-le (is_started k (start f).1.started_informers) in
      (
        omega (arith, adds, joined, counted),
        (omega (arith, adds, fewer, joined, counted, le, bounded), one),
      )

  apply_options-keeps :
      (settings : List Setting) (f : Factory V)
      → ((apply_options (map option_of settings) f).informers ≡ f.informers)
        × ((apply_options (map option_of settings) f).started_informers ≡ f.started_informers)
  unfolding apply_options with_custom_resync_config with_tweak_list_options with_namespace
  apply_options-keeps [] f = (refl, refl)
  apply_options-keeps (custom_resync_config config ∷ settings) f =
      apply_options-keeps settings (with_custom_resync_config config f)
  apply_options-keeps (list_options tweak ∷ settings) f =
      apply_options-keeps settings (with_tweak_list_options tweak f)
  apply_options-keeps (namespace ns ∷ settings) f =
      apply_options-keeps settings (with_namespace ns f)

  -- After any requests and starts of a factory, for each kind: the number of times that its informer
  -- was launched is one if it is marked as started and else zero, and at most the number of informers of that kind,
  -- which is at most one.
  pub Run-IsWellFormed :
      (log : List (Kind × SharedInformer V)) (f : Factory V)
      → Run log f
      → (k : Kind) → IsWellFormed log f k
  unfolding new_shared_informer_factory_with_options is_started find
  Run-IsWellFormed log f (made resync settings) k =
      let (informers, running) = apply_options-keeps settings (empty_factory {V = V} resync) in
      rw (new_shared_informer_factory_with_options, informers, running)
        (refl, (omega arith, omega arith))
  Run-IsWellFormed log f (requested run k' new_func) k =
      informer_for-IsWellFormed _ _ k' new_func (λ kind. Run-IsWellFormed _ _ run kind) k
  Run-IsWellFormed log f (launched run) k = start-IsWellFormed _ _ k (Run-IsWellFormed _ _ run k)

  start_complete :
      (log : List (Kind × SharedInformer V)) (f : Factory V) (k : Kind)
      → IsWellFormed log f k
      → (entries_of k (log ++ (start f).0) ≡ entries_of k f.informers)
        × (entries_of k (start (start f).1).0 ≡ 0)
  unfolding start started_of_kind
  start_complete log f k wf =
      let (counted, (le, one)) = start-IsWellFormed log f k wf in
      let running = start_all-starts k f.informers f.started_informers in
      let (adds, fewer) = start_all-started k f.informers (start f).1.started_informers in
      let bounded = bit-le (is_started k (start (start f).1).1.started_informers) in
      (ground (arith, counted, le, one, running), ground (arith, adds, fewer, bounded, running))

  -- After any requests and starts of a factory, after a start the
  -- launches over the factory's life are, for each kind, as many as its informers, of which there is
  -- at most one; and a second start in a row launches none.
  pub start-launched_once :
      (log : List (Kind × SharedInformer V)) (f : Factory V)
      → Run log f
      → ((k : Kind)
          → (entries_of k (log ++ (start f).0) ≡ entries_of k f.informers)
            × (entries_of k f.informers ≤ 1))
        × ((start (start f).1).0 ≡ [])
  start-launched_once log f run = (
    λ k. (
      (start_complete log f k (Run-IsWellFormed log f run k)).0,
      (Run-IsWellFormed log f run k).1.1,
    ),
    entries_of-nil (start (start f).1).0
        (λ k. (start_complete log f k (Run-IsWellFormed log f run k)).1),
  )
