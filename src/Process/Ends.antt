-- ===== src/Process/Ends.antt =====
-- What the main function comes to, with the workers that run on.
use native.Mathlib.Decide.{ℕ_discrete}
use amsserver.Singleton.{construct, destroy, get_singleton_instance}
use amsserver.Gui.Login.{LoginAction, opens_main}
use amsserver.Process.{
  Class, file_log, heap_protect_mutex, iocp_server, Instances, no_instances, pointer, use_instance,
  use_all, use_by_worker, use_by_workers, Late, no_workers, init_instance, Places, tmain,
}
use amsserver.Base.{
  ◌>>=◌, refl, ◌≡◌, if◌then◌else◌, ◌∷◌, [], done, crash, ℕ, Outcome, List, Bool, ◌≢◌, arith,
  null_pointer, ◌&&◌, use_after_free, ◌⊎◌, inl, inr, Fault, true, false, ◌∙◌, ap,
}

-- Each class has its object.
pub record AllMade (s : Instances) : Type 0 where
  pub log_made : s.log ≢ 0
  pub heap_made : s.heap ≢ 0
  pub server_made : s.server ≢ 0

use_instance-done : (c : Class) (s : Instances) → AllMade s → use_instance c s ≡ done tt
unfolding use_instance get_singleton_instance
use_instance-done file_log s a = ground (arith, a.log_made)
use_instance-done heap_protect_mutex s a = ground (arith, a.heap_made)
use_instance-done iocp_server s a = ground (arith, a.server_made)

use_all-done : (uses : List Class) (s : Instances) → AllMade s → use_all uses s ≡ done tt
unfolding use_all
use_all-done [] s a = refl
use_all-done (c ∷ uses) s a = rw (use_instance-done c s a) (use_all-done uses s a)

-- Each of the objects is there.
abbrev pub AreThere : List Class → Instances → Type 0
AreThere [] s = Unit {0}
AreThere (c ∷ uses) s = (pointer c s ≢ 0) × AreThere uses s

use_by_worker-AreThere :
    (c : Class) (s : Instances)
    → ((pointer c s ≢ 0) × (use_by_worker c s ≡ done tt))
      ⊎ ((pointer c s ≡ 0) × ((e : Fault) × (use_by_worker c s ≡ crash e)))
unfolding use_by_worker use_instance get_singleton_instance
use_by_worker-AreThere file_log s = elim (ℕ_discrete s.log 0) [
  | yes e ↦ inr (e, (null_pointer, ground (arith, e)))
  | no n ↦ inl (n, ground (arith, n))
]
use_by_worker-AreThere heap_protect_mutex s = elim (ℕ_discrete s.heap 0) [
  | yes e ↦ inr (e, (null_pointer, ground (arith, e)))
  | no n ↦ inl (n, ground (arith, n))
]
use_by_worker-AreThere iocp_server s = elim (ℕ_discrete s.server 0) [
  | yes e ↦ inr (e, (use_after_free, ground (arith, e)))
  | no n ↦ inl (n, ground (arith, n))
]

use_by_workers-AreThere :
    (uses : List Class) (s : Instances)
    → (AreThere uses s × (use_by_workers uses s ≡ done tt))
      ⊎ ((¬ AreThere uses s) × ((e : Fault) × (use_by_workers uses s ≡ crash e)))
unfolding use_by_workers
use_by_workers-AreThere [] s = inl (tt, refl)
use_by_workers-AreThere (c ∷ uses) s = elim (use_by_worker-AreThere c s) [
  | inr (n, (e, f)) ↦ inr (λ a. a.0 n, (e, rw f refl))
  | inl (n, f) ↦ elim (use_by_workers-AreThere uses s) [
    | inl (m, g) ↦ inl ((n, m), rw f g)
    | inr (m, (e, g)) ↦ inr (λ a. m a.1, (e, rw f g))
  ]
]

-- What the workers that run on use is there.
abbrev pub IsSpared : Places → Late → Type 0
IsSpared p late =
    AreThere late.server_gone (record { log = p.log_at; heap = p.heap_at; server = 0 })
    × AreThere late.heap_gone (record { log = p.log_at; heap = 0; server = 0 })
    × AreThere late.log_gone no_instances

-- No worker runs on, or what the workers use is there.
abbrev pub IsHarmless : Places → Bool → List LoginAction → Bool → Late → Type 0
IsHarmless p initialized actions running late =
    ((initialized && (opens_main actions && running)) ≡ false) ⊎ IsSpared p late

module _ (p : Places) (l : p.log_at ≢ 0) (h : p.heap_at ≢ 0) (k : p.server_at ≢ 0) where
  init_instance-done :
      (actions : List LoginAction) (uses : List Class)
      → init_instance p.server_at actions uses
          (record { log = p.log_at; heap = p.heap_at; server = 0 })
        ≡ done (record { log = p.log_at; heap = p.heap_at; server = 0 })
  unfolding init_instance get_singleton_instance construct destroy
  init_instance-done actions uses = ground (
    arith,
    l,
    k,
    use_all-done uses (record { log = p.log_at; heap = p.heap_at; server = p.server_at })
        (record { log_made = l; heap_made = h; server_made = k }),
  )

  -- The workers that run on, to the end of the process.
  abbrev rest : Late → Outcome (Instances × ℕ)
  rest late = do
    _ ← use_by_workers late.server_gone (record { log = p.log_at; heap = p.heap_at; server = 0 })
    _ ← use_by_workers late.heap_gone (record { log = p.log_at; heap = 0; server = 0 })
    _ ← use_by_workers late.log_gone no_instances
    done (no_instances, 0)

  rest-IsSpared :
      (late : Late)
      → (IsSpared p late × (rest late ≡ done (no_instances, 0)))
        ⊎ ((¬ IsSpared p late) × ((e : Fault) × (rest late ≡ crash e)))
  rest-IsSpared late =
      elim (use_by_workers-AreThere late.server_gone
        (record { log = p.log_at; heap = p.heap_at; server = 0 })) [
          | inr (n, (e, f)) ↦ inr (λ x. n x.0, (e, rw f refl))
          | inl (n, f) ↦
              elim (use_by_workers-AreThere late.heap_gone
                (record { log = p.log_at; heap = 0; server = 0 })) [
                  | inr (m, (e, g)) ↦ inr (λ x. m x.1, (e, rw (f, g) refl))
                  | inl (m, g) ↦ elim (use_by_workers-AreThere late.log_gone no_instances) [
                    | inr (o, (e, i)) ↦ inr (λ x. o x.2, (e, rw (f, g, i) refl))
                    | inl (o, i) ↦ inl ((n, m, o), rw (f, g, i) refl)
                  ]
                ]
        ]

  tmain-rest :
      (actions : List LoginAction) (uses : List Class) (running : Bool) (late : Late)
      → tmain p true actions uses running late no_instances
        ≡ rest (if opens_main actions && running then late else no_workers)
  unfolding tmain get_singleton_instance construct destroy
  tmain-rest actions uses running late = ground (arith, l, h, init_instance-done actions uses)

  ran_on :
      (actions : List LoginAction) (uses : List Class) (running : Bool) (late : Late)
      → (opens_main actions && running) ≡ true
      → tmain p true actions uses running late no_instances ≡ rest late
  ran_on actions uses running late b =
      tmain-rest actions uses running late ∙ ap (λ c. rest (if c then late else no_workers)) b

  none_left :
      (actions : List LoginAction) (uses : List Class) (running : Bool) (late : Late)
      → (opens_main actions && running) ≡ false
      → tmain p true actions uses running late no_instances ≡ done (no_instances, 0)
  unfolding use_by_workers
  none_left actions uses running late b =
      tmain-rest actions uses running late ∙ ap (λ c. rest (if c then late else no_workers)) b

  tmain-failed :
      (actions : List LoginAction) (uses : List Class) (running : Bool) (late : Late)
      → tmain p false actions uses running late no_instances
        ≡ done (record { log = p.log_at; heap = p.heap_at; server = 0 }, 1)
  unfolding tmain get_singleton_instance construct destroy
  tmain-failed actions uses running late = ground (arith, l, h)

  -- With the three objects at addresses that are not NULL, whatever the user does, whichever singletons are
  -- used while the object of the main dialog is there, and whichever the workers use later that run on if the
  -- dialog was ended with the server running. Either no worker runs on, or each object that the workers use
  -- later is there still: then the main function returns 0 with all three objects deleted, or 1, if MFC
  -- cannot be initialized, with the log and the mutex left. Or a worker uses an object that has been deleted,
  -- and the process ends with a fault.
  pub tmain-ends :
      (initialized : Bool) (actions : List LoginAction) (uses : List Class) (running : Bool)
      (late : Late)
      → (IsHarmless p initialized actions running late
          × (tmain p initialized actions uses running late no_instances ≡ (
              if initialized
              then done (no_instances, 0)
              else done (record { log = p.log_at; heap = p.heap_at; server = 0 }, 1))))
        ⊎ ((¬ IsHarmless p initialized actions running late)
            × ((e : Fault) × (tmain p initialized actions uses running late no_instances
                  ≡ crash e)))
  tmain-ends false actions uses running late =
      inl (inl refl, tmain-failed actions uses running late)
  tmain-ends true actions uses running late = go (opens_main actions && running) refl
    where
      both : {c : Bool} → c ≡ false → c ≡ true → ⊥
      both m n = cc

      go :
          (b : Bool)
          → (opens_main actions && running) ≡ b
          → (IsHarmless p true actions running late
              × (tmain p true actions uses running late no_instances ≡ done (no_instances, 0)))
            ⊎ ((¬ IsHarmless p true actions running late)
                × ((e : Fault) × (tmain p true actions uses running late no_instances ≡ crash e)))
      go false b = inl (inl b, none_left actions uses running late b)
      go true b = elim (rest-IsSpared late) [
        | inl (s, f) ↦ inl (inr s, ran_on actions uses running late b ∙ f)
        | inr (s, (e, f)) ↦ inr (
          λ i. elim i [ inl n ↦ both n b | inr j ↦ s j ],
          (e, ran_on actions uses running late b ∙ f),
        )
      ]
