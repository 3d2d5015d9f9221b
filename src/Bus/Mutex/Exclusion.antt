-- ===== src/Bus/Mutex/Exclusion.antt =====
-- The mutex makes each region one step.
use esp_ac_dimmer.Prelude.{
  ℕ, ◌==◌, ==_iff, ◌≡◌, ◌≢◌, ◌⊎◌, inl, inr, refl, sym, subst, ap, ◌∙◌, Bool, true, false,
  Bool-cases,
}
use mathlib.Core.Bool.{false≢true}
use esp_ac_dimmer.Bus.Tasks.{update}
use esp_ac_dimmer.Bus.Mutex.{Semaphores, Guard, new_guard, release_guard, delete_guard}
use esp_ac_dimmer.Bus.Mutex.Regions.{
  Phase, outside, entered, has_read, has_written, System, MutexLaws, Step, enters, reads, writes,
  leaves, IsStart, Reach, start, later, run_regions,
}

abbrev is_outside : {H S : Type 0} → Phase H S → Bool
is_outside outside = true
is_outside (entered guard region) = false
is_outside (has_read guard region old) = false
is_outside (has_written guard) = false

outside≢inside : {H S : Type 0} (p : Phase H S) → is_outside p ≡ false → p ≢ outside
outside≢inside p inside e = false≢true (sym inside ∙ ap is_outside e)

module _ {H K : Type 0} (rtos : Semaphores H K) (mutex : H) (laws : MutexLaws rtos mutex) where
  abbrev held : Guard H
  held = record { mutex = mutex; is_locked = true }

  new_guard-held : (k : K) → laws.is_free k ≡ true → (new_guard rtos mutex k).0 ≡ held
  unfolding new_guard
  new_guard-held k free = rw (laws.takes k free) refl

  new_guard-taken :
      (k : K) → laws.is_free k ≡ true → laws.is_free (new_guard rtos mutex k).1 ≡ false
  unfolding new_guard
  new_guard-taken k free = laws.taken k free

  delete_guard-given :
      (guard : Guard H) (k : K)
      → guard ≡ held
      → laws.is_free k ≡ false
      → laws.is_free (delete_guard rtos guard k) ≡ true
  unfolding delete_guard release_guard
  delete_guard-given guard k e taken = rw e (laws.given k taken)

  module _ {S : Type 0} where
    -- A task in a region has a locked guard, and what it read is what is shared.
    abbrev InRegion : S → Phase H S → Type 0
    InRegion shared outside = ⊥
    InRegion shared (entered guard region) = guard ≡ held
    InRegion shared (has_read guard region old) = (guard ≡ held) × (old ≡ shared)
    InRegion shared (has_written guard) = guard ≡ held

    -- At most one task is in a region, and the mutex is free when none is.
    record Free (s : System H K S) : Type 0 where
      free : laws.is_free s.kernel ≡ true
      nobody : (i : ℕ) → s.phase i ≡ outside

    record Busy (s : System H K S) : Type 0 where
      taken : laws.is_free s.kernel ≡ false
      holder : ℕ
      inside : InRegion s.shared (s.phase holder)
      others : (j : ℕ) → (j == holder) ≡ false → s.phase j ≡ outside

    abbrev Exclusive : System H K S → Type 0
    Exclusive s = Free s ⊎ Busy s

    update-same : (f : ℕ → Phase H S) (i : ℕ) (p : Phase H S) → update f i p i ≡ p
    update-same f i p = rw ((==_iff i i).1 refl) refl

    update-other :
        (f : ℕ → Phase H S) (i j : ℕ) (p : Phase H S) → (j == i) ≡ false → update f i p j ≡ f j
    update-other f i j p other = rw other refl

    -- The task that is in a region, and what it has there.
    holds :
        (s : System H K S) (i : ℕ) (p : Phase H S)
        → s.phase i ≡ p
        → is_outside p ≡ false
        → Exclusive s
        → (laws.is_free s.kernel ≡ false)
          × InRegion s.shared p
          × ((j : ℕ) → (j == i) ≡ false → s.phase j ≡ outside)
    holds s i p at inside (inl f) = absurd (outside≢inside p inside (sym at ∙ f.nobody i))
    holds s i p at inside (inr b) = elim (Bool-cases (i == b.holder)) [
      | inr other ↦ absurd (outside≢inside p inside (sym at ∙ b.others i other))
      | inl same ↦
          let e : b.holder ≡ i = sym ((==_iff i b.holder).0 same) in
          (
            b.taken,
            subst (InRegion s.shared) at (subst (λ j. InRegion s.shared (s.phase j)) e b.inside),
            subst (λ k. (j : ℕ) → (j == k) ≡ false → s.phase j ≡ outside) e b.others,
          )
    ]

    -- The task goes on in its region.
    stays :
        (s t : System H K S) (i : ℕ) (p : Phase H S)
        → laws.is_free t.kernel ≡ false
        → ((j : ℕ) → t.phase j ≡ update s.phase i p j)
        → ((j : ℕ) → (j == i) ≡ false → s.phase j ≡ outside)
        → InRegion t.shared p
        → Exclusive t
    stays s t i p taken phases others inside = inr (record {
      taken = taken;
      holder = i;
      inside = subst (InRegion t.shared) (sym (phases i ∙ update-same s.phase i p)) inside;
      others = λ j other. phases j ∙ (update-other s.phase i j p other ∙ others j other);
    })

    -- No task is in a region after the one leaves it.
    left :
        (s : System H K S) (i : ℕ)
        → ((j : ℕ) → (j == i) ≡ false → s.phase j ≡ outside)
        → (j : ℕ) → update s.phase i outside j ≡ outside
    left s i others j = elim (Bool-cases (j == i)) [
      | inl same ↦ rw same refl
      | inr other ↦ rw other (others j other)
    ]

    record IsAtomic (s₀ s : System H K S) : Type 0 where
      exclusive : Exclusive s
      regions : s.shared ≡ run_regions s.log s₀.shared

    Step-IsAtomic :
        (s₀ : System H K S) {s t : System H K S}
        → Step rtos mutex laws s t
        → IsAtomic s₀ s
        → IsAtomic s₀ t
    Step-IsAtomic s₀ {s} (enters i region at free) h = record {
      exclusive = elim h.exclusive [
        | inr b ↦ absurd (false≢true (sym b.taken ∙ free))
        | inl f ↦
            stays s _ i (entered (new_guard rtos mutex s.kernel).0 region)
              (new_guard-taken s.kernel free) (λ j. refl) (λ j other. f.nobody j)
              (new_guard-held s.kernel free)
      ];
      regions = h.regions;
    }
    Step-IsAtomic s₀ {s} (reads i guard region at) h =
        let (taken, inside, others) = holds s i (entered guard region) at refl h.exclusive in
        record {
          exclusive =
              stays s _ i (has_read guard region s.shared) taken (λ j. refl) others (inside, refl);
          regions = h.regions;
        }
    Step-IsAtomic s₀ {s} (writes i guard region old at) h =
        let (taken, inside, others) = holds s i (has_read guard region old) at refl h.exclusive in
        record {
          exclusive = stays s _ i (has_written guard) taken (λ j. refl) others inside.0;
          regions = ap region (inside.1 ∙ h.regions);
        }
    Step-IsAtomic s₀ {s} (leaves i guard at) h =
        let (taken, inside, others) = holds s i (has_written guard) at refl h.exclusive in
        record {
          exclusive = inl (record {
            free = delete_guard-given guard s.kernel inside taken;
            nobody = left s i others;
          });
          regions = h.regions;
        }

    Reach-IsAtomic :
        {s₀ s : System H K S}
        → IsStart rtos mutex laws s₀
        → Reach rtos mutex laws s₀ s
        → IsAtomic s₀ s
    Reach-IsAtomic {s₀} at start = record {
      exclusive = inl (record { free = at.free; nobody = at.all_outside });
      regions = rw at.no_log refl;
    }
    Reach-IsAtomic {s₀} at (later before step) = Step-IsAtomic s₀ step (Reach-IsAtomic at before)

    -- Two tasks are never in a region at once.
    pub Reach-exclusive :
        {s₀ s : System H K S} (i j : ℕ)
        → IsStart rtos mutex laws s₀
        → Reach rtos mutex laws s₀ s
        → s.phase i ≢ outside
        → s.phase j ≢ outside
        → i ≡ j
    Reach-exclusive {s₀} {s} i j at reached inside inside' =
        elim (Reach-IsAtomic at reached).exclusive [
          | inl f ↦ absurd (inside (f.nobody i))
          | inr b ↦ elim (Bool-cases (i == b.holder)) [
            | inr other ↦ absurd (inside (b.others i other))
            | inl e ↦ elim (Bool-cases (j == b.holder)) [
              | inr other ↦ absurd (inside' (b.others j other))
              | inl e' ↦ (==_iff i b.holder).0 e ∙ sym ((==_iff j b.holder).0 e')
            ]
          ]
        ]

    -- Tasks run their regions under one guarded mutex, and a region reads what is shared in one step and
    -- writes it in another. However the tasks' steps come, what is shared is always what the written
    -- regions make of it one after the other, each as a whole, in the order of their writing.
    pub Reach-run_regions :
        {s₀ s : System H K S}
        → IsStart rtos mutex laws s₀
        → Reach rtos mutex laws s₀ s
        → s.shared ≡ run_regions s.log s₀.shared
    Reach-run_regions at reached = (Reach-IsAtomic at reached).regions
