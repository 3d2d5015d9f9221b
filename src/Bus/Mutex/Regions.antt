-- ===== src/Bus/Mutex/Regions.antt =====
-- Tasks whose regions are under one mutex, as those of the methods in src/components/bus/src/Bus.cpp: a region reads
-- what is shared and writes it later, and other tasks may run in between.
use esp_ac_dimmer.Prelude.{ℕ, ◌≡◌, Bool, true, false, List, [], ◌∷◌}
use esp_ac_dimmer.Bus.Tasks.{update}
use esp_ac_dimmer.Bus.Mutex.{Semaphores, Guard, new_guard, delete_guard}

-- Where a task stands: outside of its regions, or in one, with its guard; a region that has read keeps what it
-- read.
pub data Phase (H S : Type 0) : Type 0 where
  outside : Phase H S
  entered : Guard H → (S → S) → Phase H S
  has_read : Guard H → (S → S) → S → Phase H S
  has_written : Guard H → Phase H S

-- `log` has the regions that were written, the latest first.
pub record System (H K S : Type 0) : Type 0 where
  pub shared : S
  pub kernel : K
  pub phase : ℕ → Phase H S
  pub log : List (S → S)

-- Whether a mutex can be taken; one that cannot lets a task wait, which is no step. Taking and giving
-- succeed, as they do with a mutex that was created.
pub record MutexLaws {H K : Type 0} (rtos : Semaphores H K) (mutex : H) : Type 0 where
  pub is_free : K → Bool
  pub takes : (k : K) → is_free k ≡ true → (rtos.take_forever mutex k).0 ≡ true
  pub taken : (k : K) → is_free k ≡ true → is_free (rtos.take_forever mutex k).1 ≡ false
  pub gives : (k : K) → is_free k ≡ false → (rtos.give mutex k).0 ≡ true
  pub given : (k : K) → is_free k ≡ false → is_free (rtos.give mutex k).1 ≡ true

module _ {H K S : Type 0} (rtos : Semaphores H K) (mutex : H) (laws : MutexLaws rtos mutex) where
  pub data Step (s : System H K S) : System H K S → Type 0 where
    enters :
        (i : ℕ) (region : S → S)
        → s.phase i ≡ outside
        → laws.is_free s.kernel ≡ true
        → Step s (record s {
          kernel = (new_guard rtos mutex s.kernel).1;
          phase = update s.phase i (entered (new_guard rtos mutex s.kernel).0 region);
        })
    reads :
        (i : ℕ) (guard : Guard H) (region : S → S)
        → s.phase i ≡ entered guard region
        → Step s (record s { phase = update s.phase i (has_read guard region s.shared) })
    writes :
        (i : ℕ) (guard : Guard H) (region : S → S) (old : S)
        → s.phase i ≡ has_read guard region old
        → Step s (record s {
          shared = region old;
          phase = update s.phase i (has_written guard);
          log = region ∷ s.log;
        })
    leaves :
        (i : ℕ) (guard : Guard H)
        → s.phase i ≡ has_written guard
        → Step s (record s {
          kernel = delete_guard rtos guard s.kernel;
          phase = update s.phase i outside;
        })

  pub record IsStart (s : System H K S) : Type 0 where
    pub free : laws.is_free s.kernel ≡ true
    pub all_outside : (i : ℕ) → s.phase i ≡ outside
    pub no_log : s.log ≡ []

  pub data Reach (s₀ : System H K S) : System H K S → Type 0 where
    start : Reach s₀ s₀
    later : {s t : System H K S} → Reach s₀ s → Step s t → Reach s₀ t

-- The regions one after the other, each as a whole.
abbrev pub run_regions : {S : Type 0} → List (S → S) → S → S
run_regions [] shared = shared
run_regions (region ∷ log) shared = region (run_regions log shared)
