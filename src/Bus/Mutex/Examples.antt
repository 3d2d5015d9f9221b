-- ===== src/Bus/Mutex/Examples.antt =====
-- A mutex that is a Boolean, and two tasks that count: the second enters its region after the first.
use esp_ac_dimmer.Prelude.{ℕ, suc, ◌+◌, ◌≡◌, refl, sym, Bool, true, false, not, [], ◌∷◌}
use esp_ac_dimmer.Bus.Tasks.{update}
use esp_ac_dimmer.Bus.Mutex.{Semaphores, Guard, new_guard, delete_guard, release_guard}
use esp_ac_dimmer.Bus.Mutex.Regions.{
  outside, entered, has_read, has_written, System, MutexLaws, enters, reads, writes, leaves, Reach,
  start, later, run_regions,
}
use esp_ac_dimmer.Bus.Mutex.Exclusion.{Reach-run_regions}

-- Whether the mutex is taken.
abbrev one_mutex : Semaphores ℕ Bool
one_mutex = record {
  create_mutex = λ k. (0, false);
  delete_semaphore = λ h k. k;
  take_forever = λ h k. (not k, true);
  give = λ h k. (k, false);
}

taken_before : (b : Bool) → not b ≡ false → b ≡ true
taken_before true h = refl
taken_before false h = sym h

abbrev one_mutex_laws : MutexLaws one_mutex 0
one_mutex_laws = record {
  is_free = λ k. not k;
  takes = λ k free. free;
  taken = λ k free. refl;
  gives = λ k taken. taken_before k taken;
  given = λ k taken. refl;
}

abbrev Counting : Type 0
Counting = System ℕ Bool ℕ

abbrev none_inside : Counting
none_inside = record { shared = 5; kernel = false; phase = λ i. outside; log = [] }

abbrev entering : ℕ → (ℕ → ℕ) → Counting → Counting
entering i region s = record s {
  kernel = (new_guard one_mutex 0 s.kernel).1;
  phase = update s.phase i (entered (new_guard one_mutex 0 s.kernel).0 region);
}

abbrev taken_guard : Guard ℕ
unfolding new_guard
taken_guard = (new_guard one_mutex 0 false).0

abbrev reading : ℕ → (ℕ → ℕ) → Counting → Counting
reading i region s = record s { phase = update s.phase i (has_read taken_guard region s.shared) }

abbrev writing : ℕ → (ℕ → ℕ) → ℕ → Counting → Counting
writing i region old s = record s {
  shared = region old;
  phase = update s.phase i (has_written taken_guard);
  log = region ∷ s.log;
}

abbrev leaving : ℕ → Counting → Counting
leaving i s = record s {
  kernel = delete_guard one_mutex taken_guard s.kernel;
  phase = update s.phase i outside;
}

-- The other task is in its region, and has not read.
abbrev add_two : ℕ → ℕ
add_two n = n + 2

abbrev counted : Counting
counted =
    entering 4 add_two (leaving 3 (writing 3 suc 5 (reading 3 suc (entering 3 suc none_inside))))

counted-Reach : Reach one_mutex 0 one_mutex_laws none_inside counted
unfolding new_guard delete_guard release_guard
counted-Reach =
    later
      (later
        (later (later (later start (enters 3 suc refl refl)) (reads 3 taken_guard suc refl))
          (writes 3 taken_guard suc 5 refl))
        (leaves 3 taken_guard refl))
      (enters 4 add_two refl refl)

Reach-run_regions_example : counted.shared ≡ run_regions counted.log none_inside.shared
Reach-run_regions_example =
    Reach-run_regions one_mutex 0 one_mutex_laws
      (record { free = refl; all_outside = λ i. refl; no_log = refl }) counted-Reach
