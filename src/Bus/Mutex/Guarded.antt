-- ===== src/Bus/Mutex/Guarded.antt =====
-- A guard gives its mutex back once, and only if it took it.
use esp_ac_dimmer.Prelude.{
  ℕ, zero, suc, ◌≡◌, refl, sym, subst, if◌then◌else◌, Bool, true, false, not, Bool-cases, inl, inr,
}
use esp_ac_dimmer.Bus.Mutex.{Semaphores, Guard, new_guard, release_guard, delete_guard, releases}

module _ {H K : Type 0} (rtos : Semaphores H K) where
  open rtos use {take_forever, give}

  -- A guard that is not locked is released by doing nothing.
  releases-unlocked :
      (n : ℕ) (mutex : H) (k : K)
      → let guard : Guard H = record { mutex = mutex; is_locked = false } in
        delete_guard rtos (releases rtos n guard k).0 (releases rtos n guard k).1 ≡ k
  unfolding releases delete_guard release_guard
  releases-unlocked zero mutex k = refl
  releases-unlocked (suc n) mutex k = releases-unlocked n mutex k

  releases-locked :
      (n : ℕ) (mutex : H) (k : K)
      → (give mutex k).0 ≡ true
      → let guard : Guard H = record { mutex = mutex; is_locked = true } in
        delete_guard rtos (releases rtos n guard k).0 (releases rtos n guard k).1 ≡ (give mutex k).1
  unfolding releases delete_guard release_guard
  releases-locked zero mutex k gives = refl
  releases-locked (suc n) mutex k gives =
      let k' = (give mutex k).1 in
      let unlocked : Bool → Guard H = λ b. record { mutex = mutex; is_locked = not b } in
      subst
        (λ b.
          delete_guard rtos (releases rtos n (unlocked b) k').0 (releases rtos n (unlocked b) k').1
          ≡ k')
        (sym gives) (releases-unlocked n mutex k')

  -- A guard of a mutex that it can take, and that can be given back, takes it once and gives it back once,
  -- however often it is released before its destructor. One that cannot take the mutex never gives it.
  pub delete_guard-releases :
      (n : ℕ) (mutex : H) (k : K)
      → (give mutex (take_forever mutex k).1).0 ≡ true
      → let (taken, k₁) = take_forever mutex k in
        let (guard, k₂) = new_guard rtos mutex k in
        delete_guard rtos (releases rtos n guard k₂).0 (releases rtos n guard k₂).1
        ≡ (if taken then (give mutex k₁).1 else k₁)
  unfolding new_guard
  delete_guard-releases n mutex k gives = elim (Bool-cases (take_forever mutex k).0) [
    | inl taken ↦ rw taken (releases-locked n mutex (take_forever mutex k).1 gives)
    | inr failed ↦ rw failed (releases-unlocked n mutex (take_forever mutex k).1)
  ]
