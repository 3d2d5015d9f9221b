-- ===== src/Bus/Mutex.antt =====
-- The mutex of src/components/bus/include/Bus.h: `FreeRtosMutex` and its guard `FreeRtosMutexLock`, over the
-- semaphores of FreeRTOS.
pub mod Guarded
pub mod Regions
pub mod Exclusion
mod Examples
use esp_ac_dimmer.Prelude.{ℕ, zero, suc, if◌then◌else◌, Bool, true, false, not}

-- `xSemaphoreCreateMutex`, `vSemaphoreDelete`, `xSemaphoreTake` with `portMAX_DELAY` and `xSemaphoreGive`, which
-- answer whether they return `pdPASS`; `H` is the type of handles.
pub record Semaphores (H K : Type 0) : Type 0 where
  pub create_mutex : K → H × K
  pub delete_semaphore : H → K → K
  pub take_forever : H → K → Bool × K
  pub give : H → K → Bool × K

-- `FreeRtosMutexLock`, with the handle of the mutex that it refers to.
pub record Guard (H : Type 0) : Type 0 where
  pub mutex : H
  pub is_locked : Bool

module _ {H K : Type 0} (rtos : Semaphores H K) where
  open rtos use {create_mutex, delete_semaphore, take_forever, give}

  -- `FreeRtosMutex::FreeRtosMutex`, `~FreeRtosMutex`, `lock` and `release`.
  abbrev pub new_mutex : K → H × K
  new_mutex k = create_mutex k

  abbrev pub delete_mutex : H → K → K
  delete_mutex mutex k = delete_semaphore mutex k

  abbrev pub lock_mutex : H → K → Bool × K
  lock_mutex mutex k = take_forever mutex k

  abbrev pub release_mutex : H → K → Bool × K
  release_mutex mutex k = give mutex k

  -- `FreeRtosMutexLock::FreeRtosMutexLock`.
  pub new_guard : H → K → Guard H × K
  new_guard mutex k =
      let (locked, k') = lock_mutex mutex k in (record { mutex = mutex; is_locked = locked }, k')

  -- `FreeRtosMutexLock::release`.
  pub release_guard : Guard H → K → Bool × Guard H × K
  release_guard guard k =
      if guard.is_locked
      then (let (released, k') = release_mutex guard.mutex k in
          (released, record guard { is_locked = not released }, k'))
      else (true, guard, k)

  -- `FreeRtosMutexLock::~FreeRtosMutexLock`.
  pub delete_guard : Guard H → K → K
  unfolding release_guard
  delete_guard guard k = (release_guard guard k).2

  -- So many calls of `release`.
  pub releases : ℕ → Guard H → K → Guard H × K
  unfolding release_guard
  releases zero guard k = (guard, k)
  releases (suc n) guard k =
      let (released, guard', k') = release_guard guard k in releases n guard' k'
