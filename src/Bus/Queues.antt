-- ===== src/Bus/Queues.antt =====
-- The message queues of FreeRTOS as `IBusClient` uses them, with what their documentation promises.
use esp_ac_dimmer.Prelude.{
  ℕ, ◌≤◌, ◌<◌, ◌≡◌, ◌≢◌, Bool, true, false, List, [], ◌∷◌, ◌++◌, Option, none, some, length,
}

-- `IBusClient::MESSAGE_QUEUE_LENGTH`.
abbrev pub message_queue_length : ℕ
message_queue_length = 32

-- `xQueueCreate(32, …)`, `xQueueSend(…, 0)`, `xQueueReceive(…)` and `vQueueDelete`, over the kernel's
-- state `K` and the messages `M` whose pointers are queued.
pub record Queues (K : Type 0) (M : Type 0) : Type 0 where
  pub create : K → Option ℕ × K
  pub send_item : ℕ → M → K → Bool × K
  pub receive_item : ℕ → K → Option M × K
  pub delete_queue : ℕ → K → K

-- A queue is first in, first out, holds 32 items, and a call touches its own queue only.
pub record QueueLaws {K : Type 0} {M : Type 0} (rtos : Queues K M) : Type 0 where
  pub contents : K → ℕ → List M
  pub send_room :
      (q : ℕ) (m : M) (k : K)
      → length (contents k q) < message_queue_length
      → ((rtos.send_item q m k).0 ≡ true)
        × (contents (rtos.send_item q m k).1 q ≡ contents k q ++ (m ∷ []))
  pub send_full :
      (q : ℕ) (m : M) (k : K)
      → message_queue_length ≤ length (contents k q)
      → ((rtos.send_item q m k).0 ≡ false) × (contents (rtos.send_item q m k).1 q ≡ contents k q)
  pub send_other :
      (q r : ℕ) (m : M) (k : K) → r ≢ q → contents (rtos.send_item q m k).1 r ≡ contents k r
  pub receive_some :
      (q : ℕ) (m : M) (ms : List M) (k : K)
      → contents k q ≡ m ∷ ms
      → ((rtos.receive_item q k).0 ≡ some m) × (contents (rtos.receive_item q k).1 q ≡ ms)
  pub receive_none :
      (q : ℕ) (k : K)
      → contents k q ≡ []
      → ((rtos.receive_item q k).0 ≡ none) × (contents (rtos.receive_item q k).1 q ≡ [])
  pub receive_other :
      (q r : ℕ) (k : K) → r ≢ q → contents (rtos.receive_item q k).1 r ≡ contents k r
