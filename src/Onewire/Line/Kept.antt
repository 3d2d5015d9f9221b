-- ===== src/Onewire/Line/Kept.antt =====
-- A condition on the wire that every bit on it keeps, the other operations of the line keep.
use esp_ac_dimmer.Prelude.{
  ℕ, zero, suc, ◌*◌, ◌%◌, ◌^◌, ◌==◌, if◌then◌else◌, bit_and, bit_or, Bool, true, false, List, [],
  ◌∷◌, Bool-cases, inl, inr,
}
use esp_ac_dimmer.Onewire.Line.{
  Callbacks, write_bit, read_bit, reset, float, write_loop, write, write_all, select, read_loop,
  read, read_bytes,
}

pub record IsKept {W : Type 0} (cb : Callbacks W) (P : W → Type 0) : Type 0 where
  pub by_write : (v : ℕ) (w : W) → P w → P (write_bit cb v w)
  pub by_read : (w : W) → P w → P (read_bit cb w).1
  pub by_float : (w : W) → P w → P (float cb w)
  pub by_reset : (w : W) → P w → P (reset cb w).1

module _ {W : Type 0} (cb : Callbacks W) (P : W → Type 0) (keeps : IsKept cb P) where
  write_loop-keeps : (fuel bit_mask v : ℕ) (w : W) → P w → P (write_loop cb fuel bit_mask v w)
  unfolding write_loop
  write_loop-keeps zero bit_mask v w h = h
  write_loop-keeps (suc fuel) bit_mask v w h = elim (Bool-cases (bit_mask == 0)) [
    | inl e ↦ rw e h
    | inr e ↦
        let b = if bit_and bit_mask v == 0 then 0 else 1 in
        rw e
          (write_loop-keeps fuel (bit_mask * 2 % 2 ^ 8) v (write_bit cb b w) (keeps.by_write b w h))
  ]

  pub write-keeps : (v : ℕ) (power : Bool) (w : W) → P w → P (write cb v power w)
  unfolding write
  write-keeps v true w h = write_loop-keeps 9 0x01 v w h
  write-keeps v false w h =
      keeps.by_float (write_loop cb 9 0x01 v w) (write_loop-keeps 9 0x01 v w h)

  write_all-keeps : (bs : List ℕ) (w : W) → P w → P (write_all cb bs w)
  unfolding write_all
  write_all-keeps [] w h = h
  write_all-keeps (b ∷ bs) w h = write_all-keeps bs (write cb b false w) (write-keeps b false w h)

  pub select-keeps : (rom : List ℕ) (w : W) → P w → P (select cb rom w)
  unfolding select
  select-keeps rom w h = write_all-keeps rom (write cb 0x55 false w) (write-keeps 0x55 false w h)

  read_loop-keeps : (fuel bit_mask r : ℕ) (w : W) → P w → P (read_loop cb fuel bit_mask r w).1
  unfolding read_loop
  read_loop-keeps zero bit_mask r w h = h
  read_loop-keeps (suc fuel) bit_mask r w h = elim (Bool-cases (bit_mask == 0)) [
    | inl e ↦ rw e h
    | inr e ↦ rw e (
        read_loop-keeps fuel (bit_mask * 2 % 2 ^ 8)
          (if (read_bit cb w).0 == 0 then r else bit_or r bit_mask) (read_bit cb w).1
          (keeps.by_read w h))
  ]

  pub read_bytes-keeps : (count : ℕ) (w : W) → P w → P (read_bytes cb count w).1
  unfolding read_bytes read
  read_bytes-keeps zero w h = h
  read_bytes-keeps (suc count) w h =
      read_bytes-keeps count (read cb w).1 (read_loop-keeps 9 0x01 0 w h)
