-- ===== src/Onewire/Search/Kept.antt =====
-- What the line keeps, a call of `search` keeps.
use esp_ac_dimmer.Prelude.{
  ℕ, zero, suc, ◌==◌, ltb, ◌&&◌, if◌then◌else◌, Bool, false, List, Bool-cases, inl, inr, Option,
  none, some,
}
use esp_ac_dimmer.Onewire.Line.{Callbacks, reset, read_bit, write_bit}
use esp_ac_dimmer.Onewire.Line.Kept.{IsKept, write-keeps}
use esp_ac_dimmer.Onewire.Search.{
  SearchState, SearchLoop, loop_start, loop_result, search_end, choose, store_bit, next_bit,
  search_fuel, search_loop, search,
}

module _ {W : Type 0} (P : W → Type 0) where
  -- The wire that the loop ends with, if it ends.
  abbrev LoopLeaves : Option (SearchLoop × W) → Type 0
  LoopLeaves none = Unit
  LoopLeaves (some (l, w)) = P w

  -- The wire that a call of `search` ends with, if it ends.
  abbrev pub Leaves : Option (Option (List ℕ) × SearchState × W) → Type 0
  Leaves none = Unit
  Leaves (some (addr, s, w)) = P w

module _ {W : Type 0} (cb : Callbacks W) (P : W → Type 0) (keeps : IsKept cb P) where
  search_loop-keeps :
      (fuel last_discrepancy : ℕ) (l : SearchLoop) (w : W)
      → P w
      → LoopLeaves P (search_loop cb fuel last_discrepancy l w)
  unfolding search_loop
  search_loop-keeps zero last_discrepancy l w h = tt
  search_loop-keeps (suc fuel) last_discrepancy l w h =
      let (id_bit, w₁) = read_bit cb w in
      let (cmp_id_bit, w₂) = read_bit cb w₁ in
      let (direction, l₁) = choose last_discrepancy id_bit cmp_id_bit l in
      let l₂ = next_bit (store_bit direction l₁) in
      let w₃ = write_bit cb direction w₂ in
      let h₂ : P w₂ = keeps.by_read w₁ (keeps.by_read w h) in
      let h₃ : P w₃ = keeps.by_write direction w₂ h₂ in
      elim (Bool-cases ((id_bit == 1) && (cmp_id_bit == 1))) [
        | inl nobody ↦ rw nobody h₂
        | inr somebody ↦ elim (Bool-cases (ltb l₂.rom_byte_number 8)) [
          | inl more ↦ rw (somebody, more) (search_loop-keeps fuel last_discrepancy l₂ w₃ h₃)
          | inr all ↦ rw (somebody, all) h₃
        ]
      ]

  after_loop-Leaves :
      (s : SearchState) (r : Option (SearchLoop × W))
      → LoopLeaves P r
      → Leaves P (elim r [
        | none ↦ none
        | some (l, w₃) ↦ let (addr, s') = search_end (loop_result s l) in some (addr, s', w₃)
      ])
  after_loop-Leaves s none h = h
  after_loop-Leaves s (some (l, w)) h = h

  pub search-keeps :
      (s : SearchState) (search_mode : Bool) (w : W) → P w → Leaves P (search cb s search_mode w)
  unfolding search
  search-keeps s search_mode w h =
      let w₁ = (reset cb w).1 in
      let h₁ : P w₁ = keeps.by_reset w h in
      let command = if search_mode then 0xF0 else 0xEC in
      elim (Bool-cases s.last_device_flag) [
        | inl last ↦ rw last h
        | inr more ↦ elim (Bool-cases (reset cb w).0) [
          | inr absent ↦ rw (more, absent) h₁
          | inl present ↦
              rw (more, present)
                (after_loop-Leaves s _ (
                  search_loop-keeps search_fuel s.last_discrepancy (loop_start s) _
                    (write-keeps cb P keeps command false w₁ h₁)))
        ]
      ]
