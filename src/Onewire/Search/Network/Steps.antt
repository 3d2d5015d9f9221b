-- ===== src/Onewire/Search/Network/Steps.antt =====
-- One round of the loop of `search` is one step of `walk`.
use esp_ac_dimmer.Prelude.{
  ℕ, suc, ◌+◌, ◌*◌, ◌/◌, ◌%◌, ◌^◌, ◌<◌, ◌≡◌, refl, sym, ap, ◌∙◌, arith, ltb, ◌==◌, if◌then◌else◌,
  bit_and, Bool, true, false, ◌&&◌, List, [], ◌∷◌, ◌++◌, length, get_or, set, some, append_assoc,
}
use mathlib.Core.Bool.{false≢true}
use esp_ac_dimmer.Onewire.Line.{Callbacks, read_bit, write_bit}
use esp_ac_dimmer.Onewire.Search.{
  SearchLoop, discrepancy_direction, record_zero, store_bit, next_bit, choose, search_loop,
}
use esp_ac_dimmer.Onewire.Search.Termination.{At}
use esp_ac_dimmer.Onewire.Search.RomBits.{
  rom_path, rom_path-test, rom_path-set, set-append_right, get_or-append_right, written,
}
use esp_ac_dimmer.Onewire.Enumeration.{way}
use esp_ac_dimmer.Onewire.Search.Network.{num}

-- The bit of the last path at the loop's position.
pub old_bit :
    (n : ℕ) (l : SearchLoop) (front rest : List Bool) (b : Bool)
    → n < 64
    → At n n l
    → length front ≡ n
    → rom_path l.rom_no ≡ front ++ (b ∷ rest)
    → ltb 0 (bit_and (get_or l.rom_no l.rom_byte_number 0) l.rom_byte_mask) ≡ b
old_bit n l front rest b h a len e =
    let position : 8 * (n / 8) + n % 8 ≡ length front + 0 = omega arith in
    let there : get_or (rom_path l.rom_no) (8 * (n / 8) + n % 8) false ≡ b =
      rw (e, position) (get_or-append_right front (b ∷ rest) 0 false) in
    rw (a.byte, a.mask)
      (rom_path-test l.rom_no (n / 8) (n % 8) a.rom.bytes (omega (arith, a.rom.eight)) (omega arith)
        ∙ there)

pub direction_way :
    (last n : ℕ) (l : SearchLoop) (b : Bool)
    → l.id_bit_number ≡ n + 1
    → ltb 0 (bit_and (get_or l.rom_no l.rom_byte_number 0) l.rom_byte_mask) ≡ b
    → discrepancy_direction last l ≡ num (if ltb (n + 1) last then b else (n + 1) == last)
unfolding discrepancy_direction
direction_way last n l true number old = rw (number, old) (ground arith)
direction_way last n l false number old = rw (number, old) (ground arith)

store_bit-written :
    (d : Bool) (l : SearchLoop)
    → (store_bit (num d) l).rom_no
      ≡ set l.rom_no l.rom_byte_number
          (written d (get_or l.rom_no l.rom_byte_number 0) l.rom_byte_mask)
unfolding store_bit
store_bit-written true l = refl
store_bit-written false l = refl

-- The bit of ROM_NO that the round writes.
pub stored :
    (n : ℕ) (l : SearchLoop) (front rest : List Bool) (b d : Bool)
    → n < 64
    → At n (n + 1) l
    → length front ≡ n
    → rom_path l.rom_no ≡ front ++ (b ∷ rest)
    → rom_path (store_bit (num d) l).rom_no ≡ (front ++ (d ∷ [])) ++ rest
stored n l front rest b d h a len e =
    let position : 8 * (n / 8) + n % 8 ≡ length front + 0 = omega arith in
    let set_there : set (rom_path l.rom_no) (8 * (n / 8) + n % 8) d ≡ (front ++ (d ∷ [])) ++ rest =
      rw (e, position, set-append_right front (b ∷ rest) 0 d)
        (sym (append_assoc front (d ∷ []) rest)) in
    let written_there : rom_path
          (set l.rom_no (n / 8) (written d (get_or l.rom_no (n / 8) 0) (2 ^ (n % 8))))
        ≡ (front ++ (d ∷ [])) ++ rest =
      rom_path-set l.rom_no (n / 8) (n % 8) d a.rom.bytes (omega (arith, a.rom.eight)) (omega arith)
      ∙ set_there in
    ap rom_path (store_bit-written d l ∙ rw (a.byte, a.mask) refl) ∙ written_there

-- What `choose` answers for the bits `z` and `o`, of which not both are 1, where a discrepancy would be
-- decided as `x`.
pub record Choice (n : ℕ) (z o x : Bool) (l l' : SearchLoop) (direction : ℕ) : Type 0 where
  pub way : direction ≡ num (if z then true else if o then false else x)
  pub rom : l'.rom_no ≡ l.rom_no
  pub last_zero : l'.last_zero ≡ (
      if (if z then true else if o then false else x)
      then l.last_zero
      else if o
      then l.last_zero
      else n + 1)

pub choose-Choice :
    (last n : ℕ) (z o x : Bool) (l : SearchLoop)
    → (z && o) ≡ false
    → l.id_bit_number ≡ n + 1
    → discrepancy_direction last l ≡ num x
    → let c = choose last (num z) (num o) l in Choice n z o x l c.1 c.0
unfolding choose record_zero
choose-Choice last n true true x l h number e = absurd (false≢true (sym h))
choose-Choice last n true false x l h number e = record { way = refl; rom = refl; last_zero = refl }
choose-Choice last n false true x l h number e = record { way = refl; rom = refl; last_zero = refl }
choose-Choice last n false false true l h number e =
    rw e (record { way = refl; rom = refl; last_zero = refl })
choose-Choice last n false false false l h number e =
    rw e (record { way = refl; rom = refl; last_zero = number })

both_one : (z o : Bool) → (z && o) ≡ false → ((num z == 1) && (num o == 1)) ≡ false
both_one true true h = h
both_one true false h = refl
both_one false o h = refl

module _ {W : Type 0} (cb : Callbacks W) where
  search_loop-suc :
      (fuel last : ℕ) (l : SearchLoop) (w : W)
      → search_loop cb (suc fuel) last l w ≡ (
          let r₁ = read_bit cb w in
          let r₂ = read_bit cb r₁.1 in
          let c = choose last r₁.0 r₂.0 l in
          let l₂ = next_bit (store_bit c.0 c.1) in
          let w₃ = write_bit cb c.0 r₂.1 in
          if (r₁.0 == 1) && (r₂.0 == 1)
          then some (l, r₂.1)
          else if ltb l₂.rom_byte_number 8
          then search_loop cb fuel last l₂ w₃
          else some (l₂, w₃))
  unfolding search_loop
  search_loop-suc fuel last l w = refl

  -- A round in which some device answers.
  pub search_loop-round :
      (fuel last : ℕ) (l : SearchLoop) (w : W) (z o d : Bool)
      → (read_bit cb w).0 ≡ num z
      → (read_bit cb (read_bit cb w).1).0 ≡ num o
      → (z && o) ≡ false
      → (choose last (num z) (num o) l).0 ≡ num d
      → let l₂ = next_bit (store_bit (num d) (choose last (num z) (num o) l).1) in
        let w₃ = write_bit cb (num d) (read_bit cb (read_bit cb w).1).1 in
        search_loop cb (suc fuel) last l w
        ≡ (if ltb l₂.rom_byte_number 8 then search_loop cb fuel last l₂ w₃ else some (l₂, w₃))
  search_loop-round fuel last l w z o d first second both way =
      rw (search_loop-suc fuel last l w, first, second, both_one z o both, way) refl
