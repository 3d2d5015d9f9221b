-- ===== src/Onewire/Search/State.antt =====
-- Every call of `search` returns; its answer and the search state fit together.
use mathlib.Core.Bool.{false≢true}
use esp_ac_dimmer.Prelude.{
  ==_iff, ℕ, ◌≤◌, ◌<◌, ◌≡◌, ◌≢◌, ◌↔◌, refl, sym, ◌∙◌, inl, inr, arith, ltb, ◌==◌, if◌then◌else◌,
  Bool, true, false, List, Option, none, some, get_or, Bool-cases,
}
use esp_ac_dimmer.Onewire.Line.{Callbacks, reset, write}
use esp_ac_dimmer.Onewire.Search.{
  SearchState, SearchLoop, reset_search, target_search, clear_counters, loop_start, loop_result,
  search_end, search_fuel, search,
}
use esp_ac_dimmer.Onewire.Search.Termination.{IsRom, At, LoopEnd, search_loop-total}

pub record IsValid (s : SearchState) : Type 0 where
  pub rom : IsRom s.rom_no
  pub discrepancy : s.last_discrepancy ≤ 64
  pub family : s.last_family_discrepancy ≤ 8

-- What the state says after `search` has answered no address, or an address: the counters are
-- cleared, or the address is ROM_NO, its family code is not 0, and the flag for the last device is
-- set exactly when no discrepancy is left.
abbrev pub Answer : Option (List ℕ) → SearchState → Type 0
Answer none s =
    (s.last_discrepancy ≡ 0) × (s.last_family_discrepancy ≡ 0) × (s.last_device_flag ≡ false)
Answer (some rom) s =
    (rom ≡ s.rom_no)
    × (get_or rom 0 0 ≢ 0)
    × ((s.last_device_flag ≡ true) ↔ (s.last_discrepancy ≡ 0))

-- Resetting the search, or aiming it at a family code, gives a valid state from any other.
pub reset_search-IsValid : (s : SearchState) → IsValid (reset_search s)
unfolding reset_search
reset_search-IsValid s = omega arith

pub target_search-IsValid :
    (family_code : ℕ) (s : SearchState) → family_code < 256 → IsValid (target_search family_code s)
unfolding target_search
target_search-IsValid family_code s h = omega arith

clear-IsValid : (s : SearchState) → IsValid s → IsValid (clear_counters s)
clear-IsValid s v = record { rom = v.rom; discrepancy = omega arith; family = omega arith }

search_end-Answer :
    (found : Bool) (s : SearchState)
    → IsValid s
    → (found ≡ true → (s.last_device_flag ≡ true) ↔ (s.last_discrepancy ≡ 0))
    → let r = search_end (found, s) in IsValid r.1 × Answer r.0 r.1
unfolding search_end
search_end-Answer false s v h = (clear-IsValid s v, (refl, refl, refl))
search_end-Answer true s v h = elim (Bool-cases (get_or s.rom_no 0 0 == 0)) [
  | inl z ↦ rw z (clear-IsValid s v, (refl, refl, refl))
  | inr z ↦ rw z (v, (refl, ground arith, h refl))
]

pub loop_start-At : (s : SearchState) → IsValid s → At 0 0 (loop_start s)
loop_start-At s v = record {
  number = refl;
  byte = refl;
  mask = refl;
  rom = v.rom;
  zeros = omega arith;
  family = v.family;
}

loop_result-IsValid :
    (s : SearchState) (l : SearchLoop)
    → IsValid s
    → s.last_device_flag ≡ false
    → LoopEnd l
    → let r = loop_result s l in
      IsValid r.1 × (r.0 ≡ true → (r.1.last_device_flag ≡ true) ↔ (r.1.last_discrepancy ≡ 0))
unfolding loop_result
loop_result-IsValid s l v f e = elim (Bool-cases (ltb l.id_bit_number 65)) [
  | inl few ↦ rw few (
    record { rom = e.at.rom; discrepancy = v.discrepancy; family = e.at.family },
    λ wrong. absurd (false≢true wrong),
  )
  | inr all ↦ elim (Bool-cases (l.last_zero == 0)) [
    | inl last ↦
        rw (all, last)
          (
            record {
              rom = e.at.rom;
              discrepancy = omega (arith, e.at.zeros, e.at_most);
              family = e.at.family;
            },
            λ found. (λ flag. (==_iff _ _).0 last, λ none_left. refl),
          )
    | inr more ↦
        rw (all, more)
          (
            record {
              rom = e.at.rom;
              discrepancy = omega (arith, e.at.zeros, e.at_most);
              family = e.at.family;
            },
            λ found. (λ flag. absurd (false≢true (sym f ∙ flag)), λ none_left. ground arith),
          )
  ]
]

module _ {W : Type 0} (cb : Callbacks W) where
  -- From a valid search state every call of `search` returns, whatever is on the wire: its loop ends
  -- within 64 rounds. The state is valid again, and fits the answer.
  pub search-total :
      (s : SearchState) (search_mode : Bool) (w : W)
      → IsValid s
      → (addr : Option (List ℕ)) × (s' : SearchState) × (w' : W) × (search cb s search_mode w
          ≡ some (addr, s', w'))
        × IsValid s'
        × Answer addr s'
  unfolding search
  search-total s search_mode w v = elim (Bool-cases s.last_device_flag) [
    | inl last ↦
        let (v', answer) = search_end-Answer false s v (λ wrong. absurd (false≢true wrong)) in
        rw last (_, _, _, refl, v', answer)
    | inr more ↦ elim (Bool-cases (reset cb w).0) [
      | inr absent ↦ rw (more, absent) (_, _, _, refl, clear-IsValid s v, (refl, refl, refl))
      | inl present ↦
          let (l, w', runs, ends) =
            search_loop-total cb search_fuel s.last_discrepancy 0 (loop_start s)
              (write cb (if search_mode then 0xF0 else 0xEC) false (reset cb w).1) refl
              (omega arith) (loop_start-At s v) in
          let (valid, flag) = loop_result-IsValid s l v more ends in
          let (v', answer) = search_end-Answer (loop_result s l).0 (loop_result s l).1 valid flag in
          rw (more, present, runs) (_, _, _, refl, v', answer)
    ]
  ]

  -- Once the last device was found, the next call answers that there is none without touching the
  -- wire, and the one after it starts from the beginning.
  pub search_after_last :
      (s : SearchState) (search_mode : Bool) (w : W)
      → s.last_device_flag ≡ true
      → search cb s search_mode w ≡ some (none, clear_counters s, w)
  unfolding search search_end
  search_after_last s search_mode w h = rw h refl
