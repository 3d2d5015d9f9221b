-- ===== src/Main/Rounds.antt =====
-- The passes of the loop go through all the devices, each once, and start again.
use esp_ac_dimmer.Prelude.{
  ℕ, zero, suc, ◌+◌, ◌*◌, ◌≡◌, ◌↔◌, refl, sym, ap, ◌∙◌, subst, arith, Bool, List, [], ◌∷◌, ◌++◌,
  map, length, All, Option, none, some, inl, append-nil,
}
use mathlib.Core.List.{Mem, flatten}
use esp_ac_dimmer.Onewire.Line.{Callbacks}
use esp_ac_dimmer.Onewire.Search.{begin, SearchState, reset_search, clear_counters}
use esp_ac_dimmer.Onewire.Search.RomBits.{rom_path}
use esp_ac_dimmer.Onewire.Search.State.{IsValid, reset_search-IsValid}
use esp_ac_dimmer.Onewire.Enumeration.{ordered}
use esp_ac_dimmer.Onewire.Enumeration.Members.{Ascends, ordered-Ascends}
use esp_ac_dimmer.Onewire.Search.Network.{Network}
use esp_ac_dimmer.Onewire.Search.Network.Present.{IsDevice}
use esp_ac_dimmer.Onewire.Search.Network.Calls.{Started, Position, search-found, search-none}
use esp_ac_dimmer.Onewire.Search.Network.Members.{mem-of_ordered}
use esp_ac_dimmer.Main.{TempMsg, Pass, no_more_addresses, handle_address, passes}
use esp_ac_dimmer.Main.Kept.{IsUndisturbed, handle_address-keeps}
use esp_ac_dimmer.Main.Passes.{
  address_of, pass-found, pass-none, passes-suc, address_of-handle_address,
}

-- A round: passes that find each device on the wire exactly once, in ascending order of their addresses'
-- bits, and then one that finds no more.
pub record IsRound (devices : List (List ℕ)) (ps : List Pass) : Type 0 where
  pub roms : List (List ℕ)
  pub addresses : map address_of ps ≡ map some roms ++ (none ∷ [])
  pub every : (rom : List ℕ) → Mem rom roms ↔ Mem rom devices
  pub once : Ascends (map rom_path roms)

module _ {W : Type 0} (cb : Callbacks W) (task_delay : ℕ → W → W) (send_data : TempMsg → W → W)
    (garbage : List ℕ) where
  module _ (net : Network cb) (devices_lem : All IsDevice net.devices)
      (undisturbed : IsUndisturbed cb task_delay send_data net.Attached) where
    open net use {devices, Attached}

    abbrev paths : List (List Bool)
    paths = map rom_path devices

    -- Passes from one state to another, with the passes that follow them.
    record Leads (n : ℕ) (s : SearchState) (w : W) (ps : List Pass) (s' : SearchState) (w' : W)
        : Type 0 where
      then_passes :
          (m : ℕ) (qs : List Pass) (s'' : SearchState) (w'' : W)
          → passes cb task_delay send_data garbage m s' w' ≡ some (qs, s'', w'')
          → passes cb task_delay send_data garbage (n + m) s w ≡ some (ps ++ qs, s'', w'')

    -- What the passes do from a position of the search to the end of the round.
    record EndOfRound (s : SearchState) (w : W) (rest : List (List Bool)) : Type 0 where
      found : List (List ℕ)
      ps : List Pass
      state : SearchState
      wire : W
      leads : Leads (suc (length rest)) s w ps state wire
      addresses : map address_of ps ≡ map some found ++ (none ∷ [])
      found_paths : map rom_path found ≡ rest
      found_devices : All IsDevice found
      valid : IsValid state
      started : Started cb net devices_lem state (ordered 64 paths)
      attached : Attached wire

    reset-Started :
        (s : SearchState) → Started cb net devices_lem (reset_search s) (ordered 64 paths)
    unfolding reset_search
    reset-Started s = record { discrepancy = refl; unfinished = refl; to_come = refl }

    round_end :
        (s : SearchState) (w : W)
        → IsValid s
        → Attached w
        → Position cb net devices_lem s []
        → EndOfRound s w []
    round_end s w v here at =
        let (w', answer, here', started) =
          search-none cb net devices_lem s (task_delay 500 w) v (undisturbed.by_delay 500 w here)
            at in
        record {
          found = [];
          ps = no_more_addresses ∷ [];
          state = reset_search (clear_counters s);
          wire = w';
          leads = record {
            then_passes = λ m qs s'' w'' h.
                passes-suc cb task_delay send_data garbage (1 + m) m no_more_addresses qs s
                  (reset_search (clear_counters s)) s'' w w' w'' (omega arith)
                  (pass-none cb task_delay send_data garbage s (clear_counters s) w w' answer) h;
          };
          addresses = refl;
          found_paths = refl;
          found_devices = tt;
          valid = reset_search-IsValid (clear_counters s);
          started = reset-Started (clear_counters s);
          attached = here';
        }

    round_from :
        (s : SearchState) (w : W) (rest : List (List Bool))
        → IsValid s
        → Attached w
        → Position cb net devices_lem s rest
        → EndOfRound s w rest
    round_from s w [] v here at = round_end s w v here at
    round_from s w (p ∷ rest) v here at =
        let (rom, s₁, w₁, answer, device, path, v₁, at₁, here₁) =
          search-found cb net devices_lem s (task_delay 500 w) p rest v
            (undisturbed.by_delay 500 w here) at in
        let handled = handle_address cb task_delay send_data garbage rom w₁ in
        let here₂ =
          handle_address-keeps cb task_delay send_data garbage Attached undisturbed rom w₁ here₁ in
        let later = round_from s₁ handled.1 rest v₁ here₂ at₁ in
        record {
          found = rom ∷ later.found;
          ps = handled.0 ∷ later.ps;
          state = later.state;
          wire = later.wire;
          leads = record {
            then_passes = λ m qs s'' w'' h.
                passes-suc cb task_delay send_data garbage (suc (suc (length rest)) + m)
                  (suc (length rest) + m) handled.0 (later.ps ++ qs) s s₁ s'' w handled.1 w''
                  (omega arith) (pass-found cb task_delay send_data garbage s s₁ w w₁ rom answer)
                  (later.leads.then_passes m qs s'' w'' h);
          };
          addresses =
              ap (◌∷◌ (address_of handled.0)) later.addresses
              ∙ ap (λ (a : Option (List ℕ)). a ∷ (map some later.found ++ (none ∷ [])))
                  (address_of-handle_address cb task_delay send_data garbage rom w₁);
          found_paths =
              ap (◌∷◌ (rom_path rom)) later.found_paths ∙ ap (λ (q : List Bool). q ∷ rest) path;
          found_devices = (device, later.found_devices);
          valid = later.valid;
          started = later.started;
          attached = later.attached;
        }

    EndOfRound-IsRound :
        (s : SearchState) (w : W) (r : EndOfRound s w (ordered 64 paths)) → IsRound devices r.ps
    EndOfRound-IsRound s w r = record {
      roms = r.found;
      addresses = r.addresses;
      every = mem-of_ordered devices devices_lem r.found r.found_devices r.found_paths;
      once = subst Ascends (sym r.found_paths) (ordered-Ascends 64 (map rom_path devices));
    }

    -- From the start of a search, one pass more than there are different devices is a round, and the
    -- search is at its start again.
    pub passes-IsRound :
        (s : SearchState) (w : W)
        → IsValid s
        → Attached w
        → Started cb net devices_lem s (ordered 64 (map rom_path devices))
        → (ps : List Pass) × (s' : SearchState) × (w' : W) × (passes cb task_delay send_data garbage
              (suc (length (ordered 64 (map rom_path devices))))
              s
              w
            ≡ some (ps, s', w'))
          × IsRound devices ps
          × IsValid s'
          × Started cb net devices_lem s' (ordered 64 (map rom_path devices))
          × Attached w'
    unfolding passes flatten
    passes-IsRound s w v here at =
        let r = round_from s w (ordered 64 paths) v here (inl at) in
        let run = r.leads.then_passes 0 [] r.state r.wire refl in
        let no_more : suc (length (ordered 64 paths)) + 0 ≡ suc (length (ordered 64 paths)) =
          omega arith in
        (
          r.ps,
          r.state,
          r.wire,
          rw (no_more, append-nil r.ps) at run,
          EndOfRound-IsRound s w r,
          r.valid,
          r.started,
          r.attached,
        )

    -- Rounds that follow each other from the start of a search.
    record ManyRounds (k : ℕ) (s : SearchState) (w : W) : Type 0 where
      rounds : List (List Pass)
      state : SearchState
      wire : W
      many : length rounds ≡ k
      run :
          passes cb task_delay send_data garbage (k * suc (length (ordered 64 paths))) s w
          ≡ some (flatten rounds, state, wire)
      each : All (IsRound devices) rounds

    rounds_from :
        (k : ℕ) (s : SearchState) (w : W)
        → IsValid s
        → Attached w
        → Started cb net devices_lem s (ordered 64 paths)
        → ManyRounds k s w
    unfolding passes flatten
    rounds_from zero s w v here at = record {
      rounds = [];
      state = s;
      wire = w;
      many = refl;
      run = let nothing : 0 * suc (length (ordered 64 paths)) ≡ 0 = omega arith in rw nothing refl;
      each = tt;
    }
    rounds_from (suc k) s w v here at =
        let r = round_from s w (ordered 64 paths) v here (inl at) in
        let later = rounds_from k r.state r.wire r.valid r.attached r.started in
        let n = suc (length (ordered 64 paths)) in
        let split : suc k * n ≡ n + k * n = omega arith in
        record {
          rounds = r.ps ∷ later.rounds;
          state = later.state;
          wire = later.wire;
          many = ap suc later.many;
          run =
              rw split (
                r.leads.then_passes (k * n) (flatten later.rounds) later.state later.wire
                  later.run);
          each = (EndOfRound-IsRound s w r, later.each);
        }

    -- The devices have ROM numbers of eight bytes with a family code other than 0 and keep to the search
    -- protocol, and nothing else that the program does disturbs them. Then
    -- from the start of the program on any number of rounds follow each other: in so many times the
    -- number of different devices and one passes of the loop, each round finds every device on the
    -- wire exactly once, in the order of the addresses' bits, and then no more.
    pub passes-rounds :
        (k : ℕ) (s : SearchState) (w : W)
        → Attached (begin cb s w).1
        → (rounds : List (List Pass)) × (s' : SearchState) × (w' : W) × (length rounds ≡ k)
          × (passes cb task_delay send_data garbage
                (k * suc (length (ordered 64 (map rom_path devices))))
                (begin cb s w).0
                (begin cb s w).1
              ≡ some (flatten rounds, s', w'))
          × All (IsRound devices) rounds
    unfolding begin
    passes-rounds k s w here =
        let r =
          rounds_from k (reset_search s) (begin cb s w).1 (reset_search-IsValid s) here
            (reset-Started s) in
        (r.rounds, r.state, r.wire, r.many, r.run, r.each)
