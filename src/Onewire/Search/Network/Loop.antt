-- ===== src/Onewire/Search/Network/Loop.antt =====
-- On a network with devices the loop of `search` takes the whole path of `walk`.
use esp_ac_dimmer.Prelude.{
  ℕ, zero, suc, ◌+◌, ◌<◌, ◌≡◌, refl, sym, ap, ◌∙◌, inl, inr, arith, ltb, ◌==◌, if◌then◌else◌, Bool,
  true, false, ◌&&◌, List, [], ◌∷◌, ◌++◌, length, length-append, is_empty, some, Bool-cases,
  append_assoc,
}
use esp_ac_dimmer.Onewire.Line.{Callbacks, read_bit, write_bit}
use esp_ac_dimmer.Onewire.Search.{SearchLoop, store_bit, next_bit, choose, search_loop}
use esp_ac_dimmer.Onewire.Search.Termination.{At, next_bit-At, store_bit-At, choose-At}
use esp_ac_dimmer.Onewire.Search.RomBits.{rom_path}
use esp_ac_dimmer.Onewire.Enumeration.{branch, last_zero_of, way, walk}
use esp_ac_dimmer.Onewire.Enumeration.Walk.{AllOf, branch-AllOf, way-nonempty, some_branch}
use esp_ac_dimmer.Onewire.Search.Network.{Network, num}
use esp_ac_dimmer.Onewire.Search.Network.Steps.{
  old_bit, direction_way, stored, Choice, choose-Choice, search_loop-round,
}

-- With devices there, not both bits are 1.
not_both :
    (n : ℕ) (ds : List (List Bool))
    → AllOf (suc n) ds
    → is_empty ds ≡ false
    → (is_empty (branch false ds) && is_empty (branch true ds)) ≡ false
not_both n ds h e = elim (Bool-cases (is_empty (branch false ds))) [
  | inl z ↦ rw z (some_branch n ds h e z)
  | inr z ↦ rw z refl
]

last_zero-cons :
    (pos : ℕ) (ds : List (List Bool)) (d : Bool) (r : List Bool) (acc : ℕ)
    → last_zero_of pos ds (d ∷ r) acc
      ≡ last_zero_of
          (pos + 1)
          (branch d ds)
          r
          (if d then acc else if is_empty (branch true ds) then acc else pos)
unfolding last_zero_of
last_zero-cons pos ds true r acc = refl
last_zero-cons pos ds false r acc = refl

walk_end :
    (last pos : ℕ) (rest : List Bool) (ds : List (List Bool)) (acc : ℕ)
    → length rest ≡ 0
    → (walk last pos rest ds ≡ rest) × (last_zero_of pos ds (walk last pos rest ds) acc ≡ acc)
unfolding walk last_zero_of
walk_end last pos [] ds acc h = (refl, refl)
walk_end last pos (b ∷ rest) ds acc h = absurd (omega arith)

-- The path and its last zero, one position further.
walk_later :
    (last pos : ℕ) (b : Bool) (front rest : List Bool) (ds : List (List Bool)) (acc : ℕ)
    → let d = way last pos b ds in
      let path = walk last (pos + 1) rest (branch d ds) in
      (front ++ walk last pos (b ∷ rest) ds ≡ (front ++ (d ∷ [])) ++ path)
      × (last_zero_of pos ds (walk last pos (b ∷ rest) ds) acc
          ≡ last_zero_of
              (pos + 1)
              (branch d ds)
              path
              (if d then acc else if is_empty (branch true ds) then acc else pos))
unfolding walk
walk_later last pos b front rest ds acc =
    let d = way last pos b ds in
    let path = walk last (pos + 1) rest (branch d ds) in
    (sym (append_assoc front (d ∷ []) path), last_zero-cons pos ds d path acc)

next_bit-keeps :
    (l : SearchLoop) → ((next_bit l).rom_no ≡ l.rom_no) × ((next_bit l).last_zero ≡ l.last_zero)
unfolding next_bit
next_bit-keeps l = ground arith

store_bit-keeps : (d : ℕ) (l : SearchLoop) → (store_bit d l).last_zero ≡ l.last_zero
unfolding store_bit
store_bit-keeps d l = refl

module _ {W : Type 0} (cb : Callbacks W) (net : Network cb) where
  open net use {Attached, Searching, first_bit, second_bit, chosen, still}

  -- What one round leaves: the loop's variables and the wire, and what holds of them.
  record Round (fuel last n : ℕ) (l : SearchLoop) (w : W) (ds : List (List Bool))
      (front rest : List Bool) (d : Bool) : Type 0 where
    loop : SearchLoop
    wire : W
    run : search_loop cb (suc fuel) last l w ≡ (
        if ltb loop.rom_byte_number 8
        then search_loop cb fuel last loop wire
        else some (loop, wire))
    at : At (n + 1) (n + 1) loop
    path : rom_path loop.rom_no ≡ (front ++ (d ∷ [])) ++ rest
    zero_at :
        loop.last_zero
        ≡ (if d then l.last_zero else if is_empty (branch true ds) then l.last_zero else n + 1)
    searching : Searching (branch d ds) wire

  search_loop-Round :
      (fuel last n : ℕ) (l : SearchLoop) (w : W) (ds : List (List Bool)) (front rest : List Bool)
      (b : Bool)
      → n < 64
      → At n n l
      → length front ≡ n
      → rom_path l.rom_no ≡ front ++ (b ∷ rest)
      → AllOf (suc fuel) ds
      → is_empty ds ≡ false
      → Searching ds w
      → Round fuel last n l w ds front rest (way last (n + 1) b ds)
  search_loop-Round fuel last n l w ds front rest b h a len path all some_left s = record {
    loop = next_bit (store_bit (num d) c.1);
    wire = write_bit cb (num d) (read_bit cb (read_bit cb w).1).1;
    run =
        search_loop-round cb fuel last l w z o d (first_bit ds w s) (second_bit ds w s) both
          (unfold way in choice.way);
    at = next_bit-At n (store_bit (num d) c.1) h (store_bit-At n (n + 1) (num d) c.1 at_choice);
    path =
        ap rom_path (next_bit-keeps (store_bit (num d) c.1)).0
        ∙ stored n c.1 front rest b d h at_choice len (ap rom_path choice.rom ∙ path);
    zero_at =
        (next_bit-keeps (store_bit (num d) c.1)).1
        ∙ (store_bit-keeps (num d) c.1 ∙ (unfold way in choice.last_zero));
    searching = chosen ds w d s;
  }
    where
      z : Bool
      z = is_empty (branch false ds)

      o : Bool
      o = is_empty (branch true ds)

      d : Bool
      d = way last (n + 1) b ds

      c : ℕ × SearchLoop
      c = choose last (num z) (num o) l

      both : (z && o) ≡ false
      both = not_both fuel ds all some_left

      at_choice : At n (n + 1) c.1
      at_choice = choose-At n last (num z) (num o) l a

      choice : Choice n z o (if ltb (n + 1) last then b else (n + 1) == last) l c.1 c.0
      choice =
          choose-Choice last n z o (if ltb (n + 1) last then b else (n + 1) == last) l both a.number
            (direction_way last n l b a.number (old_bit n l front rest b h a len path))

  -- Where the loop ends.
  pub record Walked (l : SearchLoop) (w : W) (taken : List Bool) (zero_found : ℕ) : Type 0 where
    pub at : At 64 64 l
    pub path : rom_path l.rom_no ≡ taken
    pub zero_at : l.last_zero ≡ zero_found
    pub attached : Attached w

  pub search_loop-Walked :
      (fuel last n : ℕ) (l : SearchLoop) (w : W) (ds : List (List Bool)) (front rest : List Bool)
      → fuel + n ≡ 64
      → n < 64
      → At n n l
      → length front ≡ n
      → length rest ≡ fuel
      → rom_path l.rom_no ≡ front ++ rest
      → AllOf fuel ds
      → is_empty ds ≡ false
      → Searching ds w
      → let path = walk last (n + 1) rest ds in
        (l' : SearchLoop) × (w' : W) × (search_loop cb fuel last l w ≡ some (l', w'))
        × Walked l' w' (front ++ path) (last_zero_of (n + 1) ds path l.last_zero)
  search_loop-Walked zero last n l w ds front rest e h a lf lr path all some_left s =
      absurd (omega arith)
  search_loop-Walked (suc fuel) last n l w ds front [] e h a lf lr path all some_left s =
      absurd (omega arith)
  search_loop-Walked (suc fuel) last n l w ds front (b ∷ rest) e h a lf lr path all some_left s =
      elim (Bool-cases (ltb r.loop.rom_byte_number 8)) [
        | inr done ↦
            let whole : n + 1 ≡ 64 = ground (arith, r.at.byte) in
            let ended =
              walk_end last (n + 1 + 1) rest (branch d ds) r.loop.last_zero (omega arith) in
            (
              r.loop,
              r.wire,
              r.run ∙ rw done refl,
              record {
                at = rw whole at r.at;
                path = r.path ∙ (ap (◌++◌ (front ++ (d ∷ []))) (sym ended.0) ∙ sym later.0);
                zero_at =
                    sym ended.1
                    ∙ (ap
                          (last_zero_of (n + 1 + 1) (branch d ds)
                            (walk last (n + 1 + 1) rest (branch d ds)))
                          r.zero_at
                        ∙ sym later.1);
                attached = still (branch d ds) r.wire r.searching;
              },
            )
        | inl more ↦
            let below : n + 1 < 64 = ground (arith, r.at.byte) in
            let (l', w', runs, walked) =
              search_loop-Walked fuel last (n + 1) r.loop r.wire (branch d ds) (front ++ (d ∷ []))
                rest (omega arith) below r.at (omega (arith, length-append front (d ∷ [])))
                (omega arith) r.path (branch-AllOf fuel d ds all)
                (way-nonempty fuel last (n + 1) b ds all some_left) r.searching in
            (
              l',
              w',
              r.run ∙ (rw more refl ∙ runs),
              record {
                at = walked.at;
                path = walked.path ∙ sym later.0;
                zero_at =
                    walked.zero_at
                    ∙ (ap
                          (last_zero_of (n + 1 + 1) (branch d ds)
                            (walk last (n + 1 + 1) rest (branch d ds)))
                          r.zero_at
                        ∙ sym later.1);
                attached = walked.attached;
              },
            )
      ]
    where
      d : Bool
      d = way last (n + 1) b ds

      r : Round fuel last n l w ds front rest d
      r = search_loop-Round fuel last n l w ds front rest b h a lf path all some_left s

      later :
          let path = walk last (n + 1 + 1) rest (branch d ds) in
          (front ++ walk last (n + 1) (b ∷ rest) ds ≡ (front ++ (d ∷ [])) ++ path)
          × (last_zero_of (n + 1) ds (walk last (n + 1) (b ∷ rest) ds) l.last_zero
              ≡ last_zero_of (n + 1 + 1) (branch d ds) path (
                  if d
                  then l.last_zero
                  else if is_empty (branch true ds)
                  then l.last_zero
                  else n + 1))
      later = walk_later last (n + 1) b front rest ds l.last_zero
