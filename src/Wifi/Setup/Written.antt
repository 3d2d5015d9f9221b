-- ===== src/Wifi/Setup/Written.antt =====
-- What the configuration holds that the driver is given.
use esp_ac_dimmer.Prelude.{
  false, ℕ, zero, suc, ◌+◌, ◌%◌, ◌^◌, ◌≤◌, ◌<◌, ◌≡◌, ◌==◌, refl, sym, ap, ◌∙◌, arith, if◌then◌else◌,
  List, [], ◌∷◌, ◌++◌, length, length-append, length-replicate, get_or, set, replicate,
  append_assoc,
}
use esp_ac_dimmer.Streams.{overwrite, copy_at}
use esp_ac_dimmer.Wifi.Setup.{
  wifi_auth_open, wifi_auth_wpa_wpa2_psk, WifiConfig, strcpy, zeroed, station_config,
  access_point_config,
}

-- A string in an array of so many bytes, with zeros behind it.
abbrev pub pad : ℕ → List ℕ → List ℕ
pad n [] = replicate n 0
pad zero (b ∷ bytes) = b ∷ bytes
pad (suc n) (b ∷ bytes) = b ∷ pad n bytes

length-pad : (n : ℕ) (bytes : List ℕ) → length bytes ≤ n → length (pad n bytes) ≡ n
length-pad n [] h = length-replicate {A = ℕ} n 0
length-pad zero (b ∷ bytes) h = absurd (omega (arith, h))
length-pad (suc n) (b ∷ bytes) h = ap suc (length-pad n bytes (omega (arith, h)))

copy_at-append :
    (front bytes back : List ℕ) (at : ℕ)
    → length front ≡ at
    → copy_at at bytes (front ++ back) ≡ front ++ overwrite bytes back
unfolding copy_at
copy_at-append [] bytes back zero e = refl
copy_at-append (x ∷ front) bytes back (suc at) e =
    ap (◌∷◌ x) (copy_at-append front bytes back at (omega (arith, e)))
copy_at-append [] bytes back (suc at) e = absurd (omega (arith, e))
copy_at-append (x ∷ front) bytes back zero e = absurd (omega (arith, e))

-- A string that ends before the array does.
overwrite-pad :
    (n : ℕ) (bytes back : List ℕ)
    → length bytes < n
    → overwrite (bytes ++ (0 ∷ [])) (replicate n 0 ++ back) ≡ pad n bytes ++ back
unfolding overwrite
overwrite-pad zero bytes back h = absurd (omega (arith, h))
overwrite-pad (suc n) [] back h = refl
overwrite-pad (suc n) (b ∷ bytes) back h =
    ap (◌∷◌ b) (overwrite-pad n bytes back (omega (arith, h)))

-- A string that fills the array: its zero is the byte behind it.
overwrite-full :
    (bytes back : List ℕ) (b : ℕ)
    → overwrite (bytes ++ (0 ∷ [])) (replicate (length bytes) 0 ++ (b ∷ back)) ≡ bytes ++ (0 ∷ back)
unfolding overwrite
overwrite-full [] back b = refl
overwrite-full (x ∷ bytes) back b = ap (◌∷◌ x) (overwrite-full bytes back b)

-- A string that fits, where the byte behind the array is a zero.
overwrite-fits :
    (n : ℕ) (bytes back : List ℕ)
    → length bytes ≤ n
    → overwrite (bytes ++ (0 ∷ [])) (replicate n 0 ++ (0 ∷ back)) ≡ pad n bytes ++ (0 ∷ back)
unfolding overwrite
overwrite-fits zero [] back h = refl
overwrite-fits zero (b ∷ bytes) back h = absurd (omega (arith, h))
overwrite-fits (suc n) [] back h = refl
overwrite-fits (suc n) (b ∷ bytes) back h =
    ap (◌∷◌ b) (overwrite-fits n bytes back (omega (arith, h)))

set-append :
    (front back : List ℕ) (b v i : ℕ)
    → length front ≡ i
    → set (front ++ (b ∷ back)) i v ≡ front ++ (v ∷ back)
set-append [] back b v zero e = refl
set-append (x ∷ front) back b v (suc i) e =
    ap (◌∷◌ x) (set-append front back b v i (omega (arith, e)))
set-append [] back b v (suc i) e = absurd (omega (arith, e))
set-append (x ∷ front) back b v zero e = absurd (omega (arith, e))

get_or-append :
    (front back : List ℕ) (b i : ℕ) → length front ≡ i → get_or (front ++ (b ∷ back)) i 0 ≡ b
get_or-append [] back b zero e = refl
get_or-append (x ∷ front) back b (suc i) e = get_or-append front back b i (omega (arith, e))
get_or-append [] back b (suc i) e = absurd (omega (arith, e))
get_or-append (x ∷ front) back b zero e = absurd (omega (arith, e))

zeros-next : (n : ℕ) (back : List ℕ) → replicate n 0 ++ (0 ∷ back) ≡ 0 ∷ (replicate n 0 ++ back)
zeros-next zero back = refl
zeros-next (suc n) back = ap (◌∷◌ 0) (zeros-next n back)

-- The SSID in the memory that was all zeros.
strcpy-ssid :
    (n m : ℕ) (ssid back : List ℕ)
    → length ssid ≤ n
    → strcpy 0 ssid (replicate n 0 ++ (replicate m 0 ++ (0 ∷ back)))
      ≡ pad n ssid ++ (replicate m 0 ++ (0 ∷ back))
unfolding copy_at
strcpy-ssid n m ssid back fits =
    rw (zeros-next m back) (overwrite-fits n ssid (replicate m 0 ++ back) fits)

strcpy-password :
    (n : ℕ) (ssid password back : List ℕ)
    → length ssid ≤ n
    → strcpy n password (pad n ssid ++ back) ≡ pad n ssid ++ overwrite (password ++ (0 ∷ [])) back
unfolding strcpy copy_at
strcpy-password n ssid password back fits =
    copy_at-append (pad n ssid) (password ++ (0 ∷ [])) back n (length-pad n ssid fits)

module _ (ssid_size password_size others : ℕ) (ssid password : List ℕ) (max_sta_conn : ℕ) where
  abbrev station : WifiConfig
  station = station_config ssid_size password_size others ssid password max_sta_conn

  abbrev access_point : WifiConfig
  access_point = access_point_config ssid_size password_size others ssid password max_sta_conn

  abbrev behind : List ℕ
  behind = replicate others 0

  -- The station is given the SSID and the password whole, each of which may fill its array, and zeros
  -- everywhere else: the zero that ends an SSID of full length is written before the password.
  pub station_config-memory :
      length ssid ≤ ssid_size
      → length password ≤ password_size
      → (station_config ssid_size password_size others ssid password max_sta_conn).memory
        ≡ pad ssid_size ssid ++ (pad password_size password ++ (0 ∷ replicate others 0))
  unfolding station_config
  station_config-memory fits short =
      ap (strcpy ssid_size password) (strcpy-ssid ssid_size password_size ssid behind fits)
      ∙ (strcpy-password ssid_size ssid password _ fits
          ∙ ap (◌++◌ (pad ssid_size ssid)) (overwrite-fits password_size password behind short))

  -- Before the password is copied.
  with_ssid :
      length ssid ≤ ssid_size
      → set
          (strcpy 0 ssid (zeroed ssid_size password_size others ssid password max_sta_conn).memory)
          (ssid_size + password_size)
          (length ssid % 2 ^ 8)
        ≡ pad ssid_size ssid ++ (replicate password_size 0 ++ (length ssid % 2 ^ 8 ∷ behind))
  with_ssid fits =
      let front = pad ssid_size ssid ++ replicate password_size 0 in
      let long : length front ≡ ssid_size + password_size =
        length-append (pad ssid_size ssid) (replicate password_size 0)
        ∙ omega (arith, length-pad ssid_size ssid fits, length-replicate {A = ℕ} password_size 0) in
      ap (λ memory. set memory (ssid_size + password_size) (length ssid % 2 ^ 8))
        (strcpy-ssid ssid_size password_size ssid behind fits
          ∙ sym (append_assoc (pad ssid_size ssid) (replicate password_size 0) (0 ∷ behind)))
      ∙ (set-append front behind 0 _ _ long
          ∙ append_assoc (pad ssid_size ssid) (replicate password_size 0)
              (length ssid % 2 ^ 8 ∷ behind))

  access_point-memory :
      length ssid ≤ ssid_size
      → access_point.memory
        ≡ pad ssid_size ssid
          ++ overwrite
              (password ++ (0 ∷ []))
              (replicate password_size 0 ++ (length ssid % 2 ^ 8 ∷ behind))
  unfolding access_point_config
  access_point-memory fits =
      ap (strcpy ssid_size password) (with_ssid fits)
      ∙ strcpy-password ssid_size ssid password _ fits

  access_point-authmode :
      (stored : List ℕ) (ssid_len : ℕ)
      → length ssid ≤ ssid_size
      → length stored ≡ password_size
      → access_point.memory ≡ pad ssid_size ssid ++ (stored ++ (ssid_len ∷ behind))
      → access_point.authmode ≡ (if ssid_len == 0 then wifi_auth_open else wifi_auth_wpa_wpa2_psk)
  unfolding access_point_config
  access_point-authmode stored ssid_len fits size e =
      let front = pad ssid_size ssid ++ stored in
      let long : length front ≡ ssid_size + password_size =
        length-append (pad ssid_size ssid) stored
        ∙ omega (arith, length-pad ssid_size ssid fits, size) in
      let whole = e ∙ sym (append_assoc (pad ssid_size ssid) stored (ssid_len ∷ behind)) in
      ap (λ len. if len == 0 then wifi_auth_open else wifi_auth_wpa_wpa2_psk)
        (ap (λ memory. get_or memory (ssid_size + password_size) 0) whole
          ∙ get_or-append front behind ssid_len (ssid_size + password_size) long)

  -- An access point with an SSID that is not empty, and may fill its array, and a password that is shorter than
  -- its array is given both whole, and the SSID's length behind them. It asks for the password,
  -- also where the password is empty.
  pub access_point_config-protected :
      length ssid ≤ ssid_size
      → 0 < length ssid
      → length ssid < 2 ^ 8
      → length password < password_size
      → (access_point.memory
          ≡ pad ssid_size ssid
            ++ (pad password_size password ++ (length ssid ∷ replicate others 0)))
        × (access_point.max_connection ≡ max_sta_conn)
        × (access_point.authmode ≡ wifi_auth_wpa_wpa2_psk)
  access_point_config-protected fits some_ssid small short =
      let len : length ssid % 2 ^ 8 ≡ length ssid = omega arith in
      let written = ap (◌++◌ (pad ssid_size ssid)) (overwrite-pad password_size password _ short) in
      let memory : access_point.memory
          ≡ pad ssid_size ssid ++ (pad password_size password ++ (length ssid ∷ behind)) =
        rw len at (access_point-memory fits ∙ written) in
      let has_ssid : (length ssid == 0) ≡ false = ground arith in
      let size = length-pad password_size password (omega arith) in
      (
        memory,
        unfold access_point_config in refl,
        rw has_ssid at
            (access_point-authmode (pad password_size password) (length ssid) fits size memory),
      )

  -- An access point whose password fills its array is open: the zero that ends the password is written over
  -- the SSID's length.
  pub access_point_config-open :
      length ssid ≤ ssid_size
      → length password ≡ password_size
      → (access_point.memory ≡ pad ssid_size ssid ++ (password ++ (0 ∷ replicate others 0)))
        × (access_point.authmode ≡ wifi_auth_open)
  access_point_config-open fits full =
      let written : overwrite (password ++ (0 ∷ []))
            (replicate password_size 0 ++ (length ssid % 2 ^ 8 ∷ behind))
          ≡ password ++ (0 ∷ behind) =
        rw (← full) (overwrite-full password behind (length ssid % 2 ^ 8)) in
      let memory = access_point-memory fits ∙ ap (◌++◌ (pad ssid_size ssid)) written in
      (memory, access_point-authmode password 0 fits full memory)
