-- ===== src/Messages/Examples.antt =====
-- The theorems on messages at a buffer of zeros.
use esp_ac_dimmer.Prelude.{ℕ, ◌≡◌, refl, arith, List, replicate}
use esp_ac_dimmer.Messages.{Discovery, discovery, discovery_id, Temperature, create}
use esp_ac_dimmer.Messages.Create.{Arrives, create-Arrives-discovery}

abbrev zeros : List ℕ
zeros = replicate 512 0

abbrev hello : Discovery
hello = record { dev_id = 0x00ABCDEF }

abbrev reading : Temperature
reading = record { sensor_id = 0x5E0316; value = 0x41A80000 }

create-Arrives-discovery_example :
    let r = create discovery discovery_id zeros hello in
    (r.0 ≡ 8) × Arrives discovery discovery_id hello r
create-Arrives-discovery_example = create-Arrives-discovery zeros hello refl (omega arith)
