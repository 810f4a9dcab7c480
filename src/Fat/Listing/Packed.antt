-- ===== src/Fat/Listing/Packed.antt =====
-- Times and dates, packed in 16 bits, are read back.
use operating_system_cortex.Prelude.{ℕ, ◌+◌, ◌*◌, ◌/◌, ◌%◌, ◌^◌, ◌<◌, ◌≡◌, arith}
use operating_system_cortex.Prelude.Bits.{bit_and-mask}
use operating_system_cortex.Fat.Listing.{fat_get_time, fat_get_date}

-- A date from 1980 on and a time in steps of two seconds, packed as FAT packs them, are read back,
-- but for the seconds: of these only what fits into five bits is kept.
pub fat_get_date-packed :
    (years month day hour min half : ℕ)
    → years < 128
    → month < 16
    → day < 32
    → hour < 32
    → min < 64
    → half < 32
    → (fat_get_date (years * 512 + month * 32 + day)
        ≡ record { year = 1980 + years; month = month; day = day })
      × (fat_get_time (hour * 2048 + min * 32 + half)
          ≡ record { hour = hour; min = min; sec = half * 2 % 32 })
unfolding fat_get_date fat_get_time
fat_get_date-packed years month day hour min half h1 h2 h3 h4 h5 h6 =
    let d = years * 512 + month * 32 + day in
    let t = hour * 2048 + min * 32 + half in
    let y = bit_and-mask 7 (d / 2 ^ 9) in
    let mo = bit_and-mask 4 (d / 2 ^ 5) in
    let da = bit_and-mask 5 d in
    let mi = bit_and-mask 6 (t / 2 ^ 5) in
    let se = bit_and-mask 5 t in (ground (arith, y, mo, da), ground (arith, mi, se))
