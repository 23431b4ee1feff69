-- ===== src/Axeos/Client/Profile.antt =====
-- axeos/client.py: the closed body of a profile patch, in the text that `json.dumps` makes of it.
use bitaxe_fleet.Prelude.{
  ℕ, suc, ◌≡◌, ◌≤◌, ◌+◌, refl, Bool, true, false, not, ◌++◌, arith, if◌then◌else◌, ltb, length,
  length-append, ℤ, pos, negsuc, ◌≤ℤ◌,
}
use bitaxe_fleet.Python.Text.{Text, codes}
use bitaxe_fleet.Python.Float.{Float, is_finite}
use bitaxe_fleet.Python.Decimal.{int_text, Fits, length-decimal_text}
use bitaxe_fleet.Axeos.Errors.{value_error, Result, ok, err}
use bitaxe_fleet.Axeos.Models.{RecoveryProfile, IsBoundedProfile}

-- `int(flag)`
abbrev pub flag_text : Bool → Text
flag_text true = codes "1"
flag_text false = codes "0"

-- `dumps({...}, separators=(",", ":"))`; `repr` writes a float.
unfoldable pub profile_text : (Float → Text) → RecoveryProfile → Text
profile_text repr p =
    codes "{\"frequency\":"
    ++ (repr p.frequency_mhz
        ++ (codes ",\"coreVoltage\":"
            ++ (int_text p.core_voltage_mv
                ++ (codes ",\"overclockEnabled\":"
                    ++ (flag_text p.overclock_enabled
                        ++ (codes ",\"autofanspeed\":"
                            ++ (flag_text p.automatic_fan_speed
                                ++ (codes ",\"temptarget\":"
                                    ++ (int_text p.target_temperature_c
                                        ++ (codes ",\"minFanSpeed\":"
                                            ++ (int_text p.minimum_fan_speed_percent
                                                ++ codes "}")))))))))))

-- `_MAX_MUTATION_REQUEST_BYTES`
abbrev pub max_mutation_request_bytes : ℕ
max_mutation_request_bytes = 1024

-- `_serialize_recovery_profile`: `allow_nan=False` refuses a number that is not finite, and the text
-- is ASCII, so its bytes are its code points.
unfoldable pub serialize_recovery_profile : (Float → Text) → RecoveryProfile → Result Text
unfolding profile_text
serialize_recovery_profile repr p =
    if not (is_finite p.frequency_mhz)
    then err value_error
    else if ltb max_mutation_request_bytes (length (profile_text repr p))
    then err value_error
    else ok (profile_text repr p)

length-int_text :
    (k : ℕ) (n : ℤ) → pos 0 ≤ℤ n → ((m : ℕ) → n ≡ pos m → Fits k m) → length (int_text n) ≤ suc k
unfolding int_text
length-int_text k (pos n) low fits = length-decimal_text k n (fits n refl)
length-int_text k (negsuc n) low fits = absurd (omega arith)

length-flag_text : (b : Bool) → length (flag_text b) ≡ 1
length-flag_text true = refl
length-flag_text false = refl

length-profile_text :
    (repr : Float → Text) (p : RecoveryProfile)
    → length (profile_text repr p)
      ≡ 94
        + length (repr p.frequency_mhz)
        + length (int_text p.core_voltage_mv)
        + length (flag_text p.overclock_enabled)
        + length (flag_text p.automatic_fan_speed)
        + length (int_text p.target_temperature_c)
        + length (int_text p.minimum_fan_speed_percent)
unfolding profile_text
length-profile_text repr p = omega (arith, length-append {0})

-- A profile that its constructor let through is always written, as its six settings in their order:
-- the body is never too large, if `repr` of a float has at most 24 characters.
pub serialize_recovery_profile_total :
    (repr : Float → Text) (p : RecoveryProfile)
    → ((x : Float) → length (repr x) ≤ 24)
    → IsBoundedProfile p
    → serialize_recovery_profile repr p ≡ ok (profile_text repr p)
unfolding serialize_recovery_profile
serialize_recovery_profile_total repr p short v = ground (arith, v.is_number, fits)
  where
    voltage : length (int_text p.core_voltage_mv) ≤ 5
    voltage =
        length-int_text 4 p.core_voltage_mv (omega (arith, v.voltage_low))
          (λ m e. ground (arith, v.voltage_high))

    temperature : length (int_text p.target_temperature_c) ≤ 3
    temperature =
        length-int_text 2 p.target_temperature_c v.temperature_low
          (λ m e. ground (arith, v.temperature_high))

    fan : length (int_text p.minimum_fan_speed_percent) ≤ 3
    fan =
        length-int_text 2 p.minimum_fan_speed_percent v.fan_low (λ m e. ground (arith, v.fan_high))

    fits : length (profile_text repr p) ≤ 1024
    fits = omega (
      arith,
      length-profile_text repr p,
      short p.frequency_mhz,
      voltage,
      temperature,
      fan,
      length-flag_text p.overclock_enabled,
      length-flag_text p.automatic_fan_speed,
    )
