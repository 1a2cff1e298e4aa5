-- ===== src/PowerMode/Codes.antt =====
-- `enum legion_ec_powermode`, `enum legion_wmi_powermode` and the two conversions.
use sc_control.Base.{ℕ, ◌<◌, ◌≡◌, Bool, true, ◌||◌, ◌==◌, if◌then◌else◌, arith}

abbrev pub ec_balanced : ℕ
ec_balanced = 0

abbrev pub ec_performance : ℕ
ec_performance = 1

abbrev pub ec_quiet : ℕ
ec_quiet = 2

abbrev pub ec_custom : ℕ
ec_custom = 3

abbrev pub ec_extreme : ℕ
ec_extreme = 7

abbrev pub wmi_low_power : ℕ
wmi_low_power = 1

abbrev pub wmi_balanced : ℕ
wmi_balanced = 2

abbrev pub wmi_performance : ℕ
wmi_performance = 3

abbrev pub wmi_max_power : ℕ
wmi_max_power = 224

abbrev pub wmi_custom : ℕ
wmi_custom = 255

-- Is the byte one of the five WMI modes?
unfoldable pub is_wmi_powermode : ℕ → Bool
is_wmi_powermode v =
    v == wmi_balanced
    || (v == wmi_performance || (v == wmi_low_power || (v == wmi_custom || v == wmi_max_power)))

-- Is the byte one of the five EC modes?
unfoldable pub is_ec_powermode : ℕ → Bool
is_ec_powermode v =
    v == ec_balanced
    || (v == ec_performance || (v == ec_quiet || (v == ec_custom || v == ec_extreme)))

-- `ec_to_wmi_powermode`
unfoldable pub ec_to_wmi_powermode : ℕ → ℕ
ec_to_wmi_powermode m =
    if m == ec_quiet
    then wmi_low_power
    else if m == ec_balanced
    then wmi_balanced
    else if m == ec_performance
    then wmi_performance
    else if m == ec_custom
    then wmi_custom
    else if m == ec_extreme
    then wmi_max_power
    else wmi_balanced

-- `wmi_to_ec_powermode`
unfoldable pub wmi_to_ec_powermode : ℕ → ℕ
wmi_to_ec_powermode m =
    if m == wmi_low_power
    then ec_quiet
    else if m == wmi_balanced
    then ec_balanced
    else if m == wmi_performance
    then ec_performance
    else if m == wmi_custom
    then ec_custom
    else if m == wmi_max_power
    then ec_extreme
    else ec_balanced

-- The EC code of a WMI mode converts back to that mode, and any other code to balanced.
pub ec_to_wmi-wmi_to_ec :
    (m : ℕ)
    → ec_to_wmi_powermode (wmi_to_ec_powermode m) ≡ (if is_wmi_powermode m then m else wmi_balanced)
unfolding ec_to_wmi_powermode wmi_to_ec_powermode is_wmi_powermode
ec_to_wmi-wmi_to_ec m = ground arith

-- The WMI code of an EC mode converts back to that mode, and any other byte to balanced.
pub wmi_to_ec-ec_to_wmi :
    (m : ℕ)
    → wmi_to_ec_powermode (ec_to_wmi_powermode m) ≡ (if is_ec_powermode m then m else ec_balanced)
unfolding ec_to_wmi_powermode wmi_to_ec_powermode is_ec_powermode
wmi_to_ec-ec_to_wmi m = ground arith

pub wmi_to_ec-is_ec : (m : ℕ) → is_ec_powermode (wmi_to_ec_powermode m) ≡ true
unfolding wmi_to_ec_powermode is_ec_powermode
wmi_to_ec-is_ec m = ground arith

pub wmi_to_ec-lt : (m : ℕ) → wmi_to_ec_powermode m < 256
unfolding wmi_to_ec_powermode
wmi_to_ec-lt m = ground arith
