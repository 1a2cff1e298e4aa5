-- ===== src/PowerMode/ProfileLaws.antt =====
-- The platform profile that is read after one was set.
use sc_control.Base.{ℕ, ◌<◌, ◌≡◌, refl, ◌∙◌, ap, sym, Bool, true, false, ℤ, pos, arith}
use sc_control.Errno.{ok}
use sc_control.Model.Config.{ModelConfig, ec}
use sc_control.Firmware.State.{Firmware, State}
use sc_control.PowerMode.Codes.{is_wmi_powermode}
use sc_control.PowerMode.Access.{read_powermode, write_powermode}
use sc_control.PowerMode.Store.{
  Profile, low_power, balanced, performance, custom, max_power, another, profile_of, mode_of,
  legion_platform_profile_get, legion_platform_profile_set, write_mode, assigned_or,
}
use sc_control.PowerMode.Laws.{ec_powermode_round_trip}

-- The mode of a profile is a WMI mode, and its profile is the profile.
mode_of-profile_of :
    (a b : Bool) (p : Profile) (m : ℤ)
    → mode_of a b p ≡ ok m
    → (n : ℕ) × (m ≡ pos n)
      × (n < 4294967296)
      × (is_wmi_powermode n ≡ true)
      × (profile_of a b m ≡ ok p)
unfolding mode_of profile_of is_wmi_powermode
mode_of-profile_of a b low_power m h =
    let e : m ≡ pos 1 = cc in (1, e, omega arith, refl, rw e refl)
mode_of-profile_of a b balanced m h = let e : m ≡ pos 2 = cc in (2, e, omega arith, refl, rw e refl)
mode_of-profile_of a b performance m h =
    let e : m ≡ pos 3 = cc in (3, e, omega arith, refl, rw e refl)
mode_of-profile_of true b custom m h =
    let e : m ≡ pos 255 = cc in (255, e, omega arith, refl, rw e refl)
mode_of-profile_of true true max_power m h =
    let e : m ≡ pos 224 = cc in (224, e, omega arith, refl, rw e refl)
mode_of-profile_of false true max_power m h =
    let e : m ≡ pos 224 = cc in (224, e, omega arith, refl, rw e refl)
mode_of-profile_of false b custom m h = cc
mode_of-profile_of a false max_power m h = cc
mode_of-profile_of a b another m h = cc

module _ {F : Type 0} (fw : Firmware F) (conf : ModelConfig) where
  -- With EC access and writes enabled, a profile that the kernel's version has is set without an
  -- error, and the profile that is then read is the one that was set.
  pub platform_profile_round_trip :
      (since_6_14 since_6_19 : Bool) (p : Profile) (m uninitialised : ℤ) (s : State F)
      → conf.access_method_powermode ≡ ec
      → mode_of since_6_14 since_6_19 p ≡ ok m
      → let (r, t) = legion_platform_profile_set fw false conf since_6_14 since_6_19 p s in
        (r ≡ ok tt)
        × ((legion_platform_profile_get fw false conf since_6_14 since_6_19 uninitialised t).0
            ≡ ok p)
  unfolding legion_platform_profile_set legion_platform_profile_get write_mode assigned_or
  platform_profile_round_trip a b p m u s e h =
      let (n, q, l, w, back) = mode_of-profile_of a b p m h in
      let (done, read) = ec_powermode_round_trip fw false conf s n e refl l in
      let shown : (read_powermode fw false conf (write_powermode fw false conf (pos n) s).1).0
          ≡ ok m =
        read ∙ (rw w (ap ok (sym q))) in
      let same : legion_platform_profile_set fw false conf a b p s
          ≡ write_powermode fw false conf (pos n) s =
        rw (h, q) refl in
      rw same (done, ap (λ r. profile_of a b (assigned_or u r)) shown ∙ back)
