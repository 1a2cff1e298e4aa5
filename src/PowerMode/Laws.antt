-- ===== src/PowerMode/Laws.antt =====
-- What a power mode written is read as, what is rejected, and where the code does not do what it means.
use sc_control.Base.{
  ℕ, ◌+◌, ◌*◌, ◌<◌, ◌≡◌, refl, ap, ◌≢◌, ◌⊎◌, inl, inr, Bool, false, [], ◌∷◌, arith, if◌then◌else◌,
  ℤ, pos, byte_of, unsigned32, signed32,
}
use sc_control.Errno.{Result, ok, err, Errno, einval}
use sc_control.Ec.{ecram_read, ecram_write}
use sc_control.Model.Config.{ModelConfig, ec, wmi}
use sc_control.Firmware.State.{Firmware, State}
use sc_control.PowerMode.Codes.{
  is_wmi_powermode, ec_to_wmi_powermode, wmi_to_ec_powermode, ec_to_wmi-wmi_to_ec, wmi_to_ec-is_ec,
  wmi_to_ec-lt,
}
use sc_control.Firmware.Wmi.{wmi_exec_arg}
use sc_control.PowerMode.Access.{
  gamezone_guid, read_powermode, write_powermode, toggle_powermode, other_mode,
}
use sc_control.PowerMode.Store.{powermode_store, remember}

module _ {F : Type 0} (fw : Firmware F) (ro : Bool) (conf : ModelConfig) where
  read_powermode-ec :
      (s : State F)
      → conf.access_method_powermode ≡ ec
      → read_powermode fw ro conf s
        ≡ (ok (pos (ec_to_wmi_powermode (ecram_read s.ram conf.registers.ext_powermode))), s)
  unfolding read_powermode
  read_powermode-ec s e = rw (e, read_powermode)

  write_powermode-ec :
      (s : State F) (v : ℤ)
      → conf.access_method_powermode ≡ ec
      → write_powermode fw ro conf v s ≡ (
        ok tt,
        record s {
          ram =
              ecram_write ro s.ram conf.registers.ext_powermode
                (wmi_to_ec_powermode (unsigned32 v));
        },
      )
  unfolding write_powermode
  write_powermode-ec s v e =
      let m = unsigned32 v in rw e (ground (arith, wmi_to_ec-is_ec m, wmi_to_ec-lt m))

  -- With EC access and writes enabled, a mode below 2^32 is written without an error; reading then
  -- gives that mode if it is one of the five WMI modes, and balanced otherwise.
  pub ec_powermode_round_trip :
      (s : State F) (m : ℕ)
      → conf.access_method_powermode ≡ ec
      → ro ≡ false
      → m < 4294967296
      → let (r, t) = write_powermode fw ro conf (pos m) s in
        (r ≡ ok tt)
        × ((read_powermode fw ro conf t).0 ≡ ok (pos (if is_wmi_powermode m then m else 2)))
  ec_powermode_round_trip s m e f h =
      let t = (write_powermode fw ro conf (pos m) s).1 in
      ground (
        arith,
        write_powermode-ec s (pos m) e,
        read_powermode-ec t e,
        ec_to_wmi-wmi_to_ec m,
        wmi_to_ec-lt m,
      )

  write_powermode-wmi :
      (s : State F) (v : ℤ)
      → conf.access_method_powermode ≡ wmi
      → write_powermode fw ro conf v s ≡ (
          if is_wmi_powermode (byte_of v)
          then wmi_exec_arg fw gamezone_guid 0 44 (byte_of v ∷ []) s
          else (err einval, s))
  unfolding write_powermode
  write_powermode-wmi s v e = rw (e, write_powermode) (ground arith)

  write_zero-wmi :
      (s : State F)
      → conf.access_method_powermode ≡ wmi
      → write_powermode fw ro conf (pos 0) s ≡ (err einval, s)
  unfolding is_wmi_powermode
  write_zero-wmi s e = write_powermode-wmi s (pos 0) e

  other_mode_lem : (old : ℤ) → old ≢ pos 0 → other_mode old ≡ pos 0
  other_mode_lem old n = ground arith

  write_powermode_keeps :
      (s : State F) (v : ℤ)
      → (write_powermode fw ro conf v s).1.current_powermode ≡ s.current_powermode
  unfolding write_powermode wmi_exec_arg
  write_powermode_keeps s v = ground arith

  -- With WMI access and a mode other than 0, `toggle_powermode` leaves the state that one write of
  -- the old mode leaves: the write of the other mode, 0, is refused before it reaches the firmware.
  pub toggle_powermode_wmi :
      (s : State F) (old : ℤ)
      → conf.access_method_powermode ≡ wmi
      → (read_powermode fw ro conf s).0 ≡ ok old
      → old ≢ pos 0
      → toggle_powermode fw ro conf s
        ≡ (write_powermode fw ro conf old (read_powermode fw ro conf s).1).1
  unfolding toggle_powermode
  toggle_powermode_wmi s old e h n =
      let t = (read_powermode fw ro conf s).1 in
      rw (h, toggle_powermode)
        (ap (λ u. (write_powermode fw ro conf old u).1)
          (rw (other_mode_lem old n, write_zero-wmi t e)))

  -- A failed store of the power mode keeps the remembered mode, and a successful one remembers the
  -- number that was parsed, as an int.
  pub powermode_store_lem :
      (s : State F) (parsed : Result ℕ)
      → let (r, t) = powermode_store fw ro conf parsed s in
        ((r ≡ ok tt) × ((w : ℕ) × (parsed ≡ ok w) × (t.current_powermode ≡ signed32 w)))
        ⊎ ((e : Errno) × (r ≡ err e) × (t.current_powermode ≡ s.current_powermode))
  unfolding powermode_store
  powermode_store_lem s (err e) = inr (e, refl, refl)
  powermode_store_lem s (ok w) =
      cases (write_powermode fw ro conf (signed32 w) s) (write_powermode_keeps s (signed32 w)) refl
    where
      cases :
          (p : Result (Unit {0}) × State F)
          → p.1.current_powermode ≡ s.current_powermode
          → write_powermode fw ro conf (signed32 w) s ≡ p
          → let (r, t) = powermode_store fw ro conf (ok w) s in
            ((r ≡ ok tt) × ((x : ℕ) × (ok w ≡ ok x) × (t.current_powermode ≡ signed32 x)))
            ⊎ ((e : Errno) × (r ≡ err e) × (t.current_powermode ≡ s.current_powermode))
      cases (ok u, t) k e = rw e (inl (refl, (w, refl, refl)))
      cases (err c, t) k e = rw e (inr (einval, refl, k))

  write_low_byte :
      (s : State F) (m k : ℕ)
      → conf.access_method_powermode ≡ wmi
      → m < 256
      → m + 256 * k < 4294967296
      → write_powermode fw ro conf (signed32 (m + 256 * k)) s
        ≡ write_powermode fw ro conf (signed32 m) s
  write_low_byte s m k e h b =
      let low : byte_of (signed32 (m + 256 * k)) ≡ m = ground arith in
      let same : byte_of (signed32 m) ≡ m = ground arith in
      rw (write_powermode-wmi s (signed32 (m + 256 * k)) e, write_powermode-wmi s (signed32 m) e)
        (rw (low, same))

  -- With WMI access, a number below 2^32, all that the parser accepts, whose low byte is a mode that is
  -- stored without an error is stored like that mode: no error and the same firmware state, but the mode
  -- that is remembered is the whole number as an int, negative from 2^31 on.
  pub powermode_store_truncates :
      (s : State F) (m k : ℕ)
      → conf.access_method_powermode ≡ wmi
      → m < 256
      → m + 256 * k < 4294967296
      → (powermode_store fw ro conf (ok m) s).0 ≡ ok tt
      → let (r, t) = powermode_store fw ro conf (ok (m + 256 * k)) s in
        (r ≡ ok tt)
        × (t.firmware ≡ (powermode_store fw ro conf (ok m) s).1.firmware)
        × (t.current_powermode ≡ signed32 (m + 256 * k))
  unfolding powermode_store remember
  powermode_store_truncates s m k e h b g = cases (write_powermode fw ro conf (signed32 m) s) refl g
    where
      far :
          write_powermode fw ro conf (signed32 (m + 256 * k)) s
          ≡ write_powermode fw ro conf (signed32 m) s
      far = write_low_byte s m k e h b

      cases :
          (p : Result (Unit {0}) × State F)
          → write_powermode fw ro conf (signed32 m) s ≡ p
          → (remember (signed32 m) p).0 ≡ ok tt
          → let (r, t) = powermode_store fw ro conf (ok (m + 256 * k)) s in
            (r ≡ ok tt)
            × (t.firmware ≡ (powermode_store fw ro conf (ok m) s).1.firmware)
            × (t.current_powermode ≡ signed32 (m + 256 * k))
      cases (ok u, t) q g = rw (far, q) (refl, refl, refl)
      cases (err c, t) q g = cc
