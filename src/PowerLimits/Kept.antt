-- ===== src/PowerLimits/Kept.antt =====
-- A firmware that keeps the two CPU power limits, and what reading, writing and the coupled store do on it.
use sc_control.Base.{
  ℕ, ◌<◌, ◌≡◌, refl, ◌∙◌, ap, Bool, true, false, if◌then◌else◌, ◌++◌, some, ℤ, pos, negsuc,
  signed32, unsigned32, u32, arith,
}
use sc_control.Errno.{ok, einval}
use sc_control.Firmware.State.{integer, Firmware, State, M, pure, or_code}
use sc_control.Firmware.Wmi.{int_result, wmi_exec_int}
use sc_control.Firmware.Runs.{bind_ok, or_code_ok, evaluate_answer}
use sc_control.Firmware.Other.{
  other_method_guid, le32, wmi_other_method_get_value, wmi_other_method_set_value,
}
use sc_control.PowerLimits.{wmi_common_method_other_store}
use sc_control.PowerLimits.Feature
use sc_control.PowerLimits.Coupling.{write_partner, couple, coupled_store}

pub data CpuLimit : Type 0 where
  longterm shortterm : CpuLimit

abbrev pub feature_of : CpuLimit → ℕ
feature_of longterm = Feature.cpu_long_term_power_limit
feature_of shortterm = Feature.cpu_short_term_power_limit

abbrev pub partner_of : CpuLimit → CpuLimit
partner_of longterm = shortterm
partner_of shortterm = longterm

-- A number that an int of 32 bits holds.
abbrev pub IsInt : ℤ → Type 0
IsInt (pos n) = n < 2147483648
IsInt (negsuc n) = n < 2147483648

-- A firmware that keeps a word of 32 bits for each limit: method 17 returns it, 18 changes it and leaves
-- the other limit alone.
pub record KeepsLimits {F : Type 0} (fw : Firmware F) : Type 0 where
  pub present : fw.has_guid other_method_guid ≡ true
  pub word : CpuLimit → F → ℕ
  pub put : CpuLimit → ℕ → F → F
  pub answers :
      (l : CpuLimit) (f : F)
      → fw.evaluate_method other_method_guid 0 17 (le32 (feature_of l)) f
        ≡ (some (some (integer (word l f))), f)
  pub accepts :
      (l : CpuLimit) (w : ℕ) (f : F)
      → w < 4294967296
      → fw.evaluate_method other_method_guid 0 18 (le32 (feature_of l) ++ le32 w) f
        ≡ (some (some (integer 0)), put l w f)
  pub changed : (l : CpuLimit) (w : ℕ) (f : F) → w < 4294967296 → word l (put l w f) ≡ w
  pub left_alone :
      (l : CpuLimit) (w : ℕ) (f : F) → word (partner_of l) (put l w f) ≡ word (partner_of l) f

unsigned32-lt : (v : ℤ) → unsigned32 v < 4294967296
unsigned32-lt (pos n) = omega arith
unsigned32-lt (negsuc n) = omega arith

signed32-unsigned32 : (v : ℤ) → IsInt v → signed32 (u32 (unsigned32 v)) ≡ v
signed32-unsigned32 (pos n) h = ground arith
signed32-unsigned32 (negsuc n) h = ground arith

module _ {F : Type 0} (fw : Firmware F) (law : KeepsLimits fw) where
  -- The limit that the firmware holds.
  abbrev pub limit : CpuLimit → State F → ℤ
  limit l s = signed32 (u32 (law.word l s.firmware))

  get_lem :
      (l : CpuLimit) (s : State F)
      → wmi_other_method_get_value fw (feature_of l) s ≡ (ok (limit l s), s)
  unfolding wmi_other_method_get_value wmi_exec_int
  get_lem l s =
      bind_ok (wmi_exec_int fw other_method_guid 0 17 (le32 (feature_of l)))
        (λ v. pure (signed32 (u32 v))) s s (law.word l s.firmware)
        (evaluate_answer fw int_result other_method_guid 0 17 (le32 (feature_of l)) s _ _
          law.present (law.answers l s.firmware))

  -- The state after the firmware took a limit.
  abbrev pub after : CpuLimit → ℤ → State F → State F
  after l v s = record s { firmware = law.put l (unsigned32 v) s.firmware }

  set_lem :
      (l : CpuLimit) (v : ℤ) (s : State F)
      → wmi_common_method_other_store fw (feature_of l) (ok v) s ≡ (ok tt, after l v s)
  unfolding wmi_common_method_other_store wmi_other_method_set_value wmi_exec_int
  set_lem l v s =
      let params = le32 (feature_of l) ++ le32 (unsigned32 v) in
      let write : M F ℤ = wmi_other_method_set_value fw (feature_of l) v in
      let t = after l v s in
      bind_ok (or_code write einval) (λ _. pure tt) s t (pos 0)
        (or_code_ok write einval s t (pos 0) (
          bind_ok (wmi_exec_int fw other_method_guid 0 18 params) (λ r. pure (signed32 (u32 r))) s t
            0
            (evaluate_answer fw int_result other_method_guid 0 18 params s _ _ law.present
              (law.accepts l (unsigned32 v) s.firmware (unsigned32-lt v)))))

  pub limit_changed : (l : CpuLimit) (v : ℤ) (s : State F) → IsInt v → limit l (after l v s) ≡ v
  limit_changed l v s h =
      ap (λ w. signed32 (u32 w)) (law.changed l (unsigned32 v) s.firmware (unsigned32-lt v))
      ∙ signed32-unsigned32 v h

  pub limit_left_alone :
      (l : CpuLimit) (v : ℤ) (s : State F)
      → limit (partner_of l) (after l v s) ≡ limit (partner_of l) s
  limit_left_alone l v s = ap (λ w. signed32 (u32 w)) (law.left_alone l (unsigned32 v) s.firmware)

  -- The limit of the partner after a coupled store, from the one before it.
  abbrev pub moved : (ℤ → ℤ → Bool) → ℤ → ℤ → ℤ
  moved exceeds v p = if exceeds p v then v else p

  -- The partner after the coupling.
  abbrev pub coupled_to : (ℤ → ℤ → Bool) → CpuLimit → ℤ → State F → State F
  coupled_to exceeds p v s = if exceeds (limit p s) v then after p v s else s

  couple_lem :
      (exceeds : ℤ → ℤ → Bool) (p : CpuLimit) (v : ℤ) (s : State F)
      → s.cpu_pl_coupling ≡ true
      → couple fw exceeds (feature_of p) v s ≡ coupled_to exceeds p v s
  unfolding couple write_partner
  couple_lem exceeds p v s on =
      let found = wmi_other_method_get_value fw (feature_of p) s in
      ap (λ b. if b then write_partner fw exceeds (feature_of p) v found else s) on
      ∙ ap (write_partner fw exceeds (feature_of p) v) (get_lem p s)
      ∙ ap (λ q. if exceeds (limit p s) v then q.1 else s) (set_lem p v s)

  pub coupled_store_lem :
      (exceeds : ℤ → ℤ → Bool) (l : CpuLimit) (v : ℤ) (s : State F)
      → s.cpu_pl_coupling ≡ true
      → coupled_store fw exceeds (feature_of (partner_of l)) (feature_of l) (ok v) s
        ≡ (ok tt, after l v (coupled_to exceeds (partner_of l) v s))
  unfolding coupled_store
  coupled_store_lem exceeds l v s on =
      ap (wmi_common_method_other_store fw (feature_of l) (ok v))
        (couple_lem exceeds (partner_of l) v s on)
      ∙ set_lem l v (coupled_to exceeds (partner_of l) v s)

  pub moved_lem :
      (exceeds : ℤ → ℤ → Bool) (p : CpuLimit) (v : ℤ) (s : State F) (b : Bool)
      → IsInt v
      → limit p (if b then after p v s else s) ≡ (if b then v else limit p s)
  moved_lem exceeds p v s true h = limit_changed p v s h
  moved_lem exceeds p v s false h = refl
