-- ===== src/Base/Tables.antt =====
-- A Boolean test over all numbers below a bound, by evaluation, and over all entries of a list.
use Prim.Native.Nat.{ℕ, zero, suc, ◌<◌}
use mathlib.Core.Path.{◌≡◌}
use mathlib.Core.Bool.{Bool, true, ◌&&◌}
use mathlib.Core.List.{List, [], ◌∷◌}
use native.Mathlib.Omega.{arith}
use sc_control.Base.Lists.{All}

unfoldable pub holds_up_to : (ℕ → Bool) → ℕ → Bool
holds_up_to test zero = true
holds_up_to test (suc bound) = holds_up_to test bound && test bound

pub holds_up_to_sound :
    (test : ℕ → Bool) (bound i : ℕ) → i < bound → holds_up_to test bound ≡ true → test i ≡ true
unfolding holds_up_to
holds_up_to_sound test zero i below all = absurd (omega arith)
holds_up_to_sound test (suc bound) i below all =
    let earlier : i < bound → test i ≡ true =
      λ l. holds_up_to_sound test bound i l (ground arith) in
    ground arith

unfoldable pub all_entries {ℓ} : {A : Type ℓ} → (A → Bool) → List A → Bool
all_entries p [] = true
all_entries p (x ∷ xs) = p x && all_entries p xs

pub all_entries_sound {ℓ κ} :
    {A : Type ℓ} (p : A → Bool) (P : A → Type κ)
    → ((x : A) → p x ≡ true → P x)
    → (xs : List A) → all_entries p xs ≡ true
    → All P xs
unfolding all_entries
all_entries_sound p P sound [] h = tt
all_entries_sound p P sound (x ∷ xs) h =
    (sound x (ground arith), all_entries_sound p P sound xs (ground arith))
