-- ===== src/Attributes/FlipToStart.antt =====
-- Whether the laptop starts when its lid is opened: the first byte of an EFI variable of four bytes.
use sc_control.Base.{
  ℕ, zero, suc, ◌≡◌, refl, ap, Bool, true, false, not, ◌==◌, if◌then◌else◌, List, [], ◌∷◌, Option,
  none, some, get_or, length,
}
use sc_control.Errno.{Result, ok, err, eio}

-- The kernel's EFI services on that variable: `efi.get_variable` (none for another status, and else its
-- bytes, at most as many as asked for, and its attributes) and `efi.set_variable`.
pub record EfiServices (E : Type 0) : Type 0 where
  pub get_variable : E → Option (List ℕ × ℕ)
  pub set_variable : ℕ → List ℕ → E → Bool × E

-- A zeroed buffer of `n` bytes, its beginning overwritten.
unfoldable pub filled : ℕ → List ℕ → List ℕ
filled zero bytes = []
filled (suc n) [] = 0 ∷ filled n []
filled (suc n) (b ∷ bytes) = b ∷ filled n bytes

-- The assignment to the first byte.
unfoldable pub set_first : ℕ → List ℕ → List ℕ
set_first v [] = []
set_first v (b ∷ bytes) = v ∷ bytes

-- The attributes of a variable that an operating system can write: non-volatile, boot-service and runtime
-- access.
abbrev pub runtime_variable : ℕ
runtime_variable = 7

-- What the EFI specification says of four bytes that are set with these attributes: if the status is a
-- success, a read into a buffer of four bytes gives them and the attributes. Nothing is said of other sizes
-- and attributes, some of which delete the variable, and whether the services accept is left open.
pub record KeepsVariable {E : Type 0} (efi : EfiServices E) : Type 0 where
  pub kept :
      (bytes : List ℕ) (e : E)
      → length bytes ≡ 4
      → (efi.set_variable runtime_variable bytes e).0 ≡ true
      → efi.get_variable (efi.set_variable runtime_variable bytes e).1
        ≡ some (bytes, runtime_variable)

-- Four bytes: the switch, and the others of a list, zero where it is shorter.
abbrev pub flipped : Bool → List ℕ → List ℕ
flipped state bytes =
    (if state then 1 else 0) ∷ get_or bytes 1 0 ∷ get_or bytes 2 0 ∷ get_or bytes 3 0 ∷ []

written_lem :
    (state : Bool) (bytes : List ℕ)
    → set_first (if state then 1 else 0) (filled 4 bytes) ≡ flipped state bytes
unfolding set_first filled
written_lem state [] = refl
written_lem state (a ∷ []) = refl
written_lem state (a ∷ b ∷ []) = refl
written_lem state (a ∷ b ∷ c ∷ []) = refl
written_lem state (a ∷ b ∷ c ∷ d ∷ bytes) = refl

first_shown :
    (state : Bool) (bytes : List ℕ) → not (get_or (filled 4 (flipped state bytes)) 0 0 == 0) ≡ state
unfolding filled
first_shown true bytes = refl
first_shown false bytes = refl

module _ {E : Type 0} (efi : EfiServices E) where
  -- `flip_to_start_show`
  unfoldable pub flip_to_start_show : E → Result Bool
  flip_to_start_show e = elim (efi.get_variable e) [
    | none ↦ err eio
    | some v ↦ ok (not (get_or (filled 4 v.0) 0 0 == 0))
  ]

  -- The write, from what was read.
  unfoldable pub write_flip : Bool → Option (List ℕ × ℕ) → E → Result (Unit {0}) × E
  write_flip state none e = (err eio, e)
  write_flip state (some (bytes, attributes)) e =
      let content = set_first (if state then 1 else 0) (filled 4 bytes) in
      let (success, e') = efi.set_variable attributes content e in
      (if success then ok tt else err eio, e')

  -- `flip_to_start_store`
  unfoldable pub flip_to_start_store : Result Bool → E → Result (Unit {0}) × E
  unfolding write_flip
  flip_to_start_store (err c) e = (err c, e)
  flip_to_start_store (ok state) e = write_flip state (efi.get_variable e) e

  -- On EFI services that give back four bytes that were set with success and with the attributes of a
  -- runtime variable, and on a variable with these attributes: a store of the switch that the services
  -- accept succeeds and the show then gives it back; the variable keeps its attributes and holds four
  -- bytes, the first the switch and the others as they were read, or zero.
  pub flip_to_start_round_trip :
      (state : Bool) (e : E) (bytes : List ℕ)
      → KeepsVariable efi
      → efi.get_variable e ≡ some (bytes, runtime_variable)
      → (efi.set_variable runtime_variable (flipped state bytes) e).0 ≡ true
      → let (r, e') = flip_to_start_store (ok state) e in
        (r ≡ ok tt)
        × (flip_to_start_show e' ≡ ok state)
        × (efi.get_variable e' ≡ some (flipped state bytes, runtime_variable))
  unfolding flip_to_start_show flip_to_start_store write_flip
  flip_to_start_round_trip state e bytes law h accepted =
      let back = law.kept (flipped state bytes) e refl accepted in
      rw (h, flip_to_start_store, write_flip)
        (rw (written_lem state bytes) (
          rw accepted
            (refl, (rw (back, flip_to_start_show) (ap ok (first_shown state bytes))), back)))
