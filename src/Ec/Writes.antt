-- ===== src/Ec/Writes.antt =====
-- A sequence of `ecram_write` calls, as the list of their offsets and values: a call keeps the value
-- of every other cell, so at distinct offsets each cell ends with the value written to it.
use sc_control.Base.{
  ℕ, ◌≡◌, refl, ◌∙◌, Bool, true, false, List, [], ◌∷◌, ◌++◌, map, arith, ◌==◌, ◌&&◌, not, u8, u16,
  All,
}
use sc_control.Ec.{Ram, ecram_read, ecram_write}

unfoldable pub write_all : Bool → Ram → List (ℕ × ℕ) → Ram
write_all ro ram [] = ram
write_all ro ram ((a, v) ∷ ws) = write_all ro (ecram_write ro ram a v) ws

abbrev pub addresses : List (ℕ × ℕ) → List ℕ
addresses = map λ w. w.0

pub write_all-append :
    (ro : Bool) (ram : Ram) (vs ws : List (ℕ × ℕ))
    → write_all ro ram (vs ++ ws) ≡ write_all ro (write_all ro ram vs) ws
unfolding write_all
write_all-append ro ram [] ws = refl
write_all-append ro ram ((a, v) ∷ vs) ws = write_all-append ro (ecram_write ro ram a v) vs ws

-- Under `ec_readonly` no sequence of writes changes the RAM.
pub write_all_readonly : (ram : Ram) (ws : List (ℕ × ℕ)) → write_all true ram ws ≡ ram
unfolding write_all
write_all_readonly ram [] = refl
write_all_readonly ram ((a, v) ∷ ws) = write_all_readonly ram ws

-- Is the cell at none of the offsets?
unfoldable pub avoids : ℕ → List ℕ → Bool
avoids a [] = true
avoids a (b ∷ bs) = not (u16 a == u16 b) && avoids a bs

unfoldable pub distinct : List ℕ → Bool
unfolding avoids
distinct [] = true
distinct (a ∷ as') = avoids a as' && distinct as'

pub write_all_frame :
    (ro : Bool) (ram : Ram) (ws : List (ℕ × ℕ)) (a : ℕ)
    → avoids a (addresses ws) ≡ true
    → ecram_read (write_all ro ram ws) a ≡ ecram_read ram a
unfolding write_all avoids
write_all_frame ro ram [] a h = refl
write_all_frame ro ram ((b, v) ∷ ws) a h =
    ground (arith, write_all_frame ro (ecram_write ro ram b v) ws a)

-- The cell of each write holds the byte written.
abbrev pub Holds : Ram → List (ℕ × ℕ) → Type 0
Holds ram = All λ w. ecram_read ram w.0 ≡ u8 w.1

pub write_all-Holds :
    (ram : Ram) (ws : List (ℕ × ℕ))
    → distinct (addresses ws) ≡ true
    → Holds (write_all false ram ws) ws
unfolding write_all distinct
write_all-Holds ram [] h = tt
write_all-Holds ram ((a, v) ∷ ws) h = (
  ground (arith, write_all_frame false (ecram_write false ram a v) ws a),
  write_all-Holds (ecram_write false ram a v) ws (ground arith),
)

-- Later writes elsewhere keep what holds.
pub Holds-frame :
    (ro : Bool) (ram : Ram) (ws vs : List (ℕ × ℕ))
    → All (λ w. avoids w.0 (addresses vs) ≡ true) ws
    → Holds ram ws
    → Holds (write_all ro ram vs) ws
Holds-frame ro ram [] vs h k = tt
Holds-frame ro ram ((a, v) ∷ ws) vs h k =
    (write_all_frame ro ram vs a h.0 ∙ k.0, Holds-frame ro ram ws vs h.1 k.1)
