-- ===== src/Probe/Unwind.antt =====
-- The rules for the steps of the probe and their way back: the resources are taken in stages, and a failed
-- step leaves those of the stages before it.
use sc_control.Base.{
  ℕ, suc, ◌<◌, ◌≡◌, refl, ◌∙◌, ap, true, false, ◌==◌, if◌then◌else◌, List, [], ◌∷◌, All, arith,
}
use sc_control.Errno.{Result, ok, err}
use sc_control.Probe.{Resource, index_of, Driver, Step, without}
use sc_control.Probe.Add.{unwind, proceed, protect}

-- Only resources that are taken before the stage are held.
abbrev pub Below : ℕ → List Resource → Type 0
Below n h = All (λ r. index_of r < n) h

-- After a failure, the resources are the ones that are given.
abbrev pub OnErr : {F : Type 0} → List Resource → Result (Unit {0}) × Driver F → Type 0
OnErr h (ok _, d) = Unit
OnErr h (err _, d) = d.held ≡ h

-- A step from a stage on gives everything back when it fails.
pub record Restores {F : Type 0} (n : ℕ) (step : Step F) : Type 0 where
  pub restored : (d : Driver F) → Below n d.held → OnErr d.held (step d)

-- What a step that the way back undoes leaves: after a success, resources of the stage, from which the
-- way back leads to the ones before.
abbrev pub Undone :
    {F : Type 0} → ℕ → (Driver F → Driver F) → List Resource → Result (Unit {0}) × Driver F → Type 0
Undone {F = F} n undo h (ok _, t) =
    Below (suc n) t.held × ((u : Driver F) → u.held ≡ t.held → (undo u).held ≡ h)
Undone n undo h (err _, t) = t.held ≡ h

pub record Undoes {F : Type 0} (n : ℕ) (init : Step F) (undo : Driver F → Driver F) : Type 0 where
  pub undone : (d : Driver F) → Below n d.held → Undone n undo d.held (init d)

pub raise : (n : ℕ) (h : List Resource) → Below n h → Below (suc n) h
raise n [] b = tt
raise n (r ∷ h) b = (omega (arith, b.0), raise n h b.1)

apart : (a b : ℕ) → b < a → (a == b) ≡ false
apart a b h = ground arith

same : (a : ℕ) → (a == a) ≡ true
same a = ground arith

pub without-Below : (r : Resource) (h : List Resource) → Below (index_of r) h → without r h ≡ h
unfolding without
without-Below r [] b = refl
without-Below r (x ∷ h) b =
    let differs : (index_of r == index_of x) ≡ false = apart (index_of r) (index_of x) b.0 in
    ap (λ c. if c then without r h else x ∷ without r h) differs
    ∙ ap (λ l. x ∷ l) (without-Below r h b.1)

pub without_head : (r : Resource) (h : List Resource) → Below (index_of r) h → without r (r ∷ h) ≡ h
unfolding without
without_head r h b =
    ap (λ c. if c then without r h else r ∷ without r h) (same (index_of r)) ∙ without-Below r h b

module _ {F : Type 0} where
  pub unwind-OnErr :
      (n : ℕ) (undo : Driver F → Driver F) (h : List Resource) (t : Driver F)
      (p : Result (Unit {0}) × Driver F)
      → ((u : Driver F) → u.held ≡ t.held → (undo u).held ≡ h)
      → OnErr t.held p
      → OnErr h (unwind undo p)
  unfolding unwind
  unwind-OnErr n undo h t (ok _, u) back e = tt
  unwind-OnErr n undo h t (err c, u) back e = back u e

  protect_from :
      (n : ℕ) (undo : Driver F → Driver F) (rest : Step F) (h : List Resource)
      (p : Result (Unit {0}) × Driver F)
      → Restores (suc n) rest
      → Undone n undo h p
      → OnErr h (proceed (λ t. unwind undo (rest t)) p)
  unfolding proceed
  protect_from n undo rest h (ok _, t) r u = unwind-OnErr n undo h t (rest t) u.1 (r.restored t u.0)
  protect_from n undo rest h (err c, t) r u = u

  pub protect-Restores :
      (n : ℕ) (init rest : Step F) (undo : Driver F → Driver F)
      → Undoes n init undo
      → Restores (suc n) rest
      → Restores n (protect init undo rest)
  protect-Restores n init rest undo u r = record {
    restored = λ d b. protect_from n undo rest d.held (init d) r (u.undone d b);
  }
