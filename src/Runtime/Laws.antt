-- ===== src/Runtime/Laws.antt =====
-- How methods in a row end.
use shortcut.Prelude.{◌≡◌, refl, ◌⊎◌, inl, inr, List, ◌∷◌, Option, none, arith}
use shortcut.Runtime.Errors.{Error}
use shortcut.Runtime.Calls.{Call}
use shortcut.Runtime.Methods.{
  call, checked, World, Outcome, ok, err, panic, blocked, Exec, ◌>>=◌, continue, on_result,
}

-- A method that returns, with or without an error: it does not panic and does not block.
abbrev pub Returns : {A : Type 0} → Outcome A → Type 0
Returns (ok _) = Unit
Returns (err _) = Unit
Returns (panic _) = ⊥
Returns blocked = ⊥

module _ {A B : Type 0} where
  continue-eq-ok :
      (r : Outcome A) (f : A → Exec B) (w : World) {b : B} {w'' : World}
      → continue r f w ≡ (ok b, w'')
      → (a : A) × (r ≡ ok a) × (f a w ≡ (ok b, w''))
  continue-eq-ok (ok a) f w h = (a, refl, h)
  continue-eq-ok (err e) f w h = cc
  continue-eq-ok (panic m) f w h = cc
  continue-eq-ok blocked f w h = cc

  -- Inversion of a sequence that returned without an error.
  pub >>=-eq-ok :
      (m : Exec A) (f : A → Exec B) (w : World) {b : B} {w'' : World}
      → (m >>= f) w ≡ (ok b, w'')
      → (a : A) × (w' : World) × (m w ≡ (ok a, w')) × (f a w' ≡ (ok b, w''))
  >>=-eq-ok m f w h =
      let (r, w') = m w in let (a, e, k) = continue-eq-ok r f w' h in (a, w', λ i. (e i, w'), k)

  on_result-eq-ok :
      (r : Outcome A) (g : Error → Exec B) (f : A → Exec B) (w : World) {b : B} {w'' : World}
      → on_result r g f w ≡ (ok b, w'')
      → ((e : Error) × (r ≡ err e) × (g e w ≡ (ok b, w'')))
        ⊎ ((a : A) × (r ≡ ok a) × (f a w ≡ (ok b, w'')))
  on_result-eq-ok (ok a) g f w h = inr (a, refl, h)
  on_result-eq-ok (err e) g f w h = inl (e, refl, h)
  on_result-eq-ok (panic m) g f w h = cc
  on_result-eq-ok blocked g f w h = cc

-- A call that returned without an error is the last of the calls, and was answered by nil.
pub call-eq-ok :
    (c : Call) (reply : List Call → Option Error) (w w' : World)
    → call c (λ h. checked (reply h)) w ≡ (ok tt, w')
    → (w' ≡ record w { history = c ∷ w.history }) × (reply (c ∷ w.history) ≡ none)
call-eq-ok c reply w w' h = ground arith
