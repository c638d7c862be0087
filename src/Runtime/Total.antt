-- ===== src/Runtime/Total.antt =====
-- A method that always returns, with or without an error: it neither panics nor blocks.
use shortcut.Prelude.{
  Bool, true, false, List, ◌∷◌, ◌⊎◌, inl, inr, Option, none, some, if◌then◌else◌,
}
use shortcut.Runtime.Errors.{Error}
use shortcut.Runtime.Calls.{Call}
use shortcut.Runtime.Methods.{
  World, Outcome, ok, err, panic, blocked, Exec, pure, raise, gets, call, checked, returned, modify,
  tell, continue, ◌>>=◌, on_result, try,
}
use shortcut.Runtime.Laws.{Returns}

pub record IsTotal {A : Type 0} (m : Exec A) : Type 0 where
  pub returns : (w : World) → Returns (m w).0

module _ {A B : Type 0} where
  continue-Returns :
      (r : Outcome A) (f : A → Exec B) (w : World)
      → Returns r
      → ((a : A) → IsTotal (f a))
      → Returns (continue r f w).0
  continue-Returns (ok a) f w h t = (t a).returns w
  continue-Returns (err e) f w h t = tt
  continue-Returns (panic m) f w h t = absurd h
  continue-Returns blocked f w h t = absurd h

  pub >>=-IsTotal :
      (m : Exec A) (f : A → Exec B) → IsTotal m → ((a : A) → IsTotal (f a)) → IsTotal (m >>= f)
  >>=-IsTotal m f t u = record {
    returns = λ w. let (r, w') = m w in continue-Returns r f w' (t.returns w) u;
  }

  on_result-Returns :
      (r : Outcome A) (g : Error → Exec B) (f : A → Exec B) (w : World)
      → Returns r
      → ((e : Error) → IsTotal (g e))
      → ((a : A) → IsTotal (f a))
      → Returns (on_result r g f w).0
  on_result-Returns (ok a) g f w h t u = (u a).returns w
  on_result-Returns (err e) g f w h t u = (t e).returns w
  on_result-Returns (panic m) g f w h t u = absurd h
  on_result-Returns blocked g f w h t u = absurd h

  pub try-IsTotal :
      (m : Exec A) (g : Error → Exec B) (f : A → Exec B)
      → IsTotal m
      → ((e : Error) → IsTotal (g e))
      → ((a : A) → IsTotal (f a))
      → IsTotal (try m g f)
  try-IsTotal m g f t u v = record {
    returns = λ w. let (r, w') = m w in on_result-Returns r g f w' (t.returns w) u v;
  }

module _ {A : Type 0} where
  pub pure-IsTotal : (a : A) → IsTotal (pure a)
  pure-IsTotal a = record { returns = λ w. tt }

  pub raise-IsTotal : (e : Error) → IsTotal (raise {A = A} e)
  raise-IsTotal e = record { returns = λ w. tt }

  pub gets-IsTotal : (f : World → A) → IsTotal (gets f)
  gets-IsTotal f = record { returns = λ w. tt }

  pub if-IsTotal : (b : Bool) (m n : Exec A) → IsTotal m → IsTotal n → IsTotal (if b then m else n)
  if-IsTotal true m n t u = t
  if-IsTotal false m n t u = u

  returned-Returns : (r : Error ⊎ A) → Returns (returned r)
  returned-Returns (inl e) = tt
  returned-Returns (inr a) = tt

  -- A call that answers with a value or an error.
  pub returned-IsTotal :
      (c : Call) (reply : List Call → Error ⊎ A) → IsTotal (call c (λ h. returned (reply h)))
  returned-IsTotal c reply = record { returns = λ w. returned-Returns (reply (c ∷ w.history)) }

  pub value-IsTotal : (r : Error ⊎ A) → IsTotal (λ w. (returned r, w))
  value-IsTotal r = record { returns = λ w. returned-Returns r }

pub checked-Returns : (o : Option Error) → Returns (checked o)
checked-Returns none = tt
checked-Returns (some e) = tt

-- A call that answers with an error or nil.
pub checked-IsTotal :
    (c : Call) (reply : List Call → Option Error) → IsTotal (call c (λ h. checked (reply h)))
checked-IsTotal c reply = record { returns = λ w. checked-Returns (reply (c ∷ w.history)) }

pub tell-IsTotal : (c : Call) → IsTotal (tell c)
tell-IsTotal c = record { returns = λ w. tt }

pub modify-IsTotal : (f : World → World) → IsTotal (modify f)
modify-IsTotal f = record { returns = λ w. tt }

pub ruleset totals = (
  >>=-IsTotal, try-IsTotal, pure-IsTotal, raise-IsTotal, gets-IsTotal, if-IsTotal, returned-IsTotal,
  value-IsTotal, checked-IsTotal, tell-IsTotal, modify-IsTotal,
)
