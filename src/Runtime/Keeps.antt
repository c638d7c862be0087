-- ===== src/Runtime/Keeps.antt =====
-- A method that keeps a predicate on the state of its process, however it ends.
use mathlib.Core.Path.{subst}
use shortcut.Prelude.{Bool, true, false, if◌then◌else◌, String, sym, List, ◌∷◌, ◌≡◌}
use shortcut.Runtime.Errors.{Error}
use shortcut.Runtime.Calls.{Call}
use shortcut.Runtime.Methods.{
  World, Outcome, ok, err, panic, blocked, Exec, pure, raise, panics, gets, call, modify, tell,
  continue, ◌>>=◌, on_result, try, finish, deferring,
}

module _ (K : World → Type 0) where
  pub record Keeps {A : Type 0} (m : Exec A) : Type 0 where
    pub kept : (w : World) → K w → K (m w).1

  module _ {A B : Type 0} where
    continue-kept :
        (r : Outcome A) (f : A → Exec B) (w : World)
        → ((a : A) → Keeps (f a))
        → K w
        → K (continue r f w).1
    continue-kept (ok a) f w k h = (k a).kept w h
    continue-kept (err e) f w k h = h
    continue-kept (panic m) f w k h = h
    continue-kept blocked f w k h = h

    pub >>=-Keeps :
        (m : Exec A) (f : A → Exec B) → Keeps m → ((a : A) → Keeps (f a)) → Keeps (m >>= f)
    >>=-Keeps m f k l = record {
      kept = λ w h. let (r, w') = m w in continue-kept r f w' l (k.kept w h);
    }

    on_result-kept :
        (r : Outcome A) (g : Error → Exec B) (f : A → Exec B) (w : World)
        → ((e : Error) → Keeps (g e))
        → ((a : A) → Keeps (f a))
        → K w
        → K (on_result r g f w).1
    on_result-kept (ok a) g f w l k h = (k a).kept w h
    on_result-kept (err e) g f w l k h = (l e).kept w h
    on_result-kept (panic m) g f w l k h = h
    on_result-kept blocked g f w l k h = h

    pub try-Keeps :
        (m : Exec A) (g : Error → Exec B) (f : A → Exec B)
        → Keeps m
        → ((e : Error) → Keeps (g e))
        → ((a : A) → Keeps (f a))
        → Keeps (try m g f)
    try-Keeps m g f k l n = record {
      kept = λ w h. let (r, w') = m w in on_result-kept r g f w' l n (k.kept w h);
    }

  module _ {A : Type 0} where
    pub pure-Keeps : (a : A) → Keeps (pure a)
    pure-Keeps a = record { kept = λ w h. h }

    pub raise-Keeps : (e : Error) → Keeps (raise {A = A} e)
    raise-Keeps e = record { kept = λ w h. h }

    pub panics-Keeps : (m : String) → Keeps (panics {A = A} m)
    panics-Keeps m = record { kept = λ w h. h }

    pub gets-Keeps : (f : World → A) → Keeps (gets f)
    gets-Keeps f = record { kept = λ w h. h }

    finish-kept :
        (r : Outcome A) (d : Exec (Unit {0})) (w : World) → Keeps d → K w → K (finish r d w).1
    finish-kept (ok a) d w k h = k.kept w h
    finish-kept (err e) d w k h = k.kept w h
    finish-kept (panic m) d w k h = k.kept w h
    finish-kept blocked d w k h = h

    pub deferring-Keeps :
        (d : Exec (Unit {0})) (m : Exec A) → Keeps d → Keeps m → Keeps (deferring d m)
    deferring-Keeps d m k l = record {
      kept = λ w h. let (r, w') = m w in finish-kept r d w' k (l.kept w h);
    }

    pub call-Keeps :
        (c : Call) (reply : List Call → Outcome A)
        → ((w : World) → K w → K (record w { history = c ∷ w.history }))
        → Keeps (call c reply)
    call-Keeps c reply k = record { kept = λ w h. k w h }

  pub if-Keeps :
      {A : Type 0} (b : Bool) (m n : Exec A) → Keeps m → Keeps n → Keeps (if b then m else n)
  if-Keeps true m n k l = k
  if-Keeps false m n k l = l

  pub modify-Keeps : (f : World → World) → ((w : World) → K w → K (f w)) → Keeps (modify f)
  modify-Keeps f k = record { kept = k }

  pub tell-Keeps :
      (c : Call) → ((w : World) → K w → K (record w { history = c ∷ w.history })) → Keeps (tell c)
  tell-Keeps c k = record { kept = λ w h. k w h }

-- A predicate on the calls made.
abbrev pub OnCalls : (List Call → Type 0) → World → Type 0
OnCalls K w = K w.history

-- A method that makes no call.
pub silent-Keeps :
    (K : List Call → Type 0) {A : Type 0} (m : Exec A)
    → ((w : World) → (m w).1.history ≡ w.history)
    → Keeps (OnCalls K) m
silent-Keeps K m same = record { kept = λ w h. subst K (sym (same w)) h }

pub ruleset keeps = (
  >>=-Keeps, try-Keeps, pure-Keeps, raise-Keeps, gets-Keeps, panics-Keeps, modify-Keeps,
  deferring-Keeps, if-Keeps,
)
