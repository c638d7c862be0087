-- ===== src/Wiring/Order.antt =====
-- The stop of the services.
use shortcut.Prelude.{List, [], ◌∷◌, ◌≡◌, refl, false}
use shortcut.Runtime.{
  Call, Error, World, Exec, Outcome, ok, err, panic, blocked, ◌>>◌, Level, Returns, on_result, tell,
  pure,
}
use shortcut.Wiring.{stop_all, stop}

-- The world after a service was stopped, with a line in the log if it failed.
abbrev pub logged : Outcome (Unit {0}) → World → World
logged (ok _) w = w
logged (err _) w = record w {
  history = Call.log Level.error "Error stopping service: %v" ∷ w.history;
}
logged (panic _) w = w
logged blocked w = w

-- The world after every service was stopped in its turn.
unfoldable pub stopped : List (Exec (Unit {0})) → World → World
stopped [] w = w
stopped (s ∷ ss) w = let (r, w') = s w in stopped ss (logged r w')

-- Every service of the list returns, in the world in which its turn comes.
abbrev pub AllReturn : List (Exec (Unit {0})) → World → Type 0
AllReturn [] w = Unit
AllReturn (s ∷ ss) w = let (r, w') = s w in Returns r × AllReturn ss (logged r w')

complain : Error → Exec (Unit {0})
complain _ = tell (Call.log Level.error "Error stopping service: %v")

next_stop :
    (r : Outcome (Unit {0})) (ss : List (Exec (Unit {0}))) (w : World)
    → Returns r
    → stop_all ss (logged r w) ≡ (ok tt, stopped ss (logged r w))
    → (on_result r complain pure >> stop_all ss) w ≡ (ok tt, stopped ss (logged r w))
unfolding complain
next_stop (ok tt) ss w h e = e
next_stop (err x) ss w h e = e
next_stop (panic m) ss w h e = absurd h
next_stop blocked ss w h e = absurd h

-- If each service returns when its turn comes, then all are stopped in the order of the list, each
-- in the world that those before it left, also behind one that returned an error.
pub stop_all_in_order :
    (ss : List (Exec (Unit {0}))) (w : World)
    → AllReturn ss w
    → stop false ss w ≡ (ok tt, stopped ss w)
unfolding stop stop_all stopped complain
stop_all_in_order [] w h = refl
stop_all_in_order (s ∷ ss) w h =
    let (r, w') = s w in next_stop r ss w' h.0 (stop_all_in_order ss (logged r w') h.1)
