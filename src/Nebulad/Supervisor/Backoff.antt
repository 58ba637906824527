-- ===== src/Nebulad/Supervisor/Backoff.antt =====
-- src/ogygia-macos-nebulad/src/supervisor.rs: the delays between the restarts of a process that keeps
-- exiting.
use ogygia_nix.Base.{
  ℕ, zero, suc, ◌+◌, ◌-◌, ◌*◌, ◌^◌, ◌<◌, min, ◌≡◌, refl, ◌∙◌, ap, Bool, true, false, arith,
}
use ogygia_nix.Base.Text.{Text}
use ogygia_nix.Nebulad.{Result, ok, err}
use ogygia_nix.Nebulad.Supervisor.{
  min_backoff, max_backoff, healthy_run, watching, resting, Supervisor, World, slept, child_exited,
  start, look, enter_loop, top, rest, wake_at, wake,
}

-- The process exits before it has run for long, and is started again after the delay.
pub data Crashes (s : Supervisor) : ℕ → Supervisor → Type 0 where
  none_yet : Crashes s 0 s
  again :
      {n : ℕ} {t : Supervisor}
      → Crashes s n t
      → (started : ℕ) → t.phase ≡ watching started
      → (w w' : World) (spawned spawned' : Result (Unit {0})) (reason : Text)
      → w.now < started + healthy_run
      → w'.shutdown ≡ false
      → w'.config_exists ≡ true
      → Crashes s (suc n) (wake w' spawned' slept (wake w spawned (child_exited reason) t))

rest-backoff :
    (ran : ℕ) (reason : Text) (s : Supervisor)
    → ran < healthy_run
    → (rest ran reason s).backoff ≡ min (s.backoff * 2) max_backoff
unfolding rest
rest-backoff ran reason s short = ground arith

rest-phase :
    (ran : ℕ) (reason : Text) (s : Supervisor)
    → ran < healthy_run
    → (rest ran reason s).phase ≡ resting s.backoff
unfolding rest
rest-phase ran reason s short = ground arith

top-backoff :
    (w : World) (spawned : Result (Unit {0})) (s : Supervisor)
    → (top w spawned s).backoff ≡ s.backoff
unfolding top enter_loop look start
top-backoff w spawned s = entered w.shutdown
  where
    started : (r : Result (Unit {0})) → (start w r s).backoff ≡ s.backoff
    started (ok tt) = refl
    started (err e) = refl

    looked : (b : Bool) → (look w spawned b s).backoff ≡ s.backoff
    looked true = started spawned
    looked false = refl

    entered : (b : Bool) → (enter_loop w spawned b s).backoff ≡ s.backoff
    entered true = refl
    entered false = looked w.config_exists

crash-backoff :
    (w w' : World) (spawned spawned' : Result (Unit {0})) (reason : Text) (started : ℕ)
    (t : Supervisor)
    → t.phase ≡ watching started
    → w.now < started + healthy_run
    → (wake w' spawned' slept (wake w spawned (child_exited reason) t)).backoff
      ≡ min (t.backoff * 2) max_backoff
unfolding wake wake_at
crash-backoff w w' spawned spawned' reason started t at short =
    let exit = ap (λ p. wake w' spawned' slept (wake_at w spawned (child_exited reason) p t)) at in
    let ran : w.now - started < healthy_run = omega arith in
    ap (λ s. s.backoff) exit
    ∙ unfold rest in
      top-backoff w' spawned' (rest (w.now - started) reason t)
      ∙ rest-backoff (w.now - started) reason t ran

Crashes-backoff :
    (n : ℕ) (s t : Supervisor)
    → Crashes s n t
    → s.backoff ≡ min_backoff
    → t.backoff ≡ min (2 ^ n * min_backoff) max_backoff
Crashes-backoff zero s _ none_yet first = omega (arith, first)
Crashes-backoff (suc n) s _ (again {t = t} c started at w w' spawned spawned' reason short _ _)
      first =
    let before = Crashes-backoff n s t c first in
    let after = crash-backoff w w' spawned spawned' reason started t at short in
    omega (arith, before, after)

-- From a first delay of one second on, where the process has exited n times in a row and was started
-- again, and exits once more, each time before it ran for a minute, the loop rests for 2^n seconds,
-- but never for more than a minute.
pub Crashes-rests :
    (n : ℕ) (s t : Supervisor) (w : World) (spawned : Result (Unit {0})) (reason : Text)
    (started : ℕ)
    → Crashes s n t
    → s.backoff ≡ min_backoff
    → t.phase ≡ watching started
    → w.now < started + healthy_run
    → (wake w spawned (child_exited reason) t).phase
      ≡ resting (min (2 ^ n * min_backoff) max_backoff)
unfolding wake wake_at
Crashes-rests n s t w spawned reason started c first at short =
    let ran : w.now - started < healthy_run = omega arith in
    ap (λ p. (wake_at w spawned (child_exited reason) p t).phase) at
    ∙ rest-phase (w.now - started) reason t ran
    ∙ ap resting (Crashes-backoff n s t c first)
