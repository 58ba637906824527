-- ===== src/Updated/Effects/Frame.antt =====
-- What each step that touches the host runs, and what it leaves alone.
use ogygia_nix.Base.{ℕ, some, List, [], ◌∷◌, ◌≡◌, refl, arith}
use ogygia_nix.Base.Text.{Text}
use ogygia_nix.Updated.Canary.{CanaryState}
use ogygia_nix.Updated.Result.{ok}
use ogygia_nix.Updated.Repo.{Oid, Git}
use ogygia_nix.Updated.World.{World, System, Call, Activation, Ran, lift, M, ◌>>=◌}
use ogygia_nix.Updated.Effects.{
  run_set_profile, run_switch, run_build, run_prefetch, run_attr_defined, run_schedule_reboot,
  run_checkout, store, read_current, read_next_boot, parse_revision,
}

-- What a step ran, with the canary record and the checked-out commit as they were.
abbrev pub Runs {ℓ} : {A : Type ℓ} → World → List Call → Ran A → Type 0
Runs w calls r = (r.calls ≡ calls) × (r.world.canary ≡ w.canary) × (r.world.head ≡ w.head)

module _ (system : System) (w : World) where
  pub set_profile-Runs :
      (profile p : Text)
      → Runs w (Call.set_profile profile p ∷ []) (run_set_profile system profile p w)
  unfolding run_set_profile
  set_profile-Runs profile p = ground arith

  pub switch-Runs :
      (p : Text) (a : Activation)
      → Runs w (Call.switch_to_configuration p a ∷ []) (run_switch system p a w)
  unfolding run_switch
  switch-Runs p a = ground arith

  pub build-Runs : (f : Text) → Runs w (Call.build f w.head ∷ []) (run_build system f w)
  unfolding run_build
  build-Runs f = (refl, refl, refl)

  pub prefetch-Runs : (f : Text) → Runs w (Call.prefetch f ∷ []) (run_prefetch system f w)
  unfolding run_prefetch
  prefetch-Runs f = (refl, refl, refl)

  pub attr_defined-Runs :
      (f : Text) → Runs w (Call.attr_defined f w.head ∷ []) (run_attr_defined system f w)
  unfolding run_attr_defined
  attr_defined-Runs f = (refl, refl, refl)

  pub schedule_reboot-Runs :
      (delay : ℕ) → Runs w (Call.schedule_reboot delay ∷ []) (run_schedule_reboot system delay w)
  unfolding run_schedule_reboot
  schedule_reboot-Runs delay = (refl, refl, refl)

  pub store-calls : (s : CanaryState) → (store system s w).calls ≡ []
  unfolding store
  store-calls s = ground arith

module _ (git : Git) (w : World) where
  -- A checkout runs no command of the system and leaves the canary record.
  pub checkout-calls :
      (c : Oid)
      → ((run_checkout git c w).calls ≡ []) × ((run_checkout git c w).world.canary ≡ w.canary)
  unfolding run_checkout
  checkout-calls c = ground arith

  pub checkout-head :
      (c : Oid) (a : Unit {0})
      → (run_checkout git c w).result ≡ ok a
      → (run_checkout git c w).world.head ≡ some c
  unfolding run_checkout
  checkout-head c a h = ground arith

  pub checkout-host : (c : Oid) → (run_checkout git c w).world.host ≡ w.host
  unfolding run_checkout
  checkout-host c = ground arith

  pub current-Runs : Runs w [] (read_current git w)
  unfolding read_current lift
  current-Runs = (refl, refl, refl)

  pub next_boot-Runs : Runs w [] (read_next_boot git w)
  unfolding read_next_boot lift
  next_boot-Runs = (refl, refl, refl)

module _ {ℓ} {A : Type ℓ} (git : Git) (w : World) (c : Oid) (f : Oid → M A) where
  -- Reading a revision file that holds a commit.
  pub current-ok :
      parse_revision git w.host.current_revision ≡ ok c → (read_current git >>= f) w ≡ f c w
  unfolding ◌>>=◌ lift read_current
  current-ok e = rw e

  pub next_boot-ok :
      parse_revision git w.host.next_boot_revision ≡ ok c → (read_next_boot git >>= f) w ≡ f c w
  unfolding ◌>>=◌ lift read_next_boot
  next_boot-ok e = rw e
