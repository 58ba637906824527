-- ===== src/Nebulad/Tests.antt =====
-- The Nebula daemon at concrete inputs.
use ogygia_nix.Base.{
  ℕ, suc, ◌*◌, ◌^◌, ◌≤◌, min, ◌≡◌, ◌≢◌, refl, true, false, none, some, [], ◌∷◌, ◌⊎◌, ◌↔◌, arith,
}
use ogygia_nix.Base.Text.{Text, codes, text_eq, is_whitespace}
use ogygia_nix.Nebulad.{ok, err}
use ogygia_nix.Nebulad.Settings.{validate, installable}
use ogygia_nix.Nebulad.Settings.Injective.{installable-injective}
use ogygia_nix.Nebulad.Render.{render}
use ogygia_nix.Nebulad.Report.{nix_error}
use ogygia_nix.Nebulad.Prefs.{load, managed, set_values, key_device, key_repository_url, key_branch}
use ogygia_nix.Nebulad.Protocol.{Request, Response, Nebula}
use ogygia_nix.Nebulad.Daemon.{cert_of, requested, respond, update}
use ogygia_nix.Nebulad.Daemon.Updates.{
  rendered, IsWritten, update-fails, update-applies, update-error_iff, update-never_restarts,
}
use ogygia_nix.Nebulad.Supervisor.{
  top, enter_loop, look, start, wake_at, resting, min_backoff, max_backoff, watching,
  without_config, Supervisor, World, changed, slept, child_stopped, child_exited, wake, begin,
}
use ogygia_nix.Nebulad.Supervisor.Sound.{PhaseOk}
use ogygia_nix.Nebulad.Supervisor.Current.{System, Reach, began, Reach-bounds, settled-newest}
use ogygia_nix.Nebulad.Supervisor.Acts.{Arrived, changed-Arrived}
use ogygia_nix.Nebulad.Supervisor.Backoff.{none_yet, again, Crashes-rests}
use ogygia_nix.Nebulad.Fixtures.{
  mac, mac_installable, map_prefs, map_prefs-Stores, fresh, outside, full, offline, set_up,
  with_cert,
}
use ogygia_nix.Nebulad.Daemon.Requests.{respond-guarded, respond-followed}

mac_evaluates : installable mac ≡ ok (some mac_installable)
unfolding installable mac mac_installable codes
mac_evaluates = refl

installable-injective_example : mac ≡ mac
installable-injective_example =
    installable-injective mac mac mac_installable mac_evaluates mac_evaluates

nix_error_test : nix_error (codes "error:\n trace\n error: bad spec \n") ≡ codes "error: bad spec"
unfolding nix_error is_whitespace codes
nix_error_test = refl

respond-guarded_example :
    let d =
      (respond map_prefs
        (Request.set_settings (codes "https://evil.example") none (codes "mac"))
        false
        fresh).0 in
    (d.prefs ≡ fresh.prefs)
    × (d.status ≡ fresh.status)
    × (d.config ≡ fresh.config)
    × (d.cert ≡ fresh.cert)
    × (d.changes ≡ fresh.changes)
respond-guarded_example =
    respond-guarded map_prefs
      (Request.set_settings (codes "https://evil.example") none (codes "mac")) false fresh refl

abbrev spaced : Text
unfolding codes
spaced = codes " https://example.com/fleet.git "

spaced_valid : validate (requested spaced (some (codes " ")) (codes "mac")) ≡ ok tt
unfolding validate requested spaced codes
spaced_valid = refl

none_managed : managed map_prefs fresh.prefs ≡ false
unfolding managed map_prefs
none_managed = refl

is_synced :
    (map_prefs.synchronize
      (set_values map_prefs (requested spaced (some (codes " ")) (codes "mac")) fresh.prefs)).1
    ≡ true
unfolding map_prefs
is_synced = refl

respond-followed_example :
    let settings = requested spaced (some (codes " ")) (codes "mac") in
    let (d, response) =
      respond map_prefs (Request.set_settings spaced (some (codes " ")) (codes "mac")) true fresh in
    (load map_prefs d.prefs ≡ settings)
    × ((i : Text) × (installable settings ≡ ok (some i)))
    × (response ≡ Response.status d.status)
    × (d.status.repository_url ≡ settings.repository_url)
    × (d.status.branch ≡ settings.branch)
    × (d.status.device ≡ settings.device)
    × (d.refresh ≡ true)
respond-followed_example =
    respond-followed map_prefs map_prefs-Stores spaced (codes "mac") (some (codes " ")) fresh
      none_managed spaced_valid is_synced

set_up_evaluates : installable (load map_prefs set_up.prefs) ≡ ok (some mac_installable)
unfolding installable load set_up map_prefs mac mac_installable set_values text_eq is_whitespace
    key_device key_repository_url key_branch codes
set_up_evaluates = refl

abbrev small_config : Text
small_config = b'{' ∷ b'}' ∷ b'\n' ∷ []

outside_renders : rendered outside mac_installable ≡ ok small_config
unfolding render with_cert text_eq codes
outside_renders = refl

offline_fails : rendered offline mac_installable ≡ err (b'!' ∷ [])
offline_fails = refl

well-IsWritten : IsWritten outside.config_write
well-IsWritten = record { is_written = refl; is_renamed = refl }

update-fails_example :
    let d = update map_prefs offline set_up in
    (d.config ≡ set_up.config)
    × (d.cert ≡ set_up.cert)
    × (d.changes ≡ set_up.changes)
    × (d.status.address ≡ set_up.status.address)
    × (d.status.cert_expires ≡ set_up.status.cert_expires)
    × (d.status.nebula ≡ set_up.status.nebula)
    × (d.status.update_error ≡ some (nix_error (b'!' ∷ [])))
update-fails_example =
    update-fails map_prefs offline set_up mac_installable (b'!' ∷ []) set_up_evaluates offline_fails

update-applies_example :
    let d = update map_prefs outside set_up in
    (d.config ≡ some small_config)
    × (d.status.update_error ≡ none)
    × (((set_up.config ≡ some small_config) × (d.changes ≡ set_up.changes) × (d.cert ≡ set_up.cert))
        ⊎ ((set_up.config ≢ some small_config)
            × (d.changes ≡ suc set_up.changes)
            × (d.cert ≡ some (cert_of outside small_config))))
update-applies_example =
    update-applies map_prefs outside set_up mac_installable small_config set_up_evaluates
      outside_renders refl well-IsWritten well-IsWritten

update-error_iff_example :
    ((update map_prefs full set_up).status.update_error ≡ none)
    ↔ ((config : Text) × (rendered full mac_installable ≡ ok config))
update-error_iff_example = update-error_iff map_prefs full set_up mac_installable set_up_evaluates

nothing_written : set_up.config ≢ some small_config
unfolding set_up
nothing_written e = cc

update-never_restarts_example :
    let d = update map_prefs outside (update map_prefs full set_up) in
    (d.config ≡ some small_config)
    × (d.changes ≡ set_up.changes)
    × (d.cert ≡ set_up.cert)
    × (d.status.update_error ≡ none)
unfolding map_prefs
update-never_restarts_example =
    update-never_restarts map_prefs full outside set_up mac_installable small_config []
      set_up_evaluates outside_renders refl nothing_written well-IsWritten refl refl outside_renders
      refl

-- The supervisor.
abbrev quiet : World
quiet = record { generation = 0; shutdown = false; config_exists = true; version = 0; now = 5 }

abbrev up : Supervisor
up = record {
  phase = watching 5;
  backoff = min_backoff;
  seen = 0;
  child = some 0;
  nebula = Nebula.running 5;
}

abbrev up_system : System
up_system = record { world = quiet; sup = up; unticked = false }

up_reached : Reach up_system
unfolding begin
up_reached = began quiet (ok tt)

Reach-bounds_example :
    (min_backoff ≤ up.backoff) × (up.backoff ≤ max_backoff) × PhaseOk false quiet up (watching 5)
Reach-bounds_example = Reach-bounds up_system up_reached

settled-newest_example :
    ((t : ℕ) → watching 5 ≡ watching t → up.child ≡ some quiet.version)
    × (watching 5 ≡ without_config → true ≡ false)
settled-newest_example = settled-newest up_system up_reached refl refl

-- The config was changed.
abbrev newer : World
newer = record { generation = 1; shutdown = false; config_exists = true; version = 1; now = 9 }

changed-Arrived_example :
    Arrived newer (ok tt) (wake newer (ok tt) child_stopped (wake newer (ok tt) changed up))
changed-Arrived_example = changed-Arrived newer (ok tt) up (λ e. cc) (λ e. cc)

-- It exits at once and is started again.
abbrev crashed : Supervisor
crashed = wake newer (ok tt) slept (wake quiet (ok tt) (child_exited []) up)

crashed_started : crashed.phase ≡ watching 9
unfolding wake wake_at top enter_loop look start
crashed_started = refl

Crashes-rests_example :
    (wake newer (ok tt) (child_exited []) crashed).phase
    ≡ resting (min (2 ^ 1 * min_backoff) max_backoff)
Crashes-rests_example =
    Crashes-rests 1 up crashed newer (ok tt) [] 9
      (again none_yet 5 refl quiet newer (ok tt) (ok tt) [] (omega arith) refl refl) refl
      crashed_started (omega arith)
