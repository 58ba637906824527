-- ===== src/Nebulad/Daemon.antt =====
-- src/ogygia-macos-nebulad/src/daemon.rs: the update of the config and the answers to requests. The
-- files are the config and the certificate; a temporary file is not kept.
pub mod Updates
pub mod Requests
use ogygia_nix.Base.{
  ℕ, suc, Bool, true, false, not, Option, none, some, List, [], ◌∷◌, ◌++◌, if◌then◌else◌,
}
use ogygia_nix.Base.Text.{Text, codes, text_eq, trim}
use ogygia_nix.Json.{Value}
use ogygia_nix.Nebulad.{Result, ok, err, ◌>>=◌, ◌>>◌, ensure}
use ogygia_nix.Nebulad.Settings.{Settings, validate, installable, is_empty}
use ogygia_nix.Nebulad.Render.{Codec, render, certificate}
use ogygia_nix.Nebulad.Report.{CertInfo, Details, cert_info, nix_error}
use ogygia_nix.Nebulad.Prefs.{Preferences, load, managed, store}
use ogygia_nix.Nebulad.Protocol.{Request, Response, Status}

-- How the two calls of a `write_atomically` end.
pub record Write : Type 0 where
  pub write : Result (Unit {0})
  pub rename : Result (Unit {0})

-- What the daemon meets outside in one update: nix, nebula-cert, the file system and the clock.
pub record Outside : Type 0 where
  pub codec : Codec
  pub key : Text
  pub eval_json : Text → Result Value
  pub print_cert : Option Text → Result (Option (List Details))
  pub can_read : Bool
  pub config_write : Write
  pub cert_write : Write
  pub removal : Result (Unit {0})
  pub now : ℕ

pub record Daemon (S : Type 0) : Type 0 where
  pub status : Status
  pub config : Option Text
  pub cert : Option Text
  pub changes : ℕ
  pub refresh : Bool
  pub prefs : S

unfoldable pub eq_bytes : Option Text → Option Text → Bool
unfolding text_eq
eq_bytes none none = true
eq_bytes none (some _) = false
eq_bytes (some _) none = false
eq_bytes (some a) (some b) = text_eq a b

-- `with_context`.
unfoldable pub context : Text → Result (Unit {0}) → Result (Unit {0})
unfolding codes
context message (ok tt) = ok tt
context message (err e) = err (message ++ (codes ": " ++ e))

-- The file after it, and the result; `tmp` and `path` are shown in the errors.
unfoldable pub write_atomically :
    Write → (tmp path contents : Text) → Option Text → Option Text × Result (Unit {0})
unfolding context codes
write_atomically calls tmp path contents file =
    elim (context (codes "could not write " ++ tmp) calls.write
      >> context (codes "could not replace " ++ path) calls.rename) [
        | ok tt ↦ (some contents, ok tt)
        | err e ↦ (file, err e)
      ]

unfoldable pub get_cert_info : Outside → Option Text → Option CertInfo
unfolding cert_info
get_cert_info o cert = elim (o.print_cert cert >>= λ printed. cert_info printed) [
  | ok info ↦ some info
  | err e ↦ none
]

-- The certificate file of a config; a config without one empties it.
unfoldable pub cert_of : Outside → Text → Text
unfolding certificate
cert_of o config = elim (certificate o.codec config) [ some c ↦ c | none ↦ [] ]

-- The branch of a request; an empty one is the default one.
unfoldable pub branch_of : Option Text → Option Text
unfolding trim is_empty
branch_of none = none
branch_of (some b) = if is_empty (trim b) then none else some (trim b)

unfoldable pub requested : Text → Option Text → Text → Settings
unfolding branch_of trim
requested url branch device = record {
  repository_url = some (trim url);
  branch = branch_of branch;
  device = some (trim device);
}

module _ {S : Type 0} where
  unfoldable pub write_cert : Outside → Text → Daemon S → Daemon S × Result (Unit {0})
  unfolding write_atomically cert_of codes
  write_cert o config d =
      let (file, result) =
        write_atomically o.cert_write (codes "host.tmp") (codes "host.crt") (cert_of o config)
          d.cert in
      (record d { cert = file }, result)

  unfoldable pub after_config :
      Outside → Text → Daemon S → Option Text × Result (Unit {0}) → Daemon S × Result (Unit {0})
  unfolding write_cert
  after_config o config d (file, ok tt) = write_cert o config (record d { config = file })
  after_config o config d (file, err e) = (record d { config = file }, err e)

  unfoldable pub after_removal : Daemon S → Result (Unit {0}) → Daemon S × Result (Unit {0})
  after_removal d (ok tt) = (record d { config = none }, ok tt)
  after_removal d (err e) = (d, err e)

  -- `written`.
  unfoldable pub write_config : Outside → Option Text → Daemon S → Daemon S × Result (Unit {0})
  unfolding write_atomically after_config after_removal codes
  write_config o (some config) d =
      after_config o config d
        (write_atomically o.config_write (codes "config.tmp") (codes "config.yml") config d.config)
  write_config o none d = after_removal d o.removal

  unfoldable pub set_error : Option Text → Daemon S → Daemon S
  set_error e d = record d { status = record d.status { update_error = e } }

  unfoldable pub info_for : Outside → Option Text → Daemon S → Option CertInfo
  unfolding get_cert_info
  info_for o (some _) d = get_cert_info o d.cert
  info_for o none d = none

  unfoldable pub set_info : Option CertInfo → Daemon S → Daemon S
  set_info info d = record d {
    status = record d.status {
      address = elim info [ none ↦ none | some i ↦ i.address ];
      cert_expires = elim info [ none ↦ none | some i ↦ some i.not_after ];
    };
  }

  unfoldable pub tick : Daemon S → Daemon S
  tick d = record d { changes = suc d.changes }

  -- From the writing of the files on.
  unfoldable pub finish_config : Outside → Option Text → Daemon S × Result (Unit {0}) → Daemon S
  unfolding set_error set_info info_for tick
  finish_config o config (d, err e) = set_error (some e) d
  finish_config o config (d, ok tt) = tick (set_info (info_for o config d) d)

  unfoldable pub read_config : Outside → Daemon S → Option Text
  read_config o d = if o.can_read then d.config else none

  unfoldable pub change_config : Outside → Option Text → Daemon S → (same : Bool) → Daemon S
  unfolding finish_config write_config
  change_config o config d true = d
  change_config o config d false = finish_config o config (write_config o config d)

  unfoldable pub set_config : Outside → Option Text → Daemon S → Daemon S
  unfolding eq_bytes read_config change_config
  set_config o config d = change_config o config d (eq_bytes (read_config o d) config)

  -- With the result of the evaluation and the rendering.
  unfoldable pub evaluated : Outside → Daemon S → Result Text → Daemon S × Result (Unit {0})
  unfolding set_config
  evaluated o d (ok config) = (set_config o (some config) d, ok tt)
  evaluated o d (err e) = (d, err e)

  unfoldable pub evaluate : Outside → Text → Daemon S → Daemon S × Result (Unit {0})
  unfolding evaluated render
  evaluate o installable d =
      evaluated o d (o.eval_json installable >>= λ settings. render o.codec settings o.key)

  unfoldable pub end_update : Outside → Daemon S × Result (Unit {0}) → Daemon S
  unfolding nix_error
  end_update o (d, ok tt) = record d {
    status = record d.status { updating = false; last_update = some o.now; update_error = none };
  }
  end_update o (d, err e) = record d {
    status = record d.status { updating = false; update_error = some (nix_error e) };
  }

  unfoldable pub start_evaluation : Daemon S → Daemon S
  start_evaluation d = record d { status = record d.status { updating = true } }

  -- What the settings say is evaluated.
  unfoldable pub update_to : Outside → Result (Option Text) → Daemon S → Daemon S
  unfolding set_error set_config evaluate end_update start_evaluation
  update_to o (ok (some installable)) d = end_update o (evaluate o installable (start_evaluation d))
  update_to o (ok none) d = set_error none (set_config o none d)
  update_to o (err e) d = set_error (some e) d

  unfoldable pub show_settings : Settings → Bool → Daemon S → Daemon S
  show_settings settings is_managed d = record d {
    status = record d.status {
      repository_url = settings.repository_url;
      branch = settings.branch;
      device = settings.device;
      settings_managed = is_managed;
    };
  }

  unfoldable pub finish_settings :
      Settings → Daemon S → S × Result (Unit {0}) → Daemon S × Result (Unit {0})
  finish_settings settings d (s, err e) = (record d { prefs = s }, err e)
  finish_settings settings d (s, ok tt) = (
    record d {
      prefs = s;
      status = record d.status {
        repository_url = settings.repository_url;
        branch = settings.branch;
        device = settings.device;
      };
    },
    ok tt,
  )

  unfoldable pub notify_one : Daemon S → Daemon S
  notify_one d = record d { refresh = true }

  unfoldable pub answer : Daemon S × Result (Unit {0}) → Daemon S × Response
  unfolding notify_one
  answer (d, err e) = (d, Response.error e)
  answer (d, ok tt) = (notify_one d, Response.status d.status)

  module _ (prefs : Preferences S) where
    unfoldable pub update : Outside → Daemon S → Daemon S
    unfolding load managed show_settings update_to installable
    update o d =
        let settings = load prefs d.prefs in
        let d' = record d { prefs = prefs.app_synchronize d.prefs } in
        update_to o (installable settings) (show_settings settings (managed prefs d'.prefs) d')

    -- What may be stored.
    unfoldable pub may_set : Settings → Bool → S → Result (Unit {0})
    unfolding managed validate codes
    may_set settings admin s = do
      ensure admin (codes "only an administrator can change which fleet this Mac follows")
      ensure (not (managed prefs s)) (codes "these settings are managed by a configuration profile")
      validate settings

    unfoldable pub set_permitted :
        Settings → Daemon S → Result (Unit {0}) → Daemon S × Result (Unit {0})
    unfolding finish_settings store
    set_permitted settings d (ok tt) = finish_settings settings d (store prefs settings d.prefs)
    set_permitted settings d (err e) = (d, err e)

    unfoldable pub set_settings : Settings → Bool → Daemon S → Daemon S × Result (Unit {0})
    unfolding may_set set_permitted
    set_settings settings admin d = set_permitted settings d (may_set settings admin d.prefs)

    unfoldable pub respond : Request → Bool → Daemon S → Daemon S × Response
    unfolding requested set_settings answer notify_one
    respond Request.get_status admin d = (d, Response.status d.status)
    respond Request.refresh admin d = (notify_one d, Response.status d.status)
    respond (Request.set_settings url branch device) admin d =
        answer (set_settings (requested url branch device) admin d)
