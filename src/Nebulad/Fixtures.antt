-- ===== src/Nebulad/Fixtures.antt =====
-- Settings, preferences and surroundings of a Nebula daemon to try it with.
use ogygia_nix.Base.{ap, refl, true, false, Option, none, some, [], ◌∷◌, if◌then◌else◌}
use ogygia_nix.Base.Text.{Text, codes, text_eq, text_eq_refl}
use ogygia_nix.Json.{Value, string, object, end, field}
use ogygia_nix.Nebulad.{ok, err}
use ogygia_nix.Nebulad.Settings.{Settings}
use ogygia_nix.Nebulad.Render.{Codec}
use ogygia_nix.Nebulad.Prefs.{Preferences, set_values}
use ogygia_nix.Nebulad.Protocol.{Status, Nebula}
use ogygia_nix.Nebulad.Daemon.{Write, Outside, Daemon}
use ogygia_nix.Nebulad.Daemon.Requests.{Stores}

unfoldable pub mac : Settings
unfolding codes
mac = record {
  repository_url = some (codes "https://example.com/fleet.git");
  branch = some (codes "main");
  device = some (codes "mac.lt");
}

unfoldable pub mac_installable : Text
unfolding codes
mac_installable =
    codes
      "git+https://example.com/fleet.git?ref=main#ogygiaConfigurations.\"mac.lt\".config.ogygia.nebula.settings"

-- A CFPreferences that is a map of keys to values.
abbrev pub Store : Type 0
Store = Text → Option Text

unfoldable pub map_prefs : Preferences Store
unfolding text_eq
map_prefs = record {
  app_synchronize = λ s. s;
  copy_app_value = λ s k. s k;
  is_forced = λ s k. false;
  set_value = λ k v s k'. if text_eq k k' then v else s k';
  synchronize = λ s. (s, true);
}

pub map_prefs-Stores : Stores map_prefs
unfolding map_prefs
map_prefs-Stores = record {
  found = λ s k v _. ap (λ b. if b then v else s k) (text_eq_refl k);
  others = λ s k k' v e. ap (λ b. if b then v else s k') e;
  forced_still = λ s k k' v. refl;
  kept = λ s k _. refl;
}

abbrev pub empty_status : Status
empty_status = record {
  build = none;
  repository_url = none;
  branch = none;
  device = none;
  settings_managed = false;
  public_key = none;
  address = none;
  cert_expires = none;
  updating = false;
  last_update = none;
  update_error = none;
  nebula = Nebula.stopped;
}

abbrev pub fresh : Daemon Store
fresh = record {
  status = empty_status;
  config = none;
  cert = none;
  changes = 0;
  refresh = false;
  prefs = λ _. none;
}

-- An update in which everything ends well, of a config with this certificate.
abbrev pub well : Write
well = record { write = ok tt; rename = ok tt }

abbrev pub broken : Write
broken = record { write = err []; rename = ok tt }

unfoldable pub with_cert : Text → Value
unfolding codes
with_cert cert = object (field (codes "pki") (object (field (codes "cert") (string cert) end)) end)

abbrev pub json : Codec
json = record {
  to_vec_pretty = λ _. b'{' ∷ b'}' ∷ [];
  from_slice = λ _. some (with_cert (67 ∷ []));
}

abbrev pub outside : Outside
outside = record {
  codec = json;
  key = 107 ∷ [];
  eval_json = λ _. ok (with_cert (67 ∷ []));
  print_cert = λ _. err [];
  can_read = true;
  config_write = well;
  cert_write = well;
  removal = ok tt;
  now = 7;
}

-- Where the certificate cannot be written.
abbrev pub full : Outside
full = record outside { cert_write = broken }

-- Where nix fails.
abbrev pub offline : Outside
offline = record outside { eval_json = λ _. err (b'!' ∷ []) }

-- A daemon whose settings are those of the Mac.
unfoldable pub set_up : Daemon Store
unfolding map_prefs mac set_values
set_up = record fresh { prefs = set_values map_prefs mac fresh.prefs }
