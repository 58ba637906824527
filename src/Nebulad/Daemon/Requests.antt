-- ===== src/Nebulad/Daemon/Requests.antt =====
-- src/ogygia-macos-nebulad/src/daemon.rs: who may change the settings, and what is then followed.
use ogygia_nix.Base.{◌≡◌, refl, ◌∙◌, ap, Bool, true, false, not, ◌&&◌, ◌||◌, Option, some, ◌++◌}
use ogygia_nix.Base.Text.{Text, codes, text_eq, trim}
use ogygia_nix.Nebulad.{Result, ok, err, ◌>>◌, ensure, each}
use ogygia_nix.Nebulad.Settings.{
  Settings, validate_repository_url, validate_branch, validate_device, validate, installable,
  installable_of, reference, attribute,
}
use ogygia_nix.Nebulad.Settings.Injective.{then-ok, settings-eq}
use ogygia_nix.Nebulad.Prefs.Clean.{url-clean, branch-clean, device-clean, each-clean}
use ogygia_nix.Nebulad.Prefs.{
  Preferences, clean, string_of, load, managed, set_values, store_result, store, key_repository_url,
  key_branch, key_device,
}
use ogygia_nix.Nebulad.Protocol.{Request, Response}
use ogygia_nix.Nebulad.Daemon.{
  Daemon, may_set, finish_settings, set_permitted, set_settings, notify_one, answer, branch_of,
  requested, respond,
}

-- What the documentation of CFPreferences says of values that no profile forces: a value that was
-- set is found, also after it was written out and read again, and the others are as before.
pub record Stores {S : Type 0} (prefs : Preferences S) : Type 0 where
  pub found :
      (s : S) (k : Text) (v : Option Text)
      → prefs.is_forced s k ≡ false
      → prefs.copy_app_value (prefs.set_value k v s) k ≡ v
  pub others :
      (s : S) (k k' : Text) (v : Option Text)
      → text_eq k k' ≡ false
      → prefs.copy_app_value (prefs.set_value k v s) k' ≡ prefs.copy_app_value s k'
  pub forced_still :
      (s : S) (k k' : Text) (v : Option Text)
      → prefs.is_forced (prefs.set_value k v s) k' ≡ prefs.is_forced s k'
  pub kept :
      (s : S) (k : Text)
      → (prefs.synchronize s).1 ≡ true
      → prefs.copy_app_value (prefs.app_synchronize (prefs.synchronize s).0) k
        ≡ prefs.copy_app_value s k

refuses :
    (admin is_managed : Bool) (x y : Text) (k : Result (Unit {0}))
    → (admin && not is_managed) ≡ false
    → (e : Text) × ((ensure admin x >> (ensure (not is_managed) y >> k)) ≡ err e)
refuses true true x y k h = (y, refl)
refuses true false x y k h = cc
refuses false is_managed x y k h = (x, refl)

keys_apart :
    (text_eq key_repository_url key_branch ≡ false)
    × (text_eq key_repository_url key_device ≡ false)
    × (text_eq key_branch key_device ≡ false)
    × (text_eq key_branch key_repository_url ≡ false)
    × (text_eq key_device key_repository_url ≡ false)
    × (text_eq key_device key_branch ≡ false)
unfolding text_eq key_repository_url key_branch key_device codes
keys_apart = (refl, refl, refl, refl, refl, refl)

module _ {S : Type 0} (prefs : Preferences S) where
  set_settings-refused :
      (s : Settings) (admin : Bool) (d : Daemon S) (e : Text)
      → may_set prefs s admin d.prefs ≡ err e
      → set_settings prefs s admin d ≡ (d, err e)
  unfolding set_settings set_permitted
  set_settings-refused s admin d e h = ap (set_permitted prefs s d) h

  -- A request changes neither the settings nor anything else that is kept, but for the wish of an
  -- update, if it does not come from an administrator or a profile forces a setting.
  pub respond-guarded :
      (request : Request) (admin : Bool) (d : Daemon S)
      → (admin && not (managed prefs d.prefs)) ≡ false
      → let d' = (respond prefs request admin d).0 in
        (d'.prefs ≡ d.prefs)
        × (d'.status ≡ d.status)
        × (d'.config ≡ d.config)
        × (d'.cert ≡ d.cert)
        × (d'.changes ≡ d.changes)
  unfolding respond notify_one answer may_set
  respond-guarded Request.get_status admin d h = (refl, refl, refl, refl, refl)
  respond-guarded Request.refresh admin d h = (refl, refl, refl, refl, refl)
  respond-guarded (Request.set_settings url branch device) admin d h =
      let s = requested url branch device in
      let (e, refused) = refuses admin (managed prefs d.prefs) _ _ (validate s) h in
      rw (set_settings-refused s admin d e refused) (refl, refl, refl, refl, refl)

  store-ok : (r : S × Bool) → r.1 ≡ true → store_result prefs r ≡ (r.0, ok tt)
  unfolding store_result
  store-ok (s, true) h = refl
  store-ok (s, false) h = cc

  may_set-ok :
      (settings : Settings) (s : S)
      → managed prefs s ≡ false
      → validate settings ≡ ok tt
      → may_set prefs settings true s ≡ ok tt
  unfolding may_set
  may_set-ok settings s free valid = rw (free, valid) refl

  unforced :
      (s : S)
      → managed prefs s ≡ false
      → (prefs.is_forced s key_repository_url ≡ false)
        × (prefs.is_forced s key_branch ≡ false)
        × (prefs.is_forced s key_device ≡ false)
  unfolding managed
  unforced s h = none_of _ _ _ h
    where
      none_of : (a b c : Bool) → (a || b || c) ≡ false → (a ≡ false) × (b ≡ false) × (c ≡ false)
      none_of true b c h = cc
      none_of false true c h = cc
      none_of false false true h = cc
      none_of false false false h = (refl, refl, refl)

  followed :
      (url device : Text) (branch : Option Text)
      → validate (requested url branch device) ≡ ok tt
      → (i : Text) × (installable (requested url branch device) ≡ ok (some i))
  unfolding installable installable_of requested
  followed url device branch valid = (
    reference (trim url) (branch_of branch) ++ attribute (trim device),
    ap (λ r. r >> ok (some (reference (trim url) (branch_of branch) ++ attribute (trim device))))
        valid,
  )

  module _ (laws : Stores prefs) where
    set_values-found :
        (s : S) (settings : Settings)
        → managed prefs s ≡ false
        → let s' = set_values prefs settings s in
          (prefs.copy_app_value s' key_repository_url ≡ settings.repository_url)
          × (prefs.copy_app_value s' key_branch ≡ settings.branch)
          × (prefs.copy_app_value s' key_device ≡ settings.device)
    unfolding set_values
    set_values-found s settings h =
        let (free_url, free_branch, free_device) = unforced s h in
        let u = settings.repository_url in
        let b = settings.branch in
        let d = settings.device in
        let s1 = prefs.set_value key_repository_url u s in
        let s2 = prefs.set_value key_branch b s1 in
        (
          laws.others s2 key_device key_repository_url d keys_apart.4
              ∙ laws.others s1 key_branch key_repository_url b keys_apart.3
              ∙ laws.found s key_repository_url u free_url,
          laws.others s2 key_device key_branch d keys_apart.5
              ∙ laws.found s1 key_branch b
                  (laws.forced_still s key_repository_url key_branch u ∙ free_branch),
          laws.found s2 key_device d (
              laws.forced_still s1 key_branch key_device b
              ∙ laws.forced_still s key_repository_url key_device u
              ∙ free_device),
        )

    -- What is stored is loaded, if it is valid.
    load-store :
        (s : S) (settings : Settings)
        → managed prefs s ≡ false
        → validate settings ≡ ok tt
        → (prefs.synchronize (set_values prefs settings s)).1 ≡ true
        → load prefs (prefs.synchronize (set_values prefs settings s)).0 ≡ settings
    unfolding load string_of validate
    load-store s settings free valid synced =
        let (url, branch, device) = set_values-found s settings free in
        let s' = set_values prefs settings s in
        let (valid_url, others) =
          then-ok (each validate_repository_url settings.repository_url) _ tt valid in
        let (valid_branch, valid_device) =
          then-ok (each validate_branch settings.branch) _ tt others in
        settings-eq _ settings
          (ap clean (laws.kept s' key_repository_url synced ∙ url)
            ∙ each-clean validate_repository_url url-clean settings.repository_url valid_url)
          (ap clean (laws.kept s' key_branch synced ∙ branch)
            ∙ each-clean validate_branch branch-clean settings.branch valid_branch)
          (ap clean (laws.kept s' key_device synced ∙ device)
            ∙ each-clean validate_device device-clean settings.device valid_device)

    -- With a CFPreferences that keeps what it is given, a request of an administrator for valid
    -- settings that no profile forces is answered with the status; the settings are then read as the
    -- request has them, trimmed, there is something to evaluate, and an update is due.
    pub respond-followed :
        (url device : Text) (branch : Option Text) (d : Daemon S)
        → let settings = requested url branch device in
          managed prefs d.prefs ≡ false
          → validate settings ≡ ok tt
          → (prefs.synchronize (set_values prefs settings d.prefs)).1 ≡ true
          → let (d', response) = respond prefs (Request.set_settings url branch device) true d in
            (load prefs d'.prefs ≡ settings)
            × ((i : Text) × (installable settings ≡ ok (some i)))
            × (response ≡ Response.status d'.status)
            × (d'.status.repository_url ≡ settings.repository_url)
            × (d'.status.branch ≡ settings.branch)
            × (d'.status.device ≡ settings.device)
            × (d'.refresh ≡ true)
    unfolding respond set_settings set_permitted store
    respond-followed url device branch d free valid synced =
        let settings = requested url branch device in
        let s' = prefs.synchronize (set_values prefs settings d.prefs) in
        let done : respond prefs (Request.set_settings url branch device) true d
            ≡ answer (finish_settings settings d (s'.0, ok tt)) =
          ap (λ r. answer (set_permitted prefs settings d r))
            (may_set-ok settings d.prefs free valid)
          ∙ ap (λ r. answer (finish_settings settings d r)) (store-ok s' synced) in
        rw done (
          unfold answer finish_settings notify_one in
          (
            load-store d.prefs settings free valid synced,
            followed url device branch valid,
            refl,
            refl,
            refl,
            refl,
            refl,
          ))
