-- ===== src/Nebulad/Daemon/Updates.antt =====
-- src/ogygia-macos-nebulad/src/daemon.rs: what an update does to the config, the certificate and the
-- status.
use ogygia_nix.Base.{
  suc, ◌≡◌, ◌≢◌, refl, sym, ◌∙◌, ap, true, false, Option, none, some, ◌++◌, Bool-cases,
  if◌then◌else◌, inl, inr, ◌↔◌, ◌⊎◌,
}
use ogygia_nix.Base.Text.{Text, codes, text_eq→eq, text_eq_refl}
use ogygia_nix.Nebulad.{Result, ok, err, ◌>>=◌}
use ogygia_nix.Nebulad.Settings.{installable}
use ogygia_nix.Nebulad.Render.{render}
use ogygia_nix.Nebulad.Report.{nix_error}
use ogygia_nix.Nebulad.Prefs.{Preferences, load, managed}
use ogygia_nix.Nebulad.Daemon.{
  Write, Outside, Daemon, eq_bytes, context, write_atomically, get_cert_info, write_cert,
  write_config, set_error, info_for, set_info, tick, finish_config, read_config, change_config,
  set_config, evaluated, evaluate, cert_of, after_config, end_update, start_evaluation, update_to,
  show_settings, update,
}

eq_bytes→eq : (a b : Option Text) → eq_bytes a b ≡ true → a ≡ b
unfolding eq_bytes
eq_bytes→eq none none h = refl
eq_bytes→eq none (some _) h = cc
eq_bytes→eq (some _) none h = cc
eq_bytes→eq (some a) (some b) h = ap some (text_eq→eq a b h)

eq_bytes_refl : (a : Option Text) → eq_bytes a a ≡ true
unfolding eq_bytes
eq_bytes_refl none = refl
eq_bytes_refl (some a) = text_eq_refl a

eq_bytes-apart : (a b : Option Text) → a ≢ b → eq_bytes a b ≡ false
eq_bytes-apart a b h = elim (Bool-cases (eq_bytes a b)) [
  | inl e ↦ absurd (h (eq_bytes→eq a b e))
  | inr e ↦ e
]

-- The config that nix and the rendering give.
abbrev pub rendered : Outside → Text → Result Text
rendered o installable = o.eval_json installable >>= λ settings. render o.codec settings o.key

Result-cases : (r : Result Text) → ((a : Text) × (r ≡ ok a)) ⊎ ((e : Text) × (r ≡ err e))
Result-cases (ok a) = inl (a, refl)
Result-cases (err e) = inr (e, refl)

-- A call on the file system that ends well.
pub record IsWritten (w : Write) : Type 0 where
  pub is_written : w.write ≡ ok tt
  pub is_renamed : w.rename ≡ ok tt

write_atomically-ok :
    (w : Write) (tmp path contents : Text) (file : Option Text)
    → IsWritten w
    → write_atomically w tmp path contents file ≡ (some contents, ok tt)
unfolding write_atomically context
write_atomically-ok w tmp path contents file h = rw (h.is_written, h.is_renamed) refl

write_atomically-err :
    (w : Write) (tmp path contents e : Text) (file : Option Text)
    → w.write ≡ err e
    → write_atomically w tmp path contents file
      ≡ (file, err ((codes "could not write " ++ tmp) ++ (codes ": " ++ e)))
unfolding write_atomically context
write_atomically-err w tmp path contents e file h = rw h refl

module _ {S : Type 0} where
  -- The daemon after a config was written and Nebula told.
  pub written : Outside → Text → Daemon S → Daemon S
  written o config d = tick (
      set_info (get_cert_info o (some (cert_of o config)))
        (record d { config = some config; cert = some (cert_of o config) }))

  read_config-ok : (o : Outside) (d : Daemon S) → o.can_read ≡ true → read_config o d ≡ d.config
  unfolding read_config
  read_config-ok o d r = ap (λ b. if b then d.config else none) r

  set_config-same :
      (o : Outside) (config : Option Text) (d : Daemon S)
      → o.can_read ≡ true
      → d.config ≡ config
      → set_config o config d ≡ d
  unfolding set_config change_config
  set_config-same o config d r e =
      let same = ap (λ c. eq_bytes c config) (read_config-ok o d r ∙ e) ∙ eq_bytes_refl config in
      ap (change_config o config d) same

  write_config-ok :
      (o : Outside) (config : Text) (d : Daemon S)
      → IsWritten o.config_write
      → IsWritten o.cert_write
      → write_config o (some config) d
        ≡ (record d { config = some config; cert = some (cert_of o config) }, ok tt)
  unfolding write_config after_config write_cert
  write_config-ok o config d w c =
      ap (after_config o config d) (
        write_atomically-ok o.config_write (codes "config.tmp") (codes "config.yml") config d.config
          w)
      ∙ ap (λ r. (record d { config = some config; cert = r.0 }, r.1))
          (write_atomically-ok o.cert_write (codes "host.tmp") (codes "host.crt") (cert_of o config)
            d.cert c)

  set_config-written :
      (o : Outside) (config : Text) (d : Daemon S)
      → o.can_read ≡ true
      → d.config ≢ some config
      → IsWritten o.config_write
      → IsWritten o.cert_write
      → set_config o (some config) d ≡ written o config d
  unfolding set_config change_config written finish_config info_for
  set_config-written o config d r e w c =
      let differs =
        ap (λ x. eq_bytes x (some config)) (read_config-ok o d r)
        ∙ eq_bytes-apart d.config (some config) e in
      ap (change_config o (some config) d) differs
      ∙ ap (finish_config o (some config)) (write_config-ok o config d w c)

  -- The certificate cannot be written, the config is there.
  cert_failed : Daemon S → Text → Text → Daemon S
  cert_failed d config e =
      set_error (some ((codes "could not write " ++ codes "host.tmp") ++ (codes ": " ++ e)))
        (record d { config = some config })

  set_config-failed :
      (o : Outside) (config : Text) (d : Daemon S) (e : Text)
      → o.can_read ≡ true
      → d.config ≢ some config
      → IsWritten o.config_write
      → o.cert_write.write ≡ err e
      → set_config o (some config) d ≡ cert_failed d config e
  unfolding set_config change_config finish_config write_config after_config write_cert cert_failed
  set_config-failed o config d e r differs w c =
      let apart =
        ap (λ x. eq_bytes x (some config)) (read_config-ok o d r)
        ∙ eq_bytes-apart d.config (some config) differs in
      ap (change_config o (some config) d) apart
      ∙ ap (λ x. finish_config o (some config) (after_config o config d x))
          (write_atomically-ok o.config_write (codes "config.tmp") (codes "config.yml") config
            d.config w)
      ∙ ap (λ x. finish_config o (some config) (record d { config = some config; cert = x.0 }, x.1))
          (write_atomically-err o.cert_write (codes "host.tmp") (codes "host.crt")
            (cert_of o config) e d.cert c)

  evaluate-ok :
      (o : Outside) (i config : Text) (d : Daemon S)
      → rendered o i ≡ ok config
      → evaluate o i d ≡ (set_config o (some config) d, ok tt)
  unfolding evaluate evaluated
  evaluate-ok o i config d h = ap (evaluated o d) h

  evaluate-err :
      (o : Outside) (i e : Text) (d : Daemon S) → rendered o i ≡ err e → evaluate o i d ≡ (d, err e)
  unfolding evaluate evaluated
  evaluate-err o i e d h = ap (evaluated o d) h

  module _ (prefs : Preferences S) where
    -- The daemon when the evaluation starts.
    pub begun : Daemon S → Daemon S
    begun d =
        let d' = record d { prefs = prefs.app_synchronize d.prefs } in
        start_evaluation (show_settings (load prefs d.prefs) (managed prefs d'.prefs) d')

    update-evaluates :
        (o : Outside) (d : Daemon S) (i : Text)
        → installable (load prefs d.prefs) ≡ ok (some i)
        → update prefs o d ≡ end_update o (evaluate o i (begun d))
    unfolding update update_to begun
    update-evaluates o d i h =
        let d' = record d { prefs = prefs.app_synchronize d.prefs } in
        ap (λ r. update_to o r (show_settings (load prefs d.prefs) (managed prefs d'.prefs) d')) h

    -- If the evaluation or the rendering of the config fails, then an update leaves the config, the
    -- certificate and what is known of it as they are, Nebula is not told to restart, and the status
    -- has the error.
    pub update-fails :
        (o : Outside) (d : Daemon S) (i e : Text)
        → installable (load prefs d.prefs) ≡ ok (some i)
        → rendered o i ≡ err e
        → let d' = update prefs o d in
          (d'.config ≡ d.config)
          × (d'.cert ≡ d.cert)
          × (d'.changes ≡ d.changes)
          × (d'.status.address ≡ d.status.address)
          × (d'.status.cert_expires ≡ d.status.cert_expires)
          × (d'.status.nebula ≡ d.status.nebula)
          × (d'.status.update_error ≡ some (nix_error e))
    unfolding end_update begun start_evaluation show_settings
    update-fails o d i e h k =
        let made = update-evaluates o d i h ∙ ap (end_update o) (evaluate-err o i e (begun d) k) in
        rw made (refl, refl, refl, refl, refl, refl, refl)

    -- If a config is made, it can be read and every write ends well, then an update leaves the config
    -- that was made and no error. Nebula is told to restart, once, if the config is another one than
    -- before, and the certificate is then the one in the config; if it is the same, neither changes.
    pub update-applies :
        (o : Outside) (d : Daemon S) (i config : Text)
        → installable (load prefs d.prefs) ≡ ok (some i)
        → rendered o i ≡ ok config
        → o.can_read ≡ true
        → IsWritten o.config_write
        → IsWritten o.cert_write
        → let d' = update prefs o d in
          (d'.config ≡ some config)
          × (d'.status.update_error ≡ none)
          × (((d.config ≡ some config) × (d'.changes ≡ d.changes) × (d'.cert ≡ d.cert))
              ⊎ ((d.config ≢ some config)
                  × (d'.changes ≡ suc d.changes)
                  × (d'.cert ≡ some (cert_of o config))))
    unfolding end_update begun start_evaluation show_settings
    update-applies o d i config h k r w c =
        let made =
          update-evaluates o d i h ∙ ap (end_update o) (evaluate-ok o i config (begun d) k) in
        rw made (elim (Bool-cases (eq_bytes d.config (some config))) [
          | inl e ↦ when_same (eq_bytes→eq d.config (some config) e)
          | inr e ↦ when_other (λ same.
              let t = ap (λ x. eq_bytes x (some config)) same ∙ eq_bytes_refl (some config) in cc)
        ])
      where
        Applied : Daemon S → Option Text → Type 0
        Applied d' error =
            (d'.config ≡ some config)
            × (error ≡ none)
            × (((d.config ≡ some config) × (d'.changes ≡ d.changes) × (d'.cert ≡ d.cert))
                ⊎ ((d.config ≢ some config)
                    × (d'.changes ≡ suc d.changes)
                    × (d'.cert ≡ some (cert_of o config))))

        when_same : d.config ≡ some config → Applied (set_config o (some config) (begun d)) none
        when_same e =
            rw (set_config-same o (some config) (begun d) r e) (e, refl, inl (e, refl, refl))

        when_other : d.config ≢ some config → Applied (set_config o (some config) (begun d)) none
        when_other e =
            rw (set_config-written o config (begun d) r e w c)
              (unfold written set_info tick in (refl, refl, inr (e, refl, refl)))

    -- After an update of complete and valid settings the status has an error if and only if the
    -- evaluation or the rendering failed: an error of writing the files does not stay in it.
    pub update-error_iff :
        (o : Outside) (d : Daemon S) (i : Text)
        → installable (load prefs d.prefs) ≡ ok (some i)
        → ((update prefs o d).status.update_error ≡ none)
          ↔ ((config : Text) × (rendered o i ≡ ok config))
    unfolding end_update
    update-error_iff o d i h = elim (Result-cases (rendered o i)) [
      | inl (config, e) ↦
          let made =
            update-evaluates o d i h ∙ ap (end_update o) (evaluate-ok o i config (begun d) e) in
          rw made (λ _. (config, e), λ _. refl)
      | inr (message, e) ↦
          let made =
            update-evaluates o d i h ∙ ap (end_update o) (evaluate-err o i message (begun d) e) in
          rw made (λ k. absurd (some≢none k), λ k. absurd (ok≢err (sym k.1 ∙ e)))
    ]
      where
        some≢none : {a : Text} → some a ≢ none
        some≢none k = cc

        ok≢err : {a b : Text} → ok a ≢ err b
        ok≢err k = cc

    -- If the certificate cannot be written after a new config was, then Nebula is not told to restart,
    -- and neither is it by a next update that finds the same settings and makes the same config, after
    -- which the status has no error.
    pub update-never_restarts :
        (o o' : Outside) (d : Daemon S) (i config e : Text)
        → installable (load prefs d.prefs) ≡ ok (some i)
        → rendered o i ≡ ok config
        → o.can_read ≡ true
        → d.config ≢ some config
        → IsWritten o.config_write
        → o.cert_write.write ≡ err e
        → load prefs (prefs.app_synchronize d.prefs) ≡ load prefs d.prefs
        → rendered o' i ≡ ok config
        → o'.can_read ≡ true
        → let d' = update prefs o' (update prefs o d) in
          (d'.config ≡ some config)
          × (d'.changes ≡ d.changes)
          × (d'.cert ≡ d.cert)
          × (d'.status.update_error ≡ none)
    unfolding end_update begun start_evaluation show_settings
    update-never_restarts o o' d i config e h k r differs w c h' k' r' =
        let first =
          update-evaluates o d i h ∙ ap (end_update o) (evaluate-ok o i config (begun d) k) in
        let failed = set_config-failed o config (begun d) e r differs w c in
        let d' = update prefs o d in
        let now : d' ≡ end_update o (cert_failed (begun d) config e, ok tt) =
          first ∙ ap (λ x. end_update o (x, ok tt)) failed in
        let kept : d'.config ≡ some config =
          ap (λ x. x.config) now ∙ unfold cert_failed set_error in refl in
        let again : installable (load prefs d'.prefs) ≡ ok (some i) =
          ap (λ x. installable (load prefs x.prefs)) now
          ∙ unfold cert_failed set_error in ap installable h' ∙ h in
        let second =
          update-evaluates o' d' i again
          ∙ ap (end_update o') (evaluate-ok o' i config (begun d') k')
          ∙ ap (λ x. end_update o' (x, ok tt))
              (set_config-same o' (some config) (begun d') r' kept) in
        (
          ap (λ x. x.config) second ∙ kept,
          ap (λ x. x.changes) second
              ∙ ap (λ x. x.changes) now
              ∙ unfold cert_failed set_error in refl,
          ap (λ x. x.cert) second ∙ ap (λ x. x.cert) now ∙ unfold cert_failed set_error in refl,
          ap (λ x. x.status.update_error) second,
        )
