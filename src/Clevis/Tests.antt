-- ===== src/Clevis/Tests.antt =====
-- Applications of the statements about src/ogygia-clevis to the sample blob.
use ogygia_nix.Base.{All, ◌≤◌, some, [], ◌∷◌, ◌≡◌, ◌≢◌, ◌↔◌, refl, length}
use ogygia_nix.Base.Text.{codes, text_eq, trim, trim_start, trim_end, is_whitespace, decimal}
use ogygia_nix.Clevis.Config.{validate, valid, contains, pin_eq}
use ogygia_nix.Clevis.Config.Valid.{Distinct, validate_iff}
use ogygia_nix.Clevis.Decision.{decide, replace, no_improvement}
use ogygia_nix.Clevis.Decision.Wins.{candidate, score, Misses, decide-replace_iff}
use ogygia_nix.Json.{get, get_field, get_str, get_array, as_array, as_str}
use ogygia_nix.Clevis.Blob
use ogygia_nix.Clevis.Blob.{
  bound_pins, stuck, protected_header, or_fail, collect, collect_pin, collect_tang, before_dot,
  filter_verify, has_verify, is_ec, is_verify_key, pins_of_keys, thumbprint, verify_keys,
}
use ogygia_nix.Clevis.Probe.Advertises.{Advertises, probe_all-Advertises}
use ogygia_nix.Clevis.Probe.{
  Reachable, adv_url, check_adv, has_text, keep_reachable, probe, probe_all, thumbprints,
  trim_end_slashes, trim_slashes,
}
use ogygia_nix.Clevis.Blob.Total.{bound_pins-ends}
use ogygia_nix.Clevis.Disk
use ogygia_nix.Clevis.Disk.{done, lift, pure, put}
use ogygia_nix.Clevis.Disk.Rules.{Ends}
use ogygia_nix.Clevis.Swap
use ogygia_nix.Clevis.Swap.Atomic.{Atomic, replaced, replace-Atomic}
use ogygia_nix.Clevis.Main.{
  kept, now_bound, read_file, read_pins, carry_out, check_output, content_of, decrypt, encrypt_sss,
  run_clevis, sss_config, run,
}
use ogygia_nix.Clevis.Main.Verified.{Sound, Reported, run-verified}
use ogygia_nix.Clevis.Main.Settles.{run-settles}
use ogygia_nix.Clevis.Fixtures.{
  sample_codec, sample-Shrinks, blob_of, sample_os, sample_outside, sample_pin, sample_spec,
  sample_config, old_file, sample_disk, apart,
}

validate_iff_example :
    (validate sample_spec ≡ valid)
    ↔ ((1 ≤ 1) × (1 ≤ length (sample_pin ∷ [])) × Distinct (sample_pin ∷ []))
validate_iff_example = validate_iff sample_spec

decide-replace_iff_example :
    (decide sample_spec [] (sample_pin ∷ []) ≡ replace (sample_pin ∷ []) 0) ↔ (
      Misses sample_spec (sample_pin ∷ []) []
      × (1 ≤ length (candidate sample_spec (sample_pin ∷ [])))
      × (sample_pin ∷ [] ≡ candidate sample_spec (sample_pin ∷ []))
      × (0 ≡ score sample_spec (sample_pin ∷ []) []))
decide-replace_iff_example = decide-replace_iff sample_spec [] (sample_pin ∷ []) (sample_pin ∷ []) 0

decision : decide sample_spec [] (sample_pin ∷ []) ≡ replace (sample_pin ∷ []) 0
unfolding decide contains pin_eq text_eq codes
decision = refl

bound_pins-ends_example : bound_pins sample_codec (blob_of b'n') ≢ stuck
bound_pins-ends_example = bound_pins-ends sample_codec (blob_of b'n') sample-Shrinks

has_blob : sample_disk (codes "/b/x") ≡ some old_file
unfolding codes text_eq
has_blob = refl

replace-Atomic_example :
    Ends
      (Atomic sample_disk
        (codes "/b/x")
        (codes "/b/tmp")
        old_file
        (replaced old_file (blob_of b'n')))
      (λ _ d. d (codes "/b/x") ≡ some (replaced old_file (blob_of b'n')))
      (Swap.replace sample_os (codes "/b/x") (blob_of b'n') sample_disk)
replace-Atomic_example =
    replace-Atomic sample_os (codes "/b/x") (codes "/b") (blob_of b'n') old_file sample_disk refl
      apart has_blob

run-verified_example :
    Ends
      (Sound sample_outside sample_config sample_disk (codes "/b/tmp") old_file)
      (Reported sample_outside sample_config sample_disk old_file)
      (run sample_outside sample_config sample_disk)
run-verified_example =
    run-verified sample_outside sample_config (codes "/b") sample_disk old_file refl apart has_blob

run_result : (run sample_outside sample_config sample_disk).result ≡ done (now_bound 1 0)
unfolding run Disk.◌>>=◌ read_file text_eq codes lift read_pins bound_pins Blob.◌>>=◌
    protected_header or_fail trim collect get get_field collect_pin get_str collect_tang decimal
    is_whitespace trim_end trim_start before_dot filter_verify has_verify is_ec is_verify_key
    pins_of_keys thumbprint verify_keys contains pin_eq decide pure put as_array as_str get_array
    carry_out check_output content_of decrypt encrypt_sss run_clevis sss_config adv_url check_adv
    has_text keep_reachable probe probe_all thumbprints trim_end_slashes trim_slashes Swap.append
    Swap.attempt Swap.change_file Swap.create Swap.drop_temp Swap.dropping Swap.file_mode Swap.fill
    Swap.mode_of Swap.partial_writes Swap.persist Swap.read_mode Swap.replace Swap.set_mode
    Swap.sync Swap.try Swap.write_all Swap.write_until
run_result = refl

run-settles_example :
    (run sample_outside sample_config (run sample_outside sample_config sample_disk).disk).result
    ≡ done (kept (no_improvement 1 1))
run-settles_example =
    run-settles sample_outside sample_config (codes "/b") sample_disk old_file 1 0 refl apart
      has_blob run_result

probe_all-Advertises_example :
    All
      (λ (x : Reachable). Advertises sample_codec sample_outside.http x.pin x.adv)
      (probe_all sample_codec sample_outside.http (sample_pin ∷ []))
probe_all-Advertises_example =
    probe_all-Advertises sample_codec sample_outside.http (sample_pin ∷ [])
