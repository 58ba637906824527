-- ===== src/Clevis/Main/Settles.antt =====
-- src/ogygia-clevis/src/main.rs: after a replacement the maintainer is at rest.
use ogygia_nix.Base.{ℕ, Bool, true, false, Option, some, List, ◌≡◌, ◌≢◌, refl, ◌∙◌}
use ogygia_nix.Base.Text.{Text}
use ogygia_nix.Clevis.Config.{Pin, Config}
use ogygia_nix.Clevis.Decision.{no_improvement, decide}
use ogygia_nix.Clevis.Decision.Wins.{decide-covered}
use ogygia_nix.Clevis.Probe.{pins_of}
use ogygia_nix.Clevis.Disk.{File, Disk, reading, no_client, done, lift, pure}
use ogygia_nix.Clevis.Disk.Rules.{bind-done, bind-result}
use ogygia_nix.Clevis.Swap.Atomic.{replaced}
use ogygia_nix.Clevis.Main.{
  Outside, ensure, read_pins, Report, kept, now_bound, content_of, read_file, carry_out, run,
}
use ogygia_nix.Clevis.Main.Verified.{reached, run-verified}

content_of-allowed :
    (refused : Bool) (file : Option File) (jwe : List ℕ)
    → content_of refused file ≡ done jwe
    → refused ≡ false
unfolding content_of
content_of-allowed true file jwe h = absurd cc
content_of-allowed false file jwe h = refl

ensure-allowed : (b : Bool) (u : Unit {0}) → ensure b no_client ≡ done u → b ≡ true
ensure-allowed true u h = refl
ensure-allowed false u h = absurd cc

-- A run that reports something was allowed to read the blob, and had a client.
run-allowed :
    (out : Outside) (config : Config) (d : Disk) (report : Report)
    → (run out config d).result ≡ done report
    → (out.os.refuses reading ≡ false) × (out.has_client ≡ true)
unfolding run read_file lift
run-allowed out config d report h =
    let (jwe, read, h₁) = bind-done (read_file out.os config.secret_file) _ d report h in
    let (current, _, h₂) = bind-done (lift (read_pins out jwe)) _ _ report h₁ in
    let (u, client, _) = bind-done (lift (ensure out.has_client no_client)) _ _ report h₂ in
    (content_of-allowed _ _ jwe read, ensure-allowed _ u client)

-- A run over a blob with known pins.
run-result :
    (out : Outside) (config : Config) (d : Disk) (file : File) (bound : List Pin)
    → out.os.refuses reading ≡ false
    → out.has_client ≡ true
    → d config.secret_file ≡ some file
    → read_pins out file.content ≡ done bound
    → (run out config d).result
      ≡ (carry_out out config file.content
          (reached out config)
          (decide config.spec bound (pins_of (reached out config)))
          d).result
unfolding run read_file content_of lift
run-result out config d file bound reads client has binds =
    bind-result (read_file out.os config.secret_file) _ d file.content (rw (reads, has) refl)
    ∙ bind-result (lift (read_pins out file.content)) _ d bound binds
    ∙ bind-result (lift (ensure out.has_client no_client)) _ d tt (rw client refl)

-- Take a configured path with a parent, at which a file stands, and a temporary name other than
-- that path. Once a run has reported a new blob, the next one with the same spec, servers and
-- libraries finds that the blob on disk covers all that is reachable and keeps it.
pub run-settles :
    (out : Outside) (config : Config) (dir : Text) (start : Disk) (old : File)
    (count previously : ℕ)
    → out.os.parent config.secret_file ≡ some dir
    → out.os.temp_name dir ≢ config.secret_file
    → start config.secret_file ≡ some old
    → (run out config start).result ≡ done (now_bound count previously)
    → (run out config (run out config start).disk).result ≡ done (kept (no_improvement count count))
unfolding carry_out pure lift
run-settles out config dir start old count previously par apart has h =
    let (jwe, pins, good, counts, placed) =
      (run-verified out config dir start old par apart has).success (now_bound count previously)
        h in
    let (reads, client) = run-allowed out config start _ h in
    run-result out config (run out config start).disk (replaced old jwe) good.bound reads client
      placed good.binds
    ∙ rw
        (
          decide-covered config.spec good.current (pins_of (reached out config)) pins good.bound
              previously good.chosen good.covers,
          counts,
        )
        refl
