-- ===== src/Clevis/Main/Verified.antt =====
-- src/ogygia-clevis/src/main.rs: a blob is installed only if it is verified, and then stays.
use ogygia_nix.Base.{
  ℕ, Bool, true, false, some, List, [], ◌∷◌, ◌≡◌, ◌≢◌, ◌⊎◌, inl, inr, refl, sym, ◌∙◌, ap, subst,
  arith, all_by, length,
}
use ogygia_nix.Base.Text.{Text, text_eq→eq}
use ogygia_nix.Clevis.Config.{Pin, Config, contains}
use ogygia_nix.Clevis.Config.Valid.{In, contains_iff}
use ogygia_nix.Clevis.Decision.{Decision, replace, keep, decide}
use ogygia_nix.Clevis.Probe.{Reachable, probe_all, pins_of}
use ogygia_nix.Clevis.Disk.{File, Disk, Failure, reading, no_client, done, ◌>>=◌, ◌>>◌, lift, pure}
use ogygia_nix.Clevis.Disk.Rules.{Ends, Safe, bind-Safe, bind_lift-Safe, pure-Safe, Ends-weaken}
use ogygia_nix.Clevis.Swap
use ogygia_nix.Clevis.Swap.{Os}
use ogygia_nix.Clevis.Swap.Atomic.{replaced, Atomic, replace-Atomic}
use ogygia_nix.Clevis.Main.{
  Outside, ensure, decrypt, read_pins, Report, kept, now_bound, content_of, read_file, carry_out,
  run,
}

-- The pins of the spec that a run finds reachable.
abbrev pub reached : Outside → Config → List Reachable
reached out config = probe_all out.codec out.http config.spec.pins.tang

-- The new blob decrypts to the secret of the old one and is bound to every chosen pin, where the
-- old one's pins and the servers made the decision to replace it.
pub record Verified (out : Outside) (config : Config) (old jwe : List ℕ) (pins : List Pin)
    (previously : ℕ) : Type 0 where
  pub current : List Pin
  pub secret : List ℕ
  pub bound : List Pin
  pub reads : read_pins out old ≡ done current
  pub chosen : decide config.spec current (pins_of (reached out config)) ≡ replace pins previously
  pub opens : decrypt out old ≡ done secret
  pub reopens : decrypt out jwe ≡ done secret
  pub binds : read_pins out jwe ≡ done bound
  pub covers : (pin : Pin) → In pin pins → In pin bound

-- The blob is the old file, or a verified one with the old permissions, completely on the disk.
-- No file but the temporary one has changed.
pub record Sound (out : Outside) (config : Config) (start : Disk) (tmp : Text) (old : File)
    (d : Disk) : Type 0 where
  pub blob :
      (d config.secret_file ≡ some old)
      ⊎ ((jwe : List ℕ) × (pins : List Pin) × (previously : ℕ) × Verified out config old.content jwe
            pins previously
          × (d config.secret_file ≡ some (replaced old jwe)))
  pub others : (q : Text) → q ≢ config.secret_file → q ≢ tmp → d q ≡ start q

-- What a run's report promises: nothing has changed, or a verified blob is installed.
abbrev pub Reported : Outside → Config → Disk → File → Report → Disk → Type 0
Reported out config start old (kept _) d = d ≡ start
Reported out config start old (now_bound count previously) d =
    (jwe : List ℕ) × (pins : List Pin) × Verified out config old.content jwe pins previously
    × (count ≡ length pins)
    × (d config.secret_file ≡ some (replaced old jwe))

ensure-true : (b : Bool) (e : Failure) (u : Unit {0}) → ensure b e ≡ done u → b ≡ true
ensure-true true e u h = refl
ensure-true false e u h = absurd cc

all_by-contains :
    (bound pins : List Pin)
    → all_by (contains bound) pins ≡ true
    → (pin : Pin) → In pin pins
    → In pin bound
all_by-contains bound [] h pin i = absurd i
all_by-contains bound (p ∷ ps) h pin i = elim i [
  | inl same ↦ (contains_iff bound pin).0 (subst (λ q. contains bound q ≡ true) same (ground arith))
  | inr j ↦ all_by-contains bound ps (ground arith) pin j
]

module _ (out : Outside) (config : Config) (dir : Text) (start : Disk) (old : File)
    (par : out.os.parent config.secret_file ≡ some dir)
    (apart : out.os.temp_name dir ≢ config.secret_file)
    (has : start config.secret_file ≡ some old) where
  same-Sound : (d : Disk) → d ≡ start → Sound out config start (out.os.temp_name dir) old d
  same-Sound d e = rw e (record { blob = inl has; others = λ q _ _. refl })

  module _ (jwe : List ℕ) (pins : List Pin) (previously : ℕ)
      (good : Verified out config old.content jwe pins previously) where
    Atomic-Sound :
        (d : Disk)
        → Atomic start config.secret_file (out.os.temp_name dir) old (replaced old jwe) d
        → Sound out config start (out.os.temp_name dir) old d
    Atomic-Sound d a = record {
      blob = elim a.blob [ inl b ↦ inl b | inr b ↦ inr (jwe, pins, previously, good, b) ];
      others = a.others;
    }

    replace-Sound :
        Safe
          (Sound out config start (out.os.temp_name dir) old)
          (λ d. d ≡ start)
          (Swap.replace out.os config.secret_file jwe)
          (λ _ d.
            Sound out config start (out.os.temp_name dir) old d
            × (d config.secret_file ≡ some (replaced old jwe)))
    replace-Sound = record {
      safe = λ d e. rw e (
          Ends-weaken _ Atomic-Sound
            (replace-Atomic out.os config.secret_file dir jwe old start par apart has));
    }

    install-Safe :
        Safe
          (Sound out config start (out.os.temp_name dir) old)
          (λ d. d ≡ start)
          (Swap.replace out.os config.secret_file jwe >> pure (now_bound (length pins) previously))
          (Reported out config start old)
    install-Safe = bind-Safe _ _ replace-Sound λ _.
        pure-Safe (now_bound (length pins) previously) (λ d h. h.0)
          λ d h. (jwe, pins, good, refl, h.1)

  carry_out-Safe :
      (current : List Pin) (decision : Decision)
      → read_pins out old.content ≡ done current
      → decide config.spec current (pins_of (reached out config)) ≡ decision
      → Safe
          (Sound out config start (out.os.temp_name dir) old)
          (λ d. d ≡ start)
          (carry_out out config old.content (reached out config) decision)
          (Reported out config start old)
  unfolding carry_out
  carry_out-Safe current (keep reason) reads chosen = pure-Safe (kept reason) same-Sound λ d e. e
  carry_out-Safe current (replace pins previously) reads chosen =
      bind_lift-Safe _ _ same-Sound λ secret opens. bind_lift-Safe _ _ same-Sound λ jwe _.
        bind_lift-Safe _ _ same-Sound λ roundtrip reopens. bind_lift-Safe _ _ same-Sound λ u same.
          bind_lift-Safe _ _ same-Sound λ bound binds. bind_lift-Safe _ _ same-Sound λ v covers.
            install-Safe jwe pins previously (record {
              current = current;
              secret = secret;
              bound = bound;
              reads = reads;
              chosen = chosen;
              opens = opens;
              reopens = reopens ∙ ap done (text_eq→eq roundtrip secret (ensure-true _ _ u same));
              binds = binds;
              covers = all_by-contains bound pins (ensure-true _ _ v covers);
            })

  content_of-done :
      (refused : Bool) (jwe : List ℕ) → content_of refused (some old) ≡ done jwe → old.content ≡ jwe
  unfolding content_of
  content_of-done true jwe h = absurd cc
  content_of-done false jwe h = cc

  read_file-Safe :
      Safe
        (Sound out config start (out.os.temp_name dir) old)
        (λ d. d ≡ start)
        (read_file out.os config.secret_file)
        (λ jwe d. (d ≡ start) × (old.content ≡ jwe))
  unfolding read_file
  read_file-Safe = record {
    safe = λ d e. record {
      during = tt;
      last = same-Sound d e;
      success = λ jwe r. (
        e,
        content_of-done (out.os.refuses reading) jwe (
            ap (content_of (out.os.refuses reading))
              (sym has ∙ ap (λ f. f config.secret_file) (sym e))
            ∙ r),
      );
    };
  }

  after_read-Safe :
      Safe
        (Sound out config start (out.os.temp_name dir) old)
        (λ d. d ≡ start)
        (lift (read_pins out old.content) >>= λ current.
          lift (ensure out.has_client no_client) >>= λ _.
          carry_out out config old.content
            (reached out config)
            (decide config.spec current (pins_of (reached out config))))
        (Reported out config start old)
  after_read-Safe =
      bind_lift-Safe _ _ same-Sound
        λ current reads. bind_lift-Safe _ _ same-Sound λ _ _. carry_out-Safe current _ reads refl

  run-Safe :
      Safe
        (Sound out config start (out.os.temp_name dir) old)
        (λ d. d ≡ start)
        (run out config)
        (Reported out config start old)
  unfolding run
  run-Safe =
      bind-Safe _ _ read_file-Safe
        λ jwe. record { safe = λ d (e, same). rw (sym same) (Safe.safe after_read-Safe d e) }

-- Take a configured path with a parent, at which a file stands, and a temporary name other than
-- that path. Whatever the libraries, the servers, clevis and the operating system answer, in every
-- state that a run goes through and in the last, the blob is the old file, or a complete one with
-- the old permissions that decrypts to the same secret and is bound to all the pins that were decided on,
-- and no other file but the temporary one has changed. A run that reports to keep the blob changes
-- nothing, and one that reports a new blob has installed it.
pub run-verified :
    (out : Outside) (config : Config) (dir : Text) (start : Disk) (old : File)
    → out.os.parent config.secret_file ≡ some dir
    → out.os.temp_name dir ≢ config.secret_file
    → start config.secret_file ≡ some old
    → Ends
        (Sound out config start (out.os.temp_name dir) old)
        (Reported out config start old)
        (run out config start)
run-verified out config dir start old par apart has =
    Safe.safe (run-Safe out config dir start old par apart has) start refl
