-- ===== src/Clevis/Swap/Atomic.antt =====
-- src/ogygia-clevis/src/swap.rs: a crash in the middle of a replacement leaves the old blob or the
-- new one.
use ogygia_nix.Base.{
  ℕ, zero, suc, Bool, true, false, Option, none, some, List, [], ◌≡◌, ◌≢◌, ◌⊎◌, inl, inr, refl, sym,
  ◌∙◌, ap, subst, take, length, All, All-append,
}
use ogygia_nix.Base.Text.{Text}
use ogygia_nix.Clevis.Disk.{
  File, Disk, put, Failure, metadata, creating, permissions, syncing, persisting, syncing_dir,
  no_parent, Result, done, failed, Run, ◌>>◌, or_failed,
}
use ogygia_nix.Clevis.Disk.Rules.{Ends, Safe, put-same, put-other, bind-Safe, bind_lift-Safe}
use ogygia_nix.Clevis.Swap.Calls.{try-Safe}
use ogygia_nix.Clevis.Swap.{
  Os, try, write_until, drop_temp, mode_of, change_file, set_mode, append, sync, partial_writes,
  write_all, create, persist, dropping, file_mode, read_mode, fill, replace,
}

-- The file with the new contents, all of it on the disk, and with the permissions of the old one.
abbrev pub replaced : File → List ℕ → File
replaced old contents = record { content = contents; mode = old.mode; synced = true }

-- The blob is the old file or the complete new one, and no file but the temporary one has changed.
pub record Atomic (start : Disk) (path tmp : Text) (old new : File) (d : Disk) : Type 0 where
  pub blob : (d path ≡ some old) ⊎ (d path ≡ some new)
  pub others : (q : Text) → q ≢ path → q ≢ tmp → d q ≡ start q

some-done : (a b : Text) → or_failed (some a) no_parent ≡ done b → a ≡ b
some-done a b e = cc

module _ (os : Os) (start : Disk) (path tmp : Text) (apart : tmp ≢ path) (old : File) where
  -- The blob is untouched and the temporary file is this one.
  record Staged (file : File) (d : Disk) : Type 0 where
    blob : d path ≡ some old
    temporary : d tmp ≡ some file
    others : (q : Text) → q ≢ path → q ≢ tmp → d q ≡ start q

  Staged-put :
      (file : File) (d : Disk)
      → d path ≡ some old
      → ((q : Text) → q ≢ path → q ≢ tmp → d q ≡ start q)
      → Staged file (put tmp (some file) d)
  Staged-put file d b o = record {
    blob = put-other tmp path (some file) d (λ e. apart (sym e)) ∙ b;
    temporary = put-same tmp (some file) d;
    others = λ q n m. put-other tmp q (some file) d m ∙ o q n m;
  }

  Staged-change :
      (file : File) (f : File → File) (d : Disk)
      → Staged file d
      → Staged (f file) (change_file tmp f d)
  unfolding change_file
  Staged-change file f d s = rw s.temporary (Staged-put (f file) d s.blob s.others)

  module _ (contents : List ℕ) where
    -- What holds in every state.
    abbrev Inv : Disk → Type 0
    Inv = Atomic start path tmp old (replaced old contents)

    Staged-Atomic : (file : File) (d : Disk) → Staged file d → Inv d
    Staged-Atomic file d s = record { blob = inl s.blob; others = s.others }

    change-Safe :
        (what : Failure) (f : File → File) (file : File)
        → Safe Inv (Staged file) (try os what (change_file tmp f)) (λ _. Staged (f file))
    change-Safe what f file =
        try-Safe os what (change_file tmp f) (Staged-Atomic file)
          λ d s. let t = Staged-change file f d s in (Staged-Atomic (f file) _ t, t)

    partial_writes-All :
        (n : ℕ) (bytes : List ℕ) (file : File) (d : Disk)
        → Staged file d
        → All Inv (partial_writes n tmp bytes d)
    unfolding partial_writes
    partial_writes-All zero bytes file d s = (Staged-Atomic file d s, tt)
    partial_writes-All (suc n) bytes file d s =
        All-append Inv (partial_writes n tmp bytes d) _ (partial_writes-All n bytes file d s) (
          Staged-Atomic (append (take (suc n) bytes) file) _
              (Staged-change file (append (take (suc n) bytes)) d s),
          tt,
        )

    write_until-Ends :
        (stop : Option ℕ) (bytes : List ℕ) (file : File) (d : Disk)
        → Staged file d
        → Ends Inv (λ _. Staged (append bytes file)) (write_until stop tmp bytes d)
    unfolding write_until
    write_until-Ends (some n) bytes file d s = record {
      during = partial_writes-All n bytes file d s;
      last =
          Staged-Atomic (append (take n bytes) file) _
            (Staged-change file (append (take n bytes)) d s);
      success = λ a e. absurd cc;
    }
    write_until-Ends none bytes file d s =
        let t = Staged-change file (append bytes) d s in
        record {
          during = partial_writes-All (length bytes) bytes file d s;
          last = Staged-Atomic (append bytes file) _ t;
          success = λ _ _. t;
        }

    write_all-Safe :
        (bytes : List ℕ) (file : File)
        → Safe Inv (Staged file) (write_all os tmp bytes) (λ _. Staged (append bytes file))
    unfolding write_all
    write_all-Safe bytes file = record { safe = write_until-Ends os.stops_after bytes file }

    -- The new file is in place.
    record Placed (d : Disk) : Type 0 where
      placed : d path ≡ some (replaced old contents)
      rest : (q : Text) → q ≢ path → q ≢ tmp → d q ≡ start q

    Placed-Atomic : (d : Disk) → Placed d → Inv d
    Placed-Atomic d s = record { blob = inr s.placed; others = s.rest }

    Staged-persist :
        (d : Disk) → Staged (replaced old contents) d → Placed (put path (d tmp) (put tmp none d))
    Staged-persist d s = record {
      placed = put-same path (d tmp) _ ∙ s.temporary;
      rest = λ q n m. put-other path q (d tmp) _ n ∙ put-other tmp q none d m ∙ s.others q n m;
    }

    persist-Safe : Safe Inv (Staged (replaced old contents)) (persist os tmp path) (λ _. Placed)
    unfolding persist
    persist-Safe =
        try-Safe os persisting (λ d. put path (d tmp) (put tmp none d))
          (Staged-Atomic (replaced old contents))
          λ d s. (Placed-Atomic _ (Staged-persist d s), Staged-persist d s)

    drop_temp-Ends :
        (r : Run (Unit {0})) (o : Result (Unit {0}))
        → r.result ≡ o
        → Ends Inv (λ _. Placed) r
        → Ends Inv (λ _. Placed) (drop_temp tmp r o)
    unfolding drop_temp
    drop_temp-Ends r (done _) same h = h
    drop_temp-Ends r (failed e) same h = record {
      during = All-append Inv r.during _ h.during (h.last, tt);
      last = record {
        blob = rw (put-other tmp path none r.disk (λ e. apart (sym e))) h.last.blob;
        others = λ q n m. put-other tmp q none r.disk m ∙ h.last.others q n m;
      };
      success = λ a e. absurd cc;
    }

    fill-Safe :
        (fresh : ℕ)
        → Safe Inv
            (Staged (record { content = []; mode = fresh; synced = false }))
            (fill os tmp path old.mode contents)
            (λ _. Placed)
    unfolding fill set_mode append sync
    fill-Safe fresh = bind-Safe _ _ (change-Safe permissions (set_mode old.mode) _) λ _.
        bind-Safe _ _ (write_all-Safe contents _)
          λ _. bind-Safe _ _ (change-Safe syncing sync _) λ _. persist-Safe

    dropping-Safe :
        (fresh : ℕ)
        → Safe Inv
            (Staged (record { content = []; mode = fresh; synced = false }))
            (dropping tmp (fill os tmp path old.mode contents))
            (λ _. Placed)
    unfolding dropping
    dropping-Safe fresh = record {
      safe = λ d s. drop_temp-Ends _ _ refl ((fill-Safe fresh).safe d s);
    }

    -- The blob is the old file and nothing has changed.
    record Original (d : Disk) : Type 0 where
      original : d path ≡ some old
      unchanged : (q : Text) → q ≢ path → q ≢ tmp → d q ≡ start q

    Original-Atomic : (d : Disk) → Original d → Inv d
    Original-Atomic d o = record { blob = inl o.original; others = o.unchanged }

    mode_of-ok :
        (refused : Bool) (mode : ℕ) → mode_of refused (some old) ≡ done mode → mode ≡ old.mode
    unfolding mode_of file_mode
    mode_of-ok true mode h = absurd cc
    mode_of-ok false mode h = cc

    read_mode-Safe :
        Safe Inv Original (read_mode os path) (λ mode d. Original d × (mode ≡ old.mode))
    unfolding read_mode
    read_mode-Safe = record {
      safe = λ d o. record {
        during = tt;
        last = Original-Atomic d o;
        success = λ mode e. (
          o,
          mode_of-ok (os.refuses metadata) mode
              (ap (mode_of (os.refuses metadata)) (sym o.original) ∙ e),
        );
      };
    }

    create-Safe :
        Safe Inv Original
          (create os tmp)
          (λ _. Staged (record { content = []; mode = os.fresh_mode; synced = false }))
    unfolding create
    create-Safe =
        try-Safe os creating _ Original-Atomic
          λ d o. let s = Staged-put _ d o.original o.unchanged in (Staged-Atomic _ _ s, s)

    finish-Safe : Safe Inv Placed (try os syncing_dir (λ d. d)) (λ _. Placed)
    finish-Safe = try-Safe os syncing_dir (λ d. d) Placed-Atomic λ d p. (Placed-Atomic d p, p)

    after_mode-Safe :
        (mode : ℕ)
        → Safe Inv
            (λ d. Original d × (mode ≡ old.mode))
            (create os tmp
              >> (dropping tmp (fill os tmp path mode contents) >> try os syncing_dir (λ d. d)))
            (λ _. Placed)
    after_mode-Safe mode = record {
      safe = λ d (o, e). rw e (
          Safe.safe
            (bind-Safe _ _ create-Safe
              λ _. bind-Safe _ _ (dropping-Safe os.fresh_mode) λ _. finish-Safe)
            d o);
    }

    replace-Safe :
        (dir : Text)
        → os.parent path ≡ some dir
        → os.temp_name dir ≡ tmp
        → Safe Inv Original (replace os path contents) (λ _. Placed)
    unfolding replace
    replace-Safe dir par same = bind_lift-Safe _ _ Original-Atomic λ other e.
        bind-Safe _ _ read_mode-Safe λ mode.
          subst
            (λ t.
              Safe Inv (λ d. Original d × (mode ≡ old.mode))
                (create os t
                  >> (dropping t (fill os t path mode contents) >> try os syncing_dir (λ d. d)))
                (λ _. Placed))
            (sym same
              ∙ ap os.temp_name
                  (some-done dir other (ap (λ o. or_failed o no_parent) (sym par) ∙ e)))
            (after_mode-Safe mode)

-- Take a path with a parent at which the old file stands, and a temporary name other than that
-- path. In every state that a replacement goes through, and in the last, whichever calls the
-- operating system refuses and wherever the write stops, the blob is the old file or the complete new one,
-- synced and with the old permissions, and no other file but the temporary one has changed; if the
-- replacement succeeds, the blob is the new one.
pub replace-Atomic :
    (os : Os) (path dir : Text) (contents : List ℕ) (old : File) (d : Disk)
    → os.parent path ≡ some dir
    → os.temp_name dir ≢ path
    → d path ≡ some old
    → Ends
        (Atomic d path (os.temp_name dir) old (replaced old contents))
        (λ _ e. e path ≡ some (replaced old contents))
        (replace os path contents d)
replace-Atomic os path dir contents old d par apart has =
    let s =
      Safe.safe (replace-Safe os d path (os.temp_name dir) apart old contents dir par refl) d
        (record { original = has; unchanged = λ q n m. refl }) in
    record { during = s.during; last = s.last; success = λ a e. Placed.placed (s.success a e) }
