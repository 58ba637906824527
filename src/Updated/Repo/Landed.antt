-- ===== src/Updated/Repo/Landed.antt =====
-- src/ogygia-updated/src/repo.rs: what `changes_landed` decides.
use ogygia_nix.Base.{
  ℕ, zero, suc, ◌≤◌, ◌≡◌, refl, ◌↔◌, ◌⊎◌, inl, inr, Bool, true, Option, none, some, List, [], ◌∷◌,
  arith, All, length, take, is_some, Bool-cases, ap,
}
use ogygia_nix.Base.Text.{Text, text_eq, text_eq→eq, text_eq_iff}
use ogygia_nix.Updated.Result.{Result, ok}
use ogygia_nix.Updated.Repo.{
  Oid, Git, Commit, contains, insert_id, collect_landed, check_landed, scan_deployed,
  max_landed_scan, changes_landed,
}

-- An item of a walk that names a commit the repository has.
abbrev pub Known : Git → Option Oid → Type 0
Known git entry =
    (oid : Oid) × (commit : Commit) × (entry ≡ some oid) × (git.find_commit oid ≡ some commit)

-- An item of a walk that is a commit with this change-id.
abbrev pub Carries : Git → Text → Option Oid → Type 0
Carries git id entry =
    (oid : Oid) × (commit : Commit) × (entry ≡ some oid)
    × (git.find_commit oid ≡ some commit)
    × (commit.change_id ≡ some id)

-- Some commit of the walk has the change-id.
abbrev pub Carried : Git → Text → List (Option Oid) → Type 0
Carried git id [] = ⊥
Carried git id (entry ∷ walk) = Carries git id entry ⊎ Carried git id walk

-- The item is a commit with a change-id that some commit of the branch has.
abbrev pub Landed : Git → List (Option Oid) → Option Oid → Type 0
Landed git branch entry = (id : Text) × Carries git id entry × Carried git id branch

contains-insert :
    (ids : List Text) (o : Option Text) (id : Text)
    → (contains (insert_id o ids) id ≡ true) ↔ ((o ≡ some id) ⊎ (contains ids id ≡ true))
unfolding contains insert_id
contains-insert ids none id = (λ h. inr h, λ h. ground arith)
contains-insert ids (some x) id = (
  λ h. elim (Bool-cases (text_eq x id)) [
    | inl e ↦ inl (ap some (text_eq→eq x id e))
    | inr e ↦ inr (ground arith)
  ],
  λ h. elim h [ inl e ↦ ground (arith, (text_eq_iff x id).1 (cc e)) | inr m ↦ ground arith ],
)

same :
    (git : Git) (o o' : Oid) (a b : Commit) (id : Text)
    → git.find_commit o ≡ some a
    → some o ≡ some o'
    → git.find_commit o' ≡ some b
    → b.change_id ≡ some id
    → a.change_id ≡ some id
same git o o' a b id p q r t = ground arith

checked :
    (ids : List Text) (change : Option Text) (next : Result Bool)
    → (check_landed ids change next ≡ ok true)
      ↔ ((id : Text) × (change ≡ some id) × (contains ids id ≡ true) × (next ≡ ok true))
unfolding check_landed
checked ids none next = (λ h. cc, λ (id, e, _, _). cc)
checked ids (some id) next = (
  λ h. (id, refl, ground arith, ground arith),
  λ (id', e, m, n). let same : contains ids id ≡ true = cc in rw same n,
)

-- The set of the first loop holds exactly the change-ids of the walked commits.
collected :
    (git : Git) (walk : List (Option Oid))
    → All (Known git) walk
    → (ids : List Text) × (collect_landed git walk ≡ ok ids)
      × ((id : Text) → (contains ids id ≡ true) ↔ Carried git id walk)
unfolding collect_landed contains
collected git [] k = ([], refl, λ id. (λ h. cc, λ h. absurd h))
collected git (none ∷ walk) ((oid, commit, e, _), k) = cc
collected git (some o ∷ walk) ((oid, commit, e, f), k) =
    let (ids, r, holds) = collected git walk k in
    let found : git.find_commit o ≡ some commit = cc in
    (
      insert_id commit.change_id ids,
      rw (found, r),
      λ id. (
        λ h. elim ((contains-insert ids commit.change_id id).0 h) [
          | inl c ↦ inl (o, commit, refl, found, c)
          | inr m ↦ inr ((holds id).0 m)
        ],
        λ h. (contains-insert ids commit.change_id id).1 (elim h [
          | inl (o', commit', e', f', c) ↦ inl (same git o o' commit commit' id found e' f' c)
          | inr m ↦ inr ((holds id).1 m)
        ]),
      ),
    )

-- The second loop over commits that the repository has: it answers yes exactly if the walk is
-- within the limit and each of its commits carries a change-id of the set.
scanned :
    (git : Git) (branch : List (Option Oid)) (ids : List Text)
    → ((id : Text) → (contains ids id ≡ true) ↔ Carried git id branch)
    → (limit : ℕ) (walk : List (Option Oid)) → All (Known git) walk
    → (scan_deployed git ids limit walk ≡ ok true)
      ↔ ((length walk ≤ limit) × All (Landed git branch) walk)
unfolding scan_deployed
scanned git branch ids holds limit [] k = (λ _. (omega arith, tt), λ _. refl)
scanned git branch ids holds zero (entry ∷ walk) k = (λ h. cc, λ h. absurd (omega arith))
scanned git branch ids holds (suc limit) (none ∷ walk) ((oid, commit, e, f), k) = (λ h. cc, λ h. cc)
scanned git branch ids holds (suc limit) (some o ∷ walk) ((oid, commit, e, f), k) =
    let (fwd, back) = scanned git branch ids holds limit walk k in
    let found : git.find_commit o ≡ some commit = cc in
    let check = checked ids commit.change_id (scan_deployed git ids limit walk) in
    rw found (
      λ h.
          let (id, c, m, n) = check.0 h in
          let (short, rest) = fwd n in
          (omega arith, ((id, (o, commit, refl, found, c), (holds id).0 m), rest)),
      λ h.
          let (id, (o', commit', e', f', c), m) = h.1.0 in
          check.1 (
            id,
            same git o o' commit commit' id found e' f' c,
            (holds id).1 m,
            back (omega arith, h.1.1),
          ),
    )

-- Take a revision that the clone has, a branch walk and a deployed walk that libgit2 gives for it,
-- and let the clone have every commit of the deployed walk and of the first thousand of the branch
-- walk. Then the changes count as landed exactly if the deployed walk has at most a thousand
-- commits and each of them has a change-id that one of those thousand branch commits has too.
pub changes_landed_iff :
    (git : Git) (revision tip : Oid) (branch deployed : List (Option Oid))
    → is_some (git.find_commit revision) ≡ true
    → git.revwalk tip (git.merge_base revision tip) ≡ some branch
    → git.revwalk revision (some tip) ≡ some deployed
    → All (Known git) (take max_landed_scan branch)
    → All (Known git) deployed
    → (changes_landed git revision tip ≡ ok true) ↔ (
        (length deployed ≤ max_landed_scan)
        × All (Landed git (take max_landed_scan branch)) deployed)
unfolding changes_landed
changes_landed_iff git revision tip branch deployed known bw dw kb kd =
    let (ids, r, holds) = collected git (take max_landed_scan branch) kb in
    rw (known, bw, dw, r)
      (scanned git (take max_landed_scan branch) ids holds max_landed_scan deployed kd)
