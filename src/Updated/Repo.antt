-- ===== src/Updated/Repo.antt =====
-- src/ogygia-updated/src/repo.rs: the daemon's clone, over what libgit2 answers.
pub mod Landed
use ogygia_nix.Base.{
  ℕ, zero, suc, ◌+◌, ◌≡◌, refl, Bool, true, false, Option, none, some, List, [], ◌∷◌, leb, ◌==◌,
  if◌then◌else◌, is_some, take, ◌||◌,
}
use ogygia_nix.Base.Text.{Text, text_eq}
use ogygia_nix.Updated.Result.{
  Result, ok, err, ◌>>=◌, ◌>>◌, or_fail, ensure, opening_repository, cloning, fetching,
  finding_reference, walking_graph, finding_merge_base, walking_branch, walking_deployed,
  finding_commit, checking_out,
}

-- A commit's 160-bit name.
abbrev pub Oid : Type 0
Oid = ℕ

pub data Opening : Type 0 where
  opened not_found failed : Opening

pub record Commit : Type 0 where
  pub change_id : Option Text  -- the header jj writes

-- libgit2 on the clone and its remote, as one update cycle sees them: the results of opening,
-- cloning and fetching, and the answers of the fetched repository. `none` and `false` are errors.
pub record Git : Type 0 where
  pub opening : Opening
  pub create_dir : Bool
  pub clone : Bool
  pub fetch_origin : Bool
  pub reference : Text → Option Oid
  pub find_commit : Oid → Option Commit
  pub find_object : Oid → Bool
  pub graph_descendant_of : Oid → Oid → Option Bool
  pub merge_base : Oid → Oid → Option Oid
  -- The walk from a commit, without what a hidden commit reaches.
  pub revwalk : Oid → Option Oid → Option (List (Option Oid))
  pub checkout_tree : Oid → Bool
  pub set_head_detached : Oid → Bool
  pub oid_to_string : Oid → Text
  pub oid_from_str : Text → Option Oid

abbrev pub max_landed_scan : ℕ
max_landed_scan = 1000

unfoldable pub open_or_clone : Git → Result (Unit {0})
open_or_clone git = elim git.opening [
  | Opening.opened ↦ ok tt
  | Opening.not_found ↦ ensure git.create_dir cloning >> ensure git.clone cloning
  | Opening.failed ↦ err opening_repository
]

unfoldable pub fetch : Git → Result (Unit {0})
fetch git = ensure git.fetch_origin fetching

unfoldable pub tip : Git → Text → Result Oid
tip git branch = or_fail (git.reference branch) finding_reference

unfoldable pub is_ancestor : Git → Oid → Oid → Result Bool
is_ancestor git ancestor descendant =
    if ancestor == descendant
    then ok (is_some (git.find_commit ancestor))
    else if is_some (git.find_commit ancestor)
    then or_fail (git.graph_descendant_of descendant ancestor) walking_graph
    else ok false

unfoldable pub merge_base : Git → Oid → Oid → Result Oid
merge_base git a b = or_fail (git.merge_base a b) finding_merge_base

-- `HashSet::contains`.
unfoldable pub contains : List Text → Text → Bool
contains [] id = false
contains (x ∷ xs) id = text_eq x id || contains xs id

insert_id : Option Text → List Text → List Text
insert_id none ids = ids
insert_id (some id) ids = id ∷ ids

-- The loop over the branch walk, whose items the caller has bounded.
unfoldable pub collect_landed : Git → List (Option Oid) → Result (List Text)
unfolding insert_id
collect_landed git [] = ok []
collect_landed git (none ∷ rest) = err walking_branch
collect_landed git (some oid ∷ rest) = do
  commit ← or_fail (git.find_commit oid) finding_commit
  ids ← collect_landed git rest
  ok (insert_id commit.change_id ids)

-- The test of one deployed commit, where `next` is the rest of the loop.
check_landed : List Text → Option Text → Result Bool → Result Bool
check_landed landed none next = ok false
check_landed landed (some id) next = if contains landed id then next else ok false

-- The loop over the deployed walk; `limit` is how many more commits it looks at.
unfoldable pub scan_deployed : Git → List Text → ℕ → List (Option Oid) → Result Bool
unfolding check_landed
scan_deployed git landed limit [] = ok true
scan_deployed git landed zero (_ ∷ _) = ok false
scan_deployed git landed (suc limit) (none ∷ rest) = err walking_deployed
scan_deployed git landed (suc limit) (some oid ∷ rest) = do
  commit ← or_fail (git.find_commit oid) finding_commit
  check_landed landed commit.change_id (scan_deployed git landed limit rest)

unfoldable pub changes_landed : Git → Oid → Oid → Result Bool
changes_landed git revision tip =
    if is_some (git.find_commit revision)
    then (do
      branch_walk ← or_fail (git.revwalk tip (git.merge_base revision tip)) walking_branch
      landed ← collect_landed git (take max_landed_scan branch_walk)
      deployed_walk ← or_fail (git.revwalk revision (some tip)) walking_deployed
      scan_deployed git landed max_landed_scan deployed_walk)
    else ok false

unfoldable pub checkout : Git → Oid → Result (Unit {0})
checkout git commit =
    ensure (git.find_object commit) finding_commit
    >> ensure (git.checkout_tree commit) checking_out
    >> ensure (git.set_head_detached commit) checking_out
