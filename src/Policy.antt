-- ===== src/Policy.antt =====
-- crates/sa-core-types/src/policy.rs: what a tool may reach. A path is the list of components that
-- `Path::components` yields; `PathBuf::push`, `pop` and `starts_with` go by components.
pub mod Paths
pub mod Resolution
pub mod Containment
pub mod Approval
mod Tests
use secretagent_rust_agent.Base.{
  String, Bool, true, false, not, ◌&&◌, ◌||◌, Option, none, some, List, [], ◌∷◌, ◌++◌, reverse, any,
  contains, ◌==◌, if◌then◌else◌,
}
use secretagent_rust_agent.Text.{bare_name}

pub data Component : Type 0 where
  prefix normal : String → Component
  root_dir cur_dir parent_dir : Component

abbrev pub FilePath : Type 0
FilePath = List Component

-- `std::fs::canonicalize`, at one state of the disk
abbrev pub Disk : Type 0
Disk = FilePath → Option FilePath

pub record Policy : Type 0 where
  pub egress_allow : List String
  pub read_roots : List FilePath
  pub write_roots : List FilePath

unfoldable pub egress_allowed : Policy → String → Bool
egress_allowed p host = contains p.egress_allow host

-- A path built by `push` has its last component first here. `pop` fails where `parent` is `None`:
-- at the empty path and at a root or prefix.
unfoldable pub pop : FilePath → Option FilePath
pop [] = none
pop (prefix s ∷ out) = none
pop (root_dir ∷ out) = none
pop (normal s ∷ out) = some out
pop (cur_dir ∷ out) = some out
pop (parent_dir ∷ out) = some out

-- The loop of `normalize`; `out` has its last component first. A root or a prefix, which
-- `components` yields at the front only, is pushed like a name.
unfoldable pub normalize_from : FilePath → FilePath → Option FilePath
normalize_from out [] = some (reverse out)
normalize_from out (parent_dir ∷ cs) = elim (pop out) [
  | none ↦ none
  | some out' ↦ normalize_from out' cs
]
normalize_from out (cur_dir ∷ cs) = normalize_from out cs
normalize_from out (c ∷ cs) = normalize_from (c ∷ out) cs

unfoldable pub normalize : FilePath → Option FilePath
unfolding normalize_from pop
normalize path = normalize_from [] path

unfoldable pub component_eq : Component → Component → Bool
component_eq (prefix s) (prefix t) = s == t
component_eq (normal s) (normal t) = s == t
component_eq root_dir root_dir = true
component_eq cur_dir cur_dir = true
component_eq parent_dir parent_dir = true
component_eq _ _ = false

-- `Path::starts_with`
unfoldable pub starts_with : FilePath → FilePath → Bool
unfolding component_eq
starts_with path [] = true
starts_with [] (b ∷ base) = false
starts_with (c ∷ path) (b ∷ base) = component_eq c b && starts_with path base

-- `normalize(r).map(|rn| norm.starts_with(&rn)).unwrap_or(false)`
unfoldable pub lexically_within : FilePath → FilePath → Bool
unfolding normalize starts_with
lexically_within norm r = elim (normalize r) [ none ↦ false | some rn ↦ starts_with norm rn ]

-- The loop of `resolves_within`: `existing` has its last component first, and `remainder` holds
-- the popped names in order. `file_name` is a last component that is a name.
unfoldable pub resolve_up : Disk → FilePath → FilePath → FilePath → Bool
unfolding starts_with
resolve_up fs croot [] remainder = elim (fs []) [
  | none ↦ false
  | some c ↦ starts_with (c ++ remainder) croot
]
resolve_up fs croot (normal s ∷ existing) remainder = elim (fs (reverse (normal s ∷ existing))) [
  | none ↦ resolve_up fs croot existing (normal s ∷ remainder)
  | some c ↦ starts_with (c ++ remainder) croot
]
resolve_up fs croot (last ∷ existing) remainder = elim (fs (reverse (last ∷ existing))) [
  | none ↦ false
  | some c ↦ starts_with (c ++ remainder) croot
]

unfoldable pub resolves_within : Disk → FilePath → FilePath → Bool
unfolding resolve_up
resolves_within fs root target = elim (fs root) [
  | none ↦ false
  | some croot ↦ resolve_up fs croot (reverse target) []
]

-- One root of the second pass over the write roots.
unfoldable pub write_root_allows : Disk → FilePath → FilePath → FilePath → Bool
unfolding lexically_within resolves_within
write_root_allows fs path norm r = elim (fs r) [
  | none ↦ lexically_within norm r
  | some croot ↦ resolves_within fs r path
]

unfoldable pub path_allowed : Disk → Policy → FilePath → Bool → Bool
unfolding normalize
path_allowed fs p path write = elim (normalize path) [
  | none ↦ false
  | some norm ↦
      let roots = if write then p.write_roots else p.read_roots in
      if not (any (lexically_within norm) roots)
      then false
      else if not write
      then true
      else any (write_root_allows fs path norm) roots
]

unfoldable pub approval_required : String → Bool
approval_required tool =
    let bare = bare_name tool in
    bare == "write_file" || bare == "shell" || bare == "execute_code" || bare == "activate_skill"
