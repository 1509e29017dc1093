-- ===== src/Policy/Tests.antt =====
-- crates/sa-core-types/src/policy.rs: a sample policy on a sample disk.
use secretagent_rust_agent.Base.{
  ◌≡◌, refl, ◌↔◌, true, false, none, some, [], ◌∷◌, Any, ◌==◌, if◌then◌else◌,
}
use secretagent_rust_agent.Policy.{
  normal, root_dir, cur_dir, parent_dir, FilePath, Disk, Policy, normalize, normalize_from, pop,
  component_eq, starts_with, lexically_within, resolve_up, resolves_within, write_root_allows,
  path_allowed,
}
use secretagent_rust_agent.Policy.Resolution.{Resolves}
use secretagent_rust_agent.Policy.Containment.{
  Within, WriteContained, read_allowed_iff, write_allowed_sound,
}

abbrev work : FilePath
work = root_dir ∷ normal "work" ∷ []

-- The disk has the folder /work and nothing below it.
abbrev sample_disk : Disk
sample_disk [] = none
sample_disk (root_dir ∷ []) = some (root_dir ∷ [])
sample_disk (root_dir ∷ normal s ∷ []) = if s == "work" then some work else none
sample_disk _ = none

abbrev sample_policy : Policy
sample_policy = record { egress_allow = []; read_roots = work ∷ []; write_roots = work ∷ [] }

abbrev notes : FilePath
notes = root_dir ∷ normal "work" ∷ cur_dir ∷ normal "a" ∷ parent_dir ∷ normal "notes" ∷ []

abbrev plain_notes : FilePath
plain_notes = root_dir ∷ normal "work" ∷ normal "notes" ∷ []

notes-normalize : normalize notes ≡ some plain_notes
unfolding normalize normalize_from pop
notes-normalize = refl

read_allowed_iff_example :
    (path_allowed sample_disk sample_policy notes false ≡ true)
    ↔ ((norm : FilePath) × Resolves notes norm × Any (Within norm) (work ∷ []))
read_allowed_iff_example = read_allowed_iff sample_disk sample_policy notes

write_is_allowed : path_allowed sample_disk sample_policy plain_notes true ≡ true
unfolding path_allowed normalize normalize_from pop component_eq starts_with lexically_within
    resolve_up resolves_within write_root_allows
write_is_allowed = refl

write_allowed_sound_example :
    (norm : FilePath) × Resolves plain_notes norm
    × Any (Within norm) (work ∷ [])
    × Any (WriteContained sample_disk plain_notes norm) (work ∷ [])
write_allowed_sound_example =
    write_allowed_sound sample_disk sample_policy plain_notes write_is_allowed
