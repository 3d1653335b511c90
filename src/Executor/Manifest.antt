-- ===== src/Executor/Manifest.antt =====
-- app/native_one_shot.py: paths, the boundary, adapter descriptors, task manifests and artifacts.
-- A JSON value that the code requires to be of a type is given as a value of that type.
use engineering_worker_pool.Base.{
  ℕ, Bool, true, false, not, ◌&&◌, ◌||◌, List, [], ◌∷◌, ◌++◌, Option, Text, codes, same, length,
  leb, ◌==◌, is_alnum, is_digit, all_chars, has_char, starts_with, any, nonempty, if◌then◌else◌,
}
use engineering_worker_pool.Store.Schema.{Role, builder, validator}
use engineering_worker_pool.Store.Sanitize.{is_sha40, is_sha256, is_task_id}
use engineering_worker_pool.Store.Admission.{sort_texts}
use engineering_worker_pool.Executor.Run.{
  Run, returns, raises, ◌>>=◌, ◌>>◌, need, need_some, executor_blocked, Artifact, role_invalid,
  session_invalid, correlation_invalid, boundary_head_invalid, governed_boundary_unproved,
  manifest_path, manifest_path_traversal, manifest_path_hidden, manifest_hashes, manifest_hash,
  manifest_version, manifest_task_id, manifest_repository, manifest_base_sha,
  manifest_workspace_sha, manifest_adapter, manifest_adapter_contract, adapter_id, adapter_paths,
  adapter_commands, adapter_roles, adapter_role_commands, adapter_role_unsupported,
  durable_artifact_invalid,
}

abbrev pub is_lower_letter : ℕ → Bool
is_lower_letter c = leb b'a' c && leb c b'z'

-- `NAME.fullmatch`
unfoldable pub is_name : Text → Bool
is_name [] = false
is_name (c ∷ s) =
    is_lower_letter c
    && all_chars (λ d. is_lower_letter d || is_digit d || d == b'_' || d == b'.' || d == b'-') s
    && leb 2 (length s)
    && leb (length s) 127

-- `CORRELATION.fullmatch`
unfoldable pub is_correlation : Text → Bool
is_correlation [] = false
is_correlation (c ∷ s) =
    (is_lower_letter c || is_digit c)
    && all_chars (λ d. is_lower_letter d || is_digit d || d == b'-') s
    && leb 7 (length s)
    && leb (length s) 127

-- `[A-Za-z0-9._-]`
abbrev pub is_session_char : ℕ → Bool
is_session_char c = is_alnum c || c == b'.' || c == b'_' || c == b'-'

unfoldable pub is_session : Text → Bool
is_session s = leb 3 (length s) && leb (length s) 64 && all_chars is_session_char s

-- The segments of a text between its slashes.
unfoldable pub segments_from : Text → Text → List Text
segments_from part [] = part ∷ []
segments_from part (c ∷ s) = elim (c == b'/') [
  | true ↦ part ∷ segments_from [] s
  | false ↦ segments_from (part ++ c ∷ []) s
]

-- The parts of `PurePosixPath`: empty segments and "." disappear.
unfoldable pub drop_empty : List Text → List Text
drop_empty [] = []
drop_empty (p ∷ ps) =
    let rest = drop_empty ps in if not (nonempty p) || same p (codes ".") then rest else p ∷ rest

-- The root of an absolute path: two slashes are kept, and more are one.
unfoldable pub root_of : Text → Text
unfolding starts_with
root_of value =
    if starts_with (codes "//") value && not (starts_with (codes "///") value)
    then codes "//"
    else if starts_with (codes "/") value
    then codes "/"
    else []

unfoldable pub relative_parts : Text → List Text
unfolding segments_from drop_empty
relative_parts value = drop_empty (segments_from [] value)

-- `parts`: the root, where there is one, and the parts after it.
unfoldable pub parts_of : Text → List Text
unfolding root_of relative_parts
parts_of value = elim (root_of value) [
  | [] ↦ relative_parts value
  | c ∷ r ↦ (c ∷ r) ∷ relative_parts value
]

unfoldable pub join_parts : List Text → Text
join_parts [] = []
join_parts (p ∷ []) = p
join_parts (p ∷ q ∷ ps) = p ++ codes "/" ++ join_parts (q ∷ ps)

unfoldable pub posix_of : Text → List Text → Text
unfolding join_parts
posix_of [] [] = codes "."
posix_of [] (p ∷ ps) = join_parts (p ∷ ps)
posix_of (c ∷ root) ps = (c ∷ root) ++ join_parts ps

-- `as_posix`
unfoldable pub as_posix : Text → Text
unfolding root_of relative_parts posix_of
as_posix value = posix_of (root_of value) (relative_parts value)

-- `_safe_path`
unfoldable pub safe_path : Text → Run Text
unfolding root_of parts_of as_posix starts_with
safe_path value = do
  need (leb 1 (length value) && leb (length value) 240) manifest_path
  let parts = parts_of value
  need
      (not (nonempty (root_of value))
        && not (has_char 92 value)
        && not (any (λ p. same p (codes "..")) parts))
      manifest_path_traversal
  need (not (any (starts_with (codes ".")) parts)) manifest_path_hidden
  returns (as_posix value)

unfoldable pub safe_paths : List Text → Run (List Text)
unfolding safe_path
safe_paths [] = returns []
safe_paths (p ∷ ps) = do q ← safe_path p; qs ← safe_paths ps; returns (q ∷ qs)

-- `ExecutionBoundary`
pub record Boundary : Type 0 where
  pub session_id : Text
  pub correlation_id : Text
  pub expected_head : Text
  pub state_validated : Bool
  pub gateway_verified : Bool

unfoldable pub validate_boundary : Boundary → Run (Unit {0})
unfolding is_session is_correlation
validate_boundary b = do
  need (is_session b.session_id) session_invalid
  need (is_correlation b.correlation_id) correlation_invalid
  need (is_sha40 b.expected_head) boundary_head_invalid
  need (b.state_validated && b.gateway_verified) governed_boundary_unproved

-- `a == b` on two tuples of texts.
unfoldable pub same_texts : List Text → List Text → Bool
same_texts [] [] = true
same_texts [] (t ∷ ts) = false
same_texts (s ∷ ss) [] = false
same_texts (s ∷ ss) (t ∷ ts) = same s t && same_texts ss ts

-- `values == tuple(sorted(set(values)))`
unfoldable pub is_sorted_set : List Text → Bool
unfolding same_texts sort_texts
is_sorted_set ts = same_texts ts (sort_texts ts)

abbrev pub has_text : List Text → Text → Bool
has_text ts t = any (λ s. same s t) ts

abbrev pub every {ℓ} : {A : Type ℓ} → (A → Bool) → List A → Bool
every p [] = true
every p (x ∷ xs) = p x && every p xs

-- `set(ss) <= set(ts)`
abbrev pub is_subset : List Text → List Text → Bool
is_subset ss ts = every (has_text ts) ss

abbrev pub is_same_set : List Text → List Text → Bool
is_same_set ss ts = is_subset ss ts && is_subset ts ss

abbrev pub is_same_role : Role → Role → Bool
is_same_role builder builder = true
is_same_role builder validator = false
is_same_role validator builder = false
is_same_role validator validator = true

-- `AdapterDescriptor`
pub record Descriptor : Type 0 where
  pub adapter_id : Text
  pub allowed_paths : List Text
  pub builder_commands : List Text
  pub validator_commands : List Text
  pub roles : List Role

abbrev pub has_role : Descriptor → Role → Bool
has_role d role = any (is_same_role role) d.roles

unfoldable pub check_commands : List Text → Run (Unit {0})
unfolding is_sorted_set is_name
check_commands cs = need (is_sorted_set cs && every is_name cs) adapter_commands

-- `normalized`: what the digest of the contract covers.
unfoldable pub normalized : Descriptor → Run Descriptor
unfolding safe_paths check_commands is_sorted_set is_name
normalized d = do
  need (is_name d.adapter_id) adapter_id
  paths ← safe_paths d.allowed_paths
  need (is_sorted_set paths && not (same_texts paths [])) adapter_paths
  check_commands d.builder_commands
  check_commands d.validator_commands
  need (has_role d builder || has_role d validator) adapter_roles
  need
      ((not (has_role d builder) || not (same_texts d.builder_commands []))
        && (not (has_role d validator) || not (same_texts d.validator_commands [])))
      adapter_role_commands
  returns (record d { allowed_paths = paths })

abbrev pub role_commands : Descriptor → Role → List Text
role_commands d builder = d.builder_commands
role_commands d validator = d.validator_commands

-- `commands_for`
unfoldable pub commands_for : Descriptor → Role → Run (List Text)
commands_for d role = do
  need (has_role d role) adapter_role_unsupported
  returns (role_commands d role)

-- `command_keys`, as a set.
abbrev pub command_keys : Descriptor → List Text
command_keys d = d.builder_commands ++ d.validator_commands

-- `TaskManifest`; a path with the digest of its file.
pub record FileHash : Type 0 where
  pub path : Text
  pub digest : Text

pub record Manifest : Type 0 where
  pub schema_version : ℕ
  pub task_id : Text
  pub repository : Text
  pub base_sha : Text
  pub workspace_sha : Text
  pub adapter_id : Text
  pub adapter_contract_sha256 : Text
  pub before_sha256 : List FileHash

-- `normalized[safe] = digest`: a later path that normalises to the same one replaces the digest.
unfoldable pub put_hash : FileHash → List FileHash → List FileHash
put_hash f [] = f ∷ []
put_hash f (g ∷ gs) = elim (same g.path f.path) [ true ↦ f ∷ gs | false ↦ g ∷ put_hash f gs ]

unfoldable pub normalize_hashes : List FileHash → List FileHash → Run (List FileHash)
unfolding safe_path put_hash
normalize_hashes done [] = returns done
normalize_hashes done (f ∷ fs) = do
  safe ← safe_path f.path
  need (is_sha256 f.digest) manifest_hash
  normalize_hashes (put_hash (record { path = safe; digest = f.digest }) done) fs

abbrev pub is_repository_part : Text → Bool
is_repository_part s = leb 1 (length s) && leb (length s) 100 && all_chars is_session_char s

-- `[A-Za-z0-9_.-]{1,100}/[A-Za-z0-9_.-]{1,100}`
unfoldable pub is_repository : Text → Bool
unfolding segments_from
is_repository s = elim (segments_from [] s) [
  | [] ↦ false
  | a ∷ [] ↦ false
  | a ∷ b ∷ [] ↦ is_repository_part a && is_repository_part b
  | a ∷ b ∷ c ∷ rest ↦ false
]

-- `TaskManifest.parse`
unfoldable pub parse_manifest : Manifest → Run Manifest
unfolding normalize_hashes is_repository is_name is_task_id
parse_manifest raw = do
  need (leb 1 (length raw.before_sha256) && leb (length raw.before_sha256) 32) manifest_hashes
  hashes ← normalize_hashes [] raw.before_sha256
  need (raw.schema_version == 1) manifest_version
  need (is_task_id raw.task_id) manifest_task_id
  need (is_repository raw.repository) manifest_repository
  need (is_sha40 raw.base_sha) manifest_base_sha
  need (is_sha40 raw.workspace_sha) manifest_workspace_sha
  need (is_name raw.adapter_id) manifest_adapter
  need (is_sha256 raw.adapter_contract_sha256) manifest_adapter_contract
  returns (record raw { before_sha256 = hashes })

-- `DurableArtifact.parse`; a field that is absent is none.
unfoldable pub parse_artifact : Option Text → Option Text → Option Text → Run Artifact
unfolding is_name
parse_artifact kind reference sha = do
  k ← need_some kind durable_artifact_invalid
  r ← need_some reference durable_artifact_invalid
  s ← need_some sha durable_artifact_invalid
  need
      (is_name k
        && leb 1 (length r)
        && leb (length r) 2048
        && not (has_char 10 r)
        && not (has_char 13 r)
        && is_sha256 s)
      durable_artifact_invalid
  returns (record { artifact_kind = k; artifact_ref = r; artifact_sha256 = s })

-- `role in ("builder", "validator")`
unfoldable pub exact_role : Text → Run Role
exact_role role =
    if same role (codes "builder")
    then returns builder
    else if same role (codes "validator")
    then returns validator
    else raises (executor_blocked role_invalid)
