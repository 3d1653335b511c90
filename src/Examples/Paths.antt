-- ===== src/Examples/Paths.antt =====
-- A path with an empty part and a dot, as a manifest may give it.
use engineering_worker_pool.Base.{
  ◌≡◌, refl, [], false, any, same, starts_with, text_discrete, codes, has_char,
}
use engineering_worker_pool.Executor.Run.{outcome, ◌>>=◌}
use engineering_worker_pool.Executor.Manifest.{
  parts_of, as_posix, safe_path, segments_from, drop_empty, join_parts, root_of, relative_parts,
  posix_of,
}
use engineering_worker_pool.Executor.Paths.{safe_path-confined}

safe_path-confined_example :
    (root_of (codes "a/b.py") ≡ [])
    × (has_char 92 (codes "a/b.py") ≡ false)
    × (parts_of (codes "a/b.py") ≡ parts_of (codes "a//./b.py"))
    × (any (starts_with (codes ".")) (parts_of (codes "a/b.py")) ≡ false)
    × (any (λ p. same p (codes "..")) (parts_of (codes "a/b.py")) ≡ false)
unfolding safe_path outcome parts_of as_posix segments_from drop_empty join_parts any starts_with
    ◌>>=◌ text_discrete root_of relative_parts posix_of
safe_path-confined_example = safe_path-confined (codes "a//./b.py") (codes "a/b.py") refl
