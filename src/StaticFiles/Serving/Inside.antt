-- ===== src/StaticFiles/Serving/Inside.antt =====
-- run/slave/src/static_files.rs: which file an answer comes from.
use thwip.Prelude.{
  ◌≡◌, ap, Bool, true, false, [], ◌∷◌, ◌++◌, if◌then◌else◌, Result, ok, err, guard, >>=-eq-ok,
  >>-eq-ok, guard-eq-ok, ok-injective,
}
use mathlib.Core.Path.{subst}
use thwip.Prelude.Text.{Bytes, codes}
use thwip.StaticFiles.{forbidden, not_found, FilePath, parse_request_target, relative_path}
use thwip.StaticFiles.Serving.{
  IoErrorKind, Metadata, FileSystem, map_io_error, is_under, is_file, is_dir, locate, index_of,
  resolve_static_path,
}

-- A place that the file system names canonically and that lies under a directory.
abbrev pub IsInside : FileSystem → FilePath → FilePath × Metadata → Type 0
IsInside fs root (path, found) =
    ((asked : FilePath) × (fs.canonicalize asked ≡ ok path))
    × (is_under root path ≡ true)
    × (fs.metadata path ≡ ok found)

pub map_io_error-eq-ok :
    {A : Type 0} (result : Result A IoErrorKind) {b : A}
    → map_io_error result ≡ ok b
    → result ≡ ok b
unfolding map_io_error
map_io_error-eq-ok (ok a) h = ap (λ x. ok x) (ok-injective h)
map_io_error-eq-ok (err IoErrorKind.missing) h = cc
map_io_error-eq-ok (err IoErrorKind.permission_denied) h = cc
map_io_error-eq-ok (err IoErrorKind.other_kind) h = cc

locate-IsInside :
    (fs : FileSystem) (root path : FilePath) (place : FilePath × Metadata)
    → locate fs root path ≡ ok place
    → IsInside fs root place
unfolding locate
locate-IsInside fs root path place h =
    let (candidate, e, h₁) = >>=-eq-ok (map_io_error (fs.canonicalize path)) _ h in
    let (under, h₂) = >>-eq-ok (guard (is_under root candidate) forbidden) _ h₁ in
    let (found, m, h₃) = >>=-eq-ok (map_io_error (fs.metadata candidate)) _ h₂ in
    subst (IsInside fs root) (ok-injective h₃) (
      (path, map_io_error-eq-ok (fs.canonicalize path) e),
      guard-eq-ok _ _ under,
      map_io_error-eq-ok (fs.metadata candidate) m,
    )

index_of-IsInside :
    (fs : FileSystem) (root : FilePath) (first place : FilePath × Metadata)
    → IsInside fs root first
    → index_of fs root first ≡ ok place
    → IsInside fs root place
unfolding index_of
index_of-IsInside fs root (path, found) place inside h = go (is_dir found.kind) h
  where
    go :
        (dir : Bool)
        → (if dir then locate fs root (path ++ (codes "index.html" ∷ [])) else ok (path, found))
          ≡ ok place
        → IsInside fs root place
    go true k = locate-IsInside fs root (path ++ (codes "index.html" ∷ [])) place k
    go false k = subst (IsInside fs root) (ok-injective k) inside

-- A target that resolves leads to a regular file at a canonical place under the canonical root,
-- whatever links the file system has.
pub resolve_static_path-IsInside :
    (fs : FileSystem) (root : FilePath) (raw_target : Bytes) (place : FilePath × Metadata)
    → resolve_static_path fs root raw_target ≡ ok place
    → (root' : FilePath) × (fs.canonicalize root ≡ ok root')
      × IsInside fs root' place
      × (is_file place.1.kind ≡ true)
unfolding resolve_static_path
resolve_static_path-IsInside fs root raw_target place h =
    let (target, _, h₁) = >>=-eq-ok (parse_request_target raw_target) _ h in
    let (root', r, h₂) = >>=-eq-ok (map_io_error (fs.canonicalize root)) _ h₁ in
    let (relative, _, h₃) = >>=-eq-ok (relative_path target.path) _ h₂ in
    let (first, f, h₄) = >>=-eq-ok (locate fs root' (root' ++ relative)) _ h₃ in
    let (last, l, h₅) = >>=-eq-ok (index_of fs root' first) _ h₄ in
    let (regular, h₆) = >>-eq-ok (guard (is_file last.1.kind) not_found) _ h₅ in
    let inside : IsInside fs root' last =
      index_of-IsInside fs root' first last (locate-IsInside fs root' _ first f) l in
    let same : last ≡ place = ok-injective h₆ in
    (
      root',
      map_io_error-eq-ok (fs.canonicalize root) r,
      subst (IsInside fs root') same inside,
      subst (λ p. is_file p.1.kind ≡ true) same (guard-eq-ok _ _ regular),
    )
