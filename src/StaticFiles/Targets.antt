-- ===== src/StaticFiles/Targets.antt =====
-- `parse_request_target` and `relative_path` (run/slave/src/static_files.rs): what an accepted target
-- is, and that no part of its path leads out of the root.
use thwip.Prelude.{
  ℕ, ◌≡◌, refl, Bool, true, false, not, ◌||◌, inl, inr, Option, none, some, List, [], ◌∷◌, ◌++◌,
  arith, ◌==◌, is_empty, any, All, Bool-cases, Result, ok, ◌>>=◌, ◌>>◌, guard, >>=-eq-ok, >>-eq-ok,
  guard-eq-ok,
}
use thwip.Prelude.Text.{
  Bytes, codes, ◌=ᵇ◌, starts_with, split_once, split, extend_first, contains, is_ascii_control,
}
use thwip.Prelude.Utf8.{is_utf8}
use thwip.StaticFiles.{
  StaticError, bad_request, FilePath, Component, root_dir, cur_dir, parent_dir, normal,
  component_of, components_of, first_component, components, relative_of, relative_path,
  RequestTarget, split_query, percent_decode, target_of, parse_request_target,
}

-- A file name: not empty, neither dot nor two dots, and without a slash.
abbrev pub IsName : Bytes → Type 0
IsName part =
    (is_empty part ≡ false)
    × ((part =ᵇ codes ".") ≡ false)
    × ((part =ᵇ codes "..") ≡ false)
    × (contains b'/' part ≡ false)

abbrev IsSafe : Component → Type 0
IsSafe (normal part) = IsName part
IsSafe root_dir = Unit
IsSafe cur_dir = Unit
IsSafe parent_dir = Unit

extend_first-NoSlash :
    (c : ℕ) (parts : List Bytes)
    → (c == b'/') ≡ false
    → All (λ p. contains b'/' p ≡ false) parts
    → All (λ p. contains b'/' p ≡ false) (extend_first c parts)
extend_first-NoSlash c [] h a = (ground arith, tt)
extend_first-NoSlash c (p ∷ ps) h (a, rest_a) = (ground arith, rest_a)

split-NoSlash : (s : Bytes) → All (λ p. contains b'/' p ≡ false) (split b'/' s)
unfolding split
split-NoSlash [] = (refl, tt)
split-NoSlash (c ∷ s) = elim (Bool-cases (c == b'/')) [
  | inl h ↦ rw h (refl, split-NoSlash s)
  | inr h ↦ rw h (extend_first-NoSlash c (split b'/' s) h (split-NoSlash s))
]

components_of-IsSafe :
    (parts : List Bytes)
    → All (λ p. contains b'/' p ≡ false) parts
    → All IsSafe (components_of parts)
unfolding components_of
components_of-IsSafe [] a = tt
components_of-IsSafe (p ∷ ps) (a, rest_a) = go (components_of ps) (components_of-IsSafe ps rest_a)
  where
    go :
        (rest : List Component)
        → All IsSafe rest
        → All IsSafe (elim (component_of p) [ none ↦ rest | some c ↦ c ∷ rest ])
    go rest safe = ground arith

first_component-IsSafe :
    (parts : List Bytes) (rest : List Component)
    → All IsSafe rest
    → All IsSafe (first_component parts ++ rest)
first_component-IsSafe [] rest safe = safe
first_component-IsSafe (p ∷ ps) rest safe = ground arith

components-IsSafe : (path : Bytes) → All IsSafe (components path)
unfolding components
components-IsSafe [] = tt
components-IsSafe (c ∷ s) =
    first_component-IsSafe (split b'/' (c ∷ s)) _
      (components_of-IsSafe (split b'/' (c ∷ s)) (split-NoSlash (c ∷ s)))

abbrev ok_path : FilePath → Result FilePath StaticError
ok_path p = ok p

relative_of-IsName :
    (cs : List Component) (relative : FilePath)
    → All IsSafe cs
    → relative_of cs ≡ ok relative
    → All IsName relative
unfolding relative_of
relative_of-IsName [] relative safe h = ground arith
relative_of-IsName (root_dir ∷ cs) relative (s, safe) h = relative_of-IsName cs relative safe h
relative_of-IsName (cur_dir ∷ cs) relative safe h = cc
relative_of-IsName (parent_dir ∷ cs) relative safe h = cc
relative_of-IsName (normal part ∷ cs) relative (s, safe) h =
    go (>>=-eq-ok (relative_of cs) _ h) (λ rest. relative_of-IsName cs rest safe)
  where
    go :
        (rest : FilePath) × (relative_of cs ≡ ok rest) × (ok_path (part ∷ rest) ≡ ok relative)
        → ((rest : FilePath) → relative_of cs ≡ ok rest → All IsName rest)
        → All IsName relative
    go (rest, e, same) ih = let names = ih rest e in ground arith

-- Every part of a path that `relative_path` answers is a plain file name, so that the joined path
-- lies under the root.
pub relative_path-IsName :
    (path : Bytes) (relative : FilePath) → relative_path path ≡ ok relative → All IsName relative
unfolding relative_path
relative_path-IsName path relative h =
    relative_of-IsName (components path) relative (components-IsSafe path) h

abbrev is_control : ℕ → Bool
is_control byte = (byte == 0) || is_ascii_control byte

-- What `parse_request_target` answers with: text without control bytes, whose parts are all names.
abbrev pub IsTarget : Bytes → Type 0
IsTarget path =
    (is_utf8 path ≡ true)
    × (any is_control path ≡ false)
    × ((relative : FilePath) × (relative_path path ≡ ok relative) × All IsName relative)

checks :
    (path : Bytes) (answer : RequestTarget) (query : Option Bytes)
    → (guard (is_utf8 path) bad_request
        >> (guard (not (any is_control path)) bad_request
            >> (relative_path path >>= λ relative. ok (record { path = path; query = query }))))
      ≡ ok answer
    → (answer.path ≡ path) × (answer.query ≡ query) × IsTarget path
checks path answer query h =
    let (utf8, h₁) = >>-eq-ok (guard (is_utf8 path) bad_request) _ h in
    let (clean, h₂) = >>-eq-ok (guard (not (any is_control path)) bad_request) _ h₁ in
    let (relative, e, h₃) = >>=-eq-ok (relative_path path) _ h₂ in
    (
      ground arith,
      ground arith,
      (guard-eq-ok _ _ utf8, ground arith, (relative, e, relative_path-IsName path relative e)),
    )

pub target_of-IsTarget :
    (raw : Bytes) (query : Option Bytes) (answer : RequestTarget)
    → target_of (raw, query) ≡ ok answer
    → (starts_with (codes "/") raw ≡ true)
      × (percent_decode raw ≡ ok answer.path)
      × (answer.query ≡ query)
      × IsTarget answer.path
unfolding target_of
target_of-IsTarget raw query answer h =
    let (slash, h₁) = >>-eq-ok (guard (starts_with (codes "/") raw) bad_request) _ h in
    let (path, e, h₂) = >>=-eq-ok (percent_decode raw) _ h₁ in
    let (p, q, target) = checks path answer query h₂ in
    (ground arith, rw (p, e) refl, q, rw p target)

-- An accepted request target starts with a slash, and the path it decodes to is text without control
-- bytes whose parts are all plain names.
pub parse_request_target-IsTarget :
    (raw : Bytes) (answer : RequestTarget)
    → parse_request_target raw ≡ ok answer
    → (starts_with (codes "/") (split_query raw (split_once b'?' raw)).0 ≡ true)
      × (percent_decode (split_query raw (split_once b'?' raw)).0 ≡ ok answer.path)
      × (answer.query ≡ (split_query raw (split_once b'?' raw)).1)
      × IsTarget answer.path
unfolding parse_request_target
parse_request_target-IsTarget raw answer h =
    target_of-IsTarget (split_query raw (split_once b'?' raw)).0
      (split_query raw (split_once b'?' raw)).1 answer h
