-- ===== src/Common/Path.antt =====
-- Paths of files, as `PathBuf` compares them: by their components. A repeated `/`, one at the end
-- and a `.` that is not at the start make no difference.
use Prim.Native.Char.{code}
use Prim.Native.String.{String, [], ◌∷◌}
use mathlib.Core.List.{List, [] as nil, ◌∷◌ as cons}
use libinput_rs.Common.{
  ℕ, ◌==◌, Bool, true, false, not, ◌&&◌, ◌≡◌, refl, if◌then◌else◌, retain, beq_self,
}

-- The numbers of the characters of a text.
abbrev pub codes : String → List ℕ
codes [] = nil
codes (c ∷ s) = cons (code c) (codes s)

abbrev slash : ℕ
slash = 47

abbrev dot : ℕ
dot = 46

abbrev prepend : ℕ → List (List ℕ) → List (List ℕ)
prepend c nil = cons (cons c nil) nil
prepend c (cons s ss) = cons (cons c s) ss

-- What stands between the slashes.
abbrev segments : List ℕ → List (List ℕ)
segments nil = cons nil nil
segments (cons c cs) =
    let rest = segments cs in if c == slash then cons nil rest else prepend c rest

-- Nothing, or a `.`.
abbrev is_void : List ℕ → Bool
is_void nil = true
is_void (cons c nil) = c == dot
is_void (cons c (cons d cs)) = false

abbrev names : List ℕ → List (List ℕ)
names path = retain (λ s. not (is_void s)) (segments path)

-- A path starts at the root (1), at a `.` (2), or with a name (0).
abbrev start_of_segment : List (List ℕ) → ℕ
start_of_segment nil = 0
start_of_segment (cons s ss) = if is_void s then 2 else 0

abbrev path_start : List ℕ → ℕ
path_start nil = 0
path_start (cons c cs) = if c == slash then 1 else start_of_segment (segments (cons c cs))

abbrev same_name : List ℕ → List ℕ → Bool
same_name nil nil = true
same_name nil (cons d ds) = false
same_name (cons c cs) nil = false
same_name (cons c cs) (cons d ds) = c == d && same_name cs ds

abbrev same_names : List (List ℕ) → List (List ℕ) → Bool
same_names nil nil = true
same_names nil (cons t ts) = false
same_names (cons s ss) nil = false
same_names (cons s ss) (cons t ts) = same_name s t && same_names ss ts

-- `==` of two paths.
unfoldable pub path_eq : String → String → Bool
unfolding retain
path_eq p q =
    path_start (codes p) == path_start (codes q) && same_names (names (codes p)) (names (codes q))

same_name_self : (s : List ℕ) → same_name s s ≡ true
same_name_self nil = refl
same_name_self (cons c s) = rw (beq_self c, same_name_self s) refl

same_names_self : (ss : List (List ℕ)) → same_names ss ss ≡ true
same_names_self nil = refl
same_names_self (cons s ss) = rw (same_name_self s, same_names_self ss) refl

pub path_eq_self : (p : String) → path_eq p p ≡ true
unfolding path_eq
path_eq_self p = rw (beq_self (path_start (codes p)), same_names_self (names (codes p))) refl
