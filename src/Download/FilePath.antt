-- ===== src/Download/FilePath.antt =====
-- path.Join with path.Clean, and strings.Replace, of Go's standard library.
use vectory.Base.{
  ℕ, zero, suc, ◌-◌, ◌≡◌, refl, Bool, true, false, List, [], ◌∷◌, ◌++◌, Bytes, codes, bytes_same,
  split, is_empty, has_prefix, length, ◌==◌, ◌||◌, if◌then◌else◌,
}

-- One component more; the components so far, last first.
clean_step : Bool → Bytes → List Bytes → List Bytes
clean_step rooted ps [] =
    if bytes_same ps (codes "..") then (if rooted then [] else ps ∷ []) else ps ∷ []
clean_step rooted ps (q ∷ qs) =
    if bytes_same ps (codes "..")
    then (if bytes_same q (codes "..") then ps ∷ q ∷ qs else qs)
    else ps ∷ q ∷ qs

clean_parts : Bool → List Bytes → List Bytes → List Bytes
unfolding clean_step
clean_parts rooted [] out = out
clean_parts rooted (p ∷ ps) out =
    clean_parts rooted ps
      (if is_empty p || bytes_same p (codes ".") then out else clean_step rooted p out)

slashed : List Bytes → Bytes → Bytes
slashed [] out = out
slashed (p ∷ ps) out = slashed ps (p ++ (b'/' ∷ out))

-- The components, last first, with slashes between them.
with_slashes : List Bytes → Bytes
unfolding slashed
with_slashes [] = []
with_slashes (p ∷ ps) = slashed ps p

abbrev or_dot : Bytes → Bytes
or_dot [] = codes "."
or_dot (c ∷ s) = c ∷ s

unfoldable pub clean : Bytes → Bytes
unfolding clean_parts with_slashes
clean [] = codes "."
clean (c ∷ s) =
    if c == b'/'
    then b'/' ∷ with_slashes (clean_parts true (split s b'/') [])
    else or_dot (with_slashes (clean_parts false (split (c ∷ s) b'/') []))

-- The elements with slashes between, from the first one that is not empty.
join_raw : List Bytes → Bytes → Bytes
join_raw [] out = out
join_raw (e ∷ es) out = join_raw es (if is_empty out then e else out ++ (b'/' ∷ e))

unfoldable pub join : List Bytes → Bytes
unfolding clean join_raw
join es = let raw = join_raw es [] in if is_empty raw then [] else clean raw

-- The bytes of a match are skipped: `skip` counts those that are left.
replace_from : Bytes → Bytes → ℕ → Bytes → Bytes
replace_from old new skip [] = []
replace_from old new (suc skip) (c ∷ s) = replace_from old new skip s
replace_from old new zero (c ∷ s) =
    let hit = replace_from old new (length old - 1) s in
    let miss = replace_from old new 0 s in if has_prefix (c ∷ s) old then new ++ hit else c ∷ miss

-- strings.Replace(s, old, new, -1) for an `old` that is not empty.
unfoldable pub replace_all : Bytes → Bytes → Bytes → Bytes
unfolding replace_from
replace_all s old new = replace_from old new 0 s

relative_path : join (codes "./etc/" ∷ codes "../a//b" ∷ []) ≡ codes "a/b"
unfolding join split
relative_path = refl

above_root : join (codes "/x" ∷ codes "../../y" ∷ []) ≡ codes "/y"
unfolding join split
above_root = refl

two_names : replace_all (codes "{n}_{n}.f") (codes "{n}") (codes "ab") ≡ codes "ab_ab.f"
unfolding replace_all
two_names = refl
