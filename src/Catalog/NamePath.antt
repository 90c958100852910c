-- ===== src/Catalog/NamePath.antt =====
-- internal/catalog/namepath.go: a catalog name and its path, with strings.TrimPrefix, HasSuffix and
-- TrimSuffix of Go's library written out.
use regel.Base.{
  ℕ, ◌≡◌, refl, ap, ◌∙◌, Bool, true, false, Option, none, some, [], ◌∷◌, ◌++◌, length,
  length-append, Str, codes, str_eq, str_eq_refl, str_eq→eq, if◌then◌else◌, ◌==◌, ◌⊎◌, inl, inr,
  Bool-cases, Option-cases, arith,
}

abbrev pub ts_ext : Str
ts_ext = codes ".ts"

-- `func NamePath`
unfoldable pub name_path : Str → Str
name_path name = name ++ ts_ext

-- strings.TrimPrefix(path, "/")
unfoldable pub trim_slash : Str → Str
trim_slash [] = []
trim_slash (c ∷ s) = if c == b'/' then s else c ∷ s

-- The text before a suffix, if the text ends in it.
unfoldable pub before_suffix : Str → Str → Option Str
before_suffix suffix [] = if str_eq [] suffix then some [] else none
before_suffix suffix (c ∷ s) =
    let later = before_suffix suffix s in
    if str_eq (c ∷ s) suffix then some [] else elim later [ none ↦ none | some p ↦ some (c ∷ p) ]

-- `func NameFromPath`
unfoldable pub name_from_path : Str → Option Str
unfolding trim_slash before_suffix
name_from_path path = before_suffix ts_ext (trim_slash path)

longer : (s suffix : Str) (c : ℕ) → str_eq (c ∷ s ++ suffix) suffix ≡ false
longer s suffix c = elim (Bool-cases (str_eq (c ∷ s ++ suffix) suffix)) [
  | inl t ↦
      absurd
        (omega (arith, ap length (str_eq→eq (c ∷ s ++ suffix) suffix t), length-append s suffix))
  | inr t ↦ t
]

before_suffix-append : (s suffix : Str) → before_suffix suffix (s ++ suffix) ≡ some s
unfolding before_suffix
before_suffix-append [] [] = unfold str_eq in refl
before_suffix-append [] (d ∷ suffix) = rw (str_eq_refl (d ∷ suffix)) refl
before_suffix-append (c ∷ s) suffix = rw (longer s suffix c, before_suffix-append s suffix) refl

some_inj : (a b : Str) → some a ≡ some b → a ≡ b
some_inj a b e = ap (λ o. elim o [ none ↦ a | some x ↦ x ]) e

before_suffix_sound : (suffix s p : Str) → before_suffix suffix s ≡ some p → s ≡ p ++ suffix
unfolding before_suffix
before_suffix_sound suffix [] p h = elim (Bool-cases (str_eq [] suffix)) [
  | inl t ↦ str_eq→eq [] suffix t ∙ ap (λ q. q ++ suffix) (some_inj [] p (rw t at h))
  | inr t ↦ absurd (ground (arith, rw t at h))
]
before_suffix_sound suffix (c ∷ s) p h = elim (Bool-cases (str_eq (c ∷ s) suffix)) [
  | inl t ↦ str_eq→eq (c ∷ s) suffix t ∙ ap (λ q. q ++ suffix) (some_inj [] p (rw t at h))
  | inr t ↦ elim (Option-cases (before_suffix suffix s)) [
    | inl z ↦ absurd (ground (arith, rw (t, z) at h))
    | inr (q, z) ↦
        ap (λ x. c ∷ x) (before_suffix_sound suffix s q z)
        ∙ ap (λ x. x ++ suffix) (some_inj (c ∷ q) p (rw (t, z) at h))
  ]
]

abbrev pub starts_with_slash : Str → Bool
starts_with_slash [] = false
starts_with_slash (c ∷ s) = c == b'/'

trim_slash-plain : (s : Str) → starts_with_slash s ≡ false → trim_slash (s ++ ts_ext) ≡ s ++ ts_ext
unfolding trim_slash
trim_slash-plain [] h = refl
trim_slash-plain (c ∷ s) h = rw h refl

-- A name that does not start with a slash is read back from its path, and from its path with a slash in
-- front.
pub name_from_path-name_path :
    (name : Str)
    → starts_with_slash name ≡ false
    → (name_from_path (name_path name) ≡ some name)
      × (name_from_path (b'/' ∷ name_path name) ≡ some name)
unfolding name_from_path name_path
name_from_path-name_path name h = (
  rw (trim_slash-plain name h) (before_suffix-append name ts_ext),
  unfold trim_slash in before_suffix-append name ts_ext,
)

slash_split : (path q : Str) → trim_slash path ≡ q → (path ≡ q) ⊎ (path ≡ b'/' ∷ q)
unfolding trim_slash
slash_split [] q h = inl h
slash_split (c ∷ s) q h = elim (Bool-cases (c == b'/')) [
  | inl t ↦ inr (rw (slash c t) (ap (λ x. b'/' ∷ x) (rw t at h)))
  | inr t ↦ inl (rw t at h)
]
  where
    slash : (d : ℕ) → (d == b'/') ≡ true → d ≡ b'/'
    slash d q = ground (arith, q)

-- Whatever path a name is read from, it is the path of the name, or that with a slash in front.
pub name_from_path_sound :
    (path name : Str)
    → name_from_path path ≡ some name
    → (path ≡ name_path name) ⊎ (path ≡ b'/' ∷ name_path name)
unfolding name_from_path name_path
name_from_path_sound path name h =
    slash_split path (name ++ ts_ext) (before_suffix_sound ts_ext (trim_slash path) name h)
