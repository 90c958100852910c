-- ===== src/Cfr/Image/Fits/Tables.antt =====
-- The objects of the table of internal/cfr get shells that fit.
use regel.Base.{
  ℕ, suc, ◌<◌, ◌≡◌, refl, ap, ap₂, ◌∙◌, true, Option, none, some, List, [], ◌∷◌, length, get_elem?,
  map, ◌>>=◌, arith, Str,
}
use regel.Cek.Value.{
  Object, env_obj, array_obj, record_obj, closure_obj, opaque_obj, Heap, RecordObj, record_get,
}
use regel.Cek.Records.{distinct}
use regel.Cfr.Form.{Cell, Shell, env_shell, array_shell, record_shell}
use regel.Cfr.Encode.{shell_tag}
use regel.Cfr.Intern.{
  mem, kind_at, object_kind, target, field_value, field_values, children_of, children,
}
use regel.Cfr.Intern.Reach.{Placed}
use regel.Cfr.Image.{ref_of, all_of, entry_of, shell_of_object, shell_of}
use regel.Cfr.Codec.Fits.{key_of, All, Short, EntryFits, ShellFits}
use regel.Cfr.Image.Fits.{FieldFits, ObjectFits}
use regel.Cfr.Image.Fits.Values.{kinds, Placed-env, cell_of-Fits, cells_of-Fits}

module _ (h : Heap) (t : List ℕ) (few : Short t) where
  abbrev SettledField : RecordObj → Str → Type 0
  SettledField r k = FieldFits h r k × Placed t (target h (field_value (record_get r k)))

  settle_fields :
      (r : RecordObj) (ks : List Str)
      → All (FieldFits h r) ks
      → All (Placed t) (map (target h) (field_values r ks))
      → All (SettledField r) ks
  unfolding field_values
  settle_fields r [] k p = tt
  settle_fields r (x ∷ ks) k p = ((k.0, p.0), settle_fields r ks k.1 p.1)

  entry_of-Fits :
      (r : RecordObj) (k : Str)
      → SettledField r k
      → (c : Cell) × (entry_of h t r k ≡ some (k, c)) × EntryFits (kinds h t) (k, c)
  unfolding entry_of
  entry_of-Fits r k s =
      let (c, q, l) = cell_of-Fits h t (field_value (record_get r k)) few s.0.1 s.1 in
      (c, rw q refl, (s.0.0, l))

  entries_of-Fits :
      (r : RecordObj) (ks : List Str)
      → All (SettledField r) ks
      → (es : List (Str × Cell)) × (all_of (entry_of h t r) ks ≡ some es)
        × All (EntryFits (kinds h t)) es
        × (map key_of es ≡ ks)
        × (length es ≡ length ks)
  entries_of-Fits r [] s = ([], refl, tt, refl, refl)
  entries_of-Fits r (k ∷ ks) s =
      let (c, q, f) = entry_of-Fits r k s.0 in
      let (es, qs, fs, e, l) = entries_of-Fits r ks s.1 in
      ((k, c) ∷ es, rw (q, qs) refl, (f, fs), ap (λ l. k ∷ l) e, ap suc l)

  -- What an object of the table is written as.
  abbrev pub Written : Option Shell → ℕ → Type 0
  Written o k = (s : Shell) × (o ≡ some s) × ShellFits (kinds h t) s × (shell_tag s ≡ k)

  shell_of_object-Fits :
      (o : Object)
      → ObjectFits h o
      → 0 < object_kind (some o)
      → All (Placed t) (children_of h (some o))
      → Written (shell_of_object h t o) (object_kind (some o))
  unfolding shell_of_object children_of
  shell_of_object-Fits (env_obj p vs) k l m =
      let (cs, q, f, n) = cells_of-Fits h t vs few k.2 m.1 in
      (env_shell (ref_of t p) cs, rw q refl, (Placed-env h t p few m.0 k.0, rw n k.1, f), refl)
  shell_of_object-Fits (array_obj vs) k l m =
      let (cs, q, f, n) = cells_of-Fits h t vs few k.1 m in
      (array_shell cs, rw q refl, (rw n k.0, f), refl)
  shell_of_object-Fits (record_obj r) k l m =
      let (es, q, f, e, n) = entries_of-Fits r r.keys (settle_fields r r.keys k.1 m) in
      (record_shell es, rw q refl, (rw n k.0, f, ap distinct e ∙ k.2), refl)
  shell_of_object-Fits (closure_obj d p e) k l m = absurd (omega (arith, l))
  shell_of_object-Fits (opaque_obj c d) k l m = absurd (omega (arith, l))

  shell_of_option :
      (o : Option Object)
      → ((x : Object) → o ≡ some x → ObjectFits h x)
      → 0 < object_kind o
      → All (Placed t) (children_of h o)
      → Written (o >>= shell_of_object h t) (object_kind o)
  unfolding children_of
  shell_of_option none k l m = absurd (omega (arith, l))
  shell_of_option (some o) k l m = shell_of_object-Fits o (k o refl) l m

  pub shell_of-Fits :
      ((a : ℕ) (x : Object) → get_elem? h a ≡ some x → ObjectFits h x)
      → (a : ℕ) → 0 < kind_at h a
      → All (Placed t) (children h a)
      → Written (shell_of h t a) (kind_at h a)
  unfolding shell_of kind_at children
  shell_of-Fits k a l m = shell_of_option (get_elem? h a) (k a) l m

  pub shells_of-Fits :
      ((a : ℕ) → mem a t ≡ true → Written (shell_of h t a) (kind_at h a))
      → (xs : List ℕ) → ((a : ℕ) → mem a xs ≡ true → mem a t ≡ true)
      → (ss : List Shell) × (all_of (shell_of h t) xs ≡ some ss)
        × All (ShellFits (kinds h t)) ss
        × (map shell_tag ss ≡ map (kind_at h) xs)
        × (length ss ≡ length xs)
  shells_of-Fits each [] sub = ([], refl, tt, refl, refl)
  shells_of-Fits each (x ∷ xs) sub =
      let (s, q, f, e) = each x (sub x (ground arith)) in
      let (ss, qs, fs, es, l) = shells_of-Fits each xs (λ a m. sub a (ground (arith, m))) in
      (s ∷ ss, rw (q, qs) refl, (f, fs), ap₂ (λ a b. a ∷ b) e es, ap suc l)
