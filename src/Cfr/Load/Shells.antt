-- ===== src/Cfr/Load/Shells.antt =====
-- The objects of internal/cfr/decode.go are written again as they were read.
use regel.Base.{
  ℕ, suc, ◌+◌, ◌≤◌, ◌<◌, ◌≡◌, refl, ◌∙◌, true, false, Option, some, List, [], ◌∷◌, length,
  get_elem?, set, length-set, get_elem?-set_self, ◌>>=◌, arith, Str, map,
}
use regel.Cek.Value.{Value, Object, Heap, record_get, lookup_key, insert_key}
use regel.Cek.Records.{elem, distinct, lookup_key-insert_key, lookup_key-insert_key_ne}
use regel.Cfr.Form.{Cell, Shell, env_shell, array_shell, record_shell}
use regel.Cfr.Intern.{field_value}
use regel.Cfr.Image.{cell_of, all_of, entry_of, shell_of_object, shell_of}
use regel.Cfr.Codec.Fits.{All, key_of, EntryFits, ShellFits}
use regel.Cfr.Load.{load_cell, load_fields, load_shell, fill}
use regel.Cfr.Load.Cells.{
  range, ids, Kept, Kept-refl, Kept-trans, Kept-weaken, Kept-set, env_read, load_cell-Reads,
  load_cell-Kept, load_cells-Kept, load_cells-Reads,
}

module _ (n : ℕ) (types : List ℕ) (size : length types ≡ n) where
  load_fields-Kept :
      (i : ℕ) (h : Heap) (m : List (Str × Value)) (es : List (Str × Cell))
      → Kept i n h (load_fields h m es).0
  unfolding load_fields
  load_fields-Kept i h m [] = Kept-refl i n h
  load_fields-Kept i h m ((k, c) ∷ es) =
      Kept-trans i n h _ _ (load_cell-Kept n types size i h c)
        (load_fields-Kept i (load_cell h c).0 (insert_key k (load_cell h c).1 m) es)

  -- A key that is not set reads as before.
  lookup_key-load_fields :
      (h : Heap) (m : List (Str × Value)) (es : List (Str × Cell)) (j : Str)
      → elem j (map key_of es) ≡ false
      → lookup_key j (load_fields h m es).1 ≡ lookup_key j m
  unfolding load_fields
  lookup_key-load_fields h m [] j e = refl
  lookup_key-load_fields h m ((k, c) ∷ es) j e =
      lookup_key-load_fields (load_cell h c).0 (insert_key k (load_cell h c).1 m) es j
        (ground (arith, e))
      ∙ lookup_key-insert_key_ne j k (load_cell h c).1 m (ground (arith, e))

  -- The fields as they are written from a map.
  abbrev fields_of : Heap → List (Str × Value) → Str → Option (Str × Cell)
  fields_of h m k = do c ← cell_of h (ids n) (field_value (lookup_key k m)); some (k, c)

  load_fields-Reads :
      (h : Heap) (m : List (Str × Value)) (es : List (Str × Cell))
      → n ≤ length h
      → All (EntryFits types) es
      → distinct (map key_of es) ≡ true
      → (h' : Heap) → Kept 0 n (load_fields h m es).0 h'
      → all_of (fields_of h' (load_fields h m es).1) (map key_of es) ≡ some es
  unfolding load_fields
  load_fields-Reads h m [] l f d h' g = refl
  load_fields-Reads h m ((k, c) ∷ es) l f d h' g =
      rw
        (
          lookup_key-load_fields (load_cell h c).0 (insert_key k (load_cell h c).1 m) es k
              (ground (arith, d)),
          lookup_key-insert_key k (load_cell h c).1 m,
          load_cell-Reads n types size h c l f.0.1 h' (
              Kept-trans 0 n _ _ h'
                (load_fields-Kept 0 (load_cell h c).0 (insert_key k (load_cell h c).1 m) es) g),
          load_fields-Reads (load_cell h c).0 (insert_key k (load_cell h c).1 m) es
              (omega (arith, l, (load_cell-Kept n types size 0 h c).longer)) f.1 (ground (arith, d))
              h' g,
        )
        refl

  pub load_shell-Kept : (i : ℕ) (h : Heap) (s : Shell) → Kept i n h (load_shell h s).0
  unfolding load_shell
  load_shell-Kept i h (env_shell p cs) = load_cells-Kept n types size i h cs
  load_shell-Kept i h (array_shell cs) = load_cells-Kept n types size i h cs
  load_shell-Kept i h (record_shell es) = load_fields-Kept i h [] es

  load_shell-Reads :
      (h : Heap) (s : Shell)
      → n ≤ length h
      → ShellFits types s
      → (h' : Heap) → Kept 0 n (load_shell h s).0 h'
      → shell_of_object h' (ids n) (load_shell h s).1 ≡ some s
  unfolding load_shell shell_of_object
  load_shell-Reads h (env_shell p cs) l f h' g =
      rw (load_cells-Reads n types size h cs l f.2 h' g, env_read n types size p f.0.1) refl
  load_shell-Reads h (array_shell cs) l f h' g =
      rw (load_cells-Reads n types size h cs l f.1 h' g) refl
  load_shell-Reads h (record_shell es) l f h' g =
      unfold entry_of record_get in rw (load_fields-Reads h [] es l f.1 f.2 h' g) refl

  -- After its shell is filled, an object stays.
  pub fill-Kept :
      (i : ℕ) (h : Heap) (ss : List Shell) → i + length ss ≤ n → Kept i n h (fill i h ss)
  unfolding fill
  fill-Kept i h [] l = Kept-refl i n h
  fill-Kept i h (s ∷ ss) l = Kept-trans i n h _ _ (load_shell-Kept i h s) (
      Kept-trans i n _ _ _ (Kept-set i n (load_shell h s).0 (load_shell h s).1 (omega (arith, l))) (
        Kept-weaken i (suc i) n _ _ (omega arith)
          (fill-Kept (suc i) (set (load_shell h s).0 i (load_shell h s).1) ss (omega (arith, l)))))

  filled :
      (i : ℕ) (h h' : Heap) (o : Object)
      → i < length h
      → Kept (suc i) n (set h i o) h'
      → get_elem? h' i ≡ some o
  filled i h h' o l k =
      k.same i (ground arith) (omega (arith, l, length-set h i o)) ∙ get_elem?-set_self h i o l

  pub fill-Reads :
      (i : ℕ) (h : Heap) (ss : List Shell)
      → n ≤ length h
      → i + length ss ≤ n
      → All (ShellFits types) ss
      → (h' : Heap) → Kept n n (fill i h ss) h'
      → all_of (shell_of h' (ids n)) (range i (length ss)) ≡ some ss
  unfolding fill shell_of
  fill-Reads i h [] l m f h' g = refl
  fill-Reads i h (s ∷ ss) l m f h' g =
      let h1 = (load_shell h s).0 in
      let o = (load_shell h s).1 in
      let h2 = set h1 i o in
      let k1 = load_shell-Kept 0 h s in
      let k3 =
        Kept-trans (suc i) n h2 (fill (suc i) h2 ss) h' (fill-Kept (suc i) h2 ss (omega (arith, m)))
          (Kept-weaken (suc i) n n _ _ (omega (arith, m)) g) in
      rw
        (
          filled i h1 h' o (omega (arith, l, m, k1.longer)) k3,
          load_shell-Reads h s l f.0 h' (
              Kept-trans 0 n h1 h2 h'
                (Kept-weaken 0 i n _ _ (omega arith) (Kept-set i n h1 o (omega (arith, m))))
                (Kept-weaken 0 (suc i) n _ _ (omega arith) k3)),
          fill-Reads (suc i) h2 ss (omega (arith, l, k1.longer, length-set h1 i o))
              (omega (arith, m)) f.1 h' g,
        )
        refl
