-- ===== src/Cfr/Codec/Sound/Tables.antt =====
-- The objects that internal/cfr/decode.go gives are of the kinds that stand before them, and refer to
-- objects of the right kinds.
use mathlib.Core.Path.{subst}
use regel.Base.{
  ℕ, ◌≡◌, refl, ap₂, true, false, List, [], ◌∷◌, leb, ◌&&◌, ◌==◌, Bool-cases, inl, inr, map, arith,
}
use regel.Cfr.Wire.{Bytes}
use regel.Cfr.Form.{Shell}
use regel.Cfr.Encode.{shell_tag}
use regel.Cfr.Decode.{
  read_list, env_ref_ok, read_env, read_cell, read_entry, read_env_shell, read_array_shell,
  read_record_shell, read_shell, read_shells,
}
use regel.Cfr.Codec.Fits.{All}
use regel.Cfr.Codec.Sound.{CellOk, EntryOk, ShellOk, Gives, and_then, read_list-All}
use regel.Cfr.Codec.Sound.Cells.{read_env-ok, read_cell-CellOk, read_entry-EntryOk}

abbrev pub IsTag : ℕ → Type 0
IsTag t = (leb 1 t && leb t 3) ≡ true

other_tag : (t : ℕ) → IsTag t → (t == 1) ≡ false → (t == 2) ≡ false → 3 ≡ t
other_tag t h a b = ground (arith, h, a, b)

the_tag : (t n : ℕ) → (t == n) ≡ true → n ≡ t
the_tag t n h = ground (arith, h)

module _ (types : List ℕ) where
  pub read_cells-All :
      (size : ℕ) (bs : Bytes) → Gives (All (CellOk types)) (read_list (read_cell types) size bs)
  read_cells-All size bs =
      read_list-All (CellOk types) (read_cell types) (read_cell-CellOk types) size bs

  -- A shell of the kind that the table says.
  abbrev OfKind : ℕ → Shell → Type 0
  OfKind t s = (shell_tag s ≡ t) × ShellOk types s

  read_env_shell-ok : (size : ℕ) (bs : Bytes) → Gives (OfKind 1) (read_env_shell size types bs)
  unfolding read_env_shell
  read_env_shell-ok size bs =
      and_then (λ r. env_ref_ok types r ≡ true) (OfKind 1) (read_env types bs) _
        (read_env-ok types bs)
        (λ p rest h.
          and_then (All (CellOk types)) (OfKind 1) (read_list (read_cell types) size rest) _
            (read_cells-All size rest) (λ cs r k. (refl, (h, k))))

  read_array_shell-ok : (size : ℕ) (bs : Bytes) → Gives (OfKind 2) (read_array_shell size types bs)
  unfolding read_array_shell
  read_array_shell-ok size bs =
      and_then (All (CellOk types)) (OfKind 2) (read_list (read_cell types) size bs) _
        (read_cells-All size bs) (λ cs r k. (refl, k))

  read_record_shell-ok :
      (size : ℕ) (bs : Bytes) → Gives (OfKind 3) (read_record_shell size types bs)
  unfolding read_record_shell
  read_record_shell-ok size bs =
      and_then (All (EntryOk types)) (OfKind 3) (read_list (read_entry types) size bs) _
        (read_list-All (EntryOk types) (read_entry types) (read_entry-EntryOk types) size bs)
        (λ cs r k. (refl, k))

  read_shell-ok :
      (size t : ℕ) (bs : Bytes) → IsTag t → Gives (OfKind t) (read_shell size types t bs)
  unfolding read_shell
  read_shell-ok size t bs h = elim (Bool-cases (t == 1)) [
    | inl a ↦ rw a (
        subst (λ n. Gives (OfKind n) (read_env_shell size types bs)) (the_tag t 1 a)
          (read_env_shell-ok size bs))
    | inr a ↦ elim (Bool-cases (t == 2)) [
      | inl b ↦
          rw (a, b)
            (subst (λ n. Gives (OfKind n) (read_array_shell size types bs)) (the_tag t 2 b)
              (read_array_shell-ok size bs))
      | inr b ↦
          rw (a, b)
            (subst (λ n. Gives (OfKind n) (read_record_shell size types bs)) (other_tag t h a b)
              (read_record_shell-ok size bs))
    ]
  ]

  -- The shells have the kinds that were read before them.
  abbrev pub AsTyped : List ℕ → List Shell → Type 0
  AsTyped ts ss = (map shell_tag ss ≡ ts) × All (ShellOk types) ss

  pub read_shells-ok :
      (size : ℕ) (ts : List ℕ) (bs : Bytes)
      → All IsTag ts
      → Gives (AsTyped ts) (read_shells size types ts bs)
  unfolding read_shells
  read_shells-ok size [] bs h = (refl, tt)
  read_shells-ok size (t ∷ ts) bs h =
      and_then (OfKind t) (AsTyped (t ∷ ts)) (read_shell size types t bs) _
        (read_shell-ok size t bs h.0)
        (λ s rest k.
          and_then (AsTyped ts) (AsTyped (t ∷ ts)) (read_shells size types ts rest) _
            (read_shells-ok size ts rest h.1)
            (λ ss r l. (ap₂ (λ a as'. a ∷ as') k.0 l.0, (k.1, l.1))))
