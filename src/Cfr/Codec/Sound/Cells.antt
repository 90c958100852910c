-- ===== src/Cfr/Codec/Sound/Cells.antt =====
-- The values that internal/cfr/decode.go gives refer to objects of the right kinds.
use regel.Base.{ℕ, zero, suc, ◌≡◌, Bool, true, Option, List, [], ◌∷◌, ◌>>=◌, Str, get_elem?}
use regel.Cfr.Wire.{Bytes, read_uvarint, read_bytes, read_path, read_f64}
use regel.Cfr.Form.{Cell}
use regel.Cfr.Decode.{
  read_byte, ref_is, env_ref_ok, read_ref, read_env, read_bool, read_number, read_bigint, read_text,
  read_pointer, read_closure, read_opaque, payload_readers, read_cell, read_entry,
}
use regel.Cfr.Codec.Fits.{All}
use regel.Cfr.Codec.Sound.{CellOk, EntryOk, Gives, and_then, skip, guarded}

module _ (types : List ℕ) where
  read_ref-ok : (ok : ℕ → Bool) (bs : Bytes) → Gives (λ r. ok r ≡ true) (read_ref ok bs)
  unfolding read_ref
  read_ref-ok ok bs =
      skip (λ r. ok r ≡ true) (read_uvarint bs) _
        (λ r rest. guarded (λ r. ok r ≡ true) (ok r) _ (λ h. h))

  pub read_env-ok : (bs : Bytes) → Gives (λ r. env_ref_ok types r ≡ true) (read_env types bs)
  unfolding read_env
  read_env-ok bs = read_ref-ok (env_ref_ok types) bs

  read_pointer-CellOk :
      (c : ℕ → Cell) (ok : ℕ → Bool) (bs : Bytes)
      → ((r : ℕ) → ok r ≡ true → CellOk types (c r))
      → Gives (CellOk types) (read_pointer c ok bs)
  unfolding read_pointer
  read_pointer-CellOk c ok bs h =
      and_then (λ r. ok r ≡ true) (CellOk types) (read_ref ok bs) _ (read_ref-ok ok bs)
        (λ r rest k. h r k)

  read_closure-CellOk : (bs : Bytes) → Gives (CellOk types) (read_closure types bs)
  unfolding read_closure
  read_closure-CellOk bs = skip (CellOk types) (read_bytes bs) _ (λ d r1.
      skip (CellOk types) (read_path r1) _ (λ p r2.
        and_then (λ r. env_ref_ok types r ≡ true) (CellOk types) (read_env types r2) _
          (read_env-ok r2) (λ e r3 h. h)))

  read_opaque-CellOk : (bs : Bytes) → Gives (CellOk types) (read_opaque bs)
  unfolding read_opaque
  read_opaque-CellOk bs =
      skip (CellOk types) (read_bytes bs) _
        (λ c r1. skip (CellOk types) (read_bytes r1) _ (λ d r2. tt))

  read_bigint-CellOk : (bs : Bytes) → Gives (CellOk types) (read_bigint bs)
  unfolding read_bigint
  read_bigint-CellOk bs =
      skip (CellOk types) (read_byte bs) _
        (λ c r1. skip (CellOk types) (read_bytes r1) _ (λ d r2. tt))

  read_text-CellOk :
      (c : Str → Cell) (bs : Bytes)
      → ((s : Str) → CellOk types (c s))
      → Gives (CellOk types) (read_text c bs)
  unfolding read_text
  read_text-CellOk c bs h = skip (CellOk types) (read_bytes bs) _ (λ s r. h s)

  readers_ok : All (λ p. (bs : Bytes) → Gives (CellOk types) (p bs)) (payload_readers types)
  unfolding payload_readers read_bool read_number
  readers_ok = (
    (λ bs. tt),
    (
      (λ bs. tt),
      (
        (λ bs. skip (CellOk types) (read_byte bs) _ (λ b r. tt)),
        (
          (λ bs. skip (CellOk types) (read_f64 bs) _ (λ b r. tt)),
          (
            read_bigint-CellOk,
            (
              (λ bs. read_text-CellOk Cell.str bs (λ s. tt)),
              (
                (λ bs. read_pointer-CellOk Cell.array (ref_is 2 types) bs (λ r h. h)),
                (
                  (λ bs. read_pointer-CellOk Cell.rec (ref_is 3 types) bs (λ r h. h)),
                  (
                    read_closure-CellOk,
                    (
                      (λ bs. read_text-CellOk Cell.cap_token bs (λ s. tt)),
                      (read_opaque-CellOk, tt),
                    ),
                  ),
                ),
              ),
            ),
          ),
        ),
      ),
    ),
  )

  by_tag :
      (ps : List (Bytes → Option (Cell × Bytes))) (t : ℕ) (bs : Bytes)
      → All (λ p. (bs : Bytes) → Gives (CellOk types) (p bs)) ps
      → Gives (CellOk types) (get_elem? ps t >>= λ p. p bs)
  by_tag [] t bs h = tt
  by_tag (p ∷ ps) zero bs h = h.0 bs
  by_tag (p ∷ ps) (suc t) bs h = by_tag ps t bs h.1

  pub read_cell-CellOk : (bs : Bytes) → Gives (CellOk types) (read_cell types bs)
  unfolding read_cell
  read_cell-CellOk bs =
      skip (CellOk types) (read_byte bs) _
        (λ t rest. by_tag (payload_readers types) t rest readers_ok)

  pub read_entry-EntryOk : (bs : Bytes) → Gives (EntryOk types) (read_entry types bs)
  unfolding read_entry
  read_entry-EntryOk bs = skip (EntryOk types) (read_bytes bs) _ (λ k rest.
      and_then (CellOk types) (EntryOk types) (read_cell types rest) _ (read_cell-CellOk rest)
        (λ c r h. h))
