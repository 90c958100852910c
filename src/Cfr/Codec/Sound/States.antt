-- ===== src/Cfr/Codec/Sound/States.antt =====
-- The states that internal/cfr/decode.go gives.
use mathlib.Core.Path.{subst}
use regel.Base.{
  sym, ℕ, ◌≡◌, refl, ap, ◌∙◌, true, Option, none, some, List, [], ◌∷◌, leb, ◌&&◌, ◌==◌, Bool-cases,
  inl, inr, map, arith, length,
}
use regel.Cfr.Wire.{Bytes, read_svarint, read_bytes, read_path}
use regel.Cfr.Form.{Shell, StateForm}
use regel.Cfr.Kinds.{mode_of, sig_kind_of, park_reason_of, tier_of, frame_kind_of}
use regel.Cfr.Encode.{shell_tag}
use regel.Cfr.Decode.{
  read_byte, read_list, read_kind, env_ref_ok, read_env, read_cell, read_tag, read_shells,
  read_table, read_signal, read_pend, read_frame, read_version, read_state, all_read, decode,
}
use regel.Cfr.Codec.Fits.{All, types_of}
use regel.Cfr.Codec.Sound.{
  CellOk, ShellOk, SignalOk, PendOk, FrameOk, StateOk, Gives, and_then, skip, guarded,
  read_list-All,
}
use regel.Cfr.Codec.Sound.Cells.{read_env-ok, read_cell-CellOk}
use regel.Cfr.Codec.Sound.Tables.{IsTag, AsTyped, read_cells-All, read_shells-ok}

read_tag-IsTag : (bs : Bytes) → Gives IsTag (read_tag bs)
unfolding read_tag
read_tag-IsTag bs =
    skip IsTag (read_byte bs) _ (λ t rest. guarded IsTag (leb 1 t && leb t 3) _ (λ h. h))

-- The kinds, and objects of these kinds whose references are right.
abbrev TableOk : List ℕ × List Shell → Type 0
TableOk (types, table) = (map shell_tag table ≡ types) × All (ShellOk types) table

read_table-TableOk : (size : ℕ) (bs : Bytes) → Gives TableOk (read_table size bs)
unfolding read_table
read_table-TableOk size bs =
    and_then (All IsTag) TableOk (read_list read_tag size bs) _
      (read_list-All IsTag read_tag read_tag-IsTag size bs)
      (λ types rest h.
        and_then (AsTyped types types) TableOk (read_shells size types types rest) _
          (read_shells-ok types size types rest h) (λ ss r k. k))

module _ (types : List ℕ) where
  read_signal-SignalOk : (bs : Bytes) → Gives (SignalOk types) (read_signal types bs)
  unfolding read_signal
  read_signal-SignalOk bs = skip (SignalOk types) (read_kind sig_kind_of bs) _ (λ k rest.
      and_then (CellOk types) (SignalOk types) (read_cell types rest) _
        (read_cell-CellOk types rest) (λ c r h. h))

  read_pend-PendOk : (bs : Bytes) → Gives (PendOk types) (read_pend types bs)
  unfolding read_pend
  read_pend-PendOk bs = skip (PendOk types) (read_byte bs) _ (λ b rest. elim (Bool-cases (b == 1)) [
    | inl t ↦ rw t (
        and_then (SignalOk types) (PendOk types) (read_signal types rest) _
          (read_signal-SignalOk rest) (λ s r h. h))
    | inr t ↦ rw t tt
  ])

  abbrev EnvOk : ℕ → Type 0
  EnvOk r = env_ref_ok types r ≡ true

  read_frame-FrameOk : (size : ℕ) (bs : Bytes) → Gives (FrameOk types) (read_frame size types bs)
  unfolding read_frame
  read_frame-FrameOk size bs =
      let Q = FrameOk types in
      skip Q (read_kind frame_kind_of bs) _ (λ k r1. skip Q (read_path r1) _ (λ p r2.
        skip Q (read_svarint r2) _ (λ i r3. skip Q (read_svarint r3) _ (λ a r4.
          and_then (All (CellOk types)) Q (read_list (read_cell types) size r4) _
            (read_cells-All types size r4)
            (λ vs r5 h1. and_then EnvOk Q (read_env types r5) _ (read_env-ok types r5) (λ e r6 h2.
              and_then EnvOk Q (read_env types r6) _ (read_env-ok types r6) (λ oe r7 h3.
                skip Q (read_bytes r7) _ (λ rd r8. skip Q (read_path r8) _ (λ rp r9.
                  and_then EnvOk Q (read_env types r9) _ (read_env-ok types r9) (λ re r10 h4.
                    and_then (CellOk types) Q (read_cell types r10) _ (read_cell-CellOk types r10)
                      (λ o r11 h5. skip Q (read_bytes r11) _ (λ key r12.
                        and_then (CellOk types) Q (read_cell types r12) _
                          (read_cell-CellOk types r12)
                          (λ iv r13 h6.
                            and_then (PendOk types) Q (read_pend types r13) _ (read_pend-PendOk r13)
                              (λ pend r14 h7. record {
                                vals = h1;
                                env = h2;
                                outer_env = h3;
                                ret_env = h4;
                                obj = h5;
                                idx_val = h6;
                                pend = h7;
                              }))))))))))))))

-- A state whose references are right for its own table.
abbrev OwnOk : StateForm → Type 0
OwnOk s = StateOk (types_of s) s

own_types :
    (types : List ℕ) (table : List Shell)
    → TableOk (types, table)
    → (s : StateForm) → s.table ≡ table
    → StateOk types s
    → OwnOk s
own_types types table h s q k = subst (λ ts. StateOk ts s) (sym (ap (map shell_tag) q ∙ h.0)) k

read_state-OwnOk : (size : ℕ) (bs : Bytes) → Gives OwnOk (read_state size bs)
unfolding read_state
read_state-OwnOk size bs =
    let Q = OwnOk in
    skip Q (read_version bs) _ (λ _ r1.
      and_then TableOk Q (read_table size r1) _ (read_table-TableOk size r1) (λ (types, table) r2 h.
        skip Q (read_bytes r2) _ (λ d r3. skip Q (read_path r3) _ (λ p r4.
          skip Q (read_kind mode_of r4) _ (λ m r5. skip Q (read_kind park_reason_of r5) _ (λ pk r6.
            skip Q (read_kind tier_of r6) _ (λ t r7. skip Q (read_svarint r7) _ (λ fs r8.
              skip Q (read_svarint r8) _ (λ fa r9.
                and_then (CellOk types) Q (read_cell types r9) _ (read_cell-CellOk types r9)
                  (λ v r10 h1.
                    and_then (SignalOk types) Q (read_signal types r10) _
                      (read_signal-SignalOk types r10)
                      (λ s r11 h2.
                        and_then (EnvOk types) Q (read_env types r11) _ (read_env-ok types r11)
                          (λ e r12 h3.
                            and_then (All (FrameOk types)) Q
                              (read_list (read_frame size types) size r12) _
                              (read_list-All (FrameOk types) (read_frame size types)
                                (read_frame-FrameOk types size) size r12)
                              (λ k r13 h4. own_types types table h _ refl (record {
                                table = h.1;
                                val = h1;
                                sig = h2;
                                env = h3;
                                kont = h4;
                              }))))))))))))))

or_else : {A : Type 0} → A → Option A → A
or_else a none = a
or_else a (some b) = b

from_end :
    {A : Type 0} (P : A → Type 0) (m : Option (A × Bytes)) (a : A)
    → Gives P m
    → all_read m ≡ some a
    → P a
unfolding or_else
from_end P none a h q = absurd (ground (arith, q))
from_end P (some (b, [])) a h q = subst P (ap (or_else b) q) h
from_end P (some (b, c ∷ cs)) a h q = absurd (ground (arith, q))

-- Whatever bytes are decoded, a state that comes out refers only to objects of its own table, and to an
-- environment, an array or a record just where one belongs.
pub decode-StateOk : (bs : Bytes) (s : StateForm) → decode bs ≡ some s → StateOk (types_of s) s
unfolding decode
decode-StateOk bs s q =
    from_end OwnOk (read_state (length bs) bs) s (read_state-OwnOk (length bs) bs) q
