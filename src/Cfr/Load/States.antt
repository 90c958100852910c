-- ===== src/Cfr/Load/States.antt =====
-- The state of internal/cfr/decode.go is written again as it was read.
use mathlib.Core.List.{reverse, reverse-reverse}
use regel.Base.{
  ◌∙◌, ℕ, suc, ◌≤◌, ◌≡◌, refl, ap, Option, none, some, List, [], ◌∷◌, length, map, arith,
}
use regel.Cek.Value.{Heap}
use regel.Cfr.Form.{SignalForm, FrameForm, StateForm}
use regel.Cfr.Encode.{shell_tag}
use regel.Cfr.Image.{all_of, shell_of, table_of, signal_of, pend_of, frame_of, form_of}
use regel.Cfr.Codec.Fits.{All, CellFits, PendFits, FrameFits, StateFits, types_of}
use regel.Cfr.Load.{
  blank, load_cell, load_cells, load_table, load_signal, load_pend, load_frame, load_frames,
  load_state,
}
use regel.Cfr.Load.Cells.{
  ids, Kept, Kept-refl, Kept-trans, env_read, load_cell-Reads, load_cell-Kept, load_cells-Kept,
  load_cells-Reads,
}
use regel.Cfr.Load.Shells.{fill-Kept, fill-Reads}

module _ (n : ℕ) (types : List ℕ) (size : length types ≡ n) where
  load_signal-Kept : (i : ℕ) (h : Heap) (s : SignalForm) → Kept i n h (load_signal h s).0
  unfolding load_signal
  load_signal-Kept i h s = load_cell-Kept n types size i h s.val

  load_signal-Reads :
      (h : Heap) (s : SignalForm)
      → n ≤ length h
      → CellFits types s.val
      → (h' : Heap) → Kept 0 n (load_signal h s).0 h'
      → signal_of h' (ids n) (load_signal h s).1 ≡ some s
  unfolding load_signal signal_of
  load_signal-Reads h s l f h' g = rw (load_cell-Reads n types size h s.val l f h' g) refl

  load_pend-Kept : (i : ℕ) (h : Heap) (s : Option SignalForm) → Kept i n h (load_pend h s).0
  unfolding load_pend
  load_pend-Kept i h none = Kept-refl i n h
  load_pend-Kept i h (some s) = load_signal-Kept i h s

  load_pend-Reads :
      (h : Heap) (s : Option SignalForm)
      → n ≤ length h
      → PendFits types s
      → (h' : Heap) → Kept 0 n (load_pend h s).0 h'
      → pend_of h' (ids n) (load_pend h s).1 ≡ some s
  unfolding load_pend pend_of
  load_pend-Reads h none l f h' g = refl
  load_pend-Reads h (some s) l f h' g = rw (load_signal-Reads h s l f h' g) refl

  module _ (f : FrameForm) (h : Heap) where
    abbrev h1 : Heap
    h1 = (load_cells h f.vals).0

    abbrev h2 : Heap
    h2 = (load_cell h1 f.obj).0

    abbrev h3 : Heap
    h3 = (load_cell h2 f.idx_val).0

    kept1 : (i : ℕ) → Kept i n h h1
    kept1 i = load_cells-Kept n types size i h f.vals

    kept2 : (i : ℕ) → Kept i n h1 h2
    kept2 i = load_cell-Kept n types size i h1 f.obj

    kept3 : (i : ℕ) → Kept i n h2 h3
    kept3 i = load_cell-Kept n types size i h2 f.idx_val

    kept4 : (i : ℕ) → Kept i n h3 (load_pend h3 f.pend).0
    kept4 i = load_pend-Kept i h3 f.pend

    load_frame-Kept : (i : ℕ) → Kept i n h (load_frame h f).0
    unfolding load_frame
    load_frame-Kept i =
        Kept-trans i n h h1 _ (kept1 i)
          (Kept-trans i n h1 h2 _ (kept2 i) (Kept-trans i n h2 h3 _ (kept3 i) (kept4 i)))

    load_frame-Reads :
        n ≤ length h
        → FrameFits types f
        → (h' : Heap) → Kept 0 n (load_frame h f).0 h'
        → frame_of h' (ids n) (load_frame h f).1 ≡ some f
    unfolding load_frame frame_of
    load_frame-Reads l k h' g =
        let k3 = Kept-trans 0 n h3 _ h' (kept4 0) g in
        let k2 = Kept-trans 0 n h2 h3 h' (kept3 0) k3 in
        let k1 = Kept-trans 0 n h1 h2 h' (kept2 0) k2 in
        let l1 : n ≤ length h1 = omega (arith, l, (kept1 0).longer) in
        let l2 : n ≤ length h2 = omega (arith, l1, (kept2 0).longer) in
        let l3 : n ≤ length h3 = omega (arith, l2, (kept3 0).longer) in
        rw
          (
            load_cells-Reads n types size h f.vals l k.vals h' k1,
            load_cell-Reads n types size h1 f.obj l1 k.obj h' k2,
            load_cell-Reads n types size h2 f.idx_val l2 k.idx_val h' k3,
            load_pend-Reads h3 f.pend l3 k.pend h' g,
            env_read n types size f.env k.env.1,
            env_read n types size f.outer_env k.outer_env.1,
            env_read n types size f.ret_env k.ret_env.1,
          )
          refl

  load_frames-Kept : (i : ℕ) (h : Heap) (fs : List FrameForm) → Kept i n h (load_frames h fs).0
  unfolding load_frames
  load_frames-Kept i h [] = Kept-refl i n h
  load_frames-Kept i h (f ∷ fs) =
      Kept-trans i n h _ _ (load_frame-Kept f h i) (load_frames-Kept i (load_frame h f).0 fs)

  load_frames-Reads :
      (h : Heap) (fs : List FrameForm)
      → n ≤ length h
      → All (FrameFits types) fs
      → (h' : Heap) → Kept 0 n (load_frames h fs).0 h'
      → all_of (frame_of h' (ids n)) (load_frames h fs).1 ≡ some fs
  unfolding load_frames
  load_frames-Reads h [] l k h' g = refl
  load_frames-Reads h (f ∷ fs) l k h' g =
      rw
        (
          load_frame-Reads f h l k.0 h'
              (Kept-trans 0 n _ _ h' (load_frames-Kept 0 (load_frame h f).0 fs) g),
          load_frames-Reads (load_frame h f).0 fs (omega (arith, l, (load_frame-Kept f h 0).longer))
              k.1 h' g,
        )
        refl

length-map {ℓ κ} :
    {A : Type ℓ} {B : Type κ} (f : A → B) (xs : List A) → length (map f xs) ≡ length xs
length-map f [] = refl
length-map f (x ∷ xs) = ap suc (length-map f xs)

load_table-size : (s : StateForm) → StateFits s → length s.table ≤ length (load_table s.table)
unfolding load_table
load_table-size s k =
    let n = length s.table in
    omega (
      arith,
      length-map blank s.table,
      (fill-Kept n (types_of s) (length-map shell_tag s.table) 0 (map blank s.table) s.table
          (omega arith)).longer,
    )

load_table-Reads :
    (s : StateForm)
    → StateFits s
    → (h' : Heap) → Kept (length s.table) (length s.table) (load_table s.table) h'
    → all_of (shell_of h' (ids (length s.table))) (ids (length s.table)) ≡ some s.table
unfolding load_table
load_table-Reads s k =
    fill-Reads (length s.table) (types_of s) (length-map shell_tag s.table) 0 (map blank s.table)
      s.table (omega (arith, length-map blank s.table)) (omega arith) k.table

-- The memory that a form is loaded into, seen through the table 0, 1, ..., has that form.
pub form_of-load_state :
    (s : StateForm) → StateFits s → form_of (load_state s) (ids (length s.table)) ≡ some s
unfolding form_of load_state table_of
form_of-load_state s k =
    let n = length s.table in
    let types = types_of s in
    let size : length types ≡ n = length-map shell_tag s.table in
    let h0 = load_table s.table in
    let ends = load_table-size s k in
    let h1 = (load_cell h0 s.val).0 in
    let h2 = (load_signal h1 s.sig).0 in
    let h3 = (load_frames h2 s.kont).0 in
    let l1 : n ≤ length h1 = omega (arith, ends, (load_cell-Kept n types size 0 h0 s.val).longer) in
    let l2 : n ≤ length h2 = omega (arith, l1, (load_signal-Kept n types size 0 h1 s.sig).longer) in
    let g3 = λ (i : ℕ). load_frames-Kept n types size i h2 s.kont in
    let g2 = λ (i : ℕ). Kept-trans i n h1 h2 h3 (load_signal-Kept n types size i h1 s.sig) (g3 i) in
    let g1 = λ (i : ℕ). Kept-trans i n h0 h1 h3 (load_cell-Kept n types size i h0 s.val) (g2 i) in
    let frames_back : all_of (frame_of h3 (ids n)) (reverse (reverse (load_frames h2 s.kont).1))
        ≡ some s.kont =
      ap (all_of (frame_of h3 (ids n))) (reverse-reverse (load_frames h2 s.kont).1)
      ∙ load_frames-Reads n types size h2 s.kont l2 k.kont h3 (Kept-refl 0 n h3) in
    rw
      (
        load_table-Reads s k h3 (g1 n),
        load_cell-Reads n types size h0 s.val ends k.val h3 (g2 0),
        load_signal-Reads n types size h1 s.sig l1 k.sig h3 (g3 0),
        frames_back,
        env_read n types size s.env k.env.1,
      )
      refl
