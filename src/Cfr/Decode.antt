-- ===== src/Cfr/Decode.antt =====
-- The readers of internal/cfr/decode.go above the primitives. The result is the form of the state, with
-- each pointer checked against the kinds of the table; `none` is a decode error. `size` is the length of
-- the whole blob, which bounds every count.
use regel.Base.{
  ℕ, zero, suc, ◌+◌, ◌*◌, Bool, false, ◌||◌, Option, none, some, List, [], ◌∷◌, length, get_elem?,
  ltb, leb, ◌&&◌, ◌==◌, if◌then◌else◌, ◌>>=◌, Str,
}
use regel.Base.Int.{signed}
use regel.Cfr.Wire.{Bytes, Read, read_uvarint, read_svarint, read_bytes, read_path, read_f64}
use regel.Cfr.Form.{
  Cell, Shell, env_shell, array_shell, record_shell, SignalForm, FrameForm, StateForm,
}
use regel.Cfr.Kinds.{mode_of, sig_kind_of, park_reason_of, tier_of, frame_kind_of}

-- `byteE`
unfoldable pub read_byte : Bytes → Read ℕ
read_byte [] = none
read_byte (b ∷ bs) = some (b, bs)

module _ {A : Type 0} (r : Bytes → Read A) where
  abbrev pub read_n : ℕ → Bytes → Read (List A)
  read_n zero bs = some ([], bs)
  read_n (suc n) bs = do (x, rest) ← r bs; (xs, rest') ← read_n n rest; some (x ∷ xs, rest')

  unfoldable pub read_list : ℕ → Bytes → Read (List A)
  read_list size bs = do (n, rest) ← read_uvarint bs; if ltb size n then none else read_n n rest

-- A byte that stands for a kind.
unfoldable pub read_kind : {A : Type 0} → (ℕ → Option A) → Bytes → Read A
unfolding read_byte
read_kind of bs = do (b, rest) ← read_byte bs; k ← of b; some (k, rest)

-- `new(big.Int).SetBytes(mag)`
unfoldable pub set_bytes : ℕ → Bytes → ℕ
set_bytes acc [] = acc
set_bytes acc (b ∷ bs) = set_bytes (256 * acc + b) bs

abbrev pub tag_at : List ℕ → ℕ → ℕ
tag_at [] i = 0
tag_at (t ∷ ts) zero = t
tag_at (t ∷ ts) (suc i) = tag_at ts i

-- `objRefE` and the type assertion on what it gives; no object has the kind 0.
unfoldable pub ref_is : ℕ → List ℕ → ℕ → Bool
ref_is tag types zero = false
ref_is tag types (suc i) = tag_at types i == tag

unfoldable pub env_ref_ok : List ℕ → ℕ → Bool
unfolding ref_is
env_ref_ok types r = r == 0 || ref_is 1 types r

unfoldable pub read_ref : (ℕ → Bool) → Bytes → Read ℕ
unfolding read_uvarint
read_ref ok bs = do (r, rest) ← read_uvarint bs; if ok r then some (r, rest) else none

-- `envRefE`
unfoldable pub read_env : List ℕ → Bytes → Read ℕ
unfolding read_ref env_ref_ok
read_env types = read_ref (env_ref_ok types)

unfoldable pub read_bool : Bytes → Read Cell
unfolding read_byte
read_bool bs = do (b, rest) ← read_byte bs; some (Cell.bool b, rest)

unfoldable pub read_number : Bytes → Read Cell
unfolding read_f64
read_number bs = do (w, rest) ← read_f64 bs; some (Cell.f64 w, rest)

unfoldable pub read_bigint : Bytes → Read Cell
unfolding read_byte read_bytes set_bytes
read_bigint bs = do
  (sign, rest) ← read_byte bs
  (mag, rest') ← read_bytes rest
  some (Cell.bigint (signed (sign == 1) (set_bytes 0 mag)), rest')

unfoldable pub read_text : (Str → Cell) → Bytes → Read Cell
unfolding read_bytes
read_text c bs = do (s, rest) ← read_bytes bs; some (c s, rest)

unfoldable pub read_pointer : (ℕ → Cell) → (ℕ → Bool) → Bytes → Read Cell
unfolding read_ref
read_pointer c ok bs = do (r, rest) ← read_ref ok bs; some (c r, rest)

unfoldable pub read_closure : List ℕ → Bytes → Read Cell
unfolding read_bytes read_path read_env
read_closure types bs = do
  (d, r1) ← read_bytes bs
  (p, r2) ← read_path r1
  (e, r3) ← read_env types r2
  some (Cell.closure d p e, r3)

unfoldable pub read_opaque : Bytes → Read Cell
unfolding read_bytes
read_opaque bs = do (c, r1) ← read_bytes bs; (d, r2) ← read_bytes r1; some (Cell.opaque c d, r2)

-- The cases of `valueE`, by tag.
unfoldable pub payload_readers : List ℕ → List (Bytes → Read Cell)
unfolding read_bool read_number read_bigint read_text read_pointer read_closure read_opaque ref_is
payload_readers types =
    (λ bs. some (Cell.undefined, bs))
    ∷ (λ bs. some (Cell.null, bs))
    ∷ read_bool
    ∷ read_number
    ∷ read_bigint
    ∷ read_text Cell.str
    ∷ read_pointer Cell.array (ref_is 2 types)
    ∷ read_pointer Cell.rec (ref_is 3 types)
    ∷ read_closure types
    ∷ read_text Cell.cap_token
    ∷ read_opaque
    ∷ []

-- `valueE`
unfoldable pub read_cell : List ℕ → Bytes → Read Cell
unfolding read_byte payload_readers
read_cell types bs = do
  (t, rest) ← read_byte bs
  payload ← get_elem? (payload_readers types) t
  payload rest

unfoldable pub read_entry : List ℕ → Bytes → Read (Str × Cell)
unfolding read_bytes read_cell
read_entry types bs = do
  (k, rest) ← read_bytes bs
  (c, rest') ← read_cell types rest
  some ((k, c), rest')

-- `fillObject`, by the kind of the shell.
unfoldable pub read_env_shell : ℕ → List ℕ → Bytes → Read Shell
unfolding read_env read_list read_cell
read_env_shell size types bs = do
  (p, rest) ← read_env types bs
  (cs, rest') ← read_list (read_cell types) size rest
  some (env_shell p cs, rest')

unfoldable pub read_array_shell : ℕ → List ℕ → Bytes → Read Shell
unfolding read_list read_cell
read_array_shell size types bs = do
  (cs, rest) ← read_list (read_cell types) size bs
  some (array_shell cs, rest)

unfoldable pub read_record_shell : ℕ → List ℕ → Bytes → Read Shell
unfolding read_list read_entry
read_record_shell size types bs = do
  (es, rest) ← read_list (read_entry types) size bs
  some (record_shell es, rest)

unfoldable pub read_shell : ℕ → List ℕ → ℕ → Bytes → Read Shell
unfolding read_env_shell read_array_shell read_record_shell
read_shell size types tag bs =
    if tag == 1
    then read_env_shell size types bs
    else if tag == 2
    then read_array_shell size types bs
    else read_record_shell size types bs

unfoldable pub read_tag : Bytes → Read ℕ
unfolding read_byte
read_tag bs = do (t, rest) ← read_byte bs; if leb 1 t && leb t 3 then some (t, rest) else none

unfoldable pub read_shells : ℕ → List ℕ → List ℕ → Bytes → Read (List Shell)
unfolding read_shell
read_shells size types [] bs = some ([], bs)
read_shells size types (t ∷ ts) bs = do
  (s, rest) ← read_shell size types t bs
  (ss, rest') ← read_shells size types ts rest
  some (s ∷ ss, rest')

-- `loadHeap`: the kinds, and the objects.
unfoldable pub read_table : ℕ → Bytes → Read (List ℕ × List Shell)
unfolding read_list read_tag read_shells
read_table size bs = do
  (types, rest) ← read_list read_tag size bs
  (shells, rest') ← read_shells size types types rest
  some ((types, shells), rest')

-- A signal, the kind first.
unfoldable pub read_signal : List ℕ → Bytes → Read SignalForm
unfolding read_kind sig_kind_of read_cell
read_signal types bs = do
  (k, rest) ← read_kind sig_kind_of bs
  (c, rest') ← read_cell types rest
  some (record { kind = k; val = c }, rest')

-- A pending signal follows only the byte 1.
unfoldable pub read_pend : List ℕ → Bytes → Read (Option SignalForm)
unfolding read_byte read_signal
read_pend types bs = do
  (b, rest) ← read_byte bs
  if b == 1
      then (do (s, rest') ← read_signal types rest; some (some s, rest'))
      else some (none, rest)

-- `frameE`
unfoldable pub read_frame : ℕ → List ℕ → Bytes → Read FrameForm
unfolding read_kind frame_kind_of read_path read_svarint read_list read_cell read_env read_bytes
    read_pend
read_frame size types bs = do
  (k, r1) ← read_kind frame_kind_of bs
  (p, r2) ← read_path r1
  (i, r3) ← read_svarint r2
  (a, r4) ← read_svarint r3
  (vs, r5) ← read_list (read_cell types) size r4
  (e, r6) ← read_env types r5
  (oe, r7) ← read_env types r6
  (rd, r8) ← read_bytes r7
  (rp, r9) ← read_path r8
  (re, r10) ← read_env types r9
  (o, r11) ← read_cell types r10
  (key, r12) ← read_bytes r11
  (iv, r13) ← read_cell types r12
  (pend, r14) ← read_pend types r13
  some (
    record {
      kind = k;
      path = p;
      idx = i;
      aux = a;
      vals = vs;
      env = e;
      outer_env = oe;
      ret_def = rd;
      ret_path = rp;
      ret_env = re;
      obj = o;
      key = key;
      idx_val = iv;
      pend = pend;
    },
    r14,
  )

unfoldable pub read_version : Bytes → Read (Unit {0})
unfolding read_byte
read_version bs = do (v, rest) ← read_byte bs; if v == 1 then some (tt, rest) else none

-- What `func Decode` reads, before the test on what is left.
unfoldable pub read_state : ℕ → Bytes → Read StateForm
unfolding read_version read_table read_bytes read_path read_kind mode_of park_reason_of tier_of
    read_svarint read_cell read_signal read_env read_list read_frame
read_state size bs = do
  (_, r1) ← read_version bs
  ((types, table), r2) ← read_table size r1
  (d, r3) ← read_bytes r2
  (p, r4) ← read_path r3
  (m, r5) ← read_kind mode_of r4
  (pk, r6) ← read_kind park_reason_of r5
  (t, r7) ← read_kind tier_of r6
  (fs, r8) ← read_svarint r7
  (fa, r9) ← read_svarint r8
  (v, r10) ← read_cell types r9
  (s, r11) ← read_signal types r10
  (e, r12) ← read_env types r11
  (k, r13) ← read_list (read_frame size types) size r12
  some (
    record {
      table = table;
      def_hash = d;
      path = p;
      mode = m;
      park_kind = pk;
      tier = t;
      fuel_steps = fs;
      fuel_alloc = fa;
      val = v;
      sig = s;
      env = e;
      kont = k;
    },
    r13,
  )

-- Trailing bytes are an error.
abbrev pub all_read {ℓ} : {A : Type ℓ} → Option (A × Bytes) → Option A
all_read none = none
all_read (some (a, [])) = some a
all_read (some (a, b ∷ bs)) = none

-- `func Decode`
unfoldable pub decode : Bytes → Option StateForm
unfolding read_state
decode bs = all_read (read_state (length bs) bs)

-- `func DecodeValue`
unfoldable pub read_value : ℕ → Bytes → Read (List Shell × Cell)
unfolding read_version read_table read_cell
read_value size bs = do
  (_, r1) ← read_version bs
  ((types, table), r2) ← read_table size r1
  (c, r3) ← read_cell types r2
  some ((table, c), r3)

unfoldable pub decode_value : Bytes → Option (List Shell × Cell)
unfolding read_value
decode_value bs = all_read (read_value (length bs) bs)
