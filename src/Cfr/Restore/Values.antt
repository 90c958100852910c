-- ===== src/Cfr/Restore/Values.antt =====
-- A single value, through `EncodeValue` and `DecodeValue` of internal/cfr.
use regel.Base.{ℕ, ◌≡◌, some, List}
use regel.Cek.Value.{Value, Heap}
use regel.Cfr.Wire.{Bytes}
use regel.Cfr.Form.{Cell, Shell}
use regel.Cfr.Decode.{decode_value}
use regel.Cfr.Image.{table_of, cell_of, encode_value}

-- What a value looks like through a table of addresses, and the way of that to the bytes and back.
pub record SentValue (h : Heap) (v : Value) : Type 0 where
  pub bytes : Bytes
  pub table : List ℕ
  pub shells : List Shell
  pub cell : Cell
  pub encoded : encode_value h v ≡ some bytes
  pub shells_of : table_of h table ≡ some shells
  pub cell_seen : cell_of h table v ≡ some cell
  pub decoded : decode_value bytes ≡ some (shells, cell)
