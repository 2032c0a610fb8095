-- ===== src/Rpc/Gzip.antt =====
-- rpc/compress/gzip/compressor.go, over the library's writer and reader.
use emicro.Common.{Option, none, some}
use emicro.Common.Maps.{Bytes}
use emicro.Rpc.Codec.{Result, returned, failed, Compressor}

-- How io.ReadAll ends: with no error, with io.EOF, with io.ErrUnexpectedEOF, or with another error.
pub data ReadEnd : Type 0 where
  whole : ReadEnd
  eof : ReadEnd
  unexpected_eof : ReadEnd
  read_error : Bytes → ReadEnd

-- gzip.Writer on a buffer, in the state `W`, with the errors of its calls; and gzip.Reader, `R`.
pub record Gzip (W R : Type 0) : Type 0 where
  pub new_writer : W
  pub write : Bytes → W → Option Bytes × W
  pub flush : W → Option Bytes × W
  pub close : W → Option Bytes × W
  pub buffer : W → Bytes
  pub new_reader : Bytes → Result R
  pub read_all : R → Bytes × ReadEnd

module _ {W R : Type 0} (gzip : Gzip W R) where
  -- The next call, where the one before has no error.
  abbrev pub on_written : Option Bytes × W → (W → Result Bytes) → Result Bytes
  on_written (some e, w) next = failed e
  on_written (none, w) next = next w

  abbrev pub gzip_compress : Bytes → Result Bytes
  gzip_compress bs = on_written (gzip.write bs gzip.new_writer) λ written.
      on_written (gzip.flush written)
        λ flushed. on_written (gzip.close flushed) λ closed. returned (gzip.buffer closed)

  abbrev pub gzip_un_compress : Bytes → Result Bytes
  gzip_un_compress bs = elim (gzip.new_reader bs) [
    | failed e ↦ failed e
    | returned r ↦ elim ((gzip.read_all r).1) [
      | whole ↦ returned (gzip.read_all r).0
      | eof ↦ returned (gzip.read_all r).0
      | unexpected_eof ↦ returned (gzip.read_all r).0
      | read_error e ↦ failed e
    ]
  ]

  abbrev pub gzip_compressor : Compressor
  gzip_compressor = record { code = 1; compress = gzip_compress; un_compress = gzip_un_compress }
