-- ===== src/Examples/Sigkill.antt =====
-- The backend of example/sigkill/main.go. Its state is `data`.
use ublk_go.Prelude.{ℕ, ◌*◌, List, Option, some, length}
use ublk_go.Prelude.Int.{ℤ}
use ublk_go.Storage.{Reply, ReadReply}
use ublk_go.Examples.{PartialBackend, ◌>>=◌, copy_out, copy_in, transferred}

abbrev pub dev_size : ℕ
dev_size = 8 * 1024 * 1024

unfoldable pub read_at : ℕ → ℤ → List ℕ → Option (ReadReply (List ℕ))
read_at n off bytes = do
  p ← copy_out bytes off n
  some (record { reply = transferred n bytes; filled = p })

unfoldable pub write_at : List ℕ → ℤ → List ℕ → Option (Reply (List ℕ))
write_at p off bytes = do bytes' ← copy_in bytes p off; some (transferred (length p) bytes')

abbrev pub backend : PartialBackend (List ℕ)
backend = record { read_at = read_at; write_at = write_at }
