-- ===== src/Tests/Announced.antt =====
-- The announcement of example/sigkill/main.go at concrete texts.
use ublk_go.Prelude.{ℕ, ◌<◌, ◌^◌, ◌≡◌, ◌↔◌, ◌++◌, refl, true, List, Option, some, [], ◌∷◌, arith}
use ublk_go.Prelude.Text.{codes}
use ublk_go.System.{char_dev, block_dev}
use ublk_go.System.Paths.{text_of}
use ublk_go.Device.{Device}
use ublk_go.Examples.Announce.{
  announcement, announced, unannounced, read_ready, printed, char_path, IsQuiet, announced_device,
}
use ublk_go.Tests.Lives.{device}

-- A child that logs a line first, whose device is number 12.
abbrev child_lines : List (List ℕ)
child_lines = codes "starting" ∷ []

child-IsQuiet : IsQuiet child_lines
unfolding ublk_go.Examples.Announce.IsQuiet ublk_go.Prelude.Text.IsPlain ublk_go.Prelude.Text.strip
child-IsQuiet = (ground arith, omega arith, refl, tt)

abbrev child_device : Device
child_device = record device { id = some 12 }

announced_device_example :
    (read_ready true (printed child_lines ++ (announcement child_device ++ []))
      ≡ announced (text_of (block_dev 12)))
    × (char_path (text_of (block_dev 12)) ≡ text_of (char_dev 12))
    × (read_ready true (printed child_lines) ≡ unannounced)
    × ((text_of (block_dev 3) ≡ text_of (block_dev 12)) ↔ (◌≡◌ {A = ℕ} 3 12))
announced_device_example =
    announced_device child_device 3 12 child_lines [] refl (omega arith) child-IsQuiet

-- The text itself, and lines with carriage returns.
ready_text :
    read_ready true (codes "starting\r\nCHILD_READY /dev/ublkb12\r\n")
    ≡ announced (codes "/dev/ublkb12")
unfolding read_ready ublk_go.Examples.Announce.first_ready ublk_go.Prelude.Text.lines
    ublk_go.Examples.Announce.or_later ublk_go.Prelude.Text.strip ublk_go.Prelude.Text.drop_cr
ready_text = refl
