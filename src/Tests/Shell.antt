-- ===== src/Tests/Shell.antt =====
-- Inputs of the window's address field, on the machine of Tests/Adb.
use phone_cam.Prelude.{◌≡◌, refl, ap, true, none, some, ◌++◌, ok}
use phone_cam.Text.{trim, trim_start, trim_end, keep_unless_last, is_whitespace}
use phone_cam.Text.Split.{codes, strip_prefix}
use phone_cam.Pipeline.Manager.{usb, wifi, start_worker, start_with_mode, stop, after_reverse}
use phone_cam.Shell.{after_prefix, target_of, connection_target_from_input, connect}
use phone_cam.Shell.Laws.{connection_target_from_input-slashes, IsConnected, connect-IsConnected}
use phone_cam.Tests.Adb.{machine, environment, reverses}
use phone_cam.Tests.Manager.{idle}

connection_target_from_input-slashes_example :
    connection_target_from_input (codes "usb://" ++ codes "A1 ")
    ≡ usb (some (codes "//" ++ trim_end (codes "A1 ")))
connection_target_from_input-slashes_example = connection_target_from_input-slashes (codes "A1 ")

targets :
    (connection_target_from_input (codes " usb:A1 ") ≡ usb (some (codes "A1")))
    × (connection_target_from_input (codes "USB") ≡ usb none)
    × (connection_target_from_input (codes "192.168.0.4") ≡ wifi)
unfolding connection_target_from_input target_of after_prefix strip_prefix trim trim_start trim_end
    keep_unless_last is_whitespace
targets = (refl, refl, refl)

connects : (connect machine environment true (codes "usb") 0 idle).result ≡ ok tt
unfolding connect stop start_with_mode start_worker connection_target_from_input target_of
    after_prefix strip_prefix trim trim_start trim_end keep_unless_last is_whitespace
connects = ap (λ x. (after_reverse machine environment 7878 idle x).result) reverses

connect-IsConnected_example :
    IsConnected machine environment
      (connection_target_from_input (codes "usb"))
      7878
      (connect machine environment true (codes "usb") 0 idle)
connect-IsConnected_example =
    connect-IsConnected machine environment true (codes "usb") 0 idle connects
