-- ===== src/Tests/Manager.antt =====
-- The manager on the machine of Tests/Adb.
use phone_cam.Prelude.{◌≡◌, ◌≢◌, refl, ap, true, false, none, some, [], ◌∷◌, ok}
use phone_cam.Text.Split.{codes}
use phone_cam.Adb.Manager.{kill_reverse}
use phone_cam.Pipeline.Session.{peer_disconnected}
use phone_cam.Pipeline.Manager.{
  disconnected_status, listening_status, accepts, Surroundings, publishes, run_pipeline, running,
  finished, wifi, usb, UsbForwardSession, Runtime, after_reverse, start_worker, start_with_mode,
  stop, apply_steps,
}
use phone_cam.Pipeline.Manager.Laws.{
  IsEnded, run_pipeline-IsEnded, IsForwarded, start_with_mode-IsForwarded,
}
use phone_cam.Pipeline.Manager.Tunnels.{forgotten_tunnel}
use phone_cam.Tests.Adb.{machine, environment, fresh, ready, reverses}
use phone_cam.Tests.Pipeline.{driver}

abbrev pub idle : Runtime machine environment
idle = record {
  status = disconnected_status;
  has_shutdown = false;
  worker = none;
  active_connection_sender = none;
  active_command_sender = none;
  usb_forward = none;
  adb = fresh;
}

abbrev surroundings : Surroundings
surroundings = record {
  opens = true;
  v4l2 = driver;
  advertises = true;
  binds = true;
  accepted = accepts 1 2;
  streamed = (listening_status ∷ [], ok peer_disconnected);
}

run_pipeline-IsEnded_example :
    IsEnded machine environment (apply_steps machine environment (run_pipeline surroundings) idle)
run_pipeline-IsEnded_example = run_pipeline-IsEnded machine environment surroundings idle

starts : (start_with_mode machine environment 0 (usb none) idle).result ≡ ok tt
unfolding start_with_mode start_worker
starts = ap (λ x. (after_reverse machine environment 7878 idle x).result) reverses

not_running : idle.worker ≢ some running
not_running h = cc

start_with_mode-IsForwarded_example :
    IsForwarded machine environment 7878 none
      (start_with_mode machine environment 0 (usb none) idle)
start_with_mode-IsForwarded_example =
    start_with_mode-IsForwarded machine environment 0 none idle not_running starts

abbrev tunnel : UsbForwardSession
tunnel = record { serial = codes "A1"; local_port = 7878 }

abbrev pub ended : Runtime machine environment
ended = record idle { worker = some finished; usb_forward = some tunnel; adb = ready }

forgotten_tunnel_example :
    ((stop machine environment true ended).runtime.adb
      ≡ (kill_reverse machine environment 7878 (some (codes "A1")) ready).0)
    × ((stop machine environment true (
          apply_steps machine environment
            (publishes listening_status ∷ [])
            (start_with_mode machine environment 7878 wifi ended).runtime)).runtime.adb
        ≡ ready)
forgotten_tunnel_example =
    forgotten_tunnel machine environment 7878 (publishes listening_status ∷ []) true ended tunnel
      refl refl
